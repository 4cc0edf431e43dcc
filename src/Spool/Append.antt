-- ===== src/Spool/Append.antt =====
-- `NextSeq`, `Append`, `Peek` and `Ack` on the abstract queue, whichever calls of the database fail.
use mathlib.Core.Path.{subst}
use honeynet.Base.{
  ℕ, zero, suc, ◌+◌, ◌%◌, ◌^◌, ◌≤◌, ◌<◌, ◌≡◌, refl, sym, ap, ◌∙◌, ◌⊎◌, inl, inr, Bool-cases,
  Option-cases, some, [], ◌∷◌, ◌++◌, map, arith, ltb, ◌==◌, if◌then◌else◌, ◌>>=◌, bind-some, length,
  drop, All-drop, Bytes,
}
use honeynet.Spool.{
  Bolt, put_uint64, uint_from, Spool, current, next_seq, Outcome, evict, evict_fuel, finish, kept,
  store, append,
}
use honeynet.Spool.Keys.{length-put_uint, uint_from-put_uint}
use honeynet.Spool.Queue.{
  insert, remove, IsBolt, Queue, entry, AllUpTo, Holds, insert-last, remove-first, Ascends-snoc,
}

module _ (bolt : Bolt) (laws : IsBolt bolt) where
  pub same_counter :
      (db db' : bolt.Db)
      → bolt.seq_value db' ≡ bolt.seq_value db
      → current bolt db' ≡ current bolt db
  unfolding current
  same_counter db db' v = ap (λ s. if length s == 8 then uint_from 0 s else 0) v

  AllUpTo-suc : (c : ℕ) (q : Queue) → AllUpTo c q → AllUpTo (c + 1) q
  AllUpTo-suc c [] h = tt
  AllUpTo-suc c (r ∷ q) h = (omega arith, AllUpTo-suc c q h.1)

  pub next_seq-Holds :
      (db : bolt.Db) (c : ℕ) (q : Queue) {seq : ℕ} {db' : bolt.Db}
      → Holds bolt db c q
      → c + 1 < 2 ^ 64
      → next_seq bolt db ≡ some (seq, db')
      → (seq ≡ c + 1) × Holds bolt db' (c + 1) q
  unfolding next_seq current
  next_seq-Holds db c q {seq} {db'} h room e =
      let (counted, e1, f1) = bind-some _ _ e in
      let (stored, e2, f2) = bind-some _ _ f1 in
      let next : (current bolt db + 1) % 2 ^ 64 ≡ c + 1 = rw h.counter (omega arith) in
      let value : bolt.seq_value stored ≡ put_uint64 (c + 1) =
        laws.commit_value e2 ∙ laws.put_seq_value e1 ∙ ap put_uint64 next in
      let same : stored ≡ db' = cc in
      let number : (current bolt db + 1) % 2 ^ 64 ≡ seq = cc in
      (
        sym number ∙ next,
        subst (λ d. Holds bolt d (c + 1) q) same
            (record {
              counter =
                  rw value (rw (length-put_uint 8 (c + 1)) (uint_from-put_uint 8 (c + 1) room));
              fits = room;
              records = laws.commit_entries e2 ∙ laws.put_seq_entries e1 ∙ h.records;
              up_to = AllUpTo-suc c q h.up_to;
              ascends = h.ascends;
            }),
      )

  -- Deleting the first record leaves the rest.
  pub delete-Holds :
      (db db' : bolt.Db) (c n : ℕ) (blob : Bytes) (q : Queue)
      → Holds bolt db c ((n, blob) ∷ q)
      → bolt.delete (put_uint64 n) db ≡ some db'
      → Holds bolt db' c q
  unfolding current
  delete-Holds db db' c n blob q h e = record {
    counter = rw (laws.delete_value e) h.counter;
    fits = h.fits;
    records =
        laws.delete_entries e
        ∙ ap (remove (put_uint64 n)) h.records
        ∙ remove-first (put_uint64 n) blob (map entry q);
    up_to = h.up_to.1;
    ascends = h.ascends.1;
  }

  -- What an eviction from `q` may come to: records are dropped from the head, and all are counted.
  abbrev IsEvicted : ℕ → Queue → ℕ → ℕ × Outcome bolt → Type 0
  IsEvicted c q count (n, Outcome.done db) =
      (k : ℕ) × (n ≡ count + k) × (k ≤ length q) × Holds bolt db c (drop k q)
  IsEvicted c q count (n, Outcome.failed) = Unit
  IsEvicted c q count (n, Outcome.no_fuel) = ⊥

  one_more :
      (c : ℕ) (r : ℕ × Bytes) (q : Queue) (count : ℕ) (e : ℕ × Outcome bolt)
      → IsEvicted c q (count + 1) e
      → IsEvicted c (r ∷ q) count e
  one_more c r q count (n, Outcome.done db) (k, f, le, h) = (suc k, omega arith, omega arith, h)
  one_more c r q count (n, Outcome.failed) v = tt
  one_more c r q count (n, Outcome.no_fuel) v = v

  evict-IsEvicted :
      (fuel max_bytes room count : ℕ) (db : bolt.Db) (c : ℕ) (q : Queue)
      → Holds bolt db c q
      → length q < fuel
      → IsEvicted c q count (evict bolt fuel max_bytes room count db)
  unfolding evict
  evict-IsEvicted zero max_bytes room count db c q h enough = absurd (omega arith)
  evict-IsEvicted (suc fuel) max_bytes room count db c [] h enough =
      elim (Bool-cases (ltb max_bytes (bolt.size db + room))) [
        | inl over ↦ rw over (rw (h.records, evict) (0, omega arith, omega arith, h))
        | inr under ↦ rw under (0, omega arith, omega arith, h)
      ]
  evict-IsEvicted (suc fuel) max_bytes room count db c ((n, blob) ∷ q) h enough =
      elim (Bool-cases (ltb max_bytes (bolt.size db + room))) [
        | inr under ↦ rw under (0, omega arith, omega arith, h)
        | inl over ↦ elim (Option-cases (bolt.delete (put_uint64 n) db)) [
          | inl fails ↦ rw over (rw (h.records, evict) (rw (fails, evict) tt))
          | inr (rest, e) ↦
              let step : evict bolt (suc fuel) max_bytes room count db
                  ≡ evict bolt fuel max_bytes room (count + 1) rest =
                rw over (rw (h.records, evict) (rw (e, evict) refl)) in
              subst (IsEvicted c ((n, blob) ∷ q) count) (sym step) (
                one_more c (n, blob) q count (evict bolt fuel max_bytes room (count + 1) rest)
                  (evict-IsEvicted fuel max_bytes room (count + 1) rest c q
                    (delete-Holds db rest c n blob q h e) (omega arith)))
        ]
      ]

  -- What `Append` may come to, from a database that holds `q` and has given out the number `c`.
  abbrev pub IsAppended : ℕ → Queue → ℕ → bolt.Envelope → Outcome bolt × Spool bolt → Type 0
  IsAppended c q dropped env (Outcome.done _, s) =
      (k : ℕ) × (blob : Bytes) × (bolt.marshal (c + 1) env ≡ some blob)
      × (s.dropped ≡ dropped + k)
      × (k ≤ length q)
      × Holds bolt s.db (c + 1) (drop k q ++ (c + 1, blob) ∷ [])
  IsAppended c q dropped env (Outcome.failed, s) = Holds bolt s.db c q ⊎ Holds bolt s.db (c + 1) q
  IsAppended c q dropped env (Outcome.no_fuel, s) = ⊥

  put-Holds :
      (db db' : bolt.Db) (c : ℕ) (blob : Bytes) (q : Queue)
      → Holds bolt db (c + 1) q
      → AllUpTo c q
      → (bolt.put (put_uint64 (c + 1)) blob db >>= bolt.commit) ≡ some db'
      → Holds bolt db' (c + 1) (q ++ (c + 1, blob) ∷ [])
  unfolding current
  put-Holds db db' c blob q h up e =
      let (stored, put_ok, commit_ok) = bind-some _ _ e in
      let (ascends, bound) = Ascends-snoc c blob q up h.ascends in
      record {
        counter =
            same_counter stored db' (laws.commit_value commit_ok)
            ∙ same_counter db stored (laws.put_value put_ok)
            ∙ h.counter;
        fits = h.fits;
        records =
            laws.commit_entries commit_ok
            ∙ laws.put_entries put_ok
            ∙ ap (insert (put_uint64 (c + 1)) blob) h.records
            ∙ insert-last (c + 1) blob c q h.fits (omega arith) up;
        up_to = bound;
        ascends = ascends;
      }

  finish-IsAppended :
      (env : bolt.Envelope) (blob : Bytes) (s : Spool bolt) (c : ℕ) (q : Queue)
      → bolt.marshal (c + 1) env ≡ some blob
      → Holds bolt s.db (c + 1) q
      → AllUpTo c q
      → (e : ℕ × Outcome bolt) → IsEvicted (c + 1) q 0 e
      → IsAppended c q s.dropped env (
        finish bolt (put_uint64 (c + 1)) blob e.1,
        record s {
          db = kept bolt s.db (finish bolt (put_uint64 (c + 1)) blob e.1);
          dropped = s.dropped + e.0;
        },
      )
  unfolding finish kept
  finish-IsAppended env blob s c q m h up (n, Outcome.done db) (k, f, le, held) =
      elim (Option-cases (bolt.put (put_uint64 (c + 1)) blob db >>= bolt.commit)) [
        | inl fails ↦ rw (fails, finish) (inr h)
        | inr (db', e) ↦
            rw (e, finish)
              (
                k,
                blob,
                m,
                omega arith,
                le,
                put-Holds db db' c blob (drop k q) held (All-drop (λ r. r.0 ≤ c) k q up) e,
              )
      ]
  finish-IsAppended env blob s c q m h up (n, Outcome.failed) v = inr h
  finish-IsAppended env blob s c q m h up (n, Outcome.no_fuel) v = absurd v

  pub length-map : (q : Queue) → length (map entry q) ≡ length q
  length-map [] = refl
  length-map (r ∷ q) = ap suc (length-map q)

  -- On a database that holds a queue whose numbers ascend, and whose next number does not wrap at
  -- 2^64, `Append` ends: either it fails and every record is still there, or the oldest records are dropped, as many as the counter grows by, and
  -- the new record is the last, with the next number.
  pub append-IsAppended :
      (env : bolt.Envelope) (s : Spool bolt) (c : ℕ) (q : Queue)
      → Holds bolt s.db c q
      → c + 1 < 2 ^ 64
      → IsAppended c q s.dropped env (append bolt env s)
  unfolding append store
  append-IsAppended env s c q h room = elim (Option-cases (next_seq bolt s.db)) [
    | inl fails ↦ rw (fails, append) (inl h)
    | inr ((seq, db), e) ↦
        let (same, counted) = next_seq-Holds s.db c q h room e in
        let next : next_seq bolt s.db ≡ some (c + 1, db) = e ∙ ap (λ n. some (n, db)) same in
        rw (next, append)
          (elim (Option-cases (bolt.marshal (c + 1) env)) [
            | inl fails ↦ rw (fails, append) (inr counted)
            | inr (blob, m) ↦
                rw (m, append)
                  (finish-IsAppended env blob (record s { db = db }) c q m counted h.up_to
                    (evict bolt (evict_fuel bolt db) s.max_bytes (length blob) 0 db)
                    (evict-IsEvicted (evict_fuel bolt db) s.max_bytes (length blob) 0 db (c + 1) q
                      counted (omega (arith, ap length counted.records, length-map q))))
          ])
  ]
