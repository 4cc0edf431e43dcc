-- ===== src/Spool/Delivery.antt =====
-- `Peek` and `Ack`: what is acknowledged is what was peeked, and eviction when the bound is passed.
use mathlib.Core.Path.{subst}
use honeynet.Base.{
  ℕ, zero, suc, ◌≡◌, refl, ap, ◌∙◌, Bool, true, false, inl, inr, Option-cases, some, List, [], ◌∷◌,
  map, ◌>>=◌, bind-some, take, drop, Bytes,
}
use honeynet.Spool.{Bolt, Spool, peek_loop, peek, delete_all, ack}
use honeynet.Spool.Queue.{IsBolt, Queue, entry, Holds}
use honeynet.Spool.Append.{same_counter, delete-Holds}

module _ (bolt : Bolt) (laws : IsBolt bolt) where
  peek_loop-map : (n : ℕ) (q : Queue) → peek_loop bolt n (map entry q) ≡ map entry (take n q)
  unfolding peek_loop
  peek_loop-map zero q = refl
  peek_loop-map (suc n) [] = refl
  peek_loop-map (suc n) (r ∷ q) = ap (◌∷◌ (entry r)) (peek_loop-map n q)

  pub peek-Holds :
      (n : ℕ) (s : Spool bolt) (c : ℕ) (q : Queue)
      → Holds bolt s.db c q
      → peek bolt n s ≡ map entry (take n q)
  unfolding peek
  peek-Holds n s c q h = ap (peek_loop bolt n) h.records ∙ peek_loop-map n q

  abbrev pub keys_of : List (Bytes × Bytes) → List Bytes
  keys_of es = map (λ e. e.0) es

  delete_all-Holds :
      (n : ℕ) (db db' : bolt.Db) (c : ℕ) (q : Queue)
      → Holds bolt db c q
      → delete_all bolt (keys_of (map entry (take n q))) db ≡ some db'
      → Holds bolt db' c (drop n q)
  unfolding delete_all
  delete_all-Holds zero db db' c q h e =
      let same : db ≡ db' = cc in subst (λ d. Holds bolt d c q) same h
  delete_all-Holds (suc n) db db' c [] h e =
      let same : db ≡ db' = cc in subst (λ d. Holds bolt d c []) same h
  delete_all-Holds (suc n) db db' c ((m, blob) ∷ q) h e =
      let (rest, e1, e2) = bind-some _ _ e in
      delete_all-Holds n rest db' c q (delete-Holds bolt laws db rest c m blob q h e1) e2

  abbrev pub IsAcked : ℕ → ℕ → Queue → Spool bolt → Bool × Spool bolt → Type 0
  IsAcked c n q s (true, s') = Holds bolt s'.db c (drop n q) × (s'.dropped ≡ s.dropped)
  IsAcked c n q s (false, s') = s' ≡ s

  commit-Holds :
      (db db' : bolt.Db) (c : ℕ) (q : Queue)
      → Holds bolt db c q
      → bolt.commit db ≡ some db'
      → Holds bolt db' c q
  commit-Holds db db' c q h e = record {
    counter = same_counter bolt laws db db' (laws.commit_value e) ∙ h.counter;
    fits = h.fits;
    records = laws.commit_entries e ∙ h.records;
    up_to = h.up_to;
    ascends = h.ascends;
  }

  -- `Peek(n)` gives the n oldest records, or all there are; acknowledging their keys removes exactly
  -- these, or the acknowledgement fails and the spool is as it was.
  pub ack-peek :
      (n : ℕ) (s : Spool bolt) (c : ℕ) (q : Queue)
      → Holds bolt s.db c q
      → (peek bolt n s ≡ map entry (take n q))
        × IsAcked c n q s (ack bolt (keys_of (peek bolt n s)) s)
  unfolding ack
  ack-peek n s c q h =
      let keys = keys_of (map entry (take n q)) in
      (
        peek-Holds n s c q h,
        rw (peek-Holds n s c q h) (elim (Option-cases (delete_all bolt keys s.db >>= bolt.commit)) [
          | inl fails ↦ rw (fails, ack) refl
          | inr (db, e) ↦
              let (rest, deleted, committed) = bind-some _ _ e in
              rw (e, ack)
                (
                  commit-Holds rest db c (drop n q) (delete_all-Holds n s.db rest c q h deleted)
                      committed,
                  refl,
                )
        ]),
      )
