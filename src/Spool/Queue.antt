-- ===== src/Spool/Queue.antt =====
-- The spool as a queue of numbered records, over any database that keeps its promises.
use honeynet.Base.{
  before, ℕ, ◌+◌, ◌^◌, ◌≤◌, ◌<◌, ◌≡◌, refl, ap, false, some, List, [], ◌∷◌, ◌++◌, map, arith, ltb,
  ◌==◌, if◌then◌else◌, All, All-append, Bytes, equal, equal_refl,
}
use honeynet.Spool.{Bolt, put_uint64, current}
use honeynet.Spool.Keys.{equal-put_uint, before-put_uint}

-- A bucket as a cursor gives it, with the keys in their order.
unfoldable pub insert : Bytes → Bytes → List (Bytes × Bytes) → List (Bytes × Bytes)
insert k v [] = (k, v) ∷ []
insert k v ((j, w) ∷ es) =
    let rest = insert k v es in
    if before k j then (k, v) ∷ (j, w) ∷ es else if equal k j then (k, v) ∷ es else (j, w) ∷ rest

unfoldable pub remove : Bytes → List (Bytes × Bytes) → List (Bytes × Bytes)
remove k [] = []
remove k ((j, w) ∷ es) = let rest = remove k es in if equal k j then es else (j, w) ∷ rest

-- What bbolt promises of a call that does not fail.
pub record IsBolt (bolt : Bolt) : Type 0 where
  pub put_seq_value :
      {v : Bytes} {db db' : bolt.Db} → bolt.put_seq v db ≡ some db' → bolt.seq_value db' ≡ v
  pub put_seq_entries :
      {v : Bytes} {db db' : bolt.Db}
      → bolt.put_seq v db ≡ some db'
      → bolt.entries db' ≡ bolt.entries db
  pub put_value :
      {k v : Bytes} {db db' : bolt.Db}
      → bolt.put k v db ≡ some db'
      → bolt.seq_value db' ≡ bolt.seq_value db
  pub put_entries :
      {k v : Bytes} {db db' : bolt.Db}
      → bolt.put k v db ≡ some db'
      → bolt.entries db' ≡ insert k v (bolt.entries db)
  pub delete_value :
      {k : Bytes} {db db' : bolt.Db}
      → bolt.delete k db ≡ some db'
      → bolt.seq_value db' ≡ bolt.seq_value db
  pub delete_entries :
      {k : Bytes} {db db' : bolt.Db}
      → bolt.delete k db ≡ some db'
      → bolt.entries db' ≡ remove k (bolt.entries db)
  pub commit_value :
      {db db' : bolt.Db} → bolt.commit db ≡ some db' → bolt.seq_value db' ≡ bolt.seq_value db
  pub commit_entries :
      {db db' : bolt.Db} → bolt.commit db ≡ some db' → bolt.entries db' ≡ bolt.entries db

-- The abstract queue: records with their numbers, the oldest first.
abbrev pub Queue : Type 0
Queue = List (ℕ × Bytes)

abbrev pub entry : ℕ × Bytes → Bytes × Bytes
entry (seq, blob) = (put_uint64 seq, blob)

abbrev pub AllAbove : ℕ → Queue → Type 0
AllAbove n = All (λ r. n < r.0)

abbrev pub AllUpTo : ℕ → Queue → Type 0
AllUpTo n = All (λ r. r.0 ≤ n)

abbrev pub Ascends : Queue → Type 0
Ascends [] = Unit
Ascends ((seq, _) ∷ q) = AllAbove seq q × Ascends q

-- The database holds the queue `q`, its numbers ascend, and the last one given out is `c`.
pub record Holds (bolt : Bolt) (db : bolt.Db) (c : ℕ) (q : Queue) : Type 0 where
  pub counter : current bolt db ≡ c
  pub fits : c < 2 ^ 64
  pub records : bolt.entries db ≡ map entry q
  pub up_to : AllUpTo c q
  pub ascends : Ascends q

pub insert-last :
    (n : ℕ) (blob : Bytes) (c : ℕ) (q : Queue)
    → n < 2 ^ 64
    → c < n
    → AllUpTo c q
    → insert (put_uint64 n) blob (map entry q) ≡ map entry (q ++ (n, blob) ∷ [])
unfolding insert
insert-last n blob c [] fits up h = refl
insert-last n blob c ((m, b) ∷ q) fits up h = rw (before-put_uint 8 n m fits (omega arith)) (
    rw (equal-put_uint 8 n m fits (omega arith)) (
      rw (later n m (omega arith)) (
        rw (other n m (omega arith))
          (ap (◌∷◌ (entry (m, b))) (insert-last n blob c q fits up h.1)))))
  where
    later : (n m : ℕ) → m < n → ltb n m ≡ false
    later n m h = ground arith

    other : (n m : ℕ) → m < n → (n == m) ≡ false
    other n m h = ground arith

pub remove-first : (k v : Bytes) (es : List (Bytes × Bytes)) → remove k ((k, v) ∷ es) ≡ es
unfolding remove
remove-first k v es = rw (equal_refl k) refl

pub Ascends-snoc :
    (c : ℕ) (blob : Bytes) (q : Queue)
    → AllUpTo c q
    → Ascends q
    → Ascends (q ++ (c + 1, blob) ∷ []) × AllUpTo (c + 1) (q ++ (c + 1, blob) ∷ [])
Ascends-snoc c blob [] up a = ((tt, tt), (omega arith, tt))
Ascends-snoc c blob ((s, b) ∷ q) up a =
    let (rest, bound) = Ascends-snoc c blob q up.1 a.1 in
    (
      (All-append (λ r. s < r.0) q ((c + 1, blob) ∷ []) a.0 (omega arith, tt), rest),
      (omega arith, bound),
    )
