-- ===== src/Spool/Eviction.antt =====
-- The eviction loop in a transaction whose size does not change while records are deleted.
use mathlib.Core.Path.{subst}
use honeynet.Base.{
  ℕ, zero, suc, ◌+◌, ◌≤◌, ◌<◌, ◌≡◌, ◌⊎◌, refl, sym, ap, ◌∙◌, true, false, inl, inr, Bool-cases,
  ltb→lt, ltb→le, Option-cases, some, [], ◌∷◌, arith, ltb, length, Bytes,
}
use honeynet.Spool.{Bolt, put_uint64, Outcome, evict, evict_fuel}
use honeynet.Spool.Queue.{IsBolt, Queue, Holds}
use honeynet.Spool.Append.{delete-Holds, length-map}

module _ (bolt : Bolt) (laws : IsBolt bolt)
    (steady : (k : Bytes) (db db' : bolt.Db)
      → bolt.delete k db ≡ some db'
      → bolt.size db' ≡ bolt.size db) where
  abbrev IsEmptied : Queue → ℕ → ℕ × Outcome bolt → Type 0
  IsEmptied q count (n, Outcome.done db) = (n ≡ count + length q) × (bolt.entries db ≡ [])
  IsEmptied q count (n, Outcome.failed) = n ≤ count + length q
  IsEmptied q count (n, Outcome.no_fuel) = ⊥

  one_more :
      (r : ℕ × Bytes) (q : Queue) (count : ℕ) (e : ℕ × Outcome bolt)
      → IsEmptied q (count + 1) e
      → IsEmptied (r ∷ q) count e
  one_more r q count (n, Outcome.done db) h = (omega arith, h.1)
  one_more r q count (n, Outcome.failed) h = omega arith
  one_more r q count (n, Outcome.no_fuel) h = h

  evict_over :
      (fuel max_bytes room count : ℕ) (db : bolt.Db) (c : ℕ) (q : Queue)
      → Holds bolt db c q
      → length q < fuel
      → ltb max_bytes (bolt.size db + room) ≡ true
      → IsEmptied q count (evict bolt fuel max_bytes room count db)
  unfolding evict
  evict_over zero max_bytes room count db c q h enough over = absurd (omega arith)
  evict_over (suc fuel) max_bytes room count db c [] h enough over =
      rw over (rw (h.records, evict) (omega arith, h.records))
  evict_over (suc fuel) max_bytes room count db c ((n, blob) ∷ q) h enough over =
      elim (Option-cases (bolt.delete (put_uint64 n) db)) [
        | inl fails ↦
            let step : evict bolt (suc fuel) max_bytes room count db ≡ (count, Outcome.failed) =
              rw over (rw (h.records, evict) (rw (fails, evict) refl)) in
            subst (IsEmptied ((n, blob) ∷ q) count) (sym step) (omega arith)
        | inr (rest, e) ↦
            let step : evict bolt (suc fuel) max_bytes room count db
                ≡ evict bolt fuel max_bytes room (count + 1) rest =
              rw over (rw (h.records, evict) (rw (e, evict) refl)) in
            let still : ltb max_bytes (bolt.size rest + room) ≡ true =
              ap (λ k. ltb max_bytes (k + room)) (steady (put_uint64 n) db rest e) ∙ over in
            subst (IsEmptied ((n, blob) ∷ q) count) (sym step) (
              one_more (n, blob) q count (evict bolt fuel max_bytes room (count + 1) rest)
                (evict_over fuel max_bytes room (count + 1) rest c q
                  (delete-Holds bolt laws db rest c n blob q h e) (omega arith) still))
      ]

  evict_under :
      (fuel max_bytes room : ℕ) (db : bolt.Db)
      → 0 < fuel
      → ltb max_bytes (bolt.size db + room) ≡ false
      → evict bolt fuel max_bytes room 0 db ≡ (0, Outcome.done db)
  unfolding evict
  evict_under zero max_bytes room db some_fuel under = absurd (omega arith)
  evict_under (suc fuel) max_bytes room db some_fuel under = rw under refl

  abbrev pub IsAllOrNone : ℕ → ℕ → bolt.Db → Queue → ℕ × Outcome bolt → Type 0
  IsAllOrNone max_bytes room db q e =
      ((max_bytes < bolt.size db + room) × IsEmptied q 0 e)
      ⊎ ((bolt.size db + room ≤ max_bytes) × (e ≡ (0, Outcome.done db)))

  -- Where the size that a transaction sees stays the same while it deletes, eviction ends and is all
  -- or nothing: past the bound every record is dropped (unless a deletion fails), else none is.
  pub evict-IsAllOrNone :
      (max_bytes room : ℕ) (db : bolt.Db) (c : ℕ) (q : Queue)
      → Holds bolt db c q
      → IsAllOrNone max_bytes room db q (evict bolt (evict_fuel bolt db) max_bytes room 0 db)
  evict-IsAllOrNone max_bytes room db c q h =
      elim (Bool-cases (ltb max_bytes (bolt.size db + room))) [
        | inl over ↦ inl (
          ltb→lt _ _ over,
          evict_over (evict_fuel bolt db) max_bytes room 0 db c q h
              (omega (arith, ap length h.records, length-map bolt laws q)) over,
        )
        | inr under ↦ inr (
          ltb→le _ _ under,
          evict_under (evict_fuel bolt db) max_bytes room db (omega arith) under,
        )
      ]
