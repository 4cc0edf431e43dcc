-- ===== src/Base/Split.antt =====
-- `strings.Split` and `strings.Join` at a separator of one byte.
use Prim.Native.Nat.{ℕ}
use mathlib.Core.Path.{◌≡◌, refl, ap, ◌∙◌}
use mathlib.Core.Logic.{◌≢◌, inl, inr}
use mathlib.Core.Bool.{Bool, true, false}
use mathlib.Core.List.{List, [], ◌∷◌, ◌++◌}
use native.Mathlib.Omega.{arith}
use honeynet.Base.Tests.{◌==◌, if◌then◌else◌, Bool-cases}
use honeynet.Base.Lists.{All}
use honeynet.Base.Text.{Bytes}

abbrev pub is_empty {ℓ} : {A : Type ℓ} → List A → Bool
is_empty [] = true
is_empty (_ ∷ _) = false

-- A byte in front of the first part.
unfoldable pub cons_head : ℕ → List Bytes → List Bytes
cons_head c [] = (c ∷ []) ∷ []
cons_head c (part ∷ parts) = (c ∷ part) ∷ parts

unfoldable pub split_on : ℕ → Bytes → List Bytes
split_on sep [] = [] ∷ []
split_on sep (c ∷ s) = let rest = split_on sep s in if c == sep then [] ∷ rest else cons_head c rest

abbrev pub join : ℕ → List Bytes → Bytes
join sep [] = []
join sep (x ∷ []) = x
join sep (x ∷ y ∷ parts) = x ++ sep ∷ join sep (y ∷ parts)

module _ (sep : ℕ) where
  -- The separator does not occur.
  abbrev pub Lacks : Bytes → Type 0
  Lacks = All (λ c. c ≢ sep)

  split_on-part : (x : Bytes) → Lacks x → split_on sep x ≡ x ∷ []
  unfolding split_on cons_head
  split_on-part [] h = refl
  split_on-part (c ∷ x) h = rw (split_on-part x h.1) (ground (arith, h.0))

  split_on-append : (x s : Bytes) → Lacks x → split_on sep (x ++ sep ∷ s) ≡ x ∷ split_on sep s
  unfolding split_on cons_head
  split_on-append [] s h = ground arith
  split_on-append (c ∷ x) s h = rw (split_on-append x s h.1) (ground (arith, h.0))

  pub split_on-join :
      (x : Bytes) (parts : List Bytes)
      → All Lacks (x ∷ parts)
      → split_on sep (join sep (x ∷ parts)) ≡ x ∷ parts
  split_on-join x [] h = split_on-part x h.0
  split_on-join x (y ∷ parts) h =
      split_on-append x (join sep (y ∷ parts)) h.0 ∙ ap (◌∷◌ x) (split_on-join y parts h.1)

  cons_head-Lacks :
      (c : ℕ) (parts : List Bytes) → c ≢ sep → All Lacks parts → All Lacks (cons_head c parts)
  unfolding cons_head
  cons_head-Lacks c [] p h = ((p, tt), tt)
  cons_head-Lacks c (x ∷ parts) p h = ((p, h.0), h.1)

  pub split_on-Lacks : (s : Bytes) → All Lacks (split_on sep s)
  unfolding split_on
  split_on-Lacks [] = (tt, tt)
  split_on-Lacks (c ∷ s) = elim (Bool-cases (c == sep)) [
    | inl cut ↦ rw cut (tt, split_on-Lacks s)
    | inr kept ↦ rw kept (cons_head-Lacks c (split_on sep s) (ground arith) (split_on-Lacks s))
  ]
