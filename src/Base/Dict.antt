-- ===== src/Base/Dict.antt =====
-- Go maps with string keys, as association lists: the first entry of a key is its value.
use mathlib.Core.Path.{◌≡◌, refl, ap, ◌∙◌, subst}
use mathlib.Core.Logic.{inl, inr}
use mathlib.Core.List.{List, [], ◌∷◌}
use mathlib.Core.Option.{Option, none, some}
use native.Mathlib.Omega.{arith}
use honeynet.Base.Tests.{if◌then◌else◌, Bool-cases}
use honeynet.Base.Lists.{All}
use honeynet.Base.Text.{Bytes, equal, equal_iff}

module _ {ℓ} {V : Type ℓ} where
  -- `v, ok := m[k]`
  unfoldable pub find : Bytes → List (Bytes × V) → Option V
  find k [] = none
  find k ((j, v) ∷ m) = if equal k j then some v else find k m

  -- `m[k] = v`
  unfoldable pub assign : Bytes → V → List (Bytes × V) → List (Bytes × V)
  assign k v [] = (k, v) ∷ []
  assign k v ((j, w) ∷ m) = if equal k j then (k, v) ∷ m else (j, w) ∷ assign k v m

  -- `delete(m, k)`
  unfoldable pub delete : Bytes → List (Bytes × V) → List (Bytes × V)
  delete k [] = []
  delete k ((j, w) ∷ m) = let rest = delete k m in if equal k j then rest else (j, w) ∷ rest

  pub find-assign :
      (j k : Bytes) (v : V) (m : List (Bytes × V))
      → find j (assign k v m) ≡ (if equal k j then some v else find j m)
  unfolding find assign
  find-assign j k v [] = ground (arith, equal_iff j k, equal_iff k j)
  find-assign j k v ((i, w) ∷ m) =
      ground
        (arith, equal_iff k j, equal_iff j k, equal_iff k i, equal_iff j i, find-assign j k v m)

  pub find-delete :
      (j k : Bytes) (m : List (Bytes × V))
      → find j (delete k m) ≡ (if equal k j then none else find j m)
  unfolding find delete
  find-delete j k [] = ground arith
  find-delete j k ((i, w) ∷ m) =
      ground (arith, equal_iff k j, equal_iff j k, equal_iff k i, equal_iff j i, find-delete j k m)

module _ {ℓ κ} {V : Type ℓ} (P : V → Type κ) where
  -- Every value of the map.
  abbrev pub AllValues : List (Bytes × V) → Type κ
  AllValues = All (λ e. P e.1)

  pub AllValues-assign :
      (k : Bytes) (v : V) (m : List (Bytes × V)) → P v → AllValues m → AllValues (assign k v m)
  unfolding assign
  AllValues-assign k v [] p h = (p, tt)
  AllValues-assign k v ((j, w) ∷ m) p h = elim (Bool-cases (equal k j)) [
    | inl same ↦ rw same (p, h.1)
    | inr other ↦ rw other (h.0, AllValues-assign k v m p h.1)
  ]

  pub AllValues-delete : (k : Bytes) (m : List (Bytes × V)) → AllValues m → AllValues (delete k m)
  unfolding delete
  AllValues-delete k [] h = tt
  AllValues-delete k ((j, w) ∷ m) h = elim (Bool-cases (equal k j)) [
    | inl same ↦ rw same (AllValues-delete k m h.1)
    | inr other ↦ rw other (h.0, AllValues-delete k m h.1)
  ]

  pub AllValues-find :
      (k : Bytes) (m : List (Bytes × V)) {v : V} → AllValues m → find k m ≡ some v → P v
  unfolding find
  AllValues-find k [] h e = cc
  AllValues-find k ((j, w) ∷ m) {v} h e = elim (Bool-cases (equal k j)) [
    | inl same ↦ subst P (some_inj (rw same at e)) h.0
    | inr other ↦ AllValues-find k m h.1 (rw other at e)
  ]
    where
      some_inj : {a b : V} → some a ≡ some b → a ≡ b
      some_inj p = cc

-- No key occurs twice.
module _ {ℓ} {V : Type ℓ} where
  abbrev pub UniqueKeys : List (Bytes × V) → Type ℓ
  UniqueKeys [] = Unit
  UniqueKeys ((k, v) ∷ m) = (find k m ≡ none) × UniqueKeys m

  pub UniqueKeys-assign :
      (k : Bytes) (v : V) (m : List (Bytes × V)) → UniqueKeys m → UniqueKeys (assign k v m)
  unfolding assign
  UniqueKeys-assign k v [] h = (unfold find in refl, tt)
  UniqueKeys-assign k v ((j, w) ∷ m) h = elim (Bool-cases (equal k j)) [
    | inl same ↦ rw same (rw ((equal_iff k j).0 same) h.0, h.1)
    | inr other ↦ rw other (
      find-assign j k v m ∙ ap (λ b. if b then some v else find j m) other ∙ h.0,
      UniqueKeys-assign k v m h.1,
    )
  ]

  pub UniqueKeys-delete :
      (k : Bytes) (m : List (Bytes × V)) → UniqueKeys m → UniqueKeys (delete k m)
  unfolding delete
  UniqueKeys-delete k [] h = tt
  UniqueKeys-delete k ((j, w) ∷ m) h = elim (Bool-cases (equal k j)) [
    | inl same ↦ rw same (UniqueKeys-delete k m h.1)
    | inr other ↦ rw other (
      find-delete j k m ∙ ap (λ b. if b then none else find j m) other ∙ h.0,
      UniqueKeys-delete k m h.1,
    )
  ]
