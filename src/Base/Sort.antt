-- ===== src/Base/Sort.antt =====
-- The order of strings, and sorting by it.
use mathlib.Core.Bool.{Bool, true, false, ◌&&◌, ◌||◌}
use mathlib.Core.Path.{◌≡◌}
use mathlib.Core.Logic.{◌⊎◌, inl, inr, ◌↔◌}
use mathlib.Core.List.{List, [], ◌∷◌, ◌++◌}
use honeynet.Base.Tests.{ltb, ◌==◌, if◌then◌else◌, Bool-cases}
use honeynet.Base.Text.{Bytes}

-- `a < b` of two strings, `bytes.Compare(a, b) < 0`.
unfoldable pub before : Bytes → Bytes → Bool
before [] [] = false
before [] (_ ∷ _) = true
before (_ ∷ _) [] = false
before (a ∷ s) (b ∷ t) = ltb a b || (a == b && before s t)

-- `sort.Slice` by a string of each element; equal ones keep their order here.
module _ {ℓ} {A : Type ℓ} (key : A → Bytes) where
  unfoldable pub sort_into : A → List A → List A
  sort_into x [] = x ∷ []
  sort_into x (y ∷ ys) = if before (key y) (key x) then y ∷ sort_into x ys else x ∷ y ∷ ys

  unfoldable pub sort_by : List A → List A
  sort_by [] = []
  sort_by (x ∷ xs) = sort_into x (sort_by xs)

module _ {A : Type 0} where
  -- Being one of the elements.
  abbrev pub IsIn : A → List A → Type 0
  IsIn a [] = ⊥
  IsIn a (x ∷ xs) = (a ≡ x) ⊎ IsIn a xs

  pub IsIn-append : (a : A) (xs ys : List A) → IsIn a (xs ++ ys) ↔ (IsIn a xs ⊎ IsIn a ys)
  IsIn-append a [] ys = ((λ h. inr h), right)
    where
      right : (⊥ ⊎ IsIn a ys) → IsIn a ys
      right (inl h) = absurd h
      right (inr h) = h
  IsIn-append a (x ∷ xs) ys = let ih = IsIn-append a xs ys in (there ih.0, back ih.1)
    where
      there :
          (IsIn a (xs ++ ys) → IsIn a xs ⊎ IsIn a ys)
          → ((a ≡ x) ⊎ IsIn a (xs ++ ys))
          → ((a ≡ x) ⊎ IsIn a xs) ⊎ IsIn a ys
      there f (inl e) = inl (inl e)
      there f (inr h) = elim (f h) [ inl l ↦ inl (inr l) | inr r ↦ inr r ]

      back :
          (IsIn a xs ⊎ IsIn a ys → IsIn a (xs ++ ys))
          → (((a ≡ x) ⊎ IsIn a xs) ⊎ IsIn a ys)
          → (a ≡ x) ⊎ IsIn a (xs ++ ys)
      back g (inl (inl e)) = inl e
      back g (inl (inr l)) = inr (g (inl l))
      back g (inr r) = inr (g (inr r))

module _ {A : Type 0} (key : A → Bytes) where
  IsIn-sort_into : (a x : A) (xs : List A) → IsIn a (sort_into key x xs) ↔ IsIn a (x ∷ xs)
  unfolding sort_into
  IsIn-sort_into a x [] = ((λ h. h), (λ h. h))
  IsIn-sort_into a x (y ∷ ys) = elim (Bool-cases (before (key y) (key x))) [
    | inr here ↦ rw here ((λ h. h), (λ h. h))
    | inl later ↦ rw later (let ih = IsIn-sort_into a x ys in (there ih.0, back ih.1))
  ]
    where
      there :
          (IsIn a (sort_into key x ys) → (a ≡ x) ⊎ IsIn a ys)
          → (a ≡ y) ⊎ IsIn a (sort_into key x ys)
          → (a ≡ x) ⊎ ((a ≡ y) ⊎ IsIn a ys)
      there f (inl e) = inr (inl e)
      there f (inr h) = elim (f h) [ inl e ↦ inl e | inr r ↦ inr (inr r) ]

      back :
          ((a ≡ x) ⊎ IsIn a ys → IsIn a (sort_into key x ys))
          → (a ≡ x) ⊎ ((a ≡ y) ⊎ IsIn a ys)
          → (a ≡ y) ⊎ IsIn a (sort_into key x ys)
      back g (inl e) = inr (g (inl e))
      back g (inr (inl e)) = inl e
      back g (inr (inr r)) = inr (g (inr r))

  -- Sorting keeps the elements.
  pub IsIn-sort_by : (a : A) (xs : List A) → IsIn a (sort_by key xs) ↔ IsIn a xs
  unfolding sort_by
  IsIn-sort_by a [] = ((λ h. h), (λ h. h))
  IsIn-sort_by a (x ∷ xs) =
      let ih = IsIn-sort_by a xs in
      let step = IsIn-sort_into a x (sort_by key xs) in
      ((λ h. rest ih.0 (step.0 h)), (λ h. step.1 (rest ih.1 h)))
    where
      rest : {B C : Type 0} → (B → C) → (a ≡ x) ⊎ B → (a ≡ x) ⊎ C
      rest f (inl e) = inl e
      rest f (inr b) = inr (f b)
