-- ===== src/Base/Lists.antt =====
-- Slices as lists: measured, indexed and cut by native numbers, under the library's names.
use Prim.Native.Nat.{ℕ, zero, suc, ◌+◌, ◌-◌, ◌≤◌, ◌<◌, min}
use mathlib.Core.Path.{◌≡◌, refl, ap, subst, ◌∙◌}
use mathlib.Core.Bool.{◌&&◌}
use mathlib.Core.List.{List, [], ◌∷◌, ◌++◌}
use mathlib.Core.Option.{Option, none, some}
use native.Mathlib.Omega.{arith}
use native.Mathlib.Nat.{sub-zero}
use honeynet.Base.Tests.{leb, le→leb, if◌then◌else◌, Returns, returns}

module _ {ℓ} {A : Type ℓ} where
  abbrev pub length : List A → ℕ
  length [] = 0
  length (x ∷ xs) = suc (length xs)

  -- `xs[i]`: a panic out of range.
  abbrev pub get_elem? : List A → ℕ → Option A
  get_elem? [] i = none
  get_elem? (x ∷ xs) zero = some x
  get_elem? (x ∷ xs) (suc i) = get_elem? xs i

  abbrev pub take : ℕ → List A → List A
  take zero xs = []
  take (suc n) [] = []
  take (suc n) (x ∷ xs) = x ∷ take n xs

  abbrev pub drop : ℕ → List A → List A
  drop zero xs = xs
  drop (suc n) [] = []
  drop (suc n) (x ∷ xs) = drop n xs

  pub length-append : (xs ys : List A) → length (xs ++ ys) ≡ length xs + length ys
  length-append [] ys = omega arith
  length-append (x ∷ xs) ys = omega (arith, length-append xs ys)

  pub take-append-drop : (n : ℕ) (xs : List A) → take n xs ++ drop n xs ≡ xs
  take-append-drop zero xs = refl
  take-append-drop (suc n) [] = refl
  take-append-drop (suc n) (x ∷ xs) = ap (◌∷◌ x) (take-append-drop n xs)

  pub length-take : (n : ℕ) (xs : List A) → length (take n xs) ≡ min n (length xs)
  length-take zero xs = omega arith
  length-take (suc n) [] = omega arith
  length-take (suc n) (x ∷ xs) = omega (arith, length-take n xs)

  pub length-drop : (n : ℕ) (xs : List A) → length (drop n xs) ≡ length xs - n
  length-drop zero xs = omega arith
  length-drop (suc n) [] = omega arith
  length-drop (suc n) (x ∷ xs) = omega (arith, length-drop n xs)

  pub take-append : (xs ys : List A) → take (length xs) (xs ++ ys) ≡ xs
  take-append [] ys = refl
  take-append (x ∷ xs) ys = ap (◌∷◌ x) (take-append xs ys)

  pub drop-append : (xs ys : List A) → drop (length xs) (xs ++ ys) ≡ ys
  drop-append [] ys = refl
  drop-append (x ∷ xs) ys = drop-append xs ys

  pub take_all : (n : ℕ) (xs : List A) → length xs ≤ n → take n xs ≡ xs
  take_all zero [] h = refl
  take_all zero (x ∷ xs) h = absurd (omega arith)
  take_all (suc n) [] h = refl
  take_all (suc n) (x ∷ xs) h = ap (◌∷◌ x) (take_all n xs (omega arith))

module _ {ℓ} {A : Type ℓ} where
  -- `xs[lo:hi]` of a slice at full capacity: a panic unless lo <= hi <= len(xs).
  unfoldable pub slice : List A → ℕ → ℕ → Option (List A)
  slice xs lo hi =
      if leb lo hi && leb hi (length xs) then some (take (hi - lo) (drop lo xs)) else none

  pub slice_lem :
      (xs : List A) (lo hi : ℕ)
      → lo ≤ hi
      → hi ≤ length xs
      → slice xs lo hi ≡ some (take (hi - lo) (drop lo xs))
  unfolding slice
  slice_lem xs lo hi p q = rw (le→leb _ _ p, le→leb _ _ q)

  -- Cutting a concatenation where its parts meet.
  pub slice-append_left : (xs ys : List A) {n : ℕ} → n ≡ length xs → slice (xs ++ ys) 0 n ≡ some xs
  slice-append_left xs ys e = rw e (
      slice_lem (xs ++ ys) 0 (length xs) (omega arith) (omega (arith, length-append xs ys))
      ∙ ap some (rw sub-zero (take-append xs ys)))

  pub slice-append_right :
      (xs ys : List A) {n m : ℕ}
      → n ≡ length xs
      → m ≡ length (xs ++ ys)
      → slice (xs ++ ys) n m ≡ some ys
  slice-append_right xs ys e f =
      rw (e, f)
        (slice_lem (xs ++ ys) (length xs) (length (xs ++ ys)) (omega (arith, length-append xs ys))
            (omega arith)
          ∙ ap some (rw (drop-append xs ys) (take_all _ ys (omega (arith, length-append xs ys)))))

  pub get_elem?_lem : (xs : List A) (i : ℕ) → i < length xs → (a : A) × (get_elem? xs i ≡ some a)
  get_elem?_lem [] i h = absurd (omega arith)
  get_elem?_lem (x ∷ xs) zero h = (x, refl)
  get_elem?_lem (x ∷ xs) (suc i) h = get_elem?_lem xs i (omega arith)

module _ {ℓ κ} {A : Type ℓ} (P : A → Type κ) where
  abbrev pub All : List A → Type κ
  All [] = Unit
  All (x ∷ xs) = P x × All xs

module _ {ℓ κ} {A : Type ℓ} (P : A → Type κ) where
  pub All-append : (xs ys : List A) → All P xs → All P ys → All P (xs ++ ys)
  All-append [] ys hx hy = hy
  All-append (x ∷ xs) ys hx hy = (hx.0, All-append xs ys hx.1 hy)

  pub All-take : (n : ℕ) (xs : List A) → All P xs → All P (take n xs)
  All-take zero xs h = tt
  All-take (suc n) [] h = tt
  All-take (suc n) (x ∷ xs) h = (h.0, All-take n xs h.1)

  pub All-drop : (n : ℕ) (xs : List A) → All P xs → All P (drop n xs)
  All-drop zero xs h = h
  All-drop (suc n) [] h = tt
  All-drop (suc n) (x ∷ xs) h = All-drop n xs h.1

  pub All-get : (xs : List A) (i : ℕ) {a : A} → All P xs → get_elem? xs i ≡ some a → P a
  All-get [] i h e = cc
  All-get (x ∷ xs) zero {a} h e = let p : x ≡ a = cc in subst P p h.0
  All-get (x ∷ xs) (suc i) h e = All-get xs i h.1 e

module _ {A : Type 0} (P : A → Type 0) where
  -- A slice expression within bounds returns that many elements of the slice.
  pub slice-Returns :
      (xs : List A) (lo hi : ℕ)
      → lo ≤ hi
      → hi ≤ length xs
      → All P xs
      → Returns (λ r. All P r × (length r ≡ hi - lo)) (slice xs lo hi)
  slice-Returns xs lo hi p q h = rw (slice_lem xs lo hi p q) (
      returns (
        All-take P (hi - lo) (drop lo xs) (All-drop P lo xs h),
        omega (arith, length-take (hi - lo) (drop lo xs), length-drop lo xs),
      ))

  pub get_elem?-Returns :
      (xs : List A) (i : ℕ) → i < length xs → All P xs → Returns P (get_elem? xs i)
  get_elem?-Returns xs i p h =
      let (a, e) = get_elem?_lem xs i p in rw e (returns (All-get P xs i h e))
