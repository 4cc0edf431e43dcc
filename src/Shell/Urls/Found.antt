-- ===== src/Shell/Urls/Found.antt =====
-- What a found scheme and the loop behind it say about the argument.
use mathlib.Core.Path.{subst}
use honeynet.Base.{
  ℕ, zero, suc, ◌+◌, ◌≤◌, ◌≡◌, refl, ap, ◌∙◌, true, false, ◌&&◌, inl, inr, Bool-cases, Option-cases,
  some, [], ◌∷◌, map, arith, leb, if◌then◌else◌, length, take, drop, All, Bytes, has_prefix,
}
use honeynet.Shell.Urls.{index, is_url_terminator, run}

-- `strings.ToLower` of ASCII text, a byte at a time.
abbrev pub lower_byte : ℕ → ℕ
lower_byte c = if leb b'A' c && leb c b'Z' then c + 32 else c

abbrev pub lowered : Bytes → Bytes
lowered s = map lower_byte s

abbrev pub IsUrlByte : ℕ → Type 0
IsUrlByte c = is_url_terminator c ≡ false

-- No terminator, and the scheme in front.
abbrev pub IsUrl : Bytes → Bytes → Type 0
IsUrl scheme url = All IsUrlByte url × (has_prefix scheme (lowered url) ≡ true)

pub length-lowered : (s : Bytes) → length (lowered s) ≡ length s
length-lowered [] = refl
length-lowered (c ∷ s) = ap suc (length-lowered s)

pub drop-lowered : (n : ℕ) (s : Bytes) → drop n (lowered s) ≡ lowered (drop n s)
drop-lowered zero s = refl
drop-lowered (suc n) [] = refl
drop-lowered (suc n) (c ∷ s) = drop-lowered n s

pub drop-drop : (n m : ℕ) (s : Bytes) → drop m (drop n s) ≡ drop (n + m) s
drop-drop zero m s = ap (λ k. drop k s) (zero_add m)
  where
    zero_add : (m : ℕ) → m ≡ 0 + m
    zero_add m = omega arith
drop-drop (suc n) m [] = nothing m (suc n + m)
  where
    nothing : (m k : ℕ) → drop {A = ℕ} m [] ≡ drop k []
    nothing zero zero = refl
    nothing zero (suc k) = refl
    nothing (suc m) zero = refl
    nothing (suc m) (suc k) = refl
drop-drop (suc n) m (c ∷ s) = drop-drop n m s ∙ ap (λ k. drop k (c ∷ s)) (suc_add n m)
  where
    suc_add : (n m : ℕ) → suc (n + m) ≡ suc n + m
    suc_add n m = omega arith

pub index-has_prefix :
    (p s : Bytes) {i : ℕ} → index p s ≡ some i → (i ≤ length s) × (has_prefix p (drop i s) ≡ true)
unfolding index
index-has_prefix p [] {i} e = elim (Bool-cases (has_prefix p [])) [
  | inl found ↦ ground (arith, found)
  | inr missing ↦ ground arith
]
index-has_prefix p (c ∷ s) {i} e = elim (Bool-cases (has_prefix p (c ∷ s))) [
  | inl found ↦
      let at : 0 ≡ i = ground arith in
      subst (λ k. (k ≤ length (c ∷ s)) × (has_prefix p (drop k (c ∷ s)) ≡ true)) at
        (omega arith, found)
  | inr missing ↦ elim (Option-cases (index p s)) [
    | inl n ↦ ground arith
    | inr (j, f) ↦
        let at : suc j ≡ i = ground arith in
        let (le, found) = index-has_prefix p s f in
        subst (λ k. (k ≤ length (c ∷ s)) × (has_prefix p (drop k (c ∷ s)) ≡ true)) at
          (omega arith, found)
  ]
]

pub has_prefix-length : (p s : Bytes) → has_prefix p s ≡ true → length p ≤ length s
unfolding has_prefix
has_prefix-length [] s h = omega arith
has_prefix-length (a ∷ p) [] h = absurd (ground arith)
has_prefix-length (a ∷ p) (c ∷ s) h = ground (arith, has_prefix-length p s)

pub run-le : (s : Bytes) → run s ≤ length s
unfolding run
run-le [] = omega arith
run-le (c ∷ s) = ground (arith, run-le s)

pub take-run : (s : Bytes) → All IsUrlByte (take (run s) s)
unfolding run
take-run [] = tt
take-run (c ∷ s) = elim (Bool-cases (is_url_terminator c)) [
  | inl stops ↦ rw stops tt
  | inr on ↦ rw on (on, take-run s)
]

-- A byte whose lower case is no terminator is none itself.
lower_byte-IsUrlByte : (a c : ℕ) → a ≡ lower_byte c → IsUrlByte a → IsUrlByte c
unfolding is_url_terminator
lower_byte-IsUrlByte a c e h = ground arith

-- The inner loop goes past the scheme.
pub has_prefix-run :
    (p s : Bytes)
    → All IsUrlByte p
    → has_prefix p (lowered s) ≡ true
    → has_prefix p (lowered (take (run s) s)) ≡ true
unfolding has_prefix run
has_prefix-run [] s h e = refl
has_prefix-run (a ∷ p) [] h e = e
has_prefix-run (a ∷ p) (c ∷ s) h e =
    let same : a ≡ lower_byte c = ground arith in
    let rest : has_prefix p (lowered s) ≡ true = ground arith in
    rw (lower_byte-IsUrlByte a c same h.0) (ground (arith, same, has_prefix-run p s h.1 rest))
