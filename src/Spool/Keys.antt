-- ===== src/Spool/Keys.antt =====
-- The keys of the spool: eight bytes, the most significant first, so that the order of the keys in
-- the database is that of the sequence numbers.
use native.Mathlib.Nat.{pow-suc}
use mathlib.Core.Path.{subst}
use honeynet.Base.{
  before, ℕ, zero, suc, ◌+◌, ◌*◌, ◌/◌, ◌%◌, ◌^◌, ◌<◌, ◌≡◌, refl, sym, ap, ◌∙◌, ◌&&◌, ◌||◌, [], ◌∷◌,
  ◌++◌, arith, ltb, ◌==◌, length, length-append, Bytes, equal,
}
use honeynet.Spool.{put_uint, uint_from}

before-snoc :
    (s t : Bytes) (a b : ℕ)
    → length s ≡ length t
    → before (s ++ a ∷ []) (t ++ b ∷ []) ≡ (before s t || (equal s t && ltb a b))
unfolding before equal
before-snoc [] [] a b h = ground arith
before-snoc [] (_ ∷ _) a b h = absurd (omega arith)
before-snoc (_ ∷ _) [] a b h = absurd (omega arith)
before-snoc (c ∷ s) (d ∷ t) a b h = ground (arith, before-snoc s t a b (omega arith))

equal-snoc :
    (s t : Bytes) (a b : ℕ)
    → length s ≡ length t
    → equal (s ++ a ∷ []) (t ++ b ∷ []) ≡ (equal s t && (a == b))
unfolding equal
equal-snoc [] [] a b h = ground arith
equal-snoc [] (_ ∷ _) a b h = absurd (omega arith)
equal-snoc (_ ∷ _) [] a b h = absurd (omega arith)
equal-snoc (c ∷ s) (d ∷ t) a b h = ground (arith, equal-snoc s t a b (omega arith))

pub length-put_uint : (count n : ℕ) → length (put_uint count n) ≡ count
unfolding put_uint
length-put_uint zero n = refl
length-put_uint (suc count) n = omega (
  arith,
  length-append (put_uint count (n / 256)) (n % 256 ∷ []),
  length-put_uint count (n / 256),
)

high_lt : (count n : ℕ) → n < 256 ^ suc count → n / 256 < 256 ^ count
high_lt count n h = div_lem (256 ^ count) (subst (λ k. n < k) (pow-suc 256 count) h)
  where
    div_lem : (k : ℕ) → n < k * 256 → n / 256 < k
    div_lem k p = omega arith

pub equal-put_uint :
    (count m n : ℕ)
    → m < 256 ^ count
    → n < 256 ^ count
    → equal (put_uint count m) (put_uint count n) ≡ (m == n)
unfolding put_uint
equal-put_uint zero m n p q = unfold equal in ground arith
equal-put_uint (suc count) m n p q =
    equal-snoc (put_uint count (m / 256)) (put_uint count (n / 256)) (m % 256) (n % 256)
      (length-put_uint count (m / 256) ∙ sym (length-put_uint count (n / 256)))
    ∙ ap (λ e. e && (m % 256 == n % 256))
        (equal-put_uint count (m / 256) (n / 256) (high_lt count m p) (high_lt count n q))
    ∙ digits m n
  where
    digits : (m n : ℕ) → ((m / 256 == n / 256) && (m % 256 == n % 256)) ≡ (m == n)
    digits m n = ground arith

pub before-put_uint :
    (count m n : ℕ)
    → m < 256 ^ count
    → n < 256 ^ count
    → before (put_uint count m) (put_uint count n) ≡ ltb m n
unfolding put_uint
before-put_uint zero m n p q = unfold before in ground arith
before-put_uint (suc count) m n p q =
    let hi_m = high_lt count m p in
    let hi_n = high_lt count n q in
    before-snoc (put_uint count (m / 256)) (put_uint count (n / 256)) (m % 256) (n % 256)
      (length-put_uint count (m / 256) ∙ sym (length-put_uint count (n / 256)))
    ∙ ap
        (λ b.
          b
          || (equal (put_uint count (m / 256)) (put_uint count (n / 256))
              && ltb (m % 256) (n % 256)))
        (before-put_uint count (m / 256) (n / 256) hi_m hi_n)
    ∙ ap (λ e. ltb (m / 256) (n / 256) || (e && ltb (m % 256) (n % 256)))
        (equal-put_uint count (m / 256) (n / 256) hi_m hi_n)
    ∙ digits m n
  where
    digits :
        (m n : ℕ)
        → (ltb (m / 256) (n / 256) || ((m / 256 == n / 256) && ltb (m % 256) (n % 256))) ≡ ltb m n
    digits m n = ground arith

uint_from-snoc :
    (acc : ℕ) (s : Bytes) (b : ℕ) → uint_from acc (s ++ b ∷ []) ≡ uint_from acc s * 256 + b
unfolding uint_from
uint_from-snoc acc [] b = refl
uint_from-snoc acc (c ∷ s) b = uint_from-snoc (acc * 256 + c) s b

-- What is written is read back.
pub uint_from-put_uint : (count n : ℕ) → n < 256 ^ count → uint_from 0 (put_uint count n) ≡ n
unfolding put_uint
uint_from-put_uint zero n h = unfold uint_from in omega arith
uint_from-put_uint (suc count) n h =
    uint_from-snoc 0 (put_uint count (n / 256)) (n % 256)
    ∙ ap (λ k. k * 256 + n % 256) (uint_from-put_uint count (n / 256) (high_lt count n h))
    ∙ digits n
  where
    digits : (n : ℕ) → n / 256 * 256 + n % 256 ≡ n
    digits n = omega arith
