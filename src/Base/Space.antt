-- ===== src/Base/Space.antt =====
-- White space as Go's `unicode.IsSpace` and `strings.TrimSpace` have it.
use Prim.Native.Nat.{ℕ, zero, suc, ◌≤◌, ◌<◌}
use mathlib.Core.Path.{◌≡◌, refl, ap}
use mathlib.Core.Logic.{inl, inr}
use mathlib.Core.Bool.{Bool, true, false, ◌&&◌, ◌||◌}
use mathlib.Core.List.{[], ◌∷◌, ◌++◌}
use native.Mathlib.Omega.{arith}
use honeynet.Base.Tests.{◌==◌, if◌then◌else◌, Bool-cases}
use honeynet.Base.Lists.{length, All}
use honeynet.Base.Text.{Bytes}
use honeynet.Base.Utf8.{within, decode_rune, decode_rune-low}

-- `unicode.IsSpace`: the runes with the property White_Space.
unfoldable pub is_space : ℕ → Bool
is_space r =
    within 0x09 0x0d r
    || r == 0x20
    || r == 0x85
    || r == 0xa0
    || r == 0x1680
    || within 0x2000 0x200a r
    || within 0x2028 0x2029 r
    || r == 0x202f
    || r == 0x205f
    || r == 0x3000

-- `strings.TrimSpace`, a rune at a time: the number is that of the bytes which the last rune took.
trim_left : ℕ → Bytes → Bytes
trim_left skip [] = []
trim_left zero (a ∷ s) =
    let rest = trim_left (decode_rune a s).1 s in
    if is_space (decode_rune a s).0 then rest else a ∷ s
trim_left (suc skip) (a ∷ s) = trim_left skip s

all_space : ℕ → Bytes → Bool
all_space skip [] = true
all_space zero (a ∷ s) =
    let rest = all_space (decode_rune a s).1 s in is_space (decode_rune a s).0 && rest
all_space (suc skip) (a ∷ s) = all_space skip s

trim_right : ℕ → Bytes → Bytes
unfolding all_space
trim_right skip [] = []
trim_right zero (a ∷ s) =
    let rest = trim_right (decode_rune a s).1 s in if all_space 0 (a ∷ s) then [] else a ∷ rest
trim_right (suc skip) (a ∷ s) = a ∷ trim_right skip s

unfoldable pub trim_space : Bytes → Bytes
unfolding trim_left trim_right decode_rune is_space
trim_space s = trim_right 0 (trim_left 0 s)

module _ {κ} (P : ℕ → Type κ) where
  All-trim_left : (skip : ℕ) (s : Bytes) → All P s → All P (trim_left skip s)
  unfolding trim_left
  All-trim_left skip [] h = tt
  All-trim_left zero (a ∷ s) h = elim (Bool-cases (is_space (decode_rune a s).0)) [
    | inl e ↦ rw e (All-trim_left (decode_rune a s).1 s h.1)
    | inr e ↦ rw e h
  ]
  All-trim_left (suc skip) (a ∷ s) h = All-trim_left skip s h.1

  All-trim_right : (skip : ℕ) (s : Bytes) → All P s → All P (trim_right skip s)
  unfolding trim_right
  All-trim_right skip [] h = tt
  All-trim_right zero (a ∷ s) h = elim (Bool-cases (all_space 0 (a ∷ s))) [
    | inl e ↦ rw e tt
    | inr e ↦ rw e (h.0, All-trim_right (decode_rune a s).1 s h.1)
  ]
  All-trim_right (suc skip) (a ∷ s) h = (h.0, All-trim_right skip s h.1)

  pub All-trim_space : (s : Bytes) → All P s → All P (trim_space s)
  unfolding trim_space
  All-trim_space s h = All-trim_right 0 (trim_left 0 s) (All-trim_left 0 s h)

length-trim_left : (skip : ℕ) (s : Bytes) → length (trim_left skip s) ≤ length s
unfolding trim_left
length-trim_left skip [] = omega arith
length-trim_left zero (a ∷ s) = ground (arith, length-trim_left (decode_rune a s).1 s)
length-trim_left (suc skip) (a ∷ s) = omega (arith, length-trim_left skip s)

length-trim_right : (skip : ℕ) (s : Bytes) → length (trim_right skip s) ≤ length s
unfolding trim_right
length-trim_right skip [] = omega arith
length-trim_right zero (a ∷ s) = ground (arith, length-trim_right (decode_rune a s).1 s)
length-trim_right (suc skip) (a ∷ s) = omega (arith, length-trim_right skip s)

pub length-trim_space : (s : Bytes) → length (trim_space s) ≤ length s
unfolding trim_space
length-trim_space s = omega (arith, length-trim_right 0 (trim_left 0 s), length-trim_left 0 s)

-- Visible ASCII.
abbrev pub IsGraph : ℕ → Type 0
IsGraph c = (0x20 < c) × (c < 0x7f)

is_space-graph : (c : ℕ) → IsGraph c → is_space c ≡ false
unfolding is_space
is_space-graph c h = ground arith

all_space-graph : (c : ℕ) (s : Bytes) → IsGraph c → all_space 0 (c ∷ s) ≡ false
unfolding all_space
all_space-graph c s h = rw (decode_rune-low c s (omega arith)) (rw (is_space-graph c h))

trim_right-newline : (s : Bytes) → All IsGraph s → trim_right 0 (s ++ 0x0a ∷ []) ≡ s
unfolding trim_right
trim_right-newline [] h = unfold is_space decode_rune in refl
trim_right-newline (c ∷ s) h =
    rw (all_space-graph c (s ++ 0x0a ∷ []) h.0) (
      rw (decode_rune-low c (s ++ 0x0a ∷ []) (omega arith)) (ap (◌∷◌ c) (trim_right-newline s h.1)))

-- A line of visible characters is trimmed of its newline.
pub trim_space-newline : (s : Bytes) → All IsGraph s → trim_space (s ++ 0x0a ∷ []) ≡ s
unfolding trim_space trim_left
trim_space-newline [] h = refl
trim_space-newline (c ∷ s) h =
    rw (decode_rune-low c (s ++ 0x0a ∷ []) (omega arith))
      (rw (is_space-graph c h.0) (trim_right-newline (c ∷ s) h))
