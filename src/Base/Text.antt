-- ===== src/Base/Text.antt =====
-- Byte strings: the functions of Go's `bytes`, `strings` and `encoding/binary` that the node uses.
use Prim.Native.Char.{code}
use Prim.Native.String.{String}
use Prim.Native.Nat.{ℕ, ◌+◌, ◌*◌, ◌<◌}
use mathlib.Core.Path.{◌≡◌, refl}
use mathlib.Core.Logic.{◌↔◌}
use mathlib.Core.Bool.{Bool, true, false, ◌&&◌}
use mathlib.Core.List.{List, [], ◌∷◌, ◌++◌}
use mathlib.Core.Option.{Option, none, some}
use native.Mathlib.Omega.{arith}
use honeynet.Base.Tests.{◌==◌, if◌then◌else◌}
use honeynet.Base.Lists.{length, drop}

abbrev pub Bytes : Type 0
Bytes = List ℕ

-- The code points of a literal: its bytes, as every literal of the source used here is ASCII.
abbrev pub codes : String → Bytes
codes String.[] = []
codes (String.◌∷◌ c s) = code c ∷ codes s

abbrev pub IsByte : ℕ → Type 0
IsByte b = b < 256

-- `a == b` of two strings.
unfoldable pub equal : Bytes → Bytes → Bool
equal [] [] = true
equal [] (_ ∷ _) = false
equal (_ ∷ _) [] = false
equal (c ∷ s) (d ∷ t) = c == d && equal s t

pub equal_iff : (s t : Bytes) → (equal s t ≡ true) ↔ (s ≡ t)
unfolding equal
equal_iff [] [] = ground arith
equal_iff [] (_ ∷ _) = ground arith
equal_iff (_ ∷ _) [] = ground arith
equal_iff (c ∷ s) (d ∷ t) = ground (arith, equal_iff s t)

pub equal_refl : (a : Bytes) → equal a a ≡ true
equal_refl a = (equal_iff a a).1 refl

-- `strings.HasPrefix(s, prefix)`, with the prefix first.
unfoldable pub has_prefix : Bytes → Bytes → Bool
has_prefix [] s = true
has_prefix (p ∷ ps) [] = false
has_prefix (p ∷ ps) (c ∷ s) = p == c && has_prefix ps s

pub has_prefix-append : (p s : Bytes) → has_prefix p (p ++ s) ≡ true
unfolding has_prefix
has_prefix-append [] s = refl
has_prefix-append (x ∷ p) s = ground (arith, has_prefix-append p s)

-- `strings.TrimPrefix(s, prefix)`, with the prefix first.
unfoldable pub trim_prefix : Bytes → Bytes → Bytes
trim_prefix p s = if has_prefix p s then drop (length p) s else s

-- `binary.LittleEndian.Uint32` and `Uint16`, `binary.BigEndian.Uint32`: a panic on a short slice.
unfoldable pub little_uint32 : Bytes → Option ℕ
little_uint32 (a ∷ b ∷ c ∷ d ∷ _) = some (a + b * 0x100 + c * 0x1_0000 + d * 0x100_0000)
little_uint32 _ = none

unfoldable pub little_uint16 : Bytes → Option ℕ
little_uint16 (a ∷ b ∷ _) = some (a + b * 0x100)
little_uint16 _ = none

unfoldable pub big_uint32 : Bytes → Option ℕ
big_uint32 (a ∷ b ∷ c ∷ d ∷ _) = some (a * 0x100_0000 + b * 0x1_0000 + c * 0x100 + d)
big_uint32 _ = none
