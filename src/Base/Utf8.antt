-- ===== src/Base/Utf8.antt =====
-- UTF-8 as Go reads and writes it: `range s` over a string, `[]rune(s)` and `Builder.WriteRune`.
use Prim.Native.Nat.{ℕ, zero, suc, ◌+◌, ◌-◌, ◌*◌, ◌/◌, ◌%◌, ◌≤◌, ◌<◌}
use mathlib.Core.Path.{◌≡◌, refl, ap, ◌∙◌}
use mathlib.Core.Logic.{◌⊎◌, inl, inr}
use mathlib.Core.Bool.{Bool, true, false, ◌&&◌, ◌||◌}
use mathlib.Core.List.{List, [], ◌∷◌, ◌++◌}
use native.Mathlib.Omega.{arith}
use honeynet.Base.Tests.{ltb, leb, lt→ltb, le→ltb, le→leb, ◌==◌, if◌then◌else◌}
use honeynet.Base.Lists.{All}
use honeynet.Base.Text.{Bytes}

-- What stands for a byte that is no part of an encoding, U+FFFD.
abbrev pub rune_error : ℕ
rune_error = 0xfffd

abbrev pub within : ℕ → ℕ → ℕ → Bool
within lo hi c = leb lo c && leb c hi

-- A decoded rune with the number of bytes behind the first one that it takes.
two_bytes : ℕ → Bytes → ℕ × ℕ
two_bytes a (b ∷ s) =
    if within 0x80 0xbf b then ((a - 0xc0) * 0x40 + (b - 0x80), 1) else (rune_error, 0)
two_bytes a _ = (rune_error, 0)

three_bytes : ℕ → Bytes → ℕ × ℕ
three_bytes a (b ∷ c ∷ s) =
    let lo : ℕ = if a == 0xe0 then 0xa0 else 0x80 in
    let hi : ℕ = if a == 0xed then 0x9f else 0xbf in
    if within lo hi b && within 0x80 0xbf c
    then ((a - 0xe0) * 0x1000 + (b - 0x80) * 0x40 + (c - 0x80), 2)
    else (rune_error, 0)
three_bytes a _ = (rune_error, 0)

four_bytes : ℕ → Bytes → ℕ × ℕ
four_bytes a (b ∷ c ∷ d ∷ s) =
    let lo : ℕ = if a == 0xf0 then 0x90 else 0x80 in
    let hi : ℕ = if a == 0xf4 then 0x8f else 0xbf in
    if within lo hi b && (within 0x80 0xbf c && within 0x80 0xbf d)
    then ((a - 0xf0) * 0x4_0000 + (b - 0x80) * 0x1000 + (c - 0x80) * 0x40 + (d - 0x80), 3)
    else (rune_error, 0)
four_bytes a _ = (rune_error, 0)

unfoldable pub decode_rune : ℕ → Bytes → ℕ × ℕ
unfolding two_bytes three_bytes four_bytes
decode_rune a s =
    if ltb a 0x80
    then (a, 0)
    else if within 0xc2 0xdf a
    then two_bytes a s
    else if within 0xe0 0xef a
    then three_bytes a s
    else if within 0xf0 0xf4 a
    then four_bytes a s
    else (rune_error, 0)

-- The runes of a string behind the bytes that the last rune took.
runes_behind : ℕ → Bytes → List ℕ
runes_behind skip [] = []
runes_behind zero (a ∷ s) = let (r, n) = decode_rune a s in r ∷ runes_behind n s
runes_behind (suc skip) (a ∷ s) = runes_behind skip s

unfoldable pub runes : Bytes → List ℕ
unfolding runes_behind decode_rune
runes s = runes_behind 0 s

-- `WriteRune`: a value that is no rune is written as U+FFFD.
unfoldable pub encode_rune : ℕ → Bytes
encode_rune r =
    if ltb r 0x80
    then r ∷ []
    else if ltb r 0x800
    then (0xc0 + r / 0x40) ∷ (0x80 + r % 0x40) ∷ []
    else if within 0xd800 0xdfff r || ltb 0x10_ffff r
    then 0xef ∷ 0xbf ∷ 0xbd ∷ []
    else if ltb r 0x1_0000
    then (0xe0 + r / 0x1000) ∷ (0x80 + r / 0x40 % 0x40) ∷ (0x80 + r % 0x40) ∷ []
    else (0xf0 + r / 0x4_0000)
      ∷ (0x80 + r / 0x1000 % 0x40)
      ∷ (0x80 + r / 0x40 % 0x40)
      ∷ (0x80 + r % 0x40)
      ∷ []

unfoldable pub encode : List ℕ → Bytes
unfolding encode_rune
encode [] = []
encode (r ∷ rs) = encode_rune r ++ encode rs

-- Every byte of a rune that is not ASCII is at least 0x80, and an ASCII rune is its one byte.
pub encode_rune-high : (r : ℕ) → 0x80 ≤ r → All (λ b. 0x80 ≤ b) (encode_rune r)
unfolding encode_rune
encode_rune-high r h = ground arith

pub encode_rune-low : (r : ℕ) → r < 0x80 → encode_rune r ≡ r ∷ []
unfolding encode_rune
encode_rune-low r h = rw (lt→ltb _ _ h)

-- ASCII text is its own runes, and its own encoding.
abbrev pub IsAscii : ℕ → Type 0
IsAscii c = c < 0x80

pub decode_rune-low : (a : ℕ) (s : Bytes) → a < 0x80 → decode_rune a s ≡ (a, 0)
unfolding decode_rune
decode_rune-low a s h = rw (lt→ltb _ _ h)

pub runes-ascii : (s : Bytes) → All IsAscii s → runes s ≡ s
unfolding runes
runes-ascii [] h = refl
runes-ascii (a ∷ s) h = rw (decode_rune-low a s h.0) (ap (◌∷◌ a) (runes-ascii s h.1))

pub encode-ascii : (s : Bytes) → All IsAscii s → encode s ≡ s
unfolding encode
encode-ascii [] h = refl
encode-ascii (a ∷ s) h = rw (encode_rune-low a h.0) (ap (◌∷◌ a) (encode-ascii s h.1))

-- A Unicode scalar value.
abbrev pub IsRune : ℕ → Type 0
IsRune r = (r ≤ 0x10_ffff) × ((r < 0xd800) ⊎ (0xdfff < r))

ranges :
    (r : ℕ)
    → IsRune r
    → (r < 0x80)
      ⊎ ((0x80 ≤ r) × (r < 0x800)
          ⊎ ((0x800 ≤ r) × (r < 0x1_0000) ⊎ (0x1_0000 ≤ r) × (r ≤ 0x10_ffff)))
ranges r h = ground arith

one_byte :
    (r : ℕ) (s : Bytes) → r < 0x80 → runes_behind 0 (encode_rune r ++ s) ≡ r ∷ runes_behind 0 s
unfolding runes_behind encode_rune
one_byte r s h = rw (lt→ltb _ _ h) (rw (decode_rune-low r s h))

two :
    (r : ℕ) (s : Bytes)
    → 0x80 ≤ r
    → r < 0x800
    → runes_behind 0 (encode_rune r ++ s) ≡ r ∷ runes_behind 0 s
unfolding runes_behind encode_rune decode_rune two_bytes
two r s lo hi = ground arith

three :
    (r : ℕ) (s : Bytes)
    → 0x800 ≤ r
    → r < 0x1_0000
    → IsRune r
    → runes_behind 0 (encode_rune r ++ s) ≡ r ∷ runes_behind 0 s
unfolding runes_behind encode_rune decode_rune three_bytes
three r s lo hi h = ground arith

encode_four :
    (r : ℕ)
    → 0x1_0000 ≤ r
    → r ≤ 0x10_ffff
    → encode_rune r
      ≡ (0xf0 + r / 0x4_0000)
        ∷ (0x80 + r / 0x1000 % 0x40)
        ∷ (0x80 + r / 0x40 % 0x40)
        ∷ (0x80 + r % 0x40)
        ∷ []
unfolding encode_rune
encode_four r lo hi = ground arith

within_lem : (lo hi c : ℕ) → lo ≤ c → c ≤ hi → within lo hi c ≡ true
within_lem lo hi c h k = rw (le→leb _ _ h, le→leb _ _ k)

within_above : (lo hi c : ℕ) → hi < c → within lo hi c ≡ false
within_above lo hi c h = ground arith

second_byte :
    (q b : ℕ)
    → b < 0x40
    → (q ≡ 0 → 0x10 ≤ b)
    → (q ≡ 4 → b ≤ 0x0f)
    → within
        (if 0xf0 + q == 0xf0 then 0x90 else 0x80)
        (if 0xf0 + q == 0xf4 then 0x8f else 0xbf)
        (0x80 + b)
      ≡ true
second_byte q b hb low high = ground arith

decode_four :
    (q b c d : ℕ) (s : Bytes)
    → q ≤ 4
    → b < 0x40
    → c < 0x40
    → d < 0x40
    → (q ≡ 0 → 0x10 ≤ b)
    → (q ≡ 4 → b ≤ 0x0f)
    → decode_rune (0xf0 + q) ((0x80 + b) ∷ (0x80 + c) ∷ (0x80 + d) ∷ s)
      ≡ (q * 0x4_0000 + b * 0x1000 + c * 0x40 + d, 3)
unfolding decode_rune four_bytes
decode_four q b c d s hq hb hc hd low high =
    rw
      (
        le→ltb (0xf0 + q) 0x80 (omega arith),
        within_above 0xc2 0xdf (0xf0 + q) (omega arith),
        within_above 0xe0 0xef (0xf0 + q) (omega arith),
        within_lem 0xf0 0xf4 (0xf0 + q) (omega arith) (omega arith),
        within_lem 0x80 0xbf (0x80 + c) (omega arith) (omega arith),
        within_lem 0x80 0xbf (0x80 + d) (omega arith) (omega arith),
        second_byte q b hb low high,
      )
      (ap (λ t. (t, 3)) (omega arith))

four :
    (r : ℕ) (s : Bytes)
    → 0x1_0000 ≤ r
    → r ≤ 0x10_ffff
    → runes_behind 0 (encode_rune r ++ s) ≡ r ∷ runes_behind 0 s
unfolding runes_behind
four r s lo hi =
    let q = r / 0x4_0000 in
    let b = r / 0x1000 % 0x40 in
    let c = r / 0x40 % 0x40 in
    let d = r % 0x40 in
    let exact : q * 0x4_0000 + b * 0x1000 + c * 0x40 + d ≡ r = omega arith in
    rw
      (
        encode_four r lo hi,
        decode_four q b c d s (omega arith) (omega arith) (omega arith) (omega arith) (omega arith)
            (omega arith),
      )
      (ap (λ t. t ∷ runes_behind 0 s) exact)

runes_behind-encode_rune :
    (r : ℕ) (s : Bytes) → IsRune r → runes_behind 0 (encode_rune r ++ s) ≡ r ∷ runes_behind 0 s
runes_behind-encode_rune r s h = elim (ranges r h) [
  | inl lo ↦ one_byte r s lo
  | inr (inl p) ↦ two r s p.0 p.1
  | inr (inr (inl p)) ↦ three r s p.0 p.1 h
  | inr (inr (inr p)) ↦ four r s p.0 p.1
]

-- Reading a written text gives its runes back.
pub runes-encode : (rs : List ℕ) → All IsRune rs → runes (encode rs) ≡ rs
unfolding runes encode
runes-encode [] h = refl
runes-encode (r ∷ rs) h =
    runes_behind-encode_rune r (encode rs) h.0 ∙ ap (◌∷◌ r) (runes-encode rs h.1)
