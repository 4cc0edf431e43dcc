-- ===== src/Rdp/Info.antt =====
-- `parseClientInfo` and its helpers on any input.
use mathlib.Core.Logic.{dif_pos, dif_neg}
use native.Mathlib.Bridge.{le_prop}
use mathlib.Core.WellFounded.{Acc}
use honeynet.Base.{
  ℕ, ◌+◌, ◌-◌, ◌*◌, ◌/◌, ◌%◌, ◌≤◌, ◌<◌, ◌≡◌, true, false, some, [], ◌∷◌, arith, dec_lt, lt_wf, ltb,
  leb, inl, inr, Option-cases, Bool-cases, ◌&&◌, Bool, ap, ◌∙◌, if◌then◌else◌, ◌==◌, Returns,
  returns, Returns-bind, Returns-if, Returns-some, length, slice-Returns, All, Bytes, IsByte,
  All-trim_space, length-trim_space,
}
use honeynet.Rdp.{
  ClientInfo, itoa_loop, itoa, utf16_ascii, utf16le, find_core, read_build, read_name,
  parse_client_info, tenth_lt,
}
use honeynet.Rdp.Request.{little_uint32_lem}

abbrev pub IsDigit : ℕ → Type 0
IsDigit c = (b'0' ≤ c) × (c ≤ b'9')

abbrev pub IsPrintable : ℕ → Type 0
IsPrintable c = (0x20 ≤ c) × (c < 0x7f)

-- The number that decimal digits spell behind `n`.
abbrev pub value : ℕ → Bytes → ℕ
value n [] = n
value n (c ∷ s) = value (n * 10 + (c - b'0')) s

itoa_loop_lem :
    (n : ℕ) (w : Acc ◌<◌ n) (b : Bytes)
    → All IsDigit b
    → All IsDigit (itoa_loop n w b) × (value 0 (itoa_loop n w b) ≡ value n b)
unfolding itoa_loop
itoa_loop_lem n (Acc.intro _ smaller) b h = elim (dec_lt 0 n) [
  | yes p ↦
      let digit : IsDigit (b'0' + n % 10) = omega arith in
      let (all_digits, exact) =
        itoa_loop_lem (n / 10) (smaller (n / 10) (tenth_lt n p)) ((b'0' + n % 10) ∷ b) (digit, h) in
      rw (dif_pos _ le_prop p) (all_digits, exact ∙ ap (λ t. value t b) (omega arith))
  | no p ↦ rw (dif_neg _ p) (h, ap (λ t. value t b) (omega arith))
]

pub itoa_lem : (n : ℕ) → All IsDigit (itoa n) × (value 0 (itoa n) ≡ n)
unfolding itoa
itoa_lem n = elim (Bool-cases (n == 0)) [
  | inl z ↦ rw z (omega arith, ground arith)
  | inr p ↦ rw p (itoa_loop_lem n (lt_wf.apply n) [] tt)
]

utf16_ascii-IsPrintable : (s : Bytes) → All IsPrintable (utf16_ascii s)
unfolding utf16_ascii
utf16_ascii-IsPrintable [] = tt
utf16_ascii-IsPrintable (a ∷ []) = tt
utf16_ascii-IsPrintable (a ∷ b ∷ s) = ground (arith, utf16_ascii-IsPrintable s)

length-if :
    (b d : Bool) (c : ℕ) (rest : Bytes)
    → length (if b then [] else if d then c ∷ rest else rest) ≤ length rest + 1
length-if true d c rest = omega arith
length-if false true c rest = omega arith
length-if false false c rest = omega arith

length-utf16_ascii : (s : Bytes) → 2 * length (utf16_ascii s) ≤ length s
unfolding utf16_ascii
length-utf16_ascii [] = omega arith
length-utf16_ascii (a ∷ []) = omega arith
length-utf16_ascii (a ∷ b ∷ s) =
    let c = a + b * 0x100 in
    omega
      (arith, length-if (c == 0) (leb 0x20 c && ltb c 0x7f) c (utf16_ascii s), length-utf16_ascii s)

find_core-lt : (s : Bytes) {i : ℕ} → find_core s ≡ some i → i + 2 < length s
unfolding find_core
find_core-lt [] e = cc
find_core-lt (x ∷ []) e = cc
find_core-lt (x ∷ y ∷ []) e = cc
find_core-lt (x ∷ y ∷ z ∷ s) {i} e = elim (Option-cases (find_core (y ∷ z ∷ s))) [
  | inl n ↦ ground arith
  | inr (j, f) ↦ ground (arith, find_core-lt (y ∷ z ∷ s) f)
]

-- What a recorded client is.
pub record IsReadable (info : ClientInfo) : Type 0 where
  pub name_printable : All IsPrintable info.client_name
  pub name_short : length info.client_name ≤ 16
  pub build_digits : All IsDigit info.build
  pub build_small : value 0 info.build < 100000

read_build_lem :
    (pdu : Bytes) (at_byte : ℕ)
    → All IsByte pdu
    → Returns (λ s. All IsDigit s × (value 0 s < 100000)) (read_build pdu at_byte)
unfolding read_build
read_build_lem pdu at_byte bytes =
    Returns-if (leb (at_byte + 4) (length pdu))
      (λ fits.
        Returns-bind _
          (Returns-bind _
            (slice-Returns IsByte pdu at_byte (at_byte + 4) (omega arith) (ground arith) bytes)
            λ s h. little_uint32_lem s (h.0, omega arith))
          λ b _. returns (build_text b))
      (λ _. returns (tt, omega arith))
  where
    build_text :
        (b : ℕ)
        → All IsDigit (if ltb 0 b && ltb b 100000 then itoa b else [])
          × (value 0 (if ltb 0 b && ltb b 100000 then itoa b else []) < 100000)
    build_text b = ground (arith, itoa_lem b)

read_name_lem :
    (pdu : Bytes) (name : ℕ)
    → All IsByte pdu
    → Returns (λ s. All IsPrintable s × (length s ≤ 16)) (read_name pdu name)
unfolding read_name utf16le
read_name_lem pdu name bytes =
    Returns-if (leb (name + 32) (length pdu))
      (λ fits.
        Returns-bind _
          (slice-Returns IsByte pdu name (name + 32) (omega arith) (ground arith) bytes)
          λ field h. returns (
            All-trim_space IsPrintable _ (utf16_ascii-IsPrintable field),
            omega (arith, length-trim_space (utf16_ascii field), length-utf16_ascii field),
          ))
      (λ _. returns (tt, omega arith))

-- On any bytes the scan returns (no index or slice is out of range); the name it records is at
-- most 16 printable ASCII characters, and the build is empty or the decimal digits of a number below 100000.
pub parse_client_info-Returns :
    (pdu : Bytes)
    → All IsByte pdu
    → (info : ClientInfo) × (parse_client_info pdu ≡ some info) × IsReadable info
unfolding parse_client_info
parse_client_info-Returns pdu bytes = Returns-some (elim (Option-cases (find_core pdu)) [
  | inl n ↦ rw (n, parse_client_info) (returns (omega arith))
  | inr (i, e) ↦
      rw (e, parse_client_info)
        (Returns-bind _ (read_build_lem pdu (i + 2 + 2 + 16) bytes) λ build b.
          Returns-bind _ (read_name_lem pdu (i + 2 + 2 + 20) bytes) λ name h. returns (record {
            name_printable = h.0;
            name_short = h.1;
            build_digits = b.0;
            build_small = b.1;
          }))
])
