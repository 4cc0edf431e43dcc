-- ===== src/Shell/Commands/Echo/Captured.antt =====
-- What `echo -ne` makes of a payload that is written out in hexadecimal.
use honeynet.Base.{
  ℕ, ◌+◌, ◌-◌, ◌*◌, ◌/◌, ◌%◌, ◌<◌, ◌≡◌, refl, true, false, some, List, [], ◌∷◌, arith, ltb, ◌==◌,
  if◌then◌else◌, All, IsByte, Bytes, codes, equal,
}
use honeynet.Shell.Parser.Redirected.{IsQuotable}
use honeynet.Shell.Session.{Shell}
use honeynet.Shell.Evaluate.{contains}
use honeynet.Shell.Commands.Echo.{
  hex_digit, hex_escape, escape, unescape_from, unescape, expand, echo_flags, cmd_echo,
}

-- The text of a payload: `\xNN` for each byte.
unfoldable pub hex_char : ℕ → ℕ
hex_char d = if ltb d 10 then b'0' + d else b'a' + (d - 10)

unfoldable pub hex_text : List ℕ → Bytes
hex_text [] = []
hex_text (n ∷ ns) = b'\\' ∷ b'x' ∷ hex_char (n / 16) ∷ hex_char (n % 16) ∷ hex_text ns

hex_digit-hex_char : (d : ℕ) → d < 16 → hex_digit (hex_char d) ≡ some d
unfolding hex_digit hex_char
hex_digit-hex_char d h = ground arith

hex_escape-digits :
    (a b hi lo : ℕ) (str : Bytes)
    → hex_digit a ≡ some hi
    → hex_digit b ≡ some lo
    → hex_escape (a ∷ b ∷ str) ≡ ((16 * hi + lo) ∷ [], 3)
unfolding hex_escape
hex_escape-digits a b hi lo str e f = rw (e, hex_escape, f) refl

unescape_from-hex_text : (ns : List ℕ) → All IsByte ns → unescape_from 0 (hex_text ns) ≡ ns
unfolding unescape_from hex_text escape
unescape_from-hex_text [] h = refl
unescape_from-hex_text (n ∷ ns) (h, hs) =
    let digits =
      hex_escape-digits (hex_char (n / 16)) (hex_char (n % 16)) (n / 16) (n % 16) (hex_text ns)
        (hex_digit-hex_char (n / 16) (omega arith)) (hex_digit-hex_char (n % 16) (omega arith)) in
    let whole : 16 * (n / 16) + n % 16 ≡ n = omega arith in
    let rest = unescape_from-hex_text ns hs in rw (digits, unescape_from, whole, rest) refl

-- It may stand between single quotes.
hex_char-IsQuotable : (d : ℕ) → d < 16 → IsQuotable (hex_char d)
unfolding hex_char
hex_char-IsQuotable d h = ground arith

pub hex_text-IsQuotable : (ns : List ℕ) → All IsByte ns → All IsQuotable (hex_text ns)
unfolding hex_text
hex_text-IsQuotable [] h = tt
hex_text-IsQuotable (n ∷ ns) (h, hs) =
    let backslash : IsQuotable b'\\' = ground arith in
    let letter : IsQuotable b'x' = ground arith in
    (
      backslash,
      (
        letter,
        (
          hex_char-IsQuotable (n / 16) (omega arith),
          (hex_char-IsQuotable (n % 16) (omega arith), hex_text-IsQuotable ns hs),
        ),
      ),
    )

-- No dollar in it.
hex_char_not_dollar : (d : ℕ) → (hex_char d == b'$') ≡ false
unfolding hex_char
hex_char_not_dollar d = ground arith

contains-hex_text : (ns : List ℕ) → contains b'$' (hex_text ns) ≡ false
unfolding contains hex_text
contains-hex_text [] = refl
contains-hex_text (n ∷ ns) =
    let hi = hex_char_not_dollar (n / 16) in
    let lo = hex_char_not_dollar (n % 16) in
    let rest = contains-hex_text ns in rw (hi, lo, rest) refl

expand-hex_text : (s : Shell) (ns : List ℕ) → expand s (hex_text ns) ≡ hex_text ns
unfolding expand
expand-hex_text s ns = let e = contains-hex_text ns in rw (e, expand) refl

-- The text is no flag.
echo_flags-hex_text :
    (ns : List ℕ)
    → echo_flags false false (codes "-ne" ∷ hex_text ns ∷ [])
      ≡ record { no_newline = true; interpret = true; words = hex_text ns ∷ [] }
unfolding echo_flags hex_text equal
echo_flags-hex_text [] = refl
echo_flags-hex_text (n ∷ ns) = refl

-- What `echo -ne` prints of a payload that is written as `\xNN` for each of its bytes is the payload:
-- no byte is lost or changed, no newline is added, and the session stays as it is.
pub cmd_echo-hex_text :
    (s : Shell) (payload stdin : Bytes)
    → All IsByte payload
    → cmd_echo s (codes "echo") (codes "-ne" ∷ hex_text payload ∷ []) stdin ≡ some (payload, 0, s)
unfolding cmd_echo unescape equal
cmd_echo-hex_text s payload stdin h =
    let flags = echo_flags-hex_text payload in
    let same = expand-hex_text s payload in
    let bytes = unescape_from-hex_text payload h in rw (flags, same, bytes) refl
