-- ===== src/Shell/Commands/Echo.antt =====
-- node/internal/shell/commands.go: `echo`, with the escapes of `-e` and the variables.
pub mod Captured
pub mod Kept
mod Tests
use honeynet.Base.{
  ℕ, zero, suc, ◌+◌, ◌-◌, ◌*◌, Bool, true, false, not, ◌&&◌, ◌||◌, Option, none, some, List, [],
  ◌∷◌, ◌++◌, map, ◌==◌, leb, if◌then◌else◌, take, Bytes, codes, equal, is_empty, join,
}
use honeynet.Rdp.{itoa}
use honeynet.Shell.Session.{Shell, lookup_env}
use honeynet.Shell.Evaluate.{Handler, contains}

-- A hexadecimal digit of `strconv.ParseUint(…, 16, 8)`.
pub hex_digit : ℕ → Option ℕ
hex_digit c =
    if leb b'0' c && leb c b'9'
    then some (c - b'0')
    else if leb b'a' c && leb c b'f'
    then some (c - b'a' + 10)
    else if leb b'A' c && leb c b'F'
    then some (c - b'A' + 10)
    else none

-- What stands for an escape, and how many bytes behind the backslash it has. Two digits behind the
-- `x` are one byte.
pub hex_escape : Bytes → Bytes × ℕ
hex_escape (a ∷ b ∷ str) = elim (hex_digit a) [
  | none ↦ (codes "\\x", 1)
  | some hi ↦ elim (hex_digit b) [ none ↦ (codes "\\x", 1) | some lo ↦ ((16 * hi + lo) ∷ [], 3) ]
]
hex_escape _ = (codes "\\x", 1)

pub escape : ℕ → Bytes → Bytes × ℕ
escape c str =
    if c == b'n'
    then (codes "\n", 1)
    else if c == b't'
    then (codes "\t", 1)
    else if c == b'r'
    then (codes "\r", 1)
    else if c == b'0'
    then (0 ∷ [], 1)
    else if c == b'a'
    then (7 ∷ [], 1)
    else if c == b'b'
    then (8 ∷ [], 1)
    else if c == b'f'
    then (12 ∷ [], 1)
    else if c == b'v'
    then (11 ∷ [], 1)
    else if c == b'\\'
    then (codes "\\", 1)
    else if c == b'x'
    then hex_escape str
    else (b'\\' ∷ c ∷ [], 1)

-- The loop of `unescape`, with the number of bytes that an escape has used up.
pub unescape_from : ℕ → Bytes → Bytes
unescape_from used [] = []
unescape_from (suc used) (c ∷ str) = unescape_from used str
unescape_from zero (c ∷ []) = c ∷ []
unescape_from zero (c ∷ d ∷ str) =
    let here = if c == b'\\' then escape d str else (c ∷ [], 0) in
    here.0 ++ unescape_from here.1 (d ∷ str)

pub unescape : Bytes → Bytes
unescape str = unescape_from 0 str

pub is_name_char : ℕ → Bool
is_name_char c =
    c == b'_' || leb b'A' c && leb c b'Z' || leb b'a' c && leb c b'z' || leb b'0' c && leb c b'9'

pub name_length : Bytes → ℕ
name_length [] = 0
name_length (c ∷ str) = let rest = name_length str in if is_name_char c then suc rest else 0

-- `strings.IndexByte`
unfoldable pub index_byte : ℕ → Bytes → Option ℕ
index_byte c [] = none
index_byte c (b ∷ str) =
    let rest = index_byte c str in
    if b == c then some 0 else elim rest [ some i ↦ some (suc i) | none ↦ none ]

-- What stands for a reference, and how many bytes behind the dollar it has.
pub braced : List (Bytes × Bytes) → Bytes → Bytes × ℕ
braced env str = elim (index_byte b'}' str) [
  | none ↦ (codes "${", 1)
  | some n ↦ (lookup_env (take n str) env, n + 2)
]

pub reference : Shell → ℕ → Bytes → Bytes × ℕ
reference s c str =
    if c == b'{'
    then braced s.env str
    else if c == b'?'
    then (itoa s.exit_code, 1)
    else (let n = name_length (c ∷ str) in (lookup_env (take n (c ∷ str)) s.env, n))

-- The loop of `expand`.
pub expand_from : Shell → ℕ → Bytes → Bytes
expand_from s used [] = []
expand_from s (suc used) (c ∷ str) = expand_from s used str
expand_from s zero (c ∷ []) = c ∷ []
expand_from s zero (c ∷ d ∷ str) =
    let here = if c == b'$' then reference s d str else (c ∷ [], 0) in
    here.0 ++ expand_from s here.1 (d ∷ str)

pub expand : Shell → Bytes → Bytes
expand s str = if not (contains b'$' str) then str else expand_from s 0 str

-- The flags in front of the text.
pub record EchoFlags : Type 0 where
  pub no_newline : Bool
  pub interpret : Bool
  pub words : List Bytes

pub echo_flags : Bool → Bool → List Bytes → EchoFlags
echo_flags no_newline interpret [] = record {
  no_newline = no_newline;
  interpret = interpret;
  words = [];
}
echo_flags no_newline interpret (a ∷ args) = elim (equal a (codes "-n")) [
  | true ↦ echo_flags true interpret args
  | false ↦ elim (equal a (codes "-e")) [
    | true ↦ echo_flags no_newline true args
    | false ↦ elim (equal a (codes "-ne") || equal a (codes "-en")) [
      | true ↦ echo_flags true true args
      | false ↦ record { no_newline = no_newline; interpret = interpret; words = a ∷ args }
    ]
  ]
]

pub cmd_echo : Handler
cmd_echo s name args stdin =
    let is_printf = equal name (codes "printf") in
    let flags = echo_flags false is_printf args in
    let text = join b' ' (map (expand s) flags.words) in
    let out = if flags.interpret then unescape text else text in
    some ((if not flags.no_newline && not is_printf then out ++ codes "\n" else out), 0, s)
