-- ===== src/Shell/Commands/Lines.antt =====
-- node/internal/shell/commands.go: the commands that print some of the lines of a text.
pub mod Kept
mod Tests
use honeynet.Base.{
  ℕ, zero, suc, ◌+◌, ◌-◌, ◌*◌, ◌^◌, Bool, true, false, not, ◌&&◌, ◌||◌, Option, none, some, ◌>>=◌,
  List, [], ◌∷◌, ◌++◌, ◌==◌, ltb, leb, if◌then◌else◌, length, take, drop, Bytes, codes, equal,
  has_prefix, is_empty, split_on, join, assign, sort_by, trim_space,
}
use honeynet.Rdp.{itoa}
use honeynet.Vfs.{Result, ok, err, panic, read_file}
use honeynet.Vfs.Paths.{clean}
use honeynet.Shell.Urls.{index}
use honeynet.Shell.Session.{Shell}
use honeynet.Shell.Evaluate.{Handler}
use honeynet.Shell.Commands.{Answer, has_flag, operands}
use honeynet.Shell.Commands.Nested.{fields}
use honeynet.Shell.Commands.State.{blanks}

-- `strconv.Atoi`: whether the number is negative, and how large it is.
pub decimal_from : ℕ → Bytes → Option ℕ
decimal_from n [] = some n
decimal_from n (c ∷ str) =
    let rest = decimal_from (10 * n + (c - b'0')) str in
    if leb b'0' c && leb c b'9' then rest else none

pub decimal : Bytes → Option ℕ
decimal [] = none
decimal (c ∷ str) = decimal_from 0 (c ∷ str)

abbrev below : ℕ → Bool → Option ℕ → Option (Bool × ℕ)
below bound negative none = none
below bound negative (some n) = if ltb n bound then some (negative, n) else none

pub atoi : Bytes → Option (Bool × ℕ)
atoi [] = none
atoi (c ∷ str) =
    if c == b'-'
    then below (2 ^ 63 + 1) true (decimal str)
    else if c == b'+'
    then below (2 ^ 63) false (decimal str)
    else below (2 ^ 63) false (decimal (c ∷ str))

-- The count that the arguments give, with the one so far.
abbrev or_number : Bool × ℕ → Option (Bool × ℕ) → Bool × ℕ
or_number count none = count
or_number count (some n) = n

pub count_of : Bool × ℕ → List Bytes → Bool × ℕ
count_of count [] = count
count_of count (a ∷ []) =
    if has_prefix (codes "-n") a && ltb 2 (length a)
    then or_number count (atoi (drop 2 a))
    else if has_prefix (codes "-") a && ltb 1 (length a)
    then or_number count (atoi (drop 1 a))
    else count
count_of count (a ∷ b ∷ args) =
    count_of
      (if equal a (codes "-n")
        then or_number count (atoi b)
        else if has_prefix (codes "-n") a && ltb 2 (length a)
        then or_number count (atoi (drop 2 a))
        else if has_prefix (codes "-") a && ltb 1 (length a)
        then or_number count (atoi (drop 1 a))
        else count)
      (b ∷ args)

-- The file that the arguments name.
pub file_of : Bool → List Bytes → Option Bytes
file_of skip [] = none
file_of true (f ∷ args) = file_of false args
file_of false (f ∷ args) = elim (equal f (codes "-n")) [
  | true ↦ file_of true args
  | false ↦ elim (has_prefix (codes "-") f) [ true ↦ file_of false args | false ↦ some f ]
]

pub trim_newline : Bytes → Bytes
trim_newline [] = []
trim_newline (c ∷ []) = if c == b'\n' then [] else c ∷ []
trim_newline (c ∷ d ∷ str) = c ∷ trim_newline (d ∷ str)

abbrev pub lines_of : Bytes → List Bytes
lines_of content = split_on b'\n' (trim_newline content)

abbrev pub is_blank : List Bytes → Bool
is_blank ([] ∷ []) = true
is_blank lines = false

-- The lines from the front or from the back. A negative count slices out of range.
pub some_lines : Bool → Bool × ℕ → List Bytes → Option Bytes
some_lines head (true, zero) lines = some (codes "\n")
some_lines head (true, suc n) lines = none
some_lines head (false, n) lines =
    let count = if ltb (length lines) n then length lines else n in
    some (
      join b'\n' (if head then take count lines else drop (length lines - count) lines)
      ++ codes "\n")

pub print_lines : Shell → Bool → Bool × ℕ → Bytes → Answer
print_lines s head count content =
    let lines = lines_of content in
    if is_blank lines
    then some ([], 0, s)
    else do out ← some_lines head count lines; some (out, 0, s)

pub head_tail : Shell → List Bytes → Bytes → Bool → Answer
head_tail s args stdin head =
    let count = count_of (false, 10) args in
    elim (file_of false args) [
      | none ↦ print_lines s head count stdin
      | some f ↦ elim (read_file s.fs s.clock (clean s.cwd f)) [
        | panic ↦ none
        | err e ↦ some (
          codes "head: cannot open '" ++ f ++ codes "' for reading: No such file or directory\n",
          1,
          s,
        )
        | ok content ↦ print_lines s head count content
      ]
    ]

pub cmd_head : Handler
cmd_head s name args stdin = head_tail s args stdin true

pub cmd_tail : Handler
cmd_tail s name args stdin = head_tail s args stdin false

-- The text of the first operand, if it can be read.
pub text_of : Shell → List Bytes → Bytes → Option Bytes
text_of s [] stdin = some stdin
text_of s (f ∷ files) stdin = elim (read_file s.fs s.clock (clean s.cwd f)) [
  | panic ↦ none
  | err e ↦ some stdin
  | ok content ↦ some content
]

pub dedupe_from : List Bytes → List Bytes → List Bytes
dedupe_from seen [] = []
dedupe_from seen (l ∷ lines) =
    let rest = dedupe_from (l ∷ seen) lines in if was_seen l seen then rest else l ∷ rest
  where
    was_seen : Bytes → List Bytes → Bool
    was_seen l [] = false
    was_seen l (k ∷ ks) = equal l k || was_seen l ks

pub reverse_onto : List Bytes → List Bytes → List Bytes
reverse_onto done [] = done
reverse_onto done (l ∷ lines) = reverse_onto (l ∷ done) lines

pub cmd_sort : Handler
cmd_sort s name args stdin = do
  content ← text_of s (operands args) stdin
  let sorted = sort_by (λ l. l) (lines_of content)
  let ordered = if has_flag args (codes "-r" ∷ []) then reverse_onto [] sorted else sorted
  let unique = if has_flag args (codes "-u" ∷ []) then dedupe_from [] ordered else ordered
  some (join b'\n' unique ++ codes "\n", 0, s)

pub without_repeats : List Bytes → List Bytes
without_repeats [] = []
without_repeats (l ∷ []) = l ∷ []
without_repeats (l ∷ k ∷ lines) =
    let rest = without_repeats (k ∷ lines) in if equal k l then l ∷ drop 1 rest else l ∷ rest

pub cmd_uniq : Handler
cmd_uniq s name args stdin =
    some (join b'\n' (without_repeats (lines_of stdin)) ++ codes "\n", 0, s)

pub repeat : ℕ → Bytes → Bytes
repeat zero word = []
repeat (suc n) word = word ++ repeat n word

pub cmd_yes : Handler
cmd_yes s name args stdin = elim (operands args) [
  | [] ↦ some (repeat 100 (codes "y\n"), 0, s)
  | op ∷ ops ↦ some (repeat 100 (op ++ codes "\n"), 0, s)
]
