-- ===== src/Shell/Commands/Search.antt =====
-- node/internal/shell/commands.go: the commands that search and count. `strings.ToLower` is a
-- parameter.
pub mod Kept
use honeynet.Base.{
  ℕ, zero, suc, ◌+◌, ◌-◌, Bool, true, false, not, ◌&&◌, ◌||◌, Option, none, some, ◌>>=◌, List, [],
  ◌∷◌, ◌++◌, ◌==◌, ltb, leb, if◌then◌else◌, length, get_elem?, drop, Bytes, codes, equal,
  has_prefix, trim_prefix, is_empty, split_on, join, assign, sort_by, trim_space,
}
use honeynet.Rdp.{itoa}
use honeynet.Vfs.{Result, ok, err, panic, read_file}
use honeynet.Vfs.Paths.{clean}
use honeynet.Shell.Urls.{index}
use honeynet.Shell.Session.{Shell}
use honeynet.Shell.Evaluate.{Handler, contains}
use honeynet.Shell.Commands.{Answer, has_flag, operands}
use honeynet.Shell.Commands.Nested.{fields}
use honeynet.Shell.Commands.State.{blanks}
use honeynet.Shell.Commands.Lines.{atoi, lines_of, text_of}

-- `strings.Contains`, with the pattern first.
abbrev holds : Bytes → Bytes → Bool
holds pattern str = elim (index pattern str) [ some i ↦ true | none ↦ false ]

-- The texts that grep reads, by their names; a file that cannot be read is left out.
pub sources : Shell → List (Bytes × Bytes) → List Bytes → Option (List (Bytes × Bytes))
sources s found [] = some found
sources s found (f ∷ files) = elim (read_file s.fs s.clock (clean s.cwd f)) [
  | panic ↦ none
  | err e ↦ sources s found files
  | ok content ↦ sources s (assign f content found) files
]

-- The lines of a text that match, or that do not.
pub matches : (Bytes → Bytes) → Bool → Bytes → List Bytes → List Bytes
matches fold invert needle [] = []
matches fold invert needle (line ∷ lines) =
    let rest = matches fold invert needle lines in
    let hit = holds needle (fold line) in
    if hit && invert || not hit && not invert then rest else line ∷ rest

abbrev kept_as : Bytes → Bytes
kept_as str = str

pub print_all : Bytes → List Bytes → Bytes
print_all label [] = []
print_all label (line ∷ lines) = label ++ line ++ codes "\n" ++ print_all label lines

-- What grep prints of the texts, and how many lines matched.
pub grep_all : (Bytes → Bytes) → Bool → Bool → Bool → Bytes → List (Bytes × Bytes) → Bytes × ℕ
grep_all fold invert count_only multi needle [] = ([], 0)
grep_all fold invert count_only multi needle ((name, text) ∷ texts) =
    let rest = grep_all fold invert count_only multi needle texts in
    let found = matches fold invert needle (split_on b'\n' text) in
    let label = if multi then name ++ codes ":" else [] in
    (
      (if count_only then label ++ itoa (length found) ++ codes "\n" else print_all label found)
          ++ rest.0,
      length found + rest.1,
    )

module _ (to_lower : Bytes → Bytes) where
  pub grep : Shell → List Bytes → Bytes → List (Bytes × Bytes) → Answer
  grep s args pattern texts =
      let fold = if has_flag args (codes "-i" ∷ []) then to_lower else kept_as in
      let out =
        grep_all fold (has_flag args (codes "-v" ∷ [])) (has_flag args (codes "-c" ∷ []))
          (ltb 1 (length texts)) (fold pattern) (sort_by (λ e. e.0) texts) in
      some (out.0, (if out.1 == 0 then 1 else 0), s)

  pub cmd_grep : Handler
  cmd_grep s name args stdin = elim (operands args) [
    | [] ↦ some (codes "Usage: grep [OPTION]... PATTERNS [FILE]...\n", 2, s)
    | pattern ∷ files ↦ elim files [
      | [] ↦ grep s args pattern (([], stdin) ∷ [])
      | f ∷ more ↦ do texts ← sources s [] (f ∷ more); grep s args pattern texts
    ]
  ]

pub count_byte : ℕ → Bytes → ℕ
count_byte c [] = 0
count_byte c (b ∷ str) = (if b == c then 1 else 0) + count_byte c str

abbrev padded : ℕ → Bytes → Bytes
padded width str = blanks (width - length str) ++ str

pub count_words : Shell → List Bytes → Bytes → Bytes → Answer
count_words s args label content =
    let lines = itoa (count_byte b'\n' content) in
    let words = itoa (length (fields content)) in
    let chars = itoa (length content) in
    if has_flag args (codes "-l" ∷ [])
    then some (lines ++ label ++ codes "\n", 0, s)
    else if has_flag args (codes "-w" ∷ [])
    then some (words ++ label ++ codes "\n", 0, s)
    else if has_flag args (codes "-c" ∷ [])
    then some (chars ++ label ++ codes "\n", 0, s)
    else some (
      padded 7 lines
          ++ codes " "
          ++ padded 7 words
          ++ codes " "
          ++ padded 7 chars
          ++ label
          ++ codes "\n",
      0,
      s,
    )

pub cmd_wc : Handler
cmd_wc s name args stdin = elim (operands args) [
  | [] ↦ count_words s args [] stdin
  | f ∷ files ↦ elim (read_file s.fs s.clock (clean s.cwd f)) [
    | panic ↦ none
    | err e ↦ some (codes "wc: " ++ f ++ codes ": No such file or directory\n", 1, s)
    | ok content ↦ count_words s args (codes " " ++ f) content
  ]
]

-- `strings.Trim(s, cutset)` of a cutset in ASCII.
pub trim_front : Bytes → Bytes → Bytes
trim_front cutset [] = []
trim_front cutset (c ∷ str) =
    let rest = trim_front cutset str in if contains c cutset then rest else c ∷ str

pub trim_back : Bytes → Bytes → Bytes
trim_back cutset [] = []
trim_back cutset (c ∷ str) =
    let rest = trim_back cutset str in if is_empty rest && contains c cutset then [] else c ∷ rest

abbrev pub trim_set : Bytes → Bytes → Bytes
trim_set cutset str = trim_back cutset (trim_front cutset str)

abbrev nth_field : Option (Bool × ℕ) → List Bytes → Bytes
nth_field (some (false, suc n)) fs = elim (get_elem? fs n) [ some f ↦ f | none ↦ [] ]
nth_field _ fs = []

pub awk_lines : Bytes → List Bytes → Bytes
awk_lines spec [] = []
awk_lines spec (line ∷ lines) =
    (if is_empty spec || equal spec (codes "$0")
      then line ++ codes "\n"
      else if has_prefix (codes "$") spec
      then nth_field (atoi (drop 1 spec)) (fields line) ++ codes "\n"
      else [])
    ++ awk_lines spec lines

pub cmd_awk : Handler
cmd_awk s name args stdin = elim (operands args) [
  | [] ↦ some ([], 0, s)
  | op ∷ ops ↦
      let prog = trim_set (codes "{} ") op in
      if not (has_prefix (codes "print") prog)
      then some ([], 0, s)
      else some (awk_lines (trim_space (trim_prefix (codes "print") prog)) (lines_of stdin), 0, s)
]

-- The printable runs of at least four bytes.
abbrev long_enough : Bytes → Bytes
long_enough run = if leb 4 (length run) then run ++ codes "\n" else []

pub strings_from : Bytes → Bytes → Bytes
strings_from run [] = long_enough run
strings_from run (c ∷ content) = elim (leb 32 c && ltb c 127) [
  | true ↦ strings_from (run ++ c ∷ []) content
  | false ↦ long_enough run ++ strings_from [] content
]

pub cmd_strings : Handler
cmd_strings s name args stdin = do
  content ← text_of s (operands args) stdin
  some (strings_from [] content, 0, s)

-- `mount` prints the mounts of /proc/mounts.
abbrev print_mount : List Bytes → Bytes
print_mount (a ∷ b ∷ c ∷ d ∷ more) =
    a ++ codes " on " ++ b ++ codes " type " ++ c ++ codes " (" ++ d ++ codes ")\n"
print_mount _ = []

pub print_mounts : List Bytes → Bytes
print_mounts [] = []
print_mounts (line ∷ lines) = print_mount (fields line) ++ print_mounts lines

pub cmd_mount : Handler
cmd_mount s name args stdin = elim (read_file s.fs s.clock (codes "/proc/mounts")) [
  | panic ↦ none
  | err e ↦ some (print_mounts (lines_of []), 0, s)
  | ok content ↦ some (print_mounts (lines_of content), 0, s)
]
