-- ===== src/Shell/Evaluate.antt =====
-- node/internal/shell: how a line is run. shell.go has the pipelines, commands.go the dispatch of a
-- stage; the answers of the commands are a table.
pub mod Kept
pub mod Argv
pub mod Stored
pub mod Redirected
pub mod Tests
use honeynet.Base.{
  ℕ, zero, suc, ◌+◌, ◌-◌, ◌%◌, ◌^◌, Bool, true, false, not, ◌&&◌, ◌||◌, Option, none, some, ◌>>=◌,
  List, [], ◌∷◌, ◌++◌, ◌==◌, ltb, leb, if◌then◌else◌, Bytes, codes, equal, has_prefix, is_empty,
  assign, trim_space,
}
use honeynet.Rdp.{itoa}
use honeynet.Vfs.{
  Error, not_found, not_dir, is_dir, permission, exists, not_empty, link_loop, quota_reached, Fs,
  Result, ok, err, panic, path_exists,
}
use honeynet.Vfs.Paths.{clean, path_base}
use honeynet.Vfs.Writes.{write_file, append_file}
use honeynet.Shell.Parser.{Pipeline, Stage, parse}
use honeynet.Shell.Urls.{extract_urls}
use honeynet.Shell.Session.{
  CommandEvent, Event, on_command, on_artifact, on_upload, Hooks, Limits, Shell, print, write, errf,
  write_prompt, Line, new_line, ReadError, eof, limit_exceeded, broken, Input, ReadLine, read_line,
}

-- A command by its name and arguments, and what the pipe holds: its output and exit code, with the
-- session behind it, or a panic.
abbrev pub Handler : Type 0
Handler = Shell → Bytes → List Bytes → Bytes → Option (Bytes × ℕ × Shell)

abbrev pub message : Error → Bytes
message not_found = codes "no such file or directory"
message not_dir = codes "not a directory"
message is_dir = codes "is a directory"
message permission = codes "permission denied"
message exists = codes "file exists"
message not_empty = codes "directory not empty"
message link_loop = codes "too many levels of symbolic links"
message quota_reached = codes "no space left on device"

unfoldable pub contains : ℕ → Bytes → Bool
contains c [] = false
contains c (b ∷ str) = let rest = contains c str in b == c || rest

-- `strings.SplitN(str, "=", 2)`
pub key_of : Bytes → Bytes
key_of [] = []
key_of (b ∷ str) = let rest = key_of str in if b == b'=' then [] else b ∷ rest

pub value_of : Bytes → Bytes
value_of [] = []
value_of (b ∷ str) = let rest = value_of str in if b == b'=' then str else rest

-- The assignments in front of a command.
unfoldable pub is_assignment : Bytes → Bool
is_assignment word =
    contains b'=' word
    && not (has_prefix (codes "-") word)
    && not (contains b'/' (key_of word) || contains b' ' (key_of word))

pub assign_all : Shell → List Bytes → Shell × List Bytes
assign_all s [] = (s, [])
assign_all s (word ∷ argv) = elim (is_assignment word) [
  | true ↦ assign_all (record s { env = assign (key_of word) (value_of word) s.env }) argv
  | false ↦ (s, word ∷ argv)
]

abbrev pub log : Shell → Event → Shell
log s e = record s { events = s.events ++ e ∷ [] }

abbrev pub is_empty_argv : List Bytes → Bool
is_empty_argv [] = true
is_empty_argv (word ∷ argv) = false

abbrev pub is_last : List Stage → Bool
is_last [] = true
is_last (next ∷ more) = false

-- Whether the list of a line ends behind a pipeline.
pub stops : Bytes → Shell → Bool
stops next s =
    equal next (codes "&&") && not (s.exit_code == 0)
    || equal next (codes "||") && s.exit_code == 0
    || s.exit_flag

module _ (builtins : Bytes → Option Handler) (to_lower : Bytes → Bytes) where
  -- The dispatch behind the assignments.
  pub dispatch : Shell → List Bytes → Bytes → Option (Bytes × ℕ × Shell)
  dispatch s [] stdin = some ([], 0, s)
  dispatch s (full ∷ args) stdin = elim (builtins (path_base full)) [
    | some handler ↦ handler s (path_base full) args stdin
    | none ↦
        if contains b'/' full
        then elim (path_exists s.fs (clean s.cwd full)) [
          | ok true ↦ some (codes "bash: " ++ full ++ codes ": Permission denied\n", 126, s)
          | ok false ↦
              some (codes "bash: " ++ full ++ codes ": No such file or directory\n", 127, s)
          | err e ↦ none
          | panic ↦ none
        ]
        else some (codes "bash: " ++ path_base full ++ codes ": command not found\n", 127, s)
  ]

  pub run_stage : Shell → Stage → Bytes → Option (Bytes × ℕ × Shell)
  run_stage s st stdin = let (t, argv) = assign_all s st.argv in dispatch t argv stdin

  pub refuse : Shell → Bytes → Error → Shell
  refuse s name e = record (errf s (codes "bash: " ++ name ++ codes ": " ++ message e)) {
    exit_code = 1;
  }

  -- Where the output of a stage goes, and what the next one reads.
  pub redirect_out_to : Shell → Bytes → Bytes → Option Shell
  redirect_out_to s name out =
      let target = clean s.cwd name in
      elim (write_file s.clock s.uid s.gid s.fs target out 0x1a4) [
        | panic ↦ none
        | err e ↦ some (refuse s name e)
        | ok fs ↦
            let t = record s { fs = fs } in
            if s.hooks.has_upload && not (is_empty out)
            then some (log t (on_upload target out name (codes "shell-redirect")))
            else some t
      ]

  pub append_out_to : Shell → Bytes → Bytes → Option Shell
  append_out_to s name out = elim (append_file s.clock s.uid s.gid s.fs (clean s.cwd name) out) [
    | panic ↦ none
    | err e ↦ some (refuse s name e)
    | ok fs ↦ some (record s { fs = fs })
  ]

  abbrev carries : Bytes → Shell → Bytes × Shell
  carries carry s = (carry, s)

  pub deliver : Shell → Stage → Bool → Bytes → Option (Bytes × Shell)
  deliver s st last out =
      if not (is_empty st.redirect_out)
      then (do t ← redirect_out_to s st.redirect_out out; some (carries [] t))
      else if not (is_empty st.redirect_append)
      then (do t ← append_out_to s st.redirect_append out; some (carries [] t))
      else if last
      then some ([], write s out)
      else some (out, s)

  pub run_stages : Shell → Bytes → List Stage → Option Shell
  run_stages s carry [] = some s
  run_stages s carry (st ∷ sts) = elim (is_empty_argv st.argv) [
    | true ↦ run_stages s carry sts
    | false ↦ do
      (out, code, t) ← run_stage s st carry
      (next, u) ← deliver (record t { exit_code = code }) st (is_last sts) out
      run_stages u next sts
  ]

  pub run_pipeline : Shell → Pipeline → Option Shell
  run_pipeline s pl = run_stages s [] pl.stages

  pub exec_pipelines : Shell → List Pipeline → Option Shell
  exec_pipelines s [] = some s
  exec_pipelines s (pl ∷ pls) = do
    t ← run_pipeline s pl
    elim (stops pl.next t) [ true ↦ some t | false ↦ exec_pipelines t pls ]

  pub exec_line : Shell → Bytes → Option Shell
  exec_line s line = exec_pipelines s (parse line)
