-- ===== src/Shell/Loop.antt =====
-- node/internal/shell/shell.go: what the hooks are told of a line, and the loop of a session.
pub mod Told
pub mod Counted
mod Tests
use honeynet.Base.{
  ℕ, zero, suc, ◌+◌, ◌-◌, ◌%◌, ◌^◌, Bool, true, false, not, ◌&&◌, ◌||◌, Option, none, some, ◌>>=◌,
  List, [], ◌∷◌, ◌++◌, ◌==◌, ltb, leb, if◌then◌else◌, Bytes, codes, equal, has_prefix, is_empty,
  assign, trim_space,
}
use honeynet.Rdp.{itoa}
use honeynet.Vfs.{
  Error, not_found, not_dir, is_dir, permission, exists, not_empty, link_loop, quota_reached, Fs,
  Result, ok, err, panic, path_exists,
}
use honeynet.Vfs.Paths.{clean, path_base}
use honeynet.Vfs.Writes.{write_file, append_file}
use honeynet.Shell.Parser.{Pipeline, Stage, parse}
use honeynet.Shell.Urls.{extract_urls}
use honeynet.Shell.Session.{
  CommandEvent, Event, on_command, on_artifact, on_upload, Hooks, Limits, Shell, print, write, errf,
  write_prompt, Line, new_line, ReadError, eof, limit_exceeded, broken, Input, ReadLine, read_line,
}
use honeynet.Shell.Evaluate.{Handler, log, exec_line}

pub report_urls : Bytes → Bytes → Shell → List Bytes → Shell
report_urls line tool s [] = s
report_urls line tool s (url ∷ urls) =
    report_urls line tool (log s (on_artifact url tool line)) urls

abbrev tool_of : List Bytes → Bytes
tool_of [] = []
tool_of (tool ∷ args) = tool

-- `argv` and `parseFailed` of `observe`.
abbrev pub first_argv : List Pipeline → List Bytes
first_argv [] = []
first_argv (pl ∷ pls) = elim pl.stages [ [] ↦ [] | st ∷ sts ↦ st.argv ]

abbrev pub first_command : Shell → Bytes → List ℕ → Bool → CommandEvent
first_command s line deltas bulk = record {
  raw = line;
  argv = first_argv (parse line);
  parse_failed = is_none (parse line);
  cwd_then = s.cwd;
  since_start = s.clock - s.started;
  since_prev = s.clock - s.last_cmd;
  keystroke_deltas_ms = deltas;
  bulk_input = bulk;
  index = s.cmd_index;
}
  where
    is_none : List Pipeline → Bool
    is_none [] = true
    is_none (pl ∷ pls) = false

pub tell_command : Shell → Bytes → List ℕ → Bool → Shell
tell_command s line deltas bulk =
    if s.hooks.has_command then log s (on_command (first_command s line deltas bulk)) else s

pub data End : Type 0 where
  session_ended : End
  over_limit : End
  failed : End
  -- the rounds are used up, which the code does not count
  unfinished : End

module _ (builtins : Bytes → Option Handler) (to_lower : Bytes → Bytes) where
  -- The loops of `observe` over the stages of the pipelines.
  pub report_stages : Bytes → Shell → List Stage → Option Shell
  report_stages line s [] = some s
  report_stages line s (st ∷ sts) = do
    urls ← extract_urls to_lower st.argv
    report_stages line (report_urls line (tool_of st.argv) s urls) sts

  pub report_pipelines : Bytes → Shell → List Pipeline → Option Shell
  report_pipelines line s [] = some s
  report_pipelines line s (pl ∷ pls) = do
    t ← report_stages line s pl.stages
    report_pipelines line t pls

  pub observe : Shell → Bytes → List ℕ → Bool → Option Shell
  observe s line deltas bulk = do
    t ←
        let told = tell_command s line deltas bulk in
        if s.hooks.has_artifact then report_pipelines line told (parse line) else some told
    some (record t { last_cmd = s.clock; cmd_index = (s.cmd_index + 1) % 2 ^ 32 })

  pub run_exec : Shell → Bytes → Option Shell
  run_exec s line = do t ← observe s line [] true; exec_line builtins to_lower t line

  -- `p.MOTD()`, and the time that many hours before the login, as `Format` writes it.
  module _ (motd : Bytes) (hours_before : ℕ → Bytes) where
    pub write_motd : Shell → Shell
    write_motd s =
        let greeted = if is_empty motd then s else print s motd in
        print greeted (
          codes "Last login: "
          ++ hours_before (3 + s.uid % 20)
          ++ codes " from 10.0.0."
          ++ itoa (20 + s.uid % 200)
          ++ codes "\r\n")

    -- A round of the loop: it goes on with the session and the input, or ends.
    pub rounds : ℕ → Shell → Input → Option (Shell × End)
    rounds zero s input = some (s, unfinished)
    rounds (suc left) s input = elim s.exit_flag [
      | true ↦ some (s, session_ended)
      | false ↦ elim (leb s.lim.max_commands s.cmd_index) [
        | true ↦ some (
          print s (codes "\r\n-bash: fork: retry: Resource temporarily unavailable\r\n"),
          over_limit,
        )
        | false ↦ elim (ltb s.lim.max_duration (s.clock - s.started)) [
          | true ↦ some (s, over_limit)
          | false ↦ do
            r ← let p = write_prompt s in read_line p (new_line p) input
            elim r.error [
              | some eof ↦ some (r.shell, session_ended)
              | some limit_exceeded ↦ some (r.shell, over_limit)
              | some broken ↦ some (r.shell, failed)
              | none ↦ elim (is_empty (trim_space r.line)) [
                | true ↦ rounds left r.shell r.rest
                | false ↦ do
                  t ←
                      observe (record r.shell { history = r.shell.history ++ r.line ∷ [] }) r.line
                        r.deltas r.bulk
                  u ← exec_line builtins to_lower t r.line
                  rounds left u r.rest
              ]
            ]
        ]
      ]
    ]

    pub run_interactive : ℕ → Shell → Input → Option (Shell × End)
    run_interactive left s input = rounds left (write_motd s) input
