-- ===== src/Shell/Commands/Nested.antt =====
-- node/internal/shell/commands.go: the commands that run another one. `run` is `runStage` of a stage
-- with these words.
pub mod Kept
pub mod Shorter
use honeynet.Base.{
  ℕ, zero, suc, Bool, true, false, not, ◌&&◌, ◌||◌, Option, none, some, ◌>>=◌, List, [], ◌∷◌, ◌++◌,
  ◌==◌, if◌then◌else◌, Bytes, codes, equal, is_empty, join, decode_rune, is_space,
}
use honeynet.Shell.Session.{Shell}
use honeynet.Shell.Evaluate.{Handler}
use honeynet.Shell.Commands.{Answer, operands}

-- `strings.Fields`, a rune at a time: the number is that of the bytes which the last rune took, and
-- the test says whether they belong to the field.
abbrev close_field : Bytes → List Bytes → List Bytes
close_field [] rest = rest
close_field (c ∷ field) rest = (c ∷ field) ∷ rest

pub fields_from : ℕ → Bool → Bytes → Bytes → List Bytes
fields_from skip inside field [] = close_field field []
fields_from (suc skip) true field (a ∷ str) = fields_from skip true (field ++ a ∷ []) str
fields_from (suc skip) false field (a ∷ str) = fields_from skip false field str
fields_from zero inside field (a ∷ str) = elim (is_space (decode_rune a str).0) [
  | true ↦ close_field field (fields_from (decode_rune a str).1 false [] str)
  | false ↦ fields_from (decode_rune a str).1 true (field ++ a ∷ []) str
]

pub fields : Bytes → List Bytes
fields str = fields_from 0 false [] str

abbrev pub Runner : Type 0
Runner = Shell → List Bytes → Bytes → Answer

-- `timeout` skips its duration.
pub without_duration : Bytes → List Bytes → List Bytes
without_duration name (a ∷ b ∷ ops) = if equal name (codes "timeout") then b ∷ ops else a ∷ b ∷ ops
without_duration name ops = ops

module _ (run : Runner) where
  abbrev pub run_sudo : Shell → List Bytes → Bytes → Answer
  run_sudo s [] stdin = some (codes "usage: sudo -h | -K | -k | -V\n", 1, s)
  run_sudo s (op ∷ ops) stdin =
      if s.uid == 0
      then run s (op ∷ ops) stdin
      else some (
        codes "[sudo] password for " ++ s.user ++ codes ": \nsudo: 1 incorrect password attempt\n",
        1,
        s,
      )

  pub cmd_sudo : Handler
  cmd_sudo s name args stdin = run_sudo s (operands args) stdin

  abbrev pub run_xargs : Shell → List Bytes → Bytes → Answer
  run_xargs s [] stdin = some ([], 0, s)
  run_xargs s (op ∷ ops) stdin = run s (op ∷ ops ++ fields stdin) []

  pub cmd_xargs : Handler
  cmd_xargs s name args stdin = run_xargs s (operands args) stdin

  abbrev pub run_nohup : Shell → Bytes → List Bytes → Bytes → Answer
  run_nohup s name [] stdin = some ([], 0, s)
  run_nohup s name (op ∷ ops) stdin = do
    (out, code, t) ← run s (op ∷ ops) stdin
    some (
      (if equal name (codes "nohup")
          then codes "nohup: ignoring input and appending output to 'nohup.out'\n" ++ out
          else out),
      code,
      t,
    )

  pub cmd_nohup : Handler
  cmd_nohup s name args stdin = run_nohup s name (without_duration name (operands args)) stdin

abbrev pub applets : List Bytes
applets =
    codes "arch"
    ∷ codes "ash"
    ∷ codes "awk"
    ∷ codes "base64"
    ∷ codes "basename"
    ∷ codes "cat"
    ∷ codes "chgrp"
    ∷ codes "chmod"
    ∷ codes "chown"
    ∷ codes "cp"
    ∷ codes "cut"
    ∷ codes "date"
    ∷ codes "dd"
    ∷ codes "df"
    ∷ codes "dmesg"
    ∷ codes "echo"
    ∷ codes "egrep"
    ∷ codes "env"
    ∷ codes "false"
    ∷ codes "fgrep"
    ∷ codes "find"
    ∷ codes "grep"
    ∷ codes "gunzip"
    ∷ codes "gzip"
    ∷ codes "head"
    ∷ codes "hostname"
    ∷ codes "id"
    ∷ codes "ifconfig"
    ∷ codes "kill"
    ∷ codes "killall"
    ∷ codes "ln"
    ∷ codes "ls"
    ∷ codes "md5sum"
    ∷ codes "mkdir"
    ∷ codes "mktemp"
    ∷ codes "more"
    ∷ codes "mount"
    ∷ codes "mv"
    ∷ codes "netstat"
    ∷ codes "nslookup"
    ∷ codes "ping"
    ∷ codes "ps"
    ∷ codes "pwd"
    ∷ codes "rm"
    ∷ codes "rmdir"
    ∷ codes "route"
    ∷ codes "sed"
    ∷ codes "sh"
    ∷ codes "sleep"
    ∷ codes "sort"
    ∷ codes "stty"
    ∷ codes "sync"
    ∷ codes "tail"
    ∷ codes "tar"
    ∷ codes "tee"
    ∷ codes "telnet"
    ∷ codes "test"
    ∷ codes "top"
    ∷ codes "touch"
    ∷ codes "tr"
    ∷ codes "true"
    ∷ codes "uname"
    ∷ codes "uniq"
    ∷ codes "uptime"
    ∷ codes "wc"
    ∷ codes "wget"
    ∷ codes "which"
    ∷ codes "whoami"
    ∷ codes "xargs"
    ∷ codes "yes"
    ∷ codes "zcat"
    ∷ []

abbrev busybox_usage : Bytes
busybox_usage =
    codes "BusyBox v1.30.1 (2021-06-07 21:19:47 UTC) multi-call binary.\n"
    ++ codes "BusyBox is copyrighted by many authors between 1998-2015.\n"
    ++ codes "Licensed under GPLv2. See source distribution for detailed\n"
    ++ codes "copyright notices.\n\n"
    ++ codes "Usage: busybox [function [arguments]...]\n"
    ++ codes "   or: busybox --list\n\n"
    ++ codes "Currently defined functions:\n"
    ++ codes "\t[, [[, arch, ash, awk, base64, basename, cat, chgrp, chmod, chown,\n"
    ++ codes "\tcp, cut, date, dd, df, dmesg, echo, egrep, env, false, fgrep, find,\n"
    ++ codes "\tgrep, gunzip, gzip, head, hostname, id, ifconfig, kill, killall, ln,\n"
    ++ codes "\tls, md5sum, mkdir, mktemp, more, mount, mv, netstat, nslookup, ping,\n"
    ++ codes "\tps, pwd, rm, rmdir, route, sed, sh, sleep, sort, stty, sync, tail,\n"
    ++ codes "\ttar, tee, telnet, test, top, touch, tr, true, uname, uniq, uptime,\n"
    ++ codes "\twc, wget, which, whoami, xargs, yes, zcat\n"

pub is_applet : Bytes → List Bytes → Bool
is_applet applet [] = false
is_applet applet (a ∷ more) = equal a applet || is_applet applet more

abbrev pub run_applet : Option Handler → Handler
run_applet (some fn) s applet args stdin = fn s applet args stdin
run_applet none s applet args stdin = some ([], 0, s)

module _ (builtins : Bytes → Option Handler) where
  pub cmd_busybox : Handler
  cmd_busybox s name [] stdin = some (busybox_usage, 0, s)
  cmd_busybox s name (applet ∷ args) stdin =
      if equal applet (codes "--list")
      then some (join b'\n' applets ++ codes "\n", 0, s)
      else if is_applet applet applets
      then run_applet (builtins applet) s applet args stdin
      else some (applet ++ codes ": applet not found\n", 127, s)
