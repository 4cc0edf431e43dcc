-- ===== src/Shell/Commands/State.antt =====
-- node/internal/shell/commands.go: the commands on the state of the session.
pub mod Kept
mod Tests
use honeynet.Base.{
  ℕ, zero, suc, ◌+◌, ◌-◌, Bool, true, false, not, ◌&&◌, Option, none, some, ◌>>=◌, List, [], ◌∷◌,
  ◌++◌, ◌==◌, if◌then◌else◌, length, Bytes, codes, equal, is_empty, assign, delete, sort_by,
  split_on,
}
use honeynet.Rdp.{itoa}
use honeynet.Vfs.{Result, ok, err, panic, read_file, path_exists}
use honeynet.Vfs.Paths.{path_join}
use honeynet.Vfs.Writes.{remove}
use honeynet.Shell.Session.{Shell, lookup_env}
use honeynet.Shell.Evaluate.{Handler, contains, key_of, value_of}
use honeynet.Shell.Commands.{Answer, Step, has_flag, operands, each, attempt}
use honeynet.Shell.Commands.Files.{answer}

-- `%5d`
pub blanks : ℕ → Bytes
blanks zero = []
blanks (suc n) = b' ' ∷ blanks n

abbrev padded : ℕ → Bytes → Bytes
padded width str = blanks (width - length str) ++ str

pub numbered : ℕ → List Bytes → Bytes
numbered i [] = []
numbered i (h ∷ history) =
    padded 5 (itoa i) ++ codes "  " ++ h ++ codes "\n" ++ numbered (i + 1) history

pub cmd_history : Handler
cmd_history s name args stdin =
    if has_flag args (codes "-c" ∷ [])
    then some ([], 0, record s { history = [] })
    else some (numbered 1 s.history, 0, s)

abbrev pub crontab_of : Shell → Bytes
crontab_of s = codes "/var/spool/cron/crontabs/" ++ s.user

pub list_crontab : Shell → Answer
list_crontab s = elim (read_file s.fs s.clock (crontab_of s)) [
  | panic ↦ none
  | err e ↦ some (codes "no crontab for " ++ s.user ++ codes "\n", 1, s)
  | ok content ↦
      if is_empty content
      then some (codes "no crontab for " ++ s.user ++ codes "\n", 1, s)
      else some (content, 0, s)
]

pub cmd_crontab : Handler
cmd_crontab s name args stdin =
    if has_flag args (codes "-l" ∷ [])
    then list_crontab s
    else if has_flag args (codes "-r" ∷ [])
    then answer (attempt s (remove s.fs (crontab_of s) false) λ e. none)
    else some ([], 0, s)

pub export_all : Shell → List Bytes → Shell
export_all s [] = s
export_all s (a ∷ args) =
    export_all
      (if contains b'=' a then record s { env = assign (key_of a) (value_of a) s.env } else s) args

pub cmd_export : Handler
cmd_export s name args stdin = some ([], 0, export_all s args)

pub print_env : List (Bytes × Bytes) → Bytes
print_env [] = []
print_env ((k, v) ∷ env) = k ++ codes "=" ++ v ++ codes "\n" ++ print_env env

pub cmd_env : Handler
cmd_env s name args stdin = some (print_env (sort_by (λ e. e.0) s.env), 0, s)

pub unset_all : Shell → List Bytes → Shell
unset_all s [] = s
unset_all s (a ∷ args) = unset_all (record s { env = delete a s.env }) args

pub cmd_unset : Handler
cmd_unset s name args stdin = some ([], 0, unset_all s args)

pub cmd_exit : Handler
cmd_exit s name args stdin = some (codes "logout\n", 0, record s { exit_flag = true })

pub cmd_clear : Handler
cmd_clear s name args stdin = some (codes "\u{1b}[H\u{1b}[2J\u{1b}[3J", 0, s)

abbrev target_user : List Bytes → Bytes
target_user [] = codes "root"
target_user (op ∷ ops) = op

-- The delay of a refused `su` is time that passes, and no change of the session.
pub cmd_su : Handler
cmd_su s name args stdin =
    if s.uid == 0
    then some ([], 0, record s { user = target_user (operands args) })
    else some (codes "su: Authentication failure\n", 1, s)

pub cmd_passwd : Handler
cmd_passwd s name args stdin = some (
  codes "Changing password for "
      ++ s.user
      ++ codes
          ".\nCurrent password: \npasswd: Authentication token manipulation error\npasswd: password unchanged\n",
  1,
  s,
)

pub cmd_kill : Handler
cmd_kill s name args stdin = elim (operands args) [
  | [] ↦ some (
    name
        ++ codes ": usage: "
        ++ name
        ++ codes " [-s sigspec | -n signum | -sigspec] pid | jobspec ...\n",
    2,
    s,
  )
  | op ∷ ops ↦ some ([], 0, s)
]

-- The directories of PATH, up to the first that has the command.
pub search_path : Shell → Bytes → List Bytes → Option (Option Bytes)
search_path s a [] = some none
search_path s a (d ∷ dirs) = elim (path_exists s.fs (path_join d a)) [
  | ok true ↦ some (some (path_join d a))
  | ok false ↦ search_path s a dirs
  | err e ↦ none
  | panic ↦ none
]

pub which_one : Bytes → Shell → Bytes → Step
which_one name s a = do
  place ← search_path s a (split_on b':' (lookup_env (codes "PATH") s.env))
  elim place [
    | some p ↦
        some (
          (if equal name (codes "type") then a ++ codes " is " ++ p else p) ++ codes "\n",
          false,
          s,
        )
    | none ↦ some (
      (if equal name (codes "type")
          then codes "bash: type: " ++ a ++ codes ": not found\n"
          else []),
      true,
      s,
    )
  ]

pub cmd_which : Handler
cmd_which s name args stdin = each (which_one name) s (operands args)

pub cmd_whoami : Handler
cmd_whoami s name args stdin = some (s.user ++ codes "\n", 0, s)

pub cmd_id : Handler
cmd_id s name args stdin =
    if has_flag args (codes "-u" ∷ [])
    then some (itoa s.uid ++ codes "\n", 0, s)
    else if has_flag args (codes "-g" ∷ [])
    then some (itoa s.gid ++ codes "\n", 0, s)
    else if has_flag args (codes "-un" ∷ [])
    then some (s.user ++ codes "\n", 0, s)
    else if s.uid == 0
    then some (codes "uid=0(root) gid=0(root) groups=0(root)\n", 0, s)
    else some (
      codes "uid="
          ++ itoa s.uid
          ++ codes "("
          ++ s.user
          ++ codes ") gid="
          ++ itoa s.gid
          ++ codes "("
          ++ s.user
          ++ codes ") groups="
          ++ itoa s.gid
          ++ codes "("
          ++ s.user
          ++ codes "),4(adm),24(cdrom),27(sudo),30(dip),46(plugdev)\n",
      0,
      s,
    )

pub cmd_groups : Handler
cmd_groups s name args stdin =
    if s.uid == 0
    then some (codes "root\n", 0, s)
    else some (s.user ++ codes " adm cdrom sudo dip plugdev\n", 0, s)

pub cmd_true : Handler
cmd_true s name args stdin = some ([], 0, s)

pub cmd_false : Handler
cmd_false s name args stdin = some ([], 1, s)

pub cmd_tty : Handler
cmd_tty s name args stdin =
    if s.pty then some (codes "/dev/pts/0\n", 0, s) else some (codes "not a tty\n", 1, s)

pub cmd_umask : Handler
cmd_umask s name args stdin = some (codes "0022\n", 0, s)

pub cmd_reboot : Handler
cmd_reboot s name args stdin =
    if not (s.uid == 0)
    then some (name ++ codes ": Operation not permitted\n", 1, s)
    else some
        (codes "Connection to host closed by remote host.\n", 0, record s { exit_flag = true })

pub cmd_useradd : Handler
cmd_useradd s name args stdin =
    if not (s.uid == 0)
    then some (
      name
          ++ codes ": Permission denied.\n"
          ++ name
          ++ codes ": cannot lock /etc/passwd; try again later.\n",
      1,
      s,
    )
    else some ([], 0, s)
