-- ===== src/Shell/Commands/State/Kept.antt =====
-- The commands on the session keep the file system valid and the working directory canonical.
use honeynet.Base.{
  refl, true, false, not, inl, inr, Bool-cases, Option, none, some, List, [], ◌∷◌, ◌++◌, ◌==◌,
  if◌then◌else◌, Bytes, codes, equal, is_empty, assign, delete, split_on,
}
use honeynet.Vfs.{read_file}
use honeynet.Vfs.Writes.Calls.{removes}
use honeynet.Shell.Session.{Shell, lookup_env}
use honeynet.Shell.Session.Kept.{panics, gives, Gives-if, Gives-bind}
use honeynet.Shell.Evaluate.{contains, key_of, value_of}
use honeynet.Shell.Evaluate.Kept.{Steps, Steps-trans}
use honeynet.Shell.Commands.{has_flag, operands}
use honeynet.Shell.Commands.Sound.{
  IsSound, IsKept, Answers, Adds, none-Steps, each-Steps, on_result, on_list,
}
use honeynet.Shell.Commands.Files.Kept.{tried, answer-Steps, anywhere}
use honeynet.Shell.Commands.State.{
  cmd_history, crontab_of, list_crontab, cmd_crontab, export_all, cmd_export, cmd_env, unset_all,
  cmd_unset, cmd_exit, cmd_clear, cmd_su, cmd_passwd, cmd_kill, search_path, which_one, cmd_which,
  cmd_whoami, cmd_id, cmd_groups, cmd_true, cmd_false, cmd_tty, cmd_umask, cmd_reboot, cmd_useradd,
}

pub cmd_history-IsKept : IsKept cmd_history
unfolding cmd_history
cmd_history-IsKept s name args stdin v =
    Gives-if _ (gives (record { counted = refl; holds = λ x. x })) (gives none-Steps)

list_crontab-Steps : (s : Shell) → Answers s (list_crontab s)
unfolding list_crontab
list_crontab-Steps s =
    on_result (read_file s.fs s.clock (crontab_of s)) (panics tt) (λ e. gives none-Steps)
      λ content. Gives-if (is_empty content) (gives none-Steps) (gives none-Steps)

pub cmd_crontab-IsKept : IsKept cmd_crontab
unfolding cmd_crontab
cmd_crontab-IsKept s name args stdin v = Gives-if _ (list_crontab-Steps s) (
    Gives-if _ (answer-Steps s _ (tried s 0 0 0 (removes (crontab_of s) false) _))
      (gives none-Steps))

abbrev set_one : Shell → Bytes → Shell
set_one s a = if contains b'=' a then record s { env = assign (key_of a) (value_of a) s.env } else s

set_one-Steps : (s : Shell) (a : Bytes) → Steps IsSound s (set_one s a)
set_one-Steps s a = elim (Bool-cases (contains b'=' a)) [
  | inl set ↦ rw (set, set_one) (record { counted = refl; holds = λ x. x })
  | inr other ↦ rw (other, set_one) none-Steps
]

export_all-Steps : (args : List Bytes) (s : Shell) → Steps IsSound s (export_all s args)
unfolding export_all
export_all-Steps [] s = none-Steps
export_all-Steps (a ∷ args) s =
    Steps-trans IsSound (set_one-Steps s a) (export_all-Steps args (set_one s a))

pub cmd_export-IsKept : IsKept cmd_export
unfolding cmd_export
cmd_export-IsKept s name args stdin v = gives (export_all-Steps args s)

pub cmd_env-IsKept : IsKept cmd_env
unfolding cmd_env
cmd_env-IsKept s name args stdin v = gives none-Steps

unset_all-Steps : (s : Shell) (args : List Bytes) → Steps IsSound s (unset_all s args)
unfolding unset_all
unset_all-Steps s [] = none-Steps
unset_all-Steps s (a ∷ args) =
    let less : Steps IsSound s (record s { env = delete a s.env }) = record {
      counted = refl;
      holds = λ x. x;
    } in
    Steps-trans IsSound less (unset_all-Steps (record s { env = delete a s.env }) args)

pub cmd_unset-IsKept : IsKept cmd_unset
unfolding cmd_unset
cmd_unset-IsKept s name args stdin v = gives (unset_all-Steps s args)

pub cmd_exit-IsKept : IsKept cmd_exit
unfolding cmd_exit
cmd_exit-IsKept s name args stdin v = gives (record { counted = refl; holds = λ x. x })

pub cmd_clear-IsKept : IsKept cmd_clear
unfolding cmd_clear
cmd_clear-IsKept s name args stdin v = gives none-Steps

pub cmd_su-IsKept : IsKept cmd_su
unfolding cmd_su
cmd_su-IsKept s name args stdin v =
    Gives-if (s.uid == 0) (gives (record { counted = refl; holds = λ x. x })) (gives none-Steps)

pub cmd_passwd-IsKept : IsKept cmd_passwd
unfolding cmd_passwd
cmd_passwd-IsKept s name args stdin v = gives none-Steps

pub cmd_kill-IsKept : IsKept cmd_kill
unfolding cmd_kill
cmd_kill-IsKept s name args stdin v =
    on_list (operands args) (gives none-Steps) λ op ops. gives none-Steps

which_one-Steps : (name : Bytes) (s : Shell) (a : Bytes) → Adds s (which_one name s a)
unfolding which_one
which_one-Steps name s a =
    Gives-bind _ (anywhere (search_path s a (split_on b':' (lookup_env (codes "PATH") s.env))))
      λ place h. said place
  where
    said :
        (place : Option Bytes)
        → Adds s (elim place [
          | some p ↦ some (
            (if equal name (codes "type") then a ++ codes " is " ++ p else p) ++ codes "\n",
            false,
            s,
          )
          | none ↦ some (
            (if equal name (codes "type")
                then codes "bash: type: " ++ a ++ codes ": not found\n"
                else []),
            true,
            s,
          )
        ])
    said (some p) = gives none-Steps
    said none = gives none-Steps

pub cmd_which-IsKept : IsKept cmd_which
unfolding cmd_which
cmd_which-IsKept s name args stdin v =
    each-Steps (which_one name) (which_one-Steps name) s (operands args)

pub cmd_whoami-IsKept : IsKept cmd_whoami
unfolding cmd_whoami
cmd_whoami-IsKept s name args stdin v = gives none-Steps

pub cmd_id-IsKept : IsKept cmd_id
unfolding cmd_id
cmd_id-IsKept s name args stdin v = Gives-if (has_flag args (codes "-u" ∷ [])) (gives none-Steps) (
    Gives-if (has_flag args (codes "-g" ∷ [])) (gives none-Steps) (
      Gives-if (has_flag args (codes "-un" ∷ [])) (gives none-Steps)
        (Gives-if (s.uid == 0) (gives none-Steps) (gives none-Steps))))

pub cmd_groups-IsKept : IsKept cmd_groups
unfolding cmd_groups
cmd_groups-IsKept s name args stdin v = Gives-if (s.uid == 0) (gives none-Steps) (gives none-Steps)

pub cmd_true-IsKept : IsKept cmd_true
unfolding cmd_true
cmd_true-IsKept s name args stdin v = gives none-Steps

pub cmd_false-IsKept : IsKept cmd_false
unfolding cmd_false
cmd_false-IsKept s name args stdin v = gives none-Steps

pub cmd_tty-IsKept : IsKept cmd_tty
unfolding cmd_tty
cmd_tty-IsKept s name args stdin v = Gives-if s.pty (gives none-Steps) (gives none-Steps)

pub cmd_umask-IsKept : IsKept cmd_umask
unfolding cmd_umask
cmd_umask-IsKept s name args stdin v = gives none-Steps

pub cmd_reboot-IsKept : IsKept cmd_reboot
unfolding cmd_reboot
cmd_reboot-IsKept s name args stdin v =
    Gives-if (not (s.uid == 0)) (gives none-Steps)
      (gives (record { counted = refl; holds = λ x. x }))

pub cmd_useradd-IsKept : IsKept cmd_useradd
unfolding cmd_useradd
cmd_useradd-IsKept s name args stdin v =
    Gives-if (not (s.uid == 0)) (gives none-Steps) (gives none-Steps)
