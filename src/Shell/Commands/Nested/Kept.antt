-- ===== src/Shell/Commands/Nested/Kept.antt =====
-- The commands that run another one keep what that one keeps.
use honeynet.Base.{◌==◌, Option, List, [], ◌∷◌, ◌++◌, inl, inr, Option-cases, Bytes, codes, equal}
use honeynet.Shell.Session.{Shell}
use honeynet.Shell.Session.Kept.{gives, Gives-if, Gives-bind}
use honeynet.Shell.Evaluate.{Handler}
use honeynet.Shell.Evaluate.Kept.{IsTable}
use honeynet.Shell.Commands.{operands}
use honeynet.Shell.Commands.Sound.{IsSound, IsKept, Answers, none-Steps}
use honeynet.Shell.Commands.Nested.{
  Runner, fields, cmd_sudo, cmd_xargs, run_sudo, run_xargs, run_nohup, cmd_nohup, applets,
  is_applet, cmd_busybox,
}

module _ (run : Runner)
    (kept : (s : Shell) (argv : List Bytes) (stdin : Bytes)
      → IsSound s.cwd s.fs
      → Answers s (run s argv stdin)) where
  run_sudo-Steps :
      (s : Shell) (ops : List Bytes) (stdin : Bytes)
      → IsSound s.cwd s.fs
      → Answers s (run_sudo run s ops stdin)
  run_sudo-Steps s [] stdin v = gives none-Steps
  run_sudo-Steps s (op ∷ ops) stdin v =
      Gives-if (s.uid == 0) (kept s (op ∷ ops) stdin v) (gives none-Steps)

  pub cmd_sudo-IsKept : IsKept (cmd_sudo run)
  unfolding cmd_sudo
  cmd_sudo-IsKept s name args stdin v = run_sudo-Steps s (operands args) stdin v

  run_xargs-Steps :
      (s : Shell) (ops : List Bytes) (stdin : Bytes)
      → IsSound s.cwd s.fs
      → Answers s (run_xargs run s ops stdin)
  run_xargs-Steps s [] stdin v = gives none-Steps
  run_xargs-Steps s (op ∷ ops) stdin v = kept s (op ∷ ops ++ fields stdin) [] v

  pub cmd_xargs-IsKept : IsKept (cmd_xargs run)
  unfolding cmd_xargs
  cmd_xargs-IsKept s name args stdin v = run_xargs-Steps s (operands args) stdin v

  run_nohup-Steps :
      (s : Shell) (name : Bytes) (ops : List Bytes) (stdin : Bytes)
      → IsSound s.cwd s.fs
      → Answers s (run_nohup run s name ops stdin)
  run_nohup-Steps s name [] stdin v = gives none-Steps
  run_nohup-Steps s name (op ∷ ops) stdin v =
      Gives-bind _ (kept s (op ∷ ops) stdin v) λ r h. gives h

  pub cmd_nohup-IsKept : IsKept (cmd_nohup run)
  unfolding cmd_nohup
  cmd_nohup-IsKept s name args stdin v = run_nohup-Steps s name _ stdin v

module _ (builtins : Bytes → Option Handler) (table : IsTable Unit IsSound builtins) where
  pub cmd_busybox-IsKept : IsKept (cmd_busybox builtins)
  unfolding cmd_busybox
  cmd_busybox-IsKept s name [] stdin v = gives none-Steps
  cmd_busybox-IsKept s name (applet ∷ args) stdin v =
      Gives-if (equal applet (codes "--list")) (gives none-Steps) (
        Gives-if (is_applet applet applets)
          (elim (Option-cases (builtins applet)) [
            | inl unknown ↦ rw unknown (gives none-Steps)
            | inr (fn, known) ↦ rw known (table applet fn known s applet args stdin v)
          ])
          (gives none-Steps))
