-- ===== src/Shell/Commands/Table/Kept.antt =====
-- Every command of the table keeps the file system valid and the working directory canonical, if
-- those that are not modelled do.
use mathlib.Core.Path.{subst}
use honeynet.Base.{
  ℕ, zero, suc, ◌≡◌, Option, some, List, Option-cases, inl, inr, Bytes, find, AllValues,
  AllValues-find,
}
use honeynet.Vfs.Paths.Canonical.{IsCanonical}
use honeynet.Shell.Parser.{no_stage}
use honeynet.Shell.Session.{Shell}
use honeynet.Shell.Evaluate.{Handler}
use honeynet.Shell.Evaluate.Stored.{IsValid-IsStoring}
use honeynet.Shell.Evaluate.Kept.{IsTable, run_stage-Steps}
use honeynet.Shell.Commands.Sound.{IsSound, IsKept, Answers}
use honeynet.Shell.Commands.Files.Kept.{
  cmd_cd-IsKept, cmd_pwd-IsKept, cmd_cat-IsKept, cmd_chmod-IsKept, cmd_chown-IsKept, cmd_rm-IsKept,
  cmd_mkdir-IsKept, cmd_rmdir-IsKept, cmd_touch-IsKept,
}
use honeynet.Shell.Commands.Moves.Kept.{
  cmd_mv-IsKept, cmd_cp-IsKept, cmd_ln-IsKept, cmd_tee-IsKept, cmd_readlink-IsKept,
  cmd_basename-IsKept, cmd_dirname-IsKept, cmd_realpath-IsKept,
}
use honeynet.Shell.Commands.State.Kept.{
  cmd_history-IsKept, cmd_crontab-IsKept, cmd_export-IsKept, cmd_env-IsKept, cmd_unset-IsKept,
  cmd_exit-IsKept, cmd_clear-IsKept, cmd_su-IsKept, cmd_passwd-IsKept, cmd_kill-IsKept,
  cmd_which-IsKept, cmd_whoami-IsKept, cmd_id-IsKept, cmd_groups-IsKept, cmd_true-IsKept,
  cmd_false-IsKept, cmd_tty-IsKept, cmd_umask-IsKept, cmd_reboot-IsKept, cmd_useradd-IsKept,
}
use honeynet.Shell.Commands.Echo.Kept.{cmd_echo-IsKept}
use honeynet.Shell.Commands.Lines.Kept.{
  cmd_head-IsKept, cmd_tail-IsKept, cmd_sort-IsKept, cmd_uniq-IsKept, cmd_yes-IsKept,
}
use honeynet.Shell.Commands.Search.Kept.{
  cmd_grep-IsKept, cmd_wc-IsKept, cmd_awk-IsKept, cmd_strings-IsKept, cmd_mount-IsKept,
}
use honeynet.Shell.Commands.Fetch.Kept.{cmd_curl-IsKept, cmd_tftp-IsKept}
use honeynet.Shell.Commands.Fixed.Kept.{
  cmd_users-IsKept, cmd_ftp-IsKept, cmd_netcat-IsKept, cmd_base64-IsKept, cmd_tar-IsKept,
  cmd_unzip-IsKept, cmd_gzip-IsKept, cmd_lsof-IsKept, cmd_scp-IsKept, cmd_ssh-IsKept,
  cmd_iptables-IsKept, cmd_editor-IsKept, cmd_interp-IsKept, cmd_apt-IsKept, cmd_whereis-IsKept,
}
use honeynet.Shell.Commands.Nested.{Runner}
use honeynet.Shell.Commands.Nested.Kept.{
  cmd_sudo-IsKept, cmd_xargs-IsKept, cmd_nohup-IsKept, cmd_busybox-IsKept,
}
use honeynet.Shell.Commands.Table.{plain, nested, or_else, runner, builtins}

infixr 4 ◌and◌
◌and◌ : {A B : Type 0} → A → B → A × B
h and k = (h, k)

plain-IsKept : (to_lower : Bytes → Bytes) → AllValues IsKept (plain to_lower)
plain-IsKept to_lower =
    cmd_cd-IsKept
    and cmd_pwd-IsKept
    and cmd_cat-IsKept
    and cmd_echo-IsKept
    and cmd_echo-IsKept
    and cmd_whoami-IsKept
    and cmd_id-IsKept
    and cmd_groups-IsKept
    and cmd_chmod-IsKept
    and cmd_chown-IsKept
    and cmd_chown-IsKept
    and cmd_rm-IsKept
    and cmd_mkdir-IsKept
    and cmd_rmdir-IsKept
    and cmd_touch-IsKept
    and cmd_mv-IsKept
    and cmd_cp-IsKept
    and cmd_ln-IsKept
    and cmd_history-IsKept
    and cmd_crontab-IsKept
    and cmd_which-IsKept
    and cmd_which-IsKept
    and cmd_tee-IsKept
    and cmd_true-IsKept
    and cmd_false-IsKept
    and cmd_export-IsKept
    and cmd_env-IsKept
    and cmd_env-IsKept
    and cmd_unset-IsKept
    and cmd_exit-IsKept
    and cmd_exit-IsKept
    and cmd_exit-IsKept
    and cmd_su-IsKept
    and cmd_passwd-IsKept
    and cmd_kill-IsKept
    and cmd_kill-IsKept
    and cmd_kill-IsKept
    and cmd_readlink-IsKept
    and cmd_basename-IsKept
    and cmd_dirname-IsKept
    and cmd_realpath-IsKept
    and cmd_true-IsKept
    and cmd_clear-IsKept
    and cmd_clear-IsKept
    and cmd_true-IsKept
    and cmd_tty-IsKept
    and cmd_true-IsKept
    and cmd_umask-IsKept
    and cmd_reboot-IsKept
    and cmd_reboot-IsKept
    and cmd_reboot-IsKept
    and cmd_reboot-IsKept
    and cmd_reboot-IsKept
    and cmd_useradd-IsKept
    and cmd_useradd-IsKept
    and cmd_useradd-IsKept
    and cmd_useradd-IsKept
    and cmd_useradd-IsKept
    and cmd_cat-IsKept
    and cmd_cat-IsKept
    and cmd_cat-IsKept
    and cmd_rm-IsKept
    and cmd_rm-IsKept
    and cmd_head-IsKept
    and cmd_tail-IsKept
    and cmd_sort-IsKept
    and cmd_uniq-IsKept
    and cmd_yes-IsKept
    and cmd_grep-IsKept to_lower
    and cmd_grep-IsKept to_lower
    and cmd_grep-IsKept to_lower
    and cmd_wc-IsKept
    and cmd_awk-IsKept
    and cmd_strings-IsKept
    and cmd_mount-IsKept
    and cmd_users-IsKept
    and cmd_curl-IsKept to_lower
    and cmd_tftp-IsKept
    and cmd_netcat-IsKept
    and cmd_netcat-IsKept
    and cmd_ftp-IsKept
    and cmd_whereis-IsKept
    and cmd_lsof-IsKept
    and cmd_apt-IsKept
    and cmd_apt-IsKept
    and cmd_apt-IsKept
    and cmd_apt-IsKept
    and cmd_interp-IsKept
    and cmd_interp-IsKept
    and cmd_interp-IsKept
    and cmd_interp-IsKept
    and cmd_interp-IsKept
    and cmd_interp-IsKept
    and cmd_tar-IsKept
    and cmd_unzip-IsKept
    and cmd_gzip-IsKept
    and cmd_scp-IsKept
    and cmd_scp-IsKept
    and cmd_ssh-IsKept
    and cmd_base64-IsKept
    and cmd_iptables-IsKept
    and cmd_editor-IsKept
    and cmd_editor-IsKept
    and cmd_editor-IsKept
    and cmd_editor-IsKept
    and tt

nested-IsKept :
    (run : Runner)
    → ((s : Shell) (argv : List Bytes) (stdin : Bytes)
        → IsSound s.cwd s.fs
        → Answers s (run s argv stdin))
    → (table : Bytes → Option Handler) → IsTable Unit IsSound table
    → AllValues IsKept (nested run table)
unfolding nested
nested-IsKept run kept table h =
    let nohup = cmd_nohup-IsKept run kept in
    (
      cmd_busybox-IsKept table h,
      (cmd_sudo-IsKept run kept, (nohup, (nohup, (nohup, (cmd_xargs-IsKept run kept, tt))))),
    )

some_inj : {a b : Handler} → some a ≡ some b → a ≡ b
some_inj p = cc

-- A table of entries in front of another one.
or_else-IsKept :
    (entries : List (Bytes × Handler)) (other : Bytes → Option Handler)
    → AllValues IsKept entries
    → IsTable Unit IsSound other
    → IsTable Unit IsSound (λ name. or_else (find name entries) (other name))
or_else-IsKept entries other h k name handler known = elim (Option-cases (find name entries)) [
  | inl missing ↦ k name handler (rw missing at known)
  | inr (fn, found) ↦
      subst IsKept (some_inj (rw found at known)) (AllValues-find IsKept name entries h found)
]

module _ (rest : Bytes → Option Handler) (to_lower : Bytes → Bytes) (stuck : Handler)
    (others : IsTable Unit IsSound rest) (last : IsKept stuck) where
  -- Of the commands that are modelled, none touches the counters of the session or reports a line,
  -- and each keeps the file system valid and the working directory canonical.
  pub builtins-IsTable : (depth : ℕ) → IsTable Unit IsSound (builtins rest to_lower stuck depth)
  unfolding builtins
  builtins-IsTable zero name handler known = subst IsKept (some_inj known) last
  builtins-IsTable (suc depth) name handler known =
      let below : IsTable Unit IsSound (builtins rest to_lower stuck depth) =
        builtins-IsTable depth in
      let run = runner rest to_lower stuck (builtins rest to_lower stuck depth) in
      let inner =
        nested-IsKept run
          (λ s argv stdin v.
            run_stage-Steps Unit IsSound (IsValid-IsStoring Unit IsCanonical)
              (builtins rest to_lower stuck depth) to_lower below s
              (record no_stage { argv = argv }) stdin v)
          (builtins rest to_lower stuck depth) below in
      or_else-IsKept (plain to_lower) _ (plain-IsKept to_lower)
        (or_else-IsKept (nested run (builtins rest to_lower stuck depth)) rest inner others) name
        handler known
