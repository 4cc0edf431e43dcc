-- ===== src/Shell/Commands/Table.antt =====
-- node/internal/shell/commands.go: the dispatch table. `rest` has the commands that are not
-- modelled. A command that runs another one looks it up in the same table: the number bounds how
-- often, and `stuck` stands for every command behind that bound.
pub mod Kept
mod Ended
mod Dropped
mod Sound
mod Tests
use honeynet.Base.{
  ℕ, zero, suc, Bool, true, false, ◌||◌, Option, none, some, List, [], ◌∷◌, if◌then◌else◌, Bytes,
  codes, equal, find,
}
use honeynet.Shell.Parser.{no_stage}
use honeynet.Shell.Evaluate.{Handler, run_stage}
use honeynet.Shell.Commands.Files.{
  cmd_cd, cmd_pwd, cmd_cat, cmd_chmod, cmd_chown, cmd_rm, cmd_mkdir, cmd_rmdir, cmd_touch,
}
use honeynet.Shell.Commands.Moves.{
  cmd_mv, cmd_cp, cmd_ln, cmd_tee, cmd_readlink, cmd_basename, cmd_dirname, cmd_realpath,
}
use honeynet.Shell.Commands.State.{
  cmd_history, cmd_crontab, cmd_export, cmd_env, cmd_unset, cmd_exit, cmd_clear, cmd_su, cmd_passwd,
  cmd_kill, cmd_which, cmd_whoami, cmd_id, cmd_groups, cmd_true, cmd_false, cmd_tty, cmd_umask,
  cmd_reboot, cmd_useradd,
}
use honeynet.Shell.Commands.Echo.{cmd_echo}
use honeynet.Shell.Commands.Lines.{cmd_head, cmd_tail, cmd_sort, cmd_uniq, cmd_yes}
use honeynet.Shell.Commands.Search.{cmd_grep, cmd_wc, cmd_awk, cmd_strings, cmd_mount}
use honeynet.Shell.Commands.Fetch.{cmd_curl, cmd_tftp}
use honeynet.Shell.Commands.Fixed.{
  cmd_users, cmd_ftp, cmd_netcat, cmd_base64, cmd_tar, cmd_unzip, cmd_gzip, cmd_lsof, cmd_scp,
  cmd_ssh, cmd_iptables, cmd_editor, cmd_interp, cmd_apt, cmd_whereis,
}
use honeynet.Shell.Commands.Nested.{Runner, cmd_sudo, cmd_xargs, cmd_nohup, cmd_busybox}

-- The commands that run no other.
abbrev pub plain : (Bytes → Bytes) → List (Bytes × Handler)
plain to_lower =
    (codes "cd", cmd_cd)
    ∷ (codes "pwd", cmd_pwd)
    ∷ (codes "cat", cmd_cat)
    ∷ (codes "echo", cmd_echo)
    ∷ (codes "printf", cmd_echo)
    ∷ (codes "whoami", cmd_whoami)
    ∷ (codes "id", cmd_id)
    ∷ (codes "groups", cmd_groups)
    ∷ (codes "chmod", cmd_chmod)
    ∷ (codes "chown", cmd_chown)
    ∷ (codes "chgrp", cmd_chown)
    ∷ (codes "rm", cmd_rm)
    ∷ (codes "mkdir", cmd_mkdir)
    ∷ (codes "rmdir", cmd_rmdir)
    ∷ (codes "touch", cmd_touch)
    ∷ (codes "mv", cmd_mv)
    ∷ (codes "cp", cmd_cp)
    ∷ (codes "ln", cmd_ln)
    ∷ (codes "history", cmd_history)
    ∷ (codes "crontab", cmd_crontab)
    ∷ (codes "which", cmd_which)
    ∷ (codes "type", cmd_which)
    ∷ (codes "tee", cmd_tee)
    ∷ (codes "true", cmd_true)
    ∷ (codes "false", cmd_false)
    ∷ (codes "export", cmd_export)
    ∷ (codes "env", cmd_env)
    ∷ (codes "set", cmd_env)
    ∷ (codes "unset", cmd_unset)
    ∷ (codes "exit", cmd_exit)
    ∷ (codes "logout", cmd_exit)
    ∷ (codes "quit", cmd_exit)
    ∷ (codes "su", cmd_su)
    ∷ (codes "passwd", cmd_passwd)
    ∷ (codes "kill", cmd_kill)
    ∷ (codes "killall", cmd_kill)
    ∷ (codes "pkill", cmd_kill)
    ∷ (codes "readlink", cmd_readlink)
    ∷ (codes "basename", cmd_basename)
    ∷ (codes "dirname", cmd_dirname)
    ∷ (codes "realpath", cmd_realpath)
    ∷ (codes "sync", cmd_true)
    ∷ (codes "clear", cmd_clear)
    ∷ (codes "reset", cmd_clear)
    ∷ (codes "mesg", cmd_true)
    ∷ (codes "tty", cmd_tty)
    ∷ (codes "stty", cmd_true)
    ∷ (codes "umask", cmd_umask)
    ∷ (codes "reboot", cmd_reboot)
    ∷ (codes "shutdown", cmd_reboot)
    ∷ (codes "poweroff", cmd_reboot)
    ∷ (codes "halt", cmd_reboot)
    ∷ (codes "init", cmd_reboot)
    ∷ (codes "useradd", cmd_useradd)
    ∷ (codes "adduser", cmd_useradd)
    ∷ (codes "userdel", cmd_useradd)
    ∷ (codes "usermod", cmd_useradd)
    ∷ (codes "groupadd", cmd_useradd)
    ∷ (codes "more", cmd_cat)
    ∷ (codes "less", cmd_cat)
    ∷ (codes "zcat", cmd_cat)
    ∷ (codes "shred", cmd_rm)
    ∷ (codes "wipe", cmd_rm)
    ∷ (codes "head", cmd_head)
    ∷ (codes "tail", cmd_tail)
    ∷ (codes "sort", cmd_sort)
    ∷ (codes "uniq", cmd_uniq)
    ∷ (codes "yes", cmd_yes)
    ∷ (codes "grep", cmd_grep to_lower)
    ∷ (codes "egrep", cmd_grep to_lower)
    ∷ (codes "fgrep", cmd_grep to_lower)
    ∷ (codes "wc", cmd_wc)
    ∷ (codes "awk", cmd_awk)
    ∷ (codes "strings", cmd_strings)
    ∷ (codes "mount", cmd_mount)
    ∷ (codes "users", cmd_users)
    ∷ (codes "curl", cmd_curl to_lower)
    ∷ (codes "tftp", cmd_tftp)
    ∷ (codes "nc", cmd_netcat)
    ∷ (codes "netcat", cmd_netcat)
    ∷ (codes "ftp", cmd_ftp)
    ∷ (codes "whereis", cmd_whereis)
    ∷ (codes "lsof", cmd_lsof)
    ∷ (codes "apt", cmd_apt)
    ∷ (codes "apt-get", cmd_apt)
    ∷ (codes "yum", cmd_apt)
    ∷ (codes "dnf", cmd_apt)
    ∷ (codes "python", cmd_interp)
    ∷ (codes "python3", cmd_interp)
    ∷ (codes "perl", cmd_interp)
    ∷ (codes "gcc", cmd_interp)
    ∷ (codes "cc", cmd_interp)
    ∷ (codes "make", cmd_interp)
    ∷ (codes "tar", cmd_tar)
    ∷ (codes "unzip", cmd_unzip)
    ∷ (codes "gzip", cmd_gzip)
    ∷ (codes "scp", cmd_scp)
    ∷ (codes "sftp", cmd_scp)
    ∷ (codes "ssh", cmd_ssh)
    ∷ (codes "base64", cmd_base64)
    ∷ (codes "iptables", cmd_iptables)
    ∷ (codes "nano", cmd_editor)
    ∷ (codes "vi", cmd_editor)
    ∷ (codes "vim", cmd_editor)
    ∷ (codes "emacs", cmd_editor)
    ∷ []

-- The commands that run another one.
pub nested : Runner → (Bytes → Option Handler) → List (Bytes × Handler)
nested run builtins =
    (codes "busybox", cmd_busybox builtins)
    ∷ (codes "sudo", cmd_sudo run)
    ∷ (codes "nohup", cmd_nohup run)
    ∷ (codes "timeout", cmd_nohup run)
    ∷ (codes "watch", cmd_nohup run)
    ∷ (codes "xargs", cmd_xargs run)
    ∷ []

abbrev pub or_else : Option Handler → Option Handler → Option Handler
or_else (some handler) other = some handler
or_else none other = other

module _ (rest : Bytes → Option Handler) (to_lower : Bytes → Bytes) (stuck : Handler) where
  -- `runStage` of a stage with these words.
  abbrev pub runner : (Bytes → Option Handler) → Runner
  runner builtins s argv stdin =
      run_stage builtins to_lower s (record no_stage { argv = argv }) stdin

  pub builtins : ℕ → Bytes → Option Handler
  builtins zero name = some stuck
  builtins (suc depth) name =
      or_else (find name (plain to_lower))
        (or_else (find name (nested (runner (builtins depth)) (builtins depth))) (rest name))
