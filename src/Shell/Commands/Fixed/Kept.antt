-- ===== src/Shell/Commands/Fixed/Kept.antt =====
-- The fixed answers leave the session as it is.
use honeynet.Base.{not, Option, none, some, [], ◌∷◌, ◌==◌, if◌then◌else◌, Bytes, codes, equal}
use honeynet.Shell.Session.{Shell}
use honeynet.Shell.Session.Kept.{gives, Gives-if, Gives-bind}
use honeynet.Shell.Commands.{has_flag, operands}
use honeynet.Shell.Commands.Sound.{IsKept, Answers, Adds, none-Steps, each-Steps, on_list}
use honeynet.Shell.Commands.Files.Kept.{anywhere}
use honeynet.Shell.Commands.Fixed.{
  cmd_users, cmd_ftp, cmd_netcat, cmd_base64, cmd_tar, cmd_unzip, cmd_gzip, cmd_lsof, cmd_scp,
  cmd_ssh, cmd_iptables, cmd_editor, asked_version, cmd_interp, cmd_apt, places, whereis_one,
  cmd_whereis,
}

pub cmd_users-IsKept : IsKept cmd_users
unfolding cmd_users
cmd_users-IsKept s name args stdin v = gives none-Steps

pub cmd_ftp-IsKept : IsKept cmd_ftp
unfolding cmd_ftp
cmd_ftp-IsKept s name args stdin v = gives none-Steps

pub cmd_base64-IsKept : IsKept cmd_base64
unfolding cmd_base64
cmd_base64-IsKept s name args stdin v = gives none-Steps

pub cmd_tar-IsKept : IsKept cmd_tar
unfolding cmd_tar
cmd_tar-IsKept s name args stdin v = gives none-Steps

pub cmd_unzip-IsKept : IsKept cmd_unzip
unfolding cmd_unzip
cmd_unzip-IsKept s name args stdin v = gives none-Steps

pub cmd_gzip-IsKept : IsKept cmd_gzip
unfolding cmd_gzip
cmd_gzip-IsKept s name args stdin v = gives none-Steps

pub cmd_lsof-IsKept : IsKept cmd_lsof
unfolding cmd_lsof
cmd_lsof-IsKept s name args stdin v = gives none-Steps

pub cmd_scp-IsKept : IsKept cmd_scp
unfolding cmd_scp
cmd_scp-IsKept s name args stdin v = gives none-Steps

pub cmd_ssh-IsKept : IsKept cmd_ssh
unfolding cmd_ssh
cmd_ssh-IsKept s name args stdin v = gives none-Steps

pub cmd_netcat-IsKept : IsKept cmd_netcat
unfolding cmd_netcat
cmd_netcat-IsKept s name args stdin v =
    Gives-if (has_flag args (codes "-l" ∷ [])) (gives none-Steps) (gives none-Steps)

pub cmd_iptables-IsKept : IsKept cmd_iptables
unfolding cmd_iptables
cmd_iptables-IsKept s name args stdin v =
    Gives-if (not (s.uid == 0)) (gives none-Steps)
      (Gives-if (has_flag args (codes "-L" ∷ [])) (gives none-Steps) (gives none-Steps))

pub cmd_editor-IsKept : IsKept cmd_editor
unfolding cmd_editor
cmd_editor-IsKept s name args stdin v =
    on_list (operands args) (gives none-Steps) λ op ops. gives none-Steps

pub cmd_interp-IsKept : IsKept cmd_interp
unfolding cmd_interp
cmd_interp-IsKept s name args stdin v = answered (asked_version name args)
  where
    answered :
        (o : Option Bytes)
        → Answers s (elim o [
          | some version ↦ some (version, 0, s)
          | none ↦
              if equal name (codes "make")
              then some
                  (codes "make: *** No targets specified and no makefile found.  Stop.\n", 2, s)
              else some ([], 0, s)
        ])
    answered (some version) = gives none-Steps
    answered none = Gives-if (equal name (codes "make")) (gives none-Steps) (gives none-Steps)

pub cmd_apt-IsKept : IsKept cmd_apt
unfolding cmd_apt
cmd_apt-IsKept s name args stdin v = on_list (operands args) (gives none-Steps) λ op ops.
    Gives-if (not (s.uid == 0)) (gives none-Steps) (
      Gives-if (equal op (codes "update")) (gives none-Steps)
        (Gives-if (equal op (codes "install")) (gives none-Steps) (gives none-Steps)))

whereis_one-Steps : (s : Shell) (a : Bytes) → Adds s (whereis_one s a)
unfolding whereis_one
whereis_one-Steps s a = Gives-bind _ (anywhere (places s a _)) λ found h. gives none-Steps

pub cmd_whereis-IsKept : IsKept cmd_whereis
unfolding cmd_whereis
cmd_whereis-IsKept s name args stdin v = each-Steps whereis_one whereis_one-Steps s (operands args)
