-- ===== src/Shell/Commands/Fixed.antt =====
-- node/internal/shell/commands.go: the commands whose answers depend on little more than their
-- arguments.
pub mod Kept
use honeynet.Base.{
  ℕ, zero, suc, Bool, true, false, not, ◌&&◌, ◌||◌, Option, none, some, ◌>>=◌, List, [], ◌∷◌, ◌++◌,
  ◌==◌, ltb, leb, if◌then◌else◌, Bytes, codes, equal, is_empty, join,
}
use honeynet.Vfs.{Result, ok, err, panic, path_exists}
use honeynet.Vfs.Paths.{path_join}
use honeynet.Shell.Session.{Shell}
use honeynet.Shell.Evaluate.{Handler}
use honeynet.Shell.Commands.{Step, has_flag, operands, each}

pub cmd_users : Handler
cmd_users s name args stdin = some (s.user ++ codes "\n", 0, s)

pub cmd_ftp : Handler
cmd_ftp s name args stdin = some (codes "ftp: connect: Connection timed out\n", 1, s)

pub cmd_netcat : Handler
cmd_netcat s name args stdin =
    if has_flag args (codes "-l" ∷ []) then some ([], 0, s) else some ([], 1, s)

pub cmd_base64 : Handler
cmd_base64 s name args stdin = some (stdin, 0, s)

pub cmd_tar : Handler
cmd_tar s name args stdin = some ([], 0, s)

pub cmd_unzip : Handler
cmd_unzip s name args stdin = some ([], 0, s)

pub cmd_gzip : Handler
cmd_gzip s name args stdin = some ([], 0, s)

pub cmd_lsof : Handler
cmd_lsof s name args stdin = some (
  codes "COMMAND   PID USER   FD   TYPE DEVICE SIZE/OFF NODE NAME\n"
      ++ codes "sshd      588 root    3u  IPv4  15832      0t0  TCP *:ssh (LISTEN)\n",
  0,
  s,
)

pub cmd_scp : Handler
cmd_scp s name args stdin = some (name ++ codes ": Connection closed\n", 1, s)

abbrev host_of : List Bytes → Bytes
host_of [] = codes "host"
host_of (op ∷ ops) = op

pub cmd_ssh : Handler
cmd_ssh s name args stdin = some (
  codes "ssh: connect to host "
      ++ host_of (operands args)
      ++ codes " port 22: Connection timed out\n",
  255,
  s,
)

pub cmd_iptables : Handler
cmd_iptables s name args stdin =
    if not (s.uid == 0)
    then some (codes "iptables v1.8.7 (nf_tables): Permission denied (you must be root)\n", 4, s)
    else if has_flag args (codes "-L" ∷ [])
    then some (
      codes "Chain INPUT (policy ACCEPT)\ntarget     prot opt source               destination\n\n"
          ++ codes
              "Chain FORWARD (policy ACCEPT)\ntarget     prot opt source               destination\n\n"
          ++ codes
              "Chain OUTPUT (policy ACCEPT)\ntarget     prot opt source               destination\n",
      0,
      s,
    )
    else some ([], 0, s)

pub cmd_editor : Handler
cmd_editor s name args stdin = elim (operands args) [
  | [] ↦ some (name ++ codes ": no file specified\n", 1, s)
  | op ∷ ops ↦ some (name ++ codes ": Vim: Warning: Output is not to a terminal\n", 1, s)
]

-- The version of an interpreter or a compiler, if it has one.
pub version_of : Bytes → Option Bytes
version_of name =
    if equal name (codes "python3") || equal name (codes "python")
    then some (codes "Python 3.10.12\n")
    else if equal name (codes "perl")
    then some (
        codes
          "This is perl 5, version 34, subversion 0 (v5.34.0) built for x86_64-linux-gnu-thread-multi\n")
    else if equal name (codes "gcc") || equal name (codes "cc")
    then some (
        codes
          "gcc (Ubuntu 11.4.0-1ubuntu1~22.04) 11.4.0\nCopyright (C) 2021 Free Software Foundation, Inc.\n")
    else if equal name (codes "make")
    then some (codes "GNU Make 4.3\nBuilt for x86_64-pc-linux-gnu\n")
    else none

abbrev pub asked_version : Bytes → List Bytes → Option Bytes
asked_version name args =
    if has_flag args (codes "--version" ∷ codes "-V" ∷ codes "-v" ∷ [])
    then version_of name
    else none

pub cmd_interp : Handler
cmd_interp s name args stdin = elim (asked_version name args) [
  | some version ↦ some (version, 0, s)
  | none ↦
      if equal name (codes "make")
      then some (codes "make: *** No targets specified and no makefile found.  Stop.\n", 2, s)
      else some ([], 0, s)
]

pub spaced : List Bytes → Bytes
spaced words = join b' ' words

pub cmd_apt : Handler
cmd_apt s name args stdin = elim (operands args) [
  | [] ↦
      some (name ++ codes " 2.4.11 (amd64)\nUsage: " ++ name ++ codes " [options] command\n", 1, s)
  | op ∷ ops ↦
      if not (s.uid == 0)
      then some (
        codes
              "E: Could not open lock file /var/lib/dpkg/lock-frontend - open (13: Permission denied)\n"
            ++ codes
                "E: Unable to acquire the dpkg frontend lock (/var/lib/dpkg/lock-frontend), are you root?\n",
        100,
        s,
      )
      else if equal op (codes "update")
      then some (
        codes "Hit:1 http://archive.ubuntu.com/ubuntu jammy InRelease\n"
            ++ codes "Get:2 http://archive.ubuntu.com/ubuntu jammy-updates InRelease [128 kB]\n"
            ++ codes "Fetched 128 kB in 1s (128 kB/s)\nReading package lists... Done\n",
        0,
        s,
      )
      else if equal op (codes "install")
      then some (
        codes
              "Reading package lists... Done\nBuilding dependency tree... Done\nReading state information... Done\n"
            ++ codes "E: Unable to locate package "
            ++ spaced ops
            ++ codes "\n",
        100,
        s,
      )
      else some ([], 0, s)
]

-- `whereis`
pub places : Shell → Bytes → List Bytes → Option Bytes
places s a [] = some []
places s a (d ∷ dirs) = elim (path_exists s.fs (path_join d a)) [
  | panic ↦ none
  | err e ↦ none
  | ok there ↦ do
    more ← places s a dirs
    some ((if there then codes " " ++ path_join d a else []) ++ more)
]

pub whereis_one : Shell → Bytes → Step
whereis_one s a = do
  found ← places s a (codes "/bin" ∷ codes "/usr/bin" ∷ codes "/sbin" ∷ codes "/usr/sbin" ∷ [])
  some (a ++ codes ":" ++ found ++ codes "\n", false, s)

pub cmd_whereis : Handler
cmd_whereis s name args stdin = each whereis_one s (operands args)
