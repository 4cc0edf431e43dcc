-- ===== src/Shell/Login.antt =====
-- node/internal/shell/shell.go, New: the identity and the environment of a session.
mod Tests
use honeynet.Base.{
  ℕ, Bool, true, false, not, ◌&&◌, Option, none, some, List, [], ◌∷◌, ◌++◌, ◌==◌, if◌then◌else◌,
  Bytes, codes, equal, assign,
}
use honeynet.Vfs.{Fs, Result, ok, err, panic, path_exists}
use honeynet.Shell.Session.{Hooks, Limits, Shell}

-- An account of the personality.
pub record User : Type 0 where
  pub name : Bytes
  pub uid : ℕ
  pub gid : ℕ
  pub home : Bytes

pub record Identity : Type 0 where
  pub uid : ℕ
  pub gid : ℕ
  pub home : Bytes

pub find_user : List User → Bytes → Identity
find_user [] user = record { uid = 0; gid = 0; home = codes "/root" }
find_user (u ∷ users) user =
    if equal u.name user
    then record { uid = u.uid; gid = u.gid; home = u.home }
    else find_user users user

-- The first account of that name; who is not root and would be, gets an identity of its own.
pub identify : List User → Bytes → Identity
identify users user =
    let found = find_user users user in
    if not (equal user (codes "root")) && found.uid == 0
    then record { uid = 1000; gid = 1000; home = codes "/home/" ++ user }
    else found

abbrev environment : Bytes → Bytes → Bytes → List (Bytes × Bytes)
environment hostname user home =
    (codes "SHELL", codes "/bin/bash")
    ∷ (codes "PWD", home)
    ∷ (codes "LOGNAME", user)
    ∷ (codes "HOME", home)
    ∷ (codes "USER", user)
    ∷ (codes "PATH", codes "/usr/local/sbin:/usr/local/bin:/usr/sbin:/usr/bin:/sbin:/bin:/snap/bin")
    ∷ (codes "LANG", codes "en_US.UTF-8")
    ∷ (codes "TERM", codes "xterm-256color")
    ∷ (codes "HOSTNAME", hostname)
    ∷ (codes "SHLVL", codes "1")
    ∷ (codes "_", codes "/usr/bin/env")
    ∷ []

abbrev at_home : List User → Bytes → Fs → Bytes → Bool → Hooks → Limits → ℕ → Shell
at_home users hostname fs user pty hooks lim now =
    let who = identify users user in
    record {
      hostname = hostname;
      fs = fs;
      hooks = hooks;
      lim = lim;
      pty = pty;
      user = user;
      uid = who.uid;
      gid = who.gid;
      cwd = who.home;
      env = environment hostname user who.home;
      history = [];
      cmd_index = 0;
      exit_code = 0;
      started = now;
      last_cmd = now;
      in_bytes = 0;
      exit_flag = false;
      clock = now;
      output = [];
      events = [];
    }

abbrev at_root : Shell → Shell
at_root sh = record sh { cwd = codes "/"; env = assign (codes "PWD") (codes "/") sh.env }

pub new_shell : List User → Bytes → Fs → Bytes → Bool → Hooks → Limits → ℕ → Option Shell
new_shell users hostname fs user pty hooks lim now =
    let sh = at_home users hostname fs user pty hooks lim now in
    elim (path_exists fs (identify users user).home) [
      | ok true ↦ some sh
      | ok false ↦ some (at_root sh)
      | err e ↦ none
      | panic ↦ none
    ]
