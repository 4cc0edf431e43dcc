-- ===== src/Shell/Commands/Files.antt =====
-- node/internal/shell/commands.go: the commands on files.
pub mod Kept
use honeynet.Base.{
  ℕ, ◌+◌, ◌-◌, ◌*◌, ◌^◌, Bool, true, false, not, ◌&&◌, ◌||◌, Option, none, some, ◌>>=◌, List, [],
  ◌∷◌, ◌++◌, ◌==◌, ltb, leb, if◌then◌else◌, Bytes, codes, equal, is_empty, assign,
}
use Prim.Native.Nat.{bit_and}
use honeynet.Vfs.{
  Error, not_found, not_dir, is_dir, permission, exists, not_empty, link_loop, quota_reached, Node,
  Fs, Result, ok, err, panic, is_kind_dir, is_kind_symlink, stat, lstat, read_file, path_is_dir,
}
use honeynet.Vfs.Paths.{clean, path_base, path_dir, path_join}
use honeynet.Vfs.Writes.{write_file, append_file, mkdir, mkdir_all, touch, remove, rename, chmod}
use honeynet.Shell.Session.{Event, on_upload, Shell, lookup_env}
use honeynet.Shell.Evaluate.{Handler, message, contains, log}
use honeynet.Shell.Commands.{Answer, Step, has_flag, operands, each, attempt}

-- `errText`
abbrev pub err_text : Error → Bytes
err_text exists = codes "File exists"
err_text not_found = codes "No such file or directory"
err_text permission = codes "Permission denied"
err_text quota_reached = codes "No space left on device"
err_text not_dir = codes "Not a directory"
err_text e = message e

abbrev pub says_not_found : Bytes → Bytes
says_not_found f = codes "'" ++ f ++ codes "': No such file or directory\n"

-- `cd` behind its target.
pub enter : Shell → Bytes → Answer
enter s target =
    let p = clean s.cwd target in
    elim (stat s.fs p) [
      | panic ↦ none
      | err e ↦ some (codes "bash: cd: " ++ target ++ codes ": No such file or directory\n", 1, s)
      | ok n ↦
          if not (is_kind_dir n.kind)
          then some (codes "bash: cd: " ++ target ++ codes ": Not a directory\n", 1, s)
          else some (
            [],
            0,
            record s {
              cwd = p;
              env = assign (codes "PWD") p (assign (codes "OLDPWD") s.cwd s.env);
            },
          )
    ]

abbrev first_or : Bytes → List Bytes → Bytes
first_or other [] = other
first_or other (op ∷ ops) = op

pub cmd_cd : Handler
cmd_cd s name args stdin =
    let target = first_or (lookup_env (codes "HOME") s.env) (operands args) in
    let old = lookup_env (codes "OLDPWD") s.env in
    if equal target (codes "-")
    then (if is_empty old then some (codes "bash: cd: OLDPWD not set\n", 1, s) else enter s old)
    else enter s target

pub cmd_pwd : Handler
cmd_pwd s name args stdin = some (s.cwd ++ codes "\n", 0, s)

-- A file that is not readable to others is refused to all but root and its owner.
abbrev is_denied : Shell → Node → Bool
is_denied s n = not (s.uid == 0) && bit_and n.mode 0x4 == 0 && not (n.uid == s.uid)

abbrev pub is_denied_at : Shell → Result Node → Bool
is_denied_at s (ok n) = is_denied s n
is_denied_at s _ = false

abbrev cat_error : Error → Bytes
cat_error is_dir = codes "Is a directory"
cat_error e = codes "No such file or directory"

pub cat_one : Bytes → Shell → Bytes → Step
cat_one name s f =
    if is_denied_at s (stat s.fs (clean s.cwd f))
    then some (name ++ codes ": " ++ f ++ codes ": Permission denied\n", true, s)
    else elim (read_file s.fs s.clock (clean s.cwd f)) [
      | panic ↦ none
      | ok content ↦ some (content, false, s)
      | err e ↦ some (name ++ codes ": " ++ f ++ codes ": " ++ cat_error e ++ codes "\n", true, s)
    ]

pub cmd_cat : Handler
cmd_cat s name args stdin = elim (operands args) [
  | [] ↦ some (stdin, 0, s)
  | f ∷ files ↦ each (cat_one name) s (f ∷ files)
]

-- `strconv.ParseUint(s, 8, 32)`
pub octal_from : ℕ → Bytes → Option ℕ
octal_from n [] = if ltb n (2 ^ 32) then some n else none
octal_from n (c ∷ str) =
    let rest = octal_from (n * 8 + (c - b'0')) str in
    if leb b'0' c && leb c b'7' then rest else none

pub parse_mode : Bytes → ℕ
parse_mode str = elim (if is_empty str then none else octal_from 0 str) [
  | some v ↦ v
  | none ↦ if contains b'x' str then 0x1ed else if contains b'w' str then 0x1b6 else 0x1a4
]

pub chmod_one : ℕ → Shell → Bytes → Step
chmod_one mode s f =
    attempt s (chmod s.fs (clean s.cwd f) mode)
      λ e. some (codes "chmod: cannot access " ++ says_not_found f)

pub cmd_chmod : Handler
cmd_chmod s name args stdin = elim (operands args) [
  | mode ∷ f ∷ files ↦ each (chmod_one (parse_mode mode)) s (f ∷ files)
  | _ ↦ some (codes "chmod: missing operand\nTry 'chmod --help' for more information.\n", 1, s)
]

pub cmd_chown : Handler
cmd_chown s name args stdin = elim (operands args) [
  | owner ∷ f ∷ files ↦
      if s.uid == 0
      then some ([], 0, s)
      else some (
        name ++ codes ": changing ownership of '" ++ f ++ codes "': Operation not permitted\n",
        1,
        s,
      )
  | _ ↦ some (name ++ codes ": missing operand\n", 1, s)
]

abbrev rm_error : Error → Bytes
rm_error not_empty = codes "Is a directory"
rm_error permission = codes "Permission denied"
rm_error e = codes "No such file or directory"

pub rm_one : Bool → Bool → Bytes → Shell → Bytes → Step
rm_one recursive force name s f = attempt s (remove s.fs (clean s.cwd f) recursive) λ e.
    if force
    then none
    else some (name ++ codes ": cannot remove '" ++ f ++ codes "': " ++ rm_error e ++ codes "\n")

pub cmd_rm : Handler
cmd_rm s name args stdin =
    let recursive = has_flag args (codes "-r" ∷ codes "-R" ∷ codes "--recursive" ∷ []) in
    let force = has_flag args (codes "-f" ∷ codes "--force" ∷ []) in
    each (rm_one recursive force name) s (operands args)

pub mkdir_one : Bool → Shell → Bytes → Step
mkdir_one parents s d =
    let p = clean s.cwd d in
    attempt s
      (if parents
        then mkdir_all s.clock s.uid s.gid s.fs p 0x1ed
        else mkdir s.clock s.uid s.gid s.fs p 0x1ed)
      λ e.
        some
          (codes "mkdir: cannot create directory '" ++ d ++ codes "': " ++ err_text e ++ codes "\n")

pub cmd_mkdir : Handler
cmd_mkdir s name args stdin =
    each (mkdir_one (has_flag args (codes "-p" ∷ codes "--parents" ∷ []))) s (operands args)

pub rmdir_one : Shell → Bytes → Step
rmdir_one s d =
    attempt s (remove s.fs (clean s.cwd d) false)
      λ e. some (codes "rmdir: failed to remove '" ++ d ++ codes "': " ++ err_text e ++ codes "\n")

pub cmd_rmdir : Handler
cmd_rmdir s name args stdin = each rmdir_one s (operands args)

pub touch_one : Shell → Bytes → Step
touch_one s f = attempt s (touch s.clock s.uid s.gid s.fs (clean s.cwd f)) λ e. none

pub cmd_touch : Handler
cmd_touch s name args stdin = each touch_one s (operands args)

-- The answer of a command with one operation.
pub answer : Step → Answer
answer none = none
answer (some (out, is_failed, s)) = some (out, (if is_failed then 1 else 0), s)
