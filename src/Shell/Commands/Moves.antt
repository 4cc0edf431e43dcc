-- ===== src/Shell/Commands/Moves.antt =====
-- node/internal/shell/commands.go: the commands that copy, move and name files.
pub mod Kept
use honeynet.Base.{
  ℕ, ◌+◌, ◌-◌, ◌*◌, ◌^◌, Bool, true, false, not, ◌&&◌, ◌||◌, Option, none, some, ◌>>=◌, List, [],
  ◌∷◌, ◌++◌, ◌==◌, ltb, leb, if◌then◌else◌, Bytes, codes, equal, is_empty, assign,
}
use Prim.Native.Nat.{bit_and}
use honeynet.Vfs.{
  Error, not_found, not_dir, is_dir, permission, exists, not_empty, link_loop, quota_reached, Node,
  Fs, Result, ok, err, panic, is_kind_dir, is_kind_symlink, stat, lstat, read_file, path_is_dir,
}
use honeynet.Vfs.Paths.{clean, path_base, path_dir, path_join}
use honeynet.Vfs.Writes.{write_file, append_file, mkdir, mkdir_all, touch, remove, rename, chmod}
use honeynet.Shell.Session.{Event, on_upload, Shell, lookup_env}
use honeynet.Shell.Evaluate.{Handler, message, contains, log}
use honeynet.Shell.Commands.{Answer, Step, has_flag, operands, each, attempt}
use honeynet.Shell.Commands.Files.{err_text, says_not_found, answer}

-- Into a directory under the old name.
pub target_in : Shell → Bytes → Bytes → Option Bytes
target_in s to from = elim (path_is_dir s.fs to) [
  | ok true ↦ some (path_join to (path_base from))
  | ok false ↦ some to
  | err e ↦ none
  | panic ↦ none
]

pub cmd_mv : Handler
cmd_mv s name args stdin = elim (operands args) [
  | from ∷ to ∷ ops ↦ do
    target ← target_in s (clean s.cwd to) (clean s.cwd from)
    answer (
        attempt s (rename s.fs (clean s.cwd from) target)
          λ e. some (codes "mv: cannot stat " ++ says_not_found from))
  | _ ↦ some (codes "mv: missing destination file operand\n", 1, s)
]

pub copy : Shell → Bytes → Bytes → Bytes → Answer
copy s from to content = do
  target ← target_in s (clean s.cwd to) from
  answer (
      attempt s (write_file s.clock s.uid s.gid s.fs target content 0x1a4) λ e.
        some (
          codes "cp: cannot create regular file '"
          ++ to
          ++ codes "': "
          ++ err_text e
          ++ codes "\n"))

pub cmd_cp : Handler
cmd_cp s name args stdin = elim (operands args) [
  | from ∷ to ∷ ops ↦ elim (read_file s.fs s.clock (clean s.cwd from)) [
    | panic ↦ none
    | err e ↦ some (codes "cp: cannot stat " ++ says_not_found from, 1, s)
    | ok content ↦ copy s from to content
  ]
  | _ ↦ some (codes "cp: missing destination file operand\n", 1, s)
]

pub cmd_ln : Handler
cmd_ln s name args stdin = elim (operands args) [
  | f ∷ g ∷ ops ↦ some ([], 0, s)
  | _ ↦ some (codes "ln: missing file operand\n", 1, s)
]

-- `tee`, which tells of every operand, written or not.
pub tee_one : Bool → Bytes → Shell → Bytes → Step
tee_one more stdin s f = do
  (out, is_failed, t) ←
      attempt s
        (if more
          then append_file s.clock s.uid s.gid s.fs (clean s.cwd f) stdin
          else write_file s.clock s.uid s.gid s.fs (clean s.cwd f) stdin 0x1a4)
        λ e. none
  some (
    [],
    false,
    (if s.hooks.has_upload && not (is_empty stdin)
        then log t (on_upload (clean s.cwd f) stdin f (codes "tee"))
        else t),
  )

pub cmd_tee : Handler
cmd_tee s name args stdin = do
  (out, code, t) ← each (tee_one (has_flag args (codes "-a" ∷ [])) stdin) s (operands args)
  some (stdin, 0, t)

pub cmd_readlink : Handler
cmd_readlink s name args stdin = elim (operands args) [
  | [] ↦ some ([], 1, s)
  | f ∷ ops ↦ elim (lstat s.fs (clean s.cwd f)) [
    | panic ↦ none
    | err e ↦ some ([], 1, s)
    | ok n ↦
        if is_kind_symlink n.kind
        then some (n.target ++ codes "\n", 0, s)
        else some (clean s.cwd f ++ codes "\n", 0, s)
  ]
]

pub cmd_basename : Handler
cmd_basename s name args stdin = elim (operands args) [
  | op ∷ ops ↦ some (path_base op ++ codes "\n", 0, s)
  | [] ↦ some (codes "basename: missing operand\n", 1, s)
]

pub cmd_dirname : Handler
cmd_dirname s name args stdin = elim (operands args) [
  | op ∷ ops ↦ some (path_dir op ++ codes "\n", 0, s)
  | [] ↦ some (codes "dirname: missing operand\n", 1, s)
]

pub cmd_realpath : Handler
cmd_realpath s name args stdin = elim (operands args) [
  | op ∷ ops ↦ some (clean s.cwd op ++ codes "\n", 0, s)
  | [] ↦ some (codes "realpath: missing operand\n", 1, s)
]
