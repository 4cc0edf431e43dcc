-- ===== src/Shell/Commands/Moves/Kept.antt =====
-- The commands that copy and move files keep the file system valid.
use honeynet.Base.{refl, Bool, true, false, not, ◌&&◌, none, if◌then◌else◌, Bytes, codes, is_empty}
use honeynet.Vfs.{lstat, read_file, is_kind_symlink}
use honeynet.Vfs.Paths.{clean}
use honeynet.Vfs.Writes.{write_file, append_file}
use honeynet.Vfs.Writes.Calls.{writes, appends, renames}
use honeynet.Shell.Session.{Shell, on_upload}
use honeynet.Shell.Session.Kept.{panics, gives, Gives-if, Gives-bind, commands}
use honeynet.Shell.Evaluate.{log}
use honeynet.Shell.Evaluate.Kept.{Steps, Steps-trans, log-Keeps, Keeps-Steps}
use honeynet.Shell.Commands.{operands, attempt}
use honeynet.Shell.Commands.Sound.{
  IsSound, IsKept, Answers, Adds, none-Steps, each-Steps, on_result, on_list,
}
use honeynet.Shell.Commands.Files.Kept.{tried, anywhere, answer-Steps}
use honeynet.Shell.Commands.Moves.{
  target_in, cmd_mv, copy, cmd_cp, cmd_ln, tee_one, cmd_tee, cmd_readlink, cmd_basename,
  cmd_dirname, cmd_realpath,
}

pub cmd_mv-IsKept : IsKept cmd_mv
unfolding cmd_mv
cmd_mv-IsKept s name args stdin v = on_list (operands args) (gives none-Steps) λ from more.
    on_list more (gives none-Steps) λ to ops.
      Gives-bind _ (anywhere (target_in s (clean s.cwd to) (clean s.cwd from)))
        λ target h. answer-Steps s _ (tried s 0 0 0 (renames (clean s.cwd from) target) _)

copy-Steps : (s : Shell) (from to content : Bytes) → Answers s (copy s from to content)
unfolding copy
copy-Steps s from to content =
    Gives-bind _ (anywhere (target_in s (clean s.cwd to) from))
      λ target h. answer-Steps s _ (tried s s.clock s.uid s.gid (writes target content 0x1a4) _)

pub cmd_cp-IsKept : IsKept cmd_cp
unfolding cmd_cp
cmd_cp-IsKept s name args stdin v = on_list (operands args) (gives none-Steps) λ from more.
    on_list more (gives none-Steps) λ to ops.
      on_result (read_file s.fs s.clock (clean s.cwd from)) (panics tt) (λ e. gives none-Steps)
        λ content. copy-Steps s from to content

pub cmd_ln-IsKept : IsKept cmd_ln
unfolding cmd_ln
cmd_ln-IsKept s name args stdin v =
    on_list (operands args) (gives none-Steps)
      λ f more. on_list more (gives none-Steps) λ g ops. gives none-Steps

written_by :
    (more : Bool) (s : Shell) (p stdin : Bytes)
    → Adds s (
        attempt s
          (if more
            then append_file s.clock s.uid s.gid s.fs p stdin
            else write_file s.clock s.uid s.gid s.fs p stdin 0x1a4)
          λ e. none)
written_by true s p stdin = tried s s.clock s.uid s.gid (appends p stdin) _
written_by false s p stdin = tried s s.clock s.uid s.gid (writes p stdin 0x1a4) _

tee_one-Steps :
    (more : Bool) (stdin : Bytes) (s : Shell) (f : Bytes) → Adds s (tee_one more stdin s f)
unfolding tee_one commands
tee_one-Steps more stdin s f =
    Gives-bind _ (written_by more s (clean s.cwd f) stdin)
      λ r h. gives (told (s.hooks.has_upload && not (is_empty stdin)) r.2 h)
  where
    told :
        (b : Bool) (t : Shell)
        → Steps IsSound s t
        → Steps IsSound s (if b then log t (on_upload (clean s.cwd f) stdin f (codes "tee")) else t)
    told true t h = Steps-trans IsSound h (
        Keeps-Steps IsSound t _
          (log-Keeps t (on_upload (clean s.cwd f) stdin f (codes "tee")) refl))
    told false t h = h

pub cmd_tee-IsKept : IsKept cmd_tee
unfolding cmd_tee
cmd_tee-IsKept s name args stdin v =
    Gives-bind _ (each-Steps (tee_one _ stdin) (tee_one-Steps _ stdin) s (operands args))
      λ r h. gives h

pub cmd_readlink-IsKept : IsKept cmd_readlink
unfolding cmd_readlink
cmd_readlink-IsKept s name args stdin v = on_list (operands args) (gives none-Steps) λ f ops.
    on_result (lstat s.fs (clean s.cwd f)) (panics tt) (λ e. gives none-Steps)
      λ n. Gives-if (is_kind_symlink n.kind) (gives none-Steps) (gives none-Steps)

pub cmd_basename-IsKept : IsKept cmd_basename
unfolding cmd_basename
cmd_basename-IsKept s name args stdin v =
    on_list (operands args) (gives none-Steps) λ op ops. gives none-Steps

pub cmd_dirname-IsKept : IsKept cmd_dirname
unfolding cmd_dirname
cmd_dirname-IsKept s name args stdin v =
    on_list (operands args) (gives none-Steps) λ op ops. gives none-Steps

pub cmd_realpath-IsKept : IsKept cmd_realpath
unfolding cmd_realpath
cmd_realpath-IsKept s name args stdin v =
    on_list (operands args) (gives none-Steps) λ op ops. gives none-Steps
