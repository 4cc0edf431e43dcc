-- ===== src/Shell/Commands/Files/Kept.antt =====
-- The commands on files keep the file system valid and the working directory canonical.
use honeynet.Base.{refl, Bool, true, false, not, Option, none, some, [], ◌∷◌, ◌==◌, Bytes, ℕ}
use honeynet.Vfs.{Error, stat, read_file, is_kind_dir}
use honeynet.Vfs.Paths.{clean}
use honeynet.Vfs.Paths.Canonical.{clean-IsCanonical}
use honeynet.Vfs.Writes.Calls.{
  Call, makes, makes_all, touches, removes, chmods, run, MayPanic, run-Ends,
}
use honeynet.Shell.Session.{Shell}
use honeynet.Shell.Session.Kept.{Gives, panics, gives, Gives-if}
use honeynet.Shell.Commands.{Step, operands, attempt}
use honeynet.Shell.Commands.Sound.{
  IsKept, Answers, Adds, none-Steps, each-Steps, attempt-Steps, on_result, on_list,
}
use honeynet.Shell.Commands.Files.{
  is_denied_at, enter, cmd_cd, cmd_pwd, cat_one, cmd_cat, parse_mode, chmod_one, cmd_chmod,
  cmd_chown, rm_one, cmd_rm, mkdir_one, cmd_mkdir, rmdir_one, cmd_rmdir, touch_one, cmd_touch,
  answer,
}

-- An operation of the file system, tried by a session.
pub tried :
    (s : Shell) (now uid gid : ℕ) (c : Call) (said : Error → Option Bytes)
    → Adds s (attempt s (run now uid gid c s.fs) said)
tried s now uid gid c said =
    attempt-Steps s (MayPanic now uid gid c s.fs) (run now uid gid c s.fs) said
      (run-Ends now uid gid c s.fs)

enter-Steps : (s : Shell) (target : Bytes) → Answers s (enter s target)
unfolding enter
enter-Steps s target =
    on_result (stat s.fs (clean s.cwd target)) (panics tt) (λ e. gives none-Steps)
      λ n. Gives-if (not (is_kind_dir n.kind)) (gives none-Steps) (
        gives (record {
          counted = refl;
          holds = λ x. ((clean-IsCanonical s.cwd target [] x.0).0, x.1);
        }))

pub cmd_cd-IsKept : IsKept cmd_cd
unfolding cmd_cd
cmd_cd-IsKept s name args stdin v =
    Gives-if _ (Gives-if _ (gives none-Steps) (enter-Steps s _)) (enter-Steps s _)

pub cmd_pwd-IsKept : IsKept cmd_pwd
unfolding cmd_pwd
cmd_pwd-IsKept s name args stdin v = gives none-Steps

cat_one-Steps : (name : Bytes) (s : Shell) (f : Bytes) → Adds s (cat_one name s f)
unfolding cat_one
cat_one-Steps name s f = Gives-if (is_denied_at s (stat s.fs (clean s.cwd f))) (gives none-Steps) (
    on_result (read_file s.fs s.clock (clean s.cwd f)) (panics tt) (λ e. gives none-Steps)
      λ content. gives none-Steps)

pub cmd_cat-IsKept : IsKept cmd_cat
unfolding cmd_cat
cmd_cat-IsKept s name args stdin v =
    on_list (operands args) (gives none-Steps)
      λ f files. each-Steps (cat_one name) (cat_one-Steps name) s (f ∷ files)

chmod_one-Steps : (mode : ℕ) (s : Shell) (f : Bytes) → Adds s (chmod_one mode s f)
unfolding chmod_one
chmod_one-Steps mode s f = tried s 0 0 0 (chmods (clean s.cwd f) mode) _

pub cmd_chmod-IsKept : IsKept cmd_chmod
unfolding cmd_chmod
cmd_chmod-IsKept s name args stdin v = on_list (operands args) (gives none-Steps) λ mode files.
    on_list files (gives none-Steps) λ f more.
      each-Steps (chmod_one (parse_mode mode)) (chmod_one-Steps (parse_mode mode)) s (f ∷ more)

pub cmd_chown-IsKept : IsKept cmd_chown
unfolding cmd_chown
cmd_chown-IsKept s name args stdin v = on_list (operands args) (gives none-Steps) λ owner files.
    on_list files (gives none-Steps)
      λ f more. Gives-if (s.uid == 0) (gives none-Steps) (gives none-Steps)

rm_one-Steps :
    (recursive force : Bool) (name : Bytes) (s : Shell) (f : Bytes)
    → Adds s (rm_one recursive force name s f)
unfolding rm_one
rm_one-Steps recursive force name s f = tried s 0 0 0 (removes (clean s.cwd f) recursive) _

pub cmd_rm-IsKept : IsKept cmd_rm
unfolding cmd_rm
cmd_rm-IsKept s name args stdin v =
    each-Steps (rm_one _ _ name) (rm_one-Steps _ _ name) s (operands args)

mkdir_one-Steps : (parents : Bool) (s : Shell) (d : Bytes) → Adds s (mkdir_one parents s d)
unfolding mkdir_one
mkdir_one-Steps true s d = tried s s.clock s.uid s.gid (makes_all (clean s.cwd d) 0x1ed) _
mkdir_one-Steps false s d = tried s s.clock s.uid s.gid (makes (clean s.cwd d) 0x1ed) _

pub cmd_mkdir-IsKept : IsKept cmd_mkdir
unfolding cmd_mkdir
cmd_mkdir-IsKept s name args stdin v =
    each-Steps (mkdir_one _) (mkdir_one-Steps _) s (operands args)

rmdir_one-Steps : (s : Shell) (d : Bytes) → Adds s (rmdir_one s d)
unfolding rmdir_one
rmdir_one-Steps s d = tried s 0 0 0 (removes (clean s.cwd d) false) _

pub cmd_rmdir-IsKept : IsKept cmd_rmdir
unfolding cmd_rmdir
cmd_rmdir-IsKept s name args stdin v = each-Steps rmdir_one rmdir_one-Steps s (operands args)

touch_one-Steps : (s : Shell) (f : Bytes) → Adds s (touch_one s f)
unfolding touch_one
touch_one-Steps s f = tried s s.clock s.uid s.gid (touches (clean s.cwd f)) _

pub cmd_touch-IsKept : IsKept cmd_touch
unfolding cmd_touch
cmd_touch-IsKept s name args stdin v = each-Steps touch_one touch_one-Steps s (operands args)

pub answer-Steps : (s : Shell) (m : Step) → Adds s m → Answers s (answer m)
unfolding answer
answer-Steps s none h = panics tt
answer-Steps s (some r) (gives h) = gives h

-- Any result but a panic.
pub anywhere : {A : Type 0} (m : Option A) → Gives Unit (λ a. Unit) m
anywhere none = panics tt
anywhere (some a) = gives tt
