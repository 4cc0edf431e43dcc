-- ===== src/Vfs/Writes/Calls.antt =====
-- The calls that a session makes, one after another.
use honeynet.Base.{ℕ, Bool, Bytes}
use honeynet.Vfs.Paths.{path_dir, split}
use honeynet.Vfs.{Fs, Result, root}
use honeynet.Vfs.Writes.{write_file, append_file, mkdir, mkdir_all, touch, remove, rename, chmod}
use honeynet.Vfs.Ends.{Ends}
use honeynet.Vfs.Valid.{IsValid}
use honeynet.Vfs.Writes.Kept.{
  write_file-Ends, append_file-Ends, mkdir-Ends, touch-Ends, remove-Ends, chmod-Ends,
}
use honeynet.Vfs.Writes.Moved.{LeadsToNoDir, rename-Ends}
use honeynet.Vfs.Writes.Made.{IsBlocked, mkdir_all-Ends}

-- A call of one operation at a time, for a user.
pub data Call : Type 0 where
  writes : Bytes → Bytes → ℕ → Call
  appends : Bytes → Bytes → Call
  makes : Bytes → ℕ → Call
  makes_all : Bytes → ℕ → Call
  touches : Bytes → Call
  removes : Bytes → Bool → Call
  renames : Bytes → Bytes → Call
  chmods : Bytes → ℕ → Call

module _ (now uid gid : ℕ) where
  abbrev pub run : Call → Fs → Result Fs
  run (writes p content mode) fs = write_file now uid gid fs p content mode
  run (appends p content) fs = append_file now uid gid fs p content
  run (makes p mode) fs = mkdir now uid gid fs p mode
  run (makes_all p mode) fs = mkdir_all now uid gid fs p mode
  run (touches p) fs = touch now uid gid fs p
  run (removes p recursive) fs = remove fs p recursive
  run (renames from to) fs = rename fs from to
  run (chmods p mode) fs = chmod fs p mode

  -- Where a call may write to a nil map.
  abbrev pub MayPanic : Call → Fs → Type 0
  MayPanic (makes_all p mode) fs = IsBlocked fs (split p) root
  MayPanic (renames from to) fs = LeadsToNoDir fs (path_dir to)
  MayPanic _ fs = ⊥

  -- From a valid file system each operation ends in a valid one, in an error, or in a panic, and a
  -- panic only in a rename whose new parent is no directory, or in a mkdir -p with something that
  -- is no directory in its way. A valid file system is within its quota.
  pub run-Ends : (c : Call) (fs : Fs) → IsValid fs → Ends (MayPanic c fs) IsValid (run c fs)
  run-Ends (writes p content mode) fs v = write_file-Ends now uid gid fs v p content mode
  run-Ends (appends p content) fs v = append_file-Ends now uid gid fs v p content
  run-Ends (makes p mode) fs v = mkdir-Ends now uid gid fs v p mode
  run-Ends (makes_all p mode) fs v = mkdir_all-Ends now uid gid mode fs p v
  run-Ends (touches p) fs v = touch-Ends now uid gid fs v p
  run-Ends (removes p recursive) fs v = remove-Ends fs v p recursive
  run-Ends (renames from to) fs v = rename-Ends fs v from to
  run-Ends (chmods p mode) fs v = chmod-Ends fs v p mode
