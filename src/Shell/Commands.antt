-- ===== src/Shell/Commands.antt =====
-- node/internal/shell/commands.go: the commands that read and change the file system and the state
-- of the session. An answer is the output, the exit code and the session behind it; `none` is a
-- panic.
pub mod Echo
pub mod Fetch
pub mod Files
pub mod Fixed
pub mod Lines
pub mod Moves
pub mod Nested
pub mod Search
pub mod State
pub mod Table
mod Sound
use honeynet.Base.{
  ℕ, Bool, true, false, not, ◌&&◌, ◌||◌, Option, none, some, ◌>>=◌, List, [], ◌∷◌, ◌++◌, ◌==◌,
  if◌then◌else◌, length, drop, Bytes, codes, equal, has_prefix, is_empty,
}
use honeynet.Vfs.{Error, Fs, Result, ok, err, panic}
use honeynet.Shell.Session.{Shell}
use honeynet.Shell.Evaluate.{contains}

abbrev pub Answer : Type 0
Answer = Option (Bytes × ℕ × Shell)

-- What one operand adds: its output, whether it failed, and the session behind it.
abbrev pub Step : Type 0
Step = Option (Bytes × Bool × Shell)

abbrev pub is_option : Bytes → Bool
is_option a = has_prefix (codes "-") a && not (equal a (codes "-"))

-- A flag by itself, or a letter among others behind one dash.
abbrev pub holds_flag : Bytes → Bytes → Bool
holds_flag a f =
    equal a f || length f == 2 && not (has_prefix (codes "--") a) && contains (letter f) (drop 1 a)
  where
    letter : Bytes → ℕ
    letter (dash ∷ c ∷ more) = c
    letter _ = 0

pub holds_any : Bytes → List Bytes → Bool
holds_any a [] = false
holds_any a (f ∷ flags) = holds_flag a f || holds_any a flags

pub has_flag : List Bytes → List Bytes → Bool
has_flag [] flags = false
has_flag (a ∷ args) flags = is_option a && holds_any a flags || has_flag args flags

pub operands : List Bytes → List Bytes
operands [] = []
operands (a ∷ args) = let rest = operands args in if is_option a then rest else a ∷ rest

-- A loop over operands: the outputs one after another, and the code 1 if one failed.
pub each : (Shell → Bytes → Step) → Shell → List Bytes → Answer
each step s [] = some ([], 0, s)
each step s (f ∷ fs) = do
  (out, is_failed, t) ← step s f
  (more, code, u) ← each step t fs
  some (out ++ more, (if is_failed then 1 else code), u)

-- An operation of the file system for one operand, and what is said of its error, if it is.
pub attempt : Shell → Result Fs → (Error → Option Bytes) → Step
attempt s (ok fs) said = some ([], false, record s { fs = fs })
attempt s (err e) said = elim (said e) [
  | some text ↦ some (text, true, s)
  | none ↦ some ([], false, s)
]
attempt s panic said = none
