-- ===== src/Shell/Commands/Table/Sound.antt =====
-- A whole session over the table.
use honeynet.Base.{ℕ, ◌<◌, ◌^◌, ◌≡◌, true, Option, [], Bytes}
use honeynet.Vfs.Valid.{IsValid}
use honeynet.Vfs.Paths.Canonical.{IsCanonical}
use honeynet.Shell.Session.{Shell, Input}
use honeynet.Shell.Session.Kept.{Gives, reads}
use honeynet.Shell.Evaluate.{Handler}
use honeynet.Shell.Evaluate.Stored.{IsValid-IsStoring}
use honeynet.Shell.Evaluate.Kept.{IsTable}
use honeynet.Shell.Loop.{run_interactive}
use honeynet.Shell.Loop.Counted.{IsOver, run_interactive-IsOver}
use honeynet.Shell.Commands.Sound.{IsSound, IsKept}
use honeynet.Shell.Commands.Table.{builtins}
use honeynet.Shell.Commands.Table.Kept.{builtins-IsTable}

module _ (rest : Bytes → Option Handler) (to_lower : Bytes → Bytes) (stuck : Handler)
    (others : IsTable Unit IsSound rest) (last : IsKept stuck) where
  -- A session over the table of the modelled commands, the others keeping what these keep, that
  -- starts with no commands and no events, with OnCommand set, in a canonical directory and on a valid
  -- file system, with a limit below 2^32 and a round for each read and one more, ends, or panics. Where
  -- it ends its file system is valid and within its quota, its directory canonical, and the commands
  -- that it has served are no more than the limit, each reported, numbered from zero on.
  pub run_interactive-IsSound :
      (depth : ℕ) (motd : Bytes) (hours_before : ℕ → Bytes) (left : ℕ) (s : Shell) (input : Input)
      → s.cmd_index ≡ 0
      → s.events ≡ []
      → s.hooks.has_command ≡ true
      → s.lim.max_commands < 2 ^ 32
      → reads input < left
      → IsCanonical s.cwd
      → IsValid s.fs
      → Gives Unit (IsOver IsSound) (
          run_interactive
            (builtins rest to_lower stuck depth)
            to_lower
            motd
            hours_before
            left
            s
            input)
  run_interactive-IsSound depth motd hours_before left s input none_yet nothing hook bound enough
        canonical valid =
      run_interactive-IsOver Unit IsSound (IsValid-IsStoring Unit IsCanonical)
        (builtins rest to_lower stuck depth) to_lower
        (builtins-IsTable rest to_lower stuck others last depth) (λ argv e. tt) motd hours_before
        left s input none_yet nothing hook bound enough (canonical, valid)
