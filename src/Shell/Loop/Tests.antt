-- ===== src/Shell/Loop/Tests.antt =====
-- The theorem on a session, at one of two lines: it ends, if ExtractURLs does not panic.
use honeynet.Base.{◌<◌, ◌≡◌, refl, none, List, [], arith, Bytes, codes}
use honeynet.Vfs.{Fs}
use honeynet.Vfs.Small.{small, small-IsValid}
use honeynet.Vfs.Valid.{IsValid}
use honeynet.Vfs.Paths.Canonical.{IsCanonical}
use honeynet.Shell.Urls.{extract_urls}
use honeynet.Shell.Session.{Shell, arrives, ends, eof}
use honeynet.Shell.Session.Kept.{Gives, reads}
use honeynet.Shell.Evaluate.Stored.{IsValid-IsStoring}
use honeynet.Shell.Evaluate.Tests.{calm, two_commands, two_commands-IsTable}
use honeynet.Shell.Loop.{run_interactive}
use honeynet.Shell.Loop.Counted.{IsOver, run_interactive-IsOver}

abbrev UrlsPanic : Type 0
UrlsPanic = (argv : List Bytes) × (extract_urls (λ s. s) argv ≡ none)

abbrev IsGood : Bytes → Fs → Type 0
IsGood cwd fs = IsCanonical cwd × IsValid fs

abbrev visited : Shell
visited = record calm { fs = small }

run_interactive-IsOver_example : Gives UrlsPanic (IsOver IsGood) (
    run_interactive two_commands
      (λ s. s)
      (codes "Welcome\r\n")
      (λ h. codes "Mon Jan  2 15:04:05 2006")
      4
      visited
      (arrives (codes "false\r") 7 (arrives (codes "exit\r") 7 (ends eof))))
run_interactive-IsOver_example =
    run_interactive-IsOver UrlsPanic IsGood (IsValid-IsStoring UrlsPanic IsCanonical) two_commands
      (λ s. s) (two_commands-IsTable UrlsPanic IsGood) (λ argv e. (argv, e)) (codes "Welcome\r\n")
      (λ h. codes "Mon Jan  2 15:04:05 2006") 4 visited
      (arrives (codes "false\r") 7 (arrives (codes "exit\r") 7 (ends eof))) refl refl refl
      (omega arith) few (([], tt, refl), small-IsValid)
  where
    few : reads (arrives (codes "false\r") 7 (arrives (codes "exit\r") 7 (ends eof))) < 4
    few = unfold reads in omega arith
