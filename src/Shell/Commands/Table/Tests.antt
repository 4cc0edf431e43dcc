-- ===== src/Shell/Commands/Table/Tests.antt =====
-- The theorems on the table at concrete lines.
use honeynet.Base.{
  ◌<◌, ◌≡◌, refl, true, false, inl, Option, none, some, [], ◌∷◌, arith, All, Bytes, codes, find,
  equal,
}
use honeynet.Vfs.{Node, Fs, ok, children_of, new_dir, root, read_file}
use honeynet.Vfs.Small.{small, small-IsValid}
use honeynet.Vfs.Descend.{descend}
use honeynet.Vfs.Paths.Proper.{lacks, are_proper, are_proper-IsElement}
use honeynet.Shell.Session.{Shell, arrives, ends, eof}
use honeynet.Shell.Session.Kept.{Gives, panics, reads}
use honeynet.Shell.Evaluate.{Handler, exec_line}
use honeynet.Shell.Evaluate.Argv.{call}
use honeynet.Shell.Evaluate.Kept.{IsTable}
use honeynet.Shell.Evaluate.Redirected.{stored}
use honeynet.Shell.Evaluate.Tests.{calm}
use honeynet.Shell.Loop.{run_interactive}
use honeynet.Shell.Loop.Counted.{IsOver}
use honeynet.Shell.Parser.Redirected.{IsWordChar, echo_line}
use honeynet.Shell.Commands.Echo.Captured.{hex_char, hex_text}
use honeynet.Shell.Commands.Sound.{IsSound, IsKept}
use honeynet.Shell.Commands.Nested.Shorter.{words, fields-nil}
use honeynet.Shell.Commands.Table.{builtins}
use honeynet.Shell.Commands.Table.Ended.{builtins_ends}
use honeynet.Shell.Commands.Table.Dropped.{exec_line-drops}
use honeynet.Shell.Commands.Table.Sound.{run_interactive-IsSound}

-- A session on the small file system that reports its uploads, and no further commands.
abbrev visited : Shell
visited = record calm {
  fs = small;
  hooks = record { has_command = true; has_artifact = false; has_upload = true };
}

abbrev no_more : Bytes → Option Handler
no_more name = none

abbrev gives_up : Handler
gives_up s name args stdin = none

abbrev repeats : Handler
repeats s name args stdin = some (stdin, 0, s)

no_more-IsTable : IsTable Unit IsSound no_more
no_more-IsTable name handler known = absurd (no_some known)
  where
    no_some : none ≡ some handler → ⊥
    no_some p = absurd (ground arith)

gives_up-IsKept : IsKept gives_up
gives_up-IsKept s name args stdin v = panics tt

-- `sudo whoami`
two_words : words (codes "whoami" ∷ []) (codes "") < 2
two_words = rw fields-nil (omega arith)

two_words_more : words (codes "whoami" ∷ []) (codes "") < 7
two_words_more = rw fields-nil (omega arith)

builtins_ends_example :
    call
      (builtins no_more (λ s. s) gives_up 2 (codes "sudo"))
      visited
      (codes "sudo")
      (codes "whoami" ∷ [])
      []
    ≡ call
        (builtins no_more (λ s. s) repeats 7 (codes "sudo"))
        visited
        (codes "sudo")
        (codes "whoami" ∷ [])
        []
builtins_ends_example =
    builtins_ends no_more (λ s. s) gives_up repeats 2 7 visited (codes "sudo") (codes "whoami" ∷ [])
      [] two_words two_words_more

abbrev tmp_node : Node
tmp_node = record (new_dir (codes "tmp") 0x3ff 0 0 7) { children = some ((codes "x", 4) ∷ []) }

elf_free : find (codes "elf") (children_of tmp_node) ≡ none
unfolding find equal
elf_free = refl

elf_proper : are_proper (codes "tmp" ∷ codes "elf" ∷ []) ≡ true
unfolding are_proper lacks equal
elf_proper = refl

tmp_leads : descend small (codes "tmp" ∷ []) root ≡ some 1
unfolding descend find equal
tmp_leads = refl

-- `echo -ne '\x7f\x45' > /tmp/elf`
elf_line :
    echo_line (hex_text (0x7f ∷ 0x45 ∷ [])) (codes "/tmp/elf")
    ≡ codes "echo -ne '\\x7f\\x45' > /tmp/elf"
unfolding hex_text hex_char
elf_line = refl

elf_written : All IsWordChar (codes "/tmp/elf")
elf_written = ground arith

exec_line-drops_example :
    (fs : Fs) × (exec_line
        (builtins no_more (λ s. s) gives_up 1)
        (λ s. s)
        visited
        (echo_line (hex_text (0x7f ∷ 0x45 ∷ [])) (codes "/tmp/elf"))
      ≡ some (stored visited 0 fs (codes "/tmp/elf") (0x7f ∷ 0x45 ∷ []) (codes "/tmp/elf")))
    × (read_file fs 10 (codes "/tmp/elf") ≡ ok (0x7f ∷ 0x45 ∷ []))
exec_line-drops_example =
    exec_line-drops no_more (λ s. s) gives_up 0 visited small-IsValid refl 0x7f (0x45 ∷ [])
      (omega arith, (omega arith, tt)) (codes "elf") 1 tmp_node refl refl (inl elf_free)
      (codes "tmp" ∷ []) (are_proper-IsElement (codes "tmp" ∷ codes "elf" ∷ []) elf_proper)
      tmp_leads refl elf_written 10

four_reads : reads (arrives (codes "cd /tmp\r") 7 (arrives (codes "exit\r") 7 (ends eof))) < 4
unfolding reads
four_reads = omega arith

run_interactive-IsSound_example : Gives Unit (IsOver IsSound) (
    run_interactive
      (builtins no_more (λ s. s) gives_up 3)
      (λ s. s)
      (codes "Welcome\r\n")
      (λ h. codes "Mon Jan  2 15:04:05 2006")
      4
      visited
      (arrives (codes "cd /tmp\r") 7 (arrives (codes "exit\r") 7 (ends eof))))
run_interactive-IsSound_example =
    run_interactive-IsSound no_more (λ s. s) gives_up no_more-IsTable gives_up-IsKept 3
      (codes "Welcome\r\n") (λ h. codes "Mon Jan  2 15:04:05 2006") 4 visited
      (arrives (codes "cd /tmp\r") 7 (arrives (codes "exit\r") 7 (ends eof))) refl refl refl
      (omega arith) four_reads ([], tt, refl) small-IsValid
