-- ===== src/Shell/Commands/Lines/Tests.antt =====
-- Runs of head and tail.
use honeynet.Base.{◌≡◌, refl, none, some, [], ◌∷◌, codes, equal, has_prefix, split_on, cons_head}
use honeynet.Shell.Evaluate.Tests.{calm}
use honeynet.Shell.Commands.Lines.{
  decimal_from, decimal, atoi, count_of, file_of, trim_newline, some_lines, print_lines, head_tail,
  cmd_head, cmd_tail,
}

two_of_three :
    cmd_tail calm (codes "tail") (codes "-n2" ∷ []) (codes "a\nb\nc\n")
    ≡ some (codes "b\nc\n", 0, calm)
unfolding cmd_tail head_tail print_lines some_lines trim_newline file_of count_of atoi decimal
    decimal_from equal has_prefix split_on cons_head
two_of_three = refl

-- `head -n-1` and `tail -n-1` slice out of range, and the panic ends the process.
negative_head : cmd_head calm (codes "head") (codes "-n-1" ∷ []) (codes "a\nb\n") ≡ none
unfolding cmd_head head_tail print_lines some_lines trim_newline file_of count_of atoi decimal
    decimal_from equal has_prefix split_on cons_head
negative_head = refl
