-- ===== src/Shell/Commands/Lines/Kept.antt =====
-- The commands that print lines leave the session as it is.
use honeynet.Base.{ℕ, Bool, true, false, inl, inr, Option-cases, List, Bytes}
use honeynet.Vfs.{read_file}
use honeynet.Vfs.Paths.{clean}
use honeynet.Shell.Session.{Shell}
use honeynet.Shell.Session.Kept.{panics, gives, Gives-if, Gives-bind}
use honeynet.Shell.Commands.{operands}
use honeynet.Shell.Commands.Sound.{IsKept, Answers, none-Steps, on_result, on_list}
use honeynet.Shell.Commands.Files.Kept.{anywhere}
use honeynet.Shell.Commands.Lines.{
  count_of, file_of, lines_of, is_blank, some_lines, print_lines, head_tail, cmd_head, cmd_tail,
  text_of, cmd_sort, cmd_uniq, cmd_yes,
}

print_lines-Steps :
    (s : Shell) (head : Bool) (count : Bool × ℕ) (content : Bytes)
    → Answers s (print_lines s head count content)
unfolding print_lines
print_lines-Steps s head count content =
    Gives-if (is_blank (lines_of content)) (gives none-Steps)
      (Gives-bind _ (anywhere (some_lines head count (lines_of content))) λ out h. gives none-Steps)

head_tail-Steps :
    (s : Shell) (args : List Bytes) (stdin : Bytes) (head : Bool)
    → Answers s (head_tail s args stdin head)
unfolding head_tail
head_tail-Steps s args stdin head = elim (Option-cases (file_of false args)) [
  | inl nothing ↦
      rw (nothing, head_tail) (print_lines-Steps s head (count_of (false, 10) args) stdin)
  | inr (f, named) ↦
      rw (named, head_tail)
        (on_result (read_file s.fs s.clock (clean s.cwd f)) (panics tt) (λ e. gives none-Steps)
          λ content. print_lines-Steps s head (count_of (false, 10) args) content)
]

pub cmd_head-IsKept : IsKept cmd_head
unfolding cmd_head
cmd_head-IsKept s name args stdin v = head_tail-Steps s args stdin true

pub cmd_tail-IsKept : IsKept cmd_tail
unfolding cmd_tail
cmd_tail-IsKept s name args stdin v = head_tail-Steps s args stdin false

pub cmd_sort-IsKept : IsKept cmd_sort
unfolding cmd_sort
cmd_sort-IsKept s name args stdin v =
    Gives-bind _ (anywhere (text_of s (operands args) stdin)) λ content h. gives none-Steps

pub cmd_uniq-IsKept : IsKept cmd_uniq
unfolding cmd_uniq
cmd_uniq-IsKept s name args stdin v = gives none-Steps

pub cmd_yes-IsKept : IsKept cmd_yes
unfolding cmd_yes
cmd_yes-IsKept s name args stdin v =
    on_list (operands args) (gives none-Steps) λ op ops. gives none-Steps
