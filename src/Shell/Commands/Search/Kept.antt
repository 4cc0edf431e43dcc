-- ===== src/Shell/Commands/Search/Kept.antt =====
-- The commands that search and count leave the session as it is.
use honeynet.Base.{not, List, [], ◌∷◌, ◌++◌, Bytes, codes, has_prefix}
use honeynet.Vfs.{read_file}
use honeynet.Vfs.Paths.{clean}
use honeynet.Shell.Session.{Shell}
use honeynet.Shell.Session.Kept.{panics, gives, Gives-if, Gives-bind}
use honeynet.Shell.Commands.{has_flag, operands}
use honeynet.Shell.Commands.Sound.{IsKept, Answers, none-Steps, on_result, on_list}
use honeynet.Shell.Commands.Files.Kept.{anywhere}
use honeynet.Shell.Commands.Lines.{text_of}
use honeynet.Shell.Commands.Search.{
  sources, grep, cmd_grep, count_words, cmd_wc, trim_set, cmd_awk, cmd_strings, cmd_mount,
}

module _ (to_lower : Bytes → Bytes) where
  grep-Steps :
      (s : Shell) (args : List Bytes) (pattern : Bytes) (texts : List (Bytes × Bytes))
      → Answers s (grep to_lower s args pattern texts)
  unfolding grep
  grep-Steps s args pattern texts = gives none-Steps

  pub cmd_grep-IsKept : IsKept (cmd_grep to_lower)
  unfolding cmd_grep
  cmd_grep-IsKept s name args stdin v = on_list (operands args) (gives none-Steps) λ pattern files.
      on_list files (grep-Steps s args pattern (([], stdin) ∷ [])) λ f more.
        Gives-bind _ (anywhere (sources s [] (f ∷ more))) λ texts h. grep-Steps s args pattern texts

count_words-Steps :
    (s : Shell) (args : List Bytes) (label content : Bytes)
    → Answers s (count_words s args label content)
unfolding count_words
count_words-Steps s args label content =
    Gives-if (has_flag args (codes "-l" ∷ [])) (gives none-Steps) (
      Gives-if (has_flag args (codes "-w" ∷ [])) (gives none-Steps)
        (Gives-if (has_flag args (codes "-c" ∷ [])) (gives none-Steps) (gives none-Steps)))

pub cmd_wc-IsKept : IsKept cmd_wc
unfolding cmd_wc
cmd_wc-IsKept s name args stdin v =
    on_list (operands args) (count_words-Steps s args [] stdin) λ f files.
      on_result (read_file s.fs s.clock (clean s.cwd f)) (panics tt) (λ e. gives none-Steps)
        λ content. count_words-Steps s args (codes " " ++ f) content

pub cmd_awk-IsKept : IsKept cmd_awk
unfolding cmd_awk
cmd_awk-IsKept s name args stdin v = on_list (operands args) (gives none-Steps) λ op ops.
    Gives-if (not (has_prefix (codes "print") (trim_set (codes "{} ") op))) (gives none-Steps)
      (gives none-Steps)

pub cmd_strings-IsKept : IsKept cmd_strings
unfolding cmd_strings
cmd_strings-IsKept s name args stdin v =
    Gives-bind _ (anywhere (text_of s (operands args) stdin)) λ content h. gives none-Steps

pub cmd_mount-IsKept : IsKept cmd_mount
unfolding cmd_mount
cmd_mount-IsKept s name args stdin v =
    on_result (read_file s.fs s.clock (codes "/proc/mounts")) (panics tt) (λ e. gives none-Steps)
      λ content. gives none-Steps
