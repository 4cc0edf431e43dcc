-- ===== src/Shell/Commands/Table/Ended.antt =====
-- Commands that run one another come to an end.
use honeynet.Base.{
  ℕ, zero, suc, ◌<◌, ◌≡◌, refl, ap, inl, inr, Bool-cases, Option, none, some, List, [], ◌∷◌, arith,
  Bytes, equal, find,
}
use honeynet.Vfs.Paths.{path_base}
use honeynet.Shell.Parser.{no_stage}
use honeynet.Shell.Session.{Shell}
use honeynet.Shell.Evaluate.{Handler}
use honeynet.Shell.Evaluate.Argv.{call, run_stage-call}
use honeynet.Shell.Commands.Nested.Shorter.{
  words, cmd_sudo_shorter, cmd_xargs_shorter, cmd_nohup_shorter, cmd_busybox_shorter,
}
use honeynet.Shell.Commands.Table.{plain, nested, or_else, runner, builtins}

module _ (s : Shell) (name : Bytes) (args : List Bytes) (stdin : Bytes) where
  -- Two tables with the same names, whose commands answer alike.
  abbrev Agrees : List (Bytes × Handler) → List (Bytes × Handler) → Type 0
  Agrees [] [] = Unit
  Agrees ((j, f) ∷ fs) ((k, g) ∷ gs) =
      (j ≡ k) × (f s name args stdin ≡ g s name args stdin) × Agrees fs gs
  Agrees _ _ = ⊥

  find-Agrees :
      (fs gs : List (Bytes × Handler))
      → Agrees fs gs
      → call (find name fs) s name args stdin ≡ call (find name gs) s name args stdin
  unfolding find
  find-Agrees [] [] h = refl
  find-Agrees [] (g ∷ gs) h = absurd h
  find-Agrees (f ∷ fs) [] h = absurd h
  find-Agrees ((j, f) ∷ fs) ((k, g) ∷ gs) (e, same, h) = elim (Bool-cases (equal name k)) [
    | inl here ↦ rw e (rw here (ap (λ r. some r) same))
    | inr there ↦ rw e (rw there (find-Agrees fs gs h))
  ]

  call-or_else :
      (f g h : Option Handler)
      → call f s name args stdin ≡ call g s name args stdin
      → call (or_else f h) s name args stdin ≡ call (or_else g h) s name args stdin
  call-or_else none none h e = refl
  call-or_else none (some g) h e = absurd (ground arith)
  call-or_else (some f) none h e = absurd (ground arith)
  call-or_else (some f) (some g) h e = e

  call-or_else_behind :
      (f g h : Option Handler)
      → call g s name args stdin ≡ call h s name args stdin
      → call (or_else f g) s name args stdin ≡ call (or_else f h) s name args stdin
  call-or_else_behind none g h e = e
  call-or_else_behind (some f) g h e = refl

module _ (rest : Bytes → Option Handler) (to_lower : Bytes → Bytes) (stuck other : Handler) where
  -- With more depth than there are words, on the command line and on the standard input, it does not
  -- matter what stands behind the bound, nor how far away it is: every lookup gives the same answer,
  -- so that no chain of commands that run one another, through sudo, nohup, timeout, watch, xargs or
  -- busybox, gets there.
  pub builtins_ends :
      (depth further : ℕ) (s : Shell) (name : Bytes) (args : List Bytes) (stdin : Bytes)
      → words args stdin < depth
      → words args stdin < further
      → call (builtins rest to_lower stuck depth name) s name args stdin
        ≡ call (builtins rest to_lower other further name) s name args stdin
  unfolding builtins nested
  builtins_ends zero further s name args stdin h k = absurd (ground arith)
  builtins_ends (suc depth) zero s name args stdin h k = absurd (ground arith)
  builtins_ends (suc depth) (suc further) s name args stdin h k =
      let front = builtins rest to_lower stuck depth in
      let back = builtins rest to_lower other further in
      let run = runner rest to_lower stuck front in
      let run_other = runner rest to_lower other back in
      let least : ℕ = suc (words args stdin) in
      let same_run : (argv : List Bytes) (input : Bytes)
          → words argv input < least
          → run s argv input ≡ run_other s argv input =
        λ argv input fewer.
          run_stage-call front back to_lower s (record no_stage { argv = argv }) input
            λ t full more shorter.
              builtins_ends depth further t (path_base full) more input
                (omega (arith, h, fewer, shorter)) (omega (arith, k, fewer, shorter)) in
      let nohup = cmd_nohup_shorter run run_other least s stdin same_run name args (omega arith) in
      let busybox =
        cmd_busybox_shorter front back (words args stdin) s stdin
          (λ a more fewer.
            builtins_ends depth further s a more stdin (omega (arith, h, fewer))
              (omega (arith, k, fewer)))
          name args (omega arith) in
      let sudo = cmd_sudo_shorter run run_other least s stdin same_run name args (omega arith) in
      let xargs = cmd_xargs_shorter run run_other least s stdin same_run name args (omega arith) in
      let agree : Agrees s name args stdin (nested run front) (nested run_other back) = (
        refl,
        busybox,
        (refl, sudo, (refl, nohup, (refl, nohup, (refl, nohup, (refl, xargs, tt))))),
      ) in
      call-or_else_behind s name args stdin (find name (plain to_lower)) _ _ (
        call-or_else s name args stdin (find name (nested run front))
          (find name (nested run_other back)) (rest name)
          (find-Agrees s name args stdin (nested run front) (nested run_other back) agree))
