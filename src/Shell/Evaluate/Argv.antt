-- ===== src/Shell/Evaluate/Argv.antt =====
-- A stage depends on the table only at the command that it looks up, with fewer words than it has.
use honeynet.Base.{
  ℕ, ◌≤◌, ◌<◌, ◌≡◌, refl, sym, false, inl, inr, Bool-cases, Option-cases, Option, none, some, List,
  [], ◌∷◌, arith, length, Bytes, assign,
}
use honeynet.Vfs.Paths.{path_base}
use honeynet.Shell.Parser.{Stage}
use honeynet.Shell.Session.{Shell}
use honeynet.Shell.Evaluate.{
  Handler, is_assignment, key_of, value_of, assign_all, dispatch, run_stage,
}

-- What comes of a command that is looked up, if it is there.
abbrev pub call :
    Option Handler → Shell → Bytes → List Bytes → Bytes → Option (Option (Bytes × ℕ × Shell))
call (some handler) s name args stdin = some (handler s name args stdin)
call none s name args stdin = none

length-assign_all : (s : Shell) (argv : List Bytes) → length (assign_all s argv).1 ≤ length argv
unfolding assign_all
length-assign_all s [] = omega arith
length-assign_all s (word ∷ argv) = elim (Bool-cases (is_assignment word)) [
  | inl set ↦
      let rest =
        length-assign_all (record s { env = assign (key_of word) (value_of word) s.env }) argv in
      rw (set, assign_all) (omega arith)
  | inr command ↦ rw (command, assign_all) (omega arith)
]

module _ (builtins others : Bytes → Option Handler) (to_lower : Bytes → Bytes) where
  dispatch-call :
      (s : Shell) (argv : List Bytes) (stdin : Bytes)
      → ((full : Bytes) (args : List Bytes)
          → length args < length argv
          → call (builtins (path_base full)) s (path_base full) args stdin
            ≡ call (others (path_base full)) s (path_base full) args stdin)
      → dispatch builtins to_lower s argv stdin ≡ dispatch others to_lower s argv stdin
  unfolding dispatch
  dispatch-call s [] stdin same = refl
  dispatch-call s (full ∷ args) stdin same =
      let here = same full args (omega arith) in
      elim (Option-cases (builtins (path_base full))) [
        | inl missing ↦ elim (Option-cases (others (path_base full))) [
          | inl unknown ↦ rw (missing, dispatch) (rw (unknown, dispatch) refl)
          | inr (g, found) ↦ absurd (no_some (rw found at (rw missing at here)))
        ]
        | inr (f, known) ↦ elim (Option-cases (others (path_base full))) [
          | inl unknown ↦ absurd (no_some (sym (rw unknown at (rw known at here))))
          | inr (g, found) ↦
              rw (known, dispatch)
                (rw (found, dispatch) (some_inj (rw found at (rw known at here))))
        ]
      ]
    where
      some_inj : {a b : Option (Bytes × ℕ × Shell)} → some a ≡ some b → a ≡ b
      some_inj p = cc

      no_some : {a : Option (Bytes × ℕ × Shell)} → none ≡ some a → ⊥
      no_some p = absurd (ground arith)

  pub run_stage-call :
      (s : Shell) (st : Stage) (stdin : Bytes)
      → ((t : Shell) (full : Bytes) (args : List Bytes)
          → length args < length st.argv
          → call (builtins (path_base full)) t (path_base full) args stdin
            ≡ call (others (path_base full)) t (path_base full) args stdin)
      → run_stage builtins to_lower s st stdin ≡ run_stage others to_lower s st stdin
  unfolding run_stage
  run_stage-call s st stdin same =
      dispatch-call (assign_all s st.argv).0 (assign_all s st.argv).1 stdin λ full args fewer.
        same (assign_all s st.argv).0 full args (omega (arith, fewer, length-assign_all s st.argv))

-- A command that is found answers for its stage.
pub run_stage-found :
    (builtins : Bytes → Option Handler) (to_lower : Bytes → Bytes) (s : Shell) (st : Stage)
    (stdin full : Bytes) (args : List Bytes) (handler : Handler)
    → st.argv ≡ full ∷ args
    → is_assignment full ≡ false
    → builtins (path_base full) ≡ some handler
    → run_stage builtins to_lower s st stdin ≡ handler s (path_base full) args stdin
unfolding run_stage assign_all dispatch
run_stage-found builtins to_lower s st stdin full args handler e command known =
    rw e (rw (command, assign_all) (rw (known, dispatch) refl))
