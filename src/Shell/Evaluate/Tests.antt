-- ===== src/Shell/Evaluate/Tests.antt =====
-- Runs of command lists, with a table of two commands.
use mathlib.Core.Path.{subst}
use honeynet.Base.{
  ◌≡◌, refl, Bool, true, false, inl, inr, Bool-cases, Option, none, some, [], ◌∷◌, arith, Bytes,
  codes, equal, split_on, cons_head, if◌then◌else◌,
}
use honeynet.Vfs.{Fs}
use honeynet.Vfs.Paths.{path_base, last_filled}
use honeynet.Shell.Parser.{Pipeline, Stage, no_stage}
use honeynet.Shell.Session.{Shell, write, default_limits}
use honeynet.Shell.Session.Kept.{Gives, gives}
use honeynet.Shell.Evaluate.{
  Handler, is_assignment, contains, assign_all, dispatch, run_stage, deliver, run_stages,
  run_pipeline, exec_pipelines, stops,
}
use honeynet.Shell.Evaluate.Kept.{IsTable, Steps, behind}

abbrev pub calm : Shell
calm = record {
  hostname = codes "web01";
  fs = record { nodes = []; written = 0 };
  hooks = record { has_command = true; has_artifact = false; has_upload = false };
  lim = default_limits;
  pty = false;
  user = codes "bob";
  uid = 1000;
  gid = 1000;
  cwd = codes "/";
  env = [];
  history = [];
  cmd_index = 0;
  exit_code = 0;
  started = 0;
  last_cmd = 0;
  in_bytes = 0;
  exit_flag = false;
  clock = 0;
  output = [];
  events = [];
}

-- A table with `false`, and `exit`.
abbrev fails_with_one : Handler
fails_with_one s name args stdin = some ([], 1, s)

abbrev leaves_shell : Handler
leaves_shell s name args stdin = some (codes "logout", 0, record s { exit_flag = true })

abbrev pub two_commands : Bytes → Option Handler
two_commands name =
    if equal name (codes "false")
    then some fails_with_one
    else if equal name (codes "exit")
    then some leaves_shell
    else none

pub two_commands-IsTable : (Q : Type 0) (Inv : Bytes → Fs → Type 0) → IsTable Q Inv two_commands
two_commands-IsTable Q Inv name handler known s arg args stdin v =
    elim (Bool-cases (equal name (codes "false"))) [
      | inl f ↦
          let e : fails_with_one ≡ handler = some_inj (rw f at known) in
          subst (λ h. Gives Q (λ r. Steps Inv s (behind r)) (h s arg args stdin)) e
            (gives (record { counted = refl; holds = λ x. x }))
      | inr other ↦ elim (Bool-cases (equal name (codes "exit"))) [
        | inl x ↦
            let e : leaves_shell ≡ handler = some_inj (rw x at (rw other at known)) in
            subst (λ h. Gives Q (λ r. Steps Inv s (behind r)) (h s arg args stdin)) e
              (gives (record { counted = refl; holds = λ x. x }))
        | inr none_of_them ↦ absurd (no_some (rw none_of_them at (rw other at known)))
      ]
    ]
  where
    some_inj : {a b : Handler} → some a ≡ some b → a ≡ b
    some_inj p = cc

    no_some : none ≡ some handler → ⊥
    no_some p = absurd (ground arith)

abbrev stage : Bytes → Stage
stage name = record no_stage { argv = name ∷ [] }

abbrev pipeline : Bytes → Bytes → Pipeline
pipeline name next = record { stages = stage name ∷ []; next = next; background = false }

abbrev left_by : Option Shell → Option Bool
left_by none = none
left_by (some s) = some s.exit_flag

-- `false && exit ; exit`: a failed command in front of "&&" ends the whole line.
rest_skipped :
    left_by (
      exec_pipelines two_commands
        (λ s. s)
        calm
        (pipeline (codes "false") (codes "&&")
          ∷ pipeline (codes "exit") (codes ";")
          ∷ pipeline (codes "exit") []
          ∷ []))
    ≡ some false
unfolding exec_pipelines run_pipeline run_stages run_stage dispatch deliver assign_all is_assignment
    stops contains equal write path_base last_filled split_on cons_head
rest_skipped = refl
