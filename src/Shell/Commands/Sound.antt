-- ===== src/Shell/Commands/Sound.antt =====
-- The condition that the commands keep: the working directory is canonical, and the file system
-- valid, within its quota. What the loops of the commands need for it.
use honeynet.Base.{
  ◌≤◌, refl, inl, inr, true, false, Bool-cases, arith, length, Option, none, some, List, [], ◌∷◌,
  Bytes,
}
use honeynet.Vfs.{Error, Fs, Result, ok, err, panic}
use honeynet.Vfs.Ends.{Ends, Ends-ok}
use honeynet.Vfs.Paths.Canonical.{IsCanonical}
use honeynet.Vfs.Valid.{IsValid}
use honeynet.Shell.Session.{Shell}
use honeynet.Shell.Session.Kept.{Gives, panics, gives, Gives-bind}
use honeynet.Shell.Evaluate.{Handler}
use honeynet.Shell.Evaluate.Kept.{Steps, Steps-trans, behind}
use honeynet.Shell.Commands.{Answer, Step, is_option, operands, each, attempt}

abbrev pub IsSound : Bytes → Fs → Type 0
IsSound cwd fs = IsCanonical cwd × IsValid fs

-- What the commands owe.
abbrev pub Answers : Shell → Answer → Type 0
Answers s m = Gives Unit (λ r. Steps IsSound s (behind r)) m

abbrev pub IsKept : Handler → Type 0
IsKept command =
    (s : Shell) (name : Bytes) (args : List Bytes) (stdin : Bytes)
    → IsSound s.cwd s.fs
    → Answers s (command s name args stdin)

abbrev pub Adds : Shell → Step → Type 0
Adds s m = Gives Unit (λ r. Steps IsSound s r.2) m

pub none-Steps : {s : Shell} → Steps IsSound s s
none-Steps = record { counted = refl; holds = λ x. x }

pub each-Steps :
    (step : Shell → Bytes → Step)
    → ((s : Shell) (f : Bytes) → Adds s (step s f))
    → (s : Shell) (fs : List Bytes) → Answers s (each step s fs)
unfolding each
each-Steps step k s [] = gives none-Steps
each-Steps step k s (f ∷ fs) =
    Gives-bind _ (k s f)
      λ r h. Gives-bind _ (each-Steps step k r.2 fs) λ u g. gives (Steps-trans IsSound h g)

pub attempt-Steps :
    (s : Shell) (Q : Type 0) (r : Result Fs) (said : Error → Option Bytes)
    → (IsValid s.fs → Ends Q IsValid r)
    → Adds s (attempt s r said)
unfolding attempt
attempt-Steps s Q (ok fs) said h =
    gives (record { counted = refl; holds = λ x. (x.0, Ends-ok (h x.1)) })
attempt-Steps s Q (err e) said h = spoken (said e)
  where
    spoken :
        (o : Option Bytes)
        → Adds s (elim o [ some text ↦ some (text, true, s) | none ↦ some ([], false, s) ])
    spoken (some text) = gives none-Steps
    spoken none = gives none-Steps
attempt-Steps s Q panic said h = panics tt

module _ {A T Q : Type 0} {P : T → Type 0} where
  pub on_result :
      (r : Result A) {x : Option T} {f : Error → Option T} {g : A → Option T}
      → Gives Q P x
      → ((e : Error) → Gives Q P (f e))
      → ((a : A) → Gives Q P (g a))
      → Gives Q P (elim r [ panic ↦ x | err e ↦ f e | ok a ↦ g a ])
  on_result panic h k l = h
  on_result (err e) h k l = k e
  on_result (ok a) h k l = l a

  pub on_list :
      (xs : List A) {x : Option T} {f : A → List A → Option T}
      → Gives Q P x
      → ((a : A) (more : List A) → Gives Q P (f a more))
      → Gives Q P (elim xs [ [] ↦ x | a ∷ more ↦ f a more ])
  on_list [] h k = h
  on_list (a ∷ more) h k = k a more

pub length-operands : (args : List Bytes) → length (operands args) ≤ length args
unfolding operands
length-operands [] = omega arith
length-operands (a ∷ args) =
    let rest = length-operands args in
    elim (Bool-cases (is_option a)) [
      | inl option ↦ rw (option, operands) (omega arith)
      | inr operand ↦ rw (operand, operands) (omega arith)
    ]
