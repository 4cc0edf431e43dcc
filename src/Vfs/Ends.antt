-- ===== src/Vfs/Ends.antt =====
-- How a computation on the file system ends: in a result that satisfies `P`, in an error, or, only
-- where `Q` holds, in a panic.
use honeynet.Base.{◌≡◌, refl, Bool, true, false}
use honeynet.Base.{if◌then◌else◌}
use honeynet.Vfs.{Error, Result, ok, err, panic, ◌>>=◌}

pub data Ends {ℓ} {A : Type ℓ} (Q : Type 0) (P : A → Type 0) : Result A → Type ℓ where
  ends : {a : A} → P a → Ends Q P (ok a)
  fails : (e : Error) → Ends Q P (err e)
  panics : Q → Ends Q P panic

module _ {ℓ κ} {A : Type ℓ} {B : Type κ} {Q : Type 0} {P : A → Type 0} {R : B → Type 0} where
  pub Ends-bind :
      {m : Result A} (f : A → Result B)
      → Ends Q P m
      → ((a : A) → P a → Ends Q R (f a))
      → Ends Q R (m >>= f)
  Ends-bind f (ends {a} p) k = k a p
  Ends-bind f (fails e) k = fails e
  Ends-bind f (panics q) k = panics q

  -- The same with the equation of the first result.
  pub Ends-bind_eq :
      {m : Result A} (f : A → Result B)
      → Ends Q P m
      → ((a : A) → m ≡ ok a → P a → Ends Q R (f a))
      → Ends Q R (m >>= f)
  Ends-bind_eq f (ends {a} p) k = k a refl p
  Ends-bind_eq f (fails e) k = fails e
  Ends-bind_eq f (panics q) k = panics q

module _ {ℓ} {A : Type ℓ} {Q : Type 0} {P : A → Type 0} where
  pub Ends-if :
      (b : Bool) {x y : Result A}
      → (b ≡ true → Ends Q P x)
      → (b ≡ false → Ends Q P y)
      → Ends Q P (if b then x else y)
  Ends-if true h k = h refl
  Ends-if false h k = k refl

module _ {ℓ} {A : Type ℓ} {Q R : Type 0} {P S : A → Type 0} where
  pub Ends-weaken : {m : Result A} → (Q → R) → ((a : A) → P a → S a) → Ends Q P m → Ends R S m
  Ends-weaken f g (ends {a} p) = ends (g a p)
  Ends-weaken f g (fails e) = fails e
  Ends-weaken f g (panics q) = panics (f q)

-- What holds of a result that is there.
pub Ends-ok {ℓ} : {A : Type ℓ} {Q : Type 0} {P : A → Type 0} {a : A} → Ends Q P (ok a) → P a
Ends-ok (ends p) = p

pub Ends-panic {ℓ} : {A : Type ℓ} {Q : Type 0} {P : A → Type 0} → Ends Q P panic → Q
Ends-panic (panics q) = q
