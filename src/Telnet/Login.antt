-- ===== src/Telnet/Login.antt =====
-- `authenticate`: the login dialogue. The policy's `Accept`, the host name and the number printed
-- in the last message are parameters.
use honeynet.Base.{
  is_empty, ℕ, zero, suc, ◌+◌, ◌≤◌, ◌<◌, ◌≡◌, refl, Bool, true, false, inl, inr, Bool-cases, leb,
  List, [], ◌∷◌, ◌++◌, if◌then◌else◌, length, All, Bytes, codes, arith,
}
use honeynet.Telnet.{Conn, write, Line, line, broken, no_fuel, read_line}
use honeynet.Telnet.Lines.{IsResult, read_line-IsResult}

-- What is recorded by `AuthAttempt`.
pub record Attempt : Type 0 where
  pub user : Bytes
  pub pass : Bytes
  pub granted : Bool

pub data Outcome : Type 0 where
  admitted : Bytes → Outcome
  refused : Outcome
  out_of_fuel : Outcome

-- A round of the dialogue: another attempt, or the end.
data Turn : Type 0 where
  again : List Attempt → Conn → Turn
  ended : Outcome → List Attempt → Conn → Turn

pub record Login : Type 0 where
  pub outcome : Outcome
  pub attempts : List Attempt
  pub conn : Conn

-- Enough for any line: the number of bytes left, and one.
abbrev line_fuel : Conn → ℕ
line_fuel c = length c.input + 1

-- `cfg.MaxAuthAttempts` as `New` leaves it; the argument is 0 for a number that is not positive.
pub max_attempts : ℕ → ℕ
max_attempts configured = if leb configured 0 then 3 else configured

module _ (accept : Bytes → Bytes → Bool) (host max_text : Bytes) (max : ℕ) where
  -- Behind the two lines: the policy decides.
  decide_login : ℕ → Bytes → Bytes → Conn → Turn
  decide_login attempt user pass c =
      let granted = accept user pass in
      let recorded : List Attempt = record { user = user; pass = pass; granted = granted } ∷ [] in
      let failed = write c (codes "\r\nLogin incorrect\r\n") in
      if granted
      then ended (admitted user) recorded (write c (codes "\r\n"))
      else if leb max attempt
      then ended refused recorded (
          write failed
            (codes "\r\nMaximum number of tries exceeded (" ++ (max_text ++ codes ")\r\n")))
      else again recorded failed

  after_password : ℕ → Bytes → Line × Conn → Turn
  after_password attempt user (line pass, c) = decide_login attempt user pass c
  after_password attempt user (broken _, c) = ended refused [] c
  after_password attempt user (no_fuel, c) = ended out_of_fuel [] c

  after_user : ℕ → Line × Conn → Turn
  after_user attempt (line user, c) =
      let asked = write c (codes "Password: ") in
      if is_empty user
      then again [] c
      else after_password attempt user (read_line (line_fuel asked) false [] asked)
  after_user attempt (broken _, c) = ended refused [] c
  after_user attempt (no_fuel, c) = ended out_of_fuel [] c

  turn : ℕ → Conn → Turn
  turn attempt c =
      let asked = write c (codes "\r\n" ++ (host ++ codes " login: ")) in
      after_user attempt (read_line (line_fuel asked) true [] asked)

  -- The loop from an attempt on; the fuel is a number of rounds.
  login_from : ℕ → ℕ → Conn → Login
  login_from zero attempt c = record { outcome = out_of_fuel; attempts = []; conn = c }
  login_from (suc fuel) attempt c = elim (turn attempt c) [
    | again recorded c' ↦
        let later = login_from fuel (attempt + 1) c' in
        record later { attempts = recorded ++ later.attempts }
    | ended outcome recorded c' ↦ record { outcome = outcome; attempts = recorded; conn = c' }
  ]

  pub authenticate : Conn → Login
  authenticate c = login_from max 1 c

  -- An attempt that the policy refused, and was recorded so.
  abbrev pub IsRefused : Attempt → Type 0
  IsRefused a = (accept a.user a.pass ≡ false) × (a.granted ≡ false)

  -- Who is admitted made the last attempt, the only one that the policy accepted; who is refused
  -- made none that it accepted.
  abbrev pub IsTrail : Outcome → List Attempt → Type 0
  IsTrail (admitted user) [] = ⊥
  IsTrail (admitted user) (a ∷ []) =
      (a.user ≡ user) × (accept a.user a.pass ≡ true) × (a.granted ≡ true)
  IsTrail (admitted user) (a ∷ b ∷ past) = IsRefused a × IsTrail (admitted user) (b ∷ past)
  IsTrail refused past = All IsRefused past
  IsTrail out_of_fuel past = ⊥

  abbrev IsTurn : ℕ → Turn → Type 0
  IsTurn attempt (again [] c) = ⊥
  IsTurn attempt (again (a ∷ []) c) = IsRefused a × (attempt < max)
  IsTurn attempt (again (_ ∷ _ ∷ _) c) = ⊥
  IsTurn attempt (ended outcome past c) = IsTrail outcome past × (length past ≤ 1)

  decide_login-IsTurn :
      (attempt : ℕ) (user pass : Bytes) (c : Conn)
      → IsTurn attempt (decide_login attempt user pass c)
  unfolding decide_login
  decide_login-IsTurn attempt user pass c = elim (Bool-cases (accept user pass)) [
    | inl let_in ↦ rw let_in ((refl, let_in, refl), omega arith)
    | inr denied ↦ rw denied (elim (Bool-cases (leb max attempt)) [
      | inl last ↦ rw last (((denied, refl), tt), omega arith)
      | inr more ↦ rw more ((denied, refl), ground arith)
    ])
  ]

  after_password-IsTurn :
      (attempt : ℕ) (user : Bytes) (r : Line × Conn)
      → IsResult r.0
      → IsTurn attempt (after_password attempt user r)
  unfolding after_password
  after_password-IsTurn attempt user (line pass, c) good = decide_login-IsTurn attempt user pass c
  after_password-IsTurn attempt user (broken _, c) good = (tt, omega arith)
  after_password-IsTurn attempt user (no_fuel, c) good = absurd good

  after_user-IsTurn :
      (attempt : ℕ) (r : Line × Conn) → IsResult r.0 → IsTurn attempt (after_user attempt r)
  unfolding after_user
  after_user-IsTurn attempt (line [], c) good = absurd (good.0 refl)
  after_user-IsTurn attempt (line (b ∷ user), c) good =
      let asked = write c (codes "Password: ") in
      after_password-IsTurn attempt (b ∷ user) (read_line (line_fuel asked) false [] asked)
        (read_line-IsResult (line_fuel asked) false asked (omega arith))
  after_user-IsTurn attempt (broken _, c) good = (tt, omega arith)
  after_user-IsTurn attempt (no_fuel, c) good = absurd good

  turn-IsTurn : (attempt : ℕ) (c : Conn) → IsTurn attempt (turn attempt c)
  unfolding turn
  turn-IsTurn attempt c =
      let asked = write c (codes "\r\n" ++ (host ++ codes " login: ")) in
      after_user-IsTurn attempt (read_line (line_fuel asked) true [] asked)
        (read_line-IsResult (line_fuel asked) true asked (omega arith))

  IsTrail-cons :
      (a : Attempt) (o : Outcome) (past : List Attempt)
      → IsRefused a
      → IsTrail o past
      → IsTrail o (a ∷ past)
  IsTrail-cons a (admitted user) [] h t = absurd t
  IsTrail-cons a (admitted user) (b ∷ past) h t = (h, t)
  IsTrail-cons a refused past h t = (h, t)
  IsTrail-cons a out_of_fuel past h t = absurd t

  abbrev IsLogin : ℕ → Login → Type 0
  IsLogin left l = IsTrail l.outcome l.attempts × (length l.attempts ≤ left)

  login_from_lem :
      (fuel attempt : ℕ) (c : Conn)
      → attempt ≤ max
      → attempt + fuel ≡ max + 1
      → IsLogin fuel (login_from fuel attempt c)
  unfolding login_from
  login_from_lem zero attempt c h e = absurd (omega arith)
  login_from_lem (suc fuel) attempt c h e =
      behind (turn attempt c) (turn-IsTurn attempt c)
        (λ c' more. login_from_lem fuel (attempt + 1) c' (omega arith) (omega arith))
    where
      behind :
          (t : Turn)
          → IsTurn attempt t
          → ((c' : Conn) → attempt < max → IsLogin fuel (login_from fuel (attempt + 1) c'))
          → IsLogin (suc fuel) (elim t as (λ x. Login) [
            | again recorded c' ↦
                let later = login_from fuel (attempt + 1) c' in
                record later { attempts = recorded ++ later.attempts }
            | ended outcome recorded c' ↦ record {
              outcome = outcome;
              attempts = recorded;
              conn = c';
            }
          ])
      behind (again [] c') t ih = absurd t
      behind (again (a ∷ []) c') (t, more) ih =
          let later = login_from fuel (attempt + 1) c' in
          (
            IsTrail-cons a later.outcome later.attempts t (ih c' more).0,
            omega (arith, (ih c' more).1),
          )
      behind (again (a ∷ b ∷ past) c') t ih = absurd t
      behind (ended outcome recorded c') (t, short) ih = (t, omega arith)

  -- The dialogue ends on every input, with at most the configured number of attempts: whoever is
  -- admitted made the only accepted attempt, which is the last one and under that name, and whoever
  -- is refused made none.
  pub authenticate-IsTrail :
      (c : Conn)
      → 0 < max
      → IsTrail (authenticate c).outcome (authenticate c).attempts
        × (length (authenticate c).attempts ≤ max)
  unfolding authenticate
  authenticate-IsTrail c positive = login_from_lem max 1 c (omega arith) (omega arith)
