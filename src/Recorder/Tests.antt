-- ===== src/Recorder/Tests.antt =====
-- A session with two attempts and a command between them.
use honeynet.Base.{ℕ, ◌≡◌, refl, true, false, List, [], ◌∷◌, codes}
use honeynet.Shell.Session.{CommandEvent}
use honeynet.Recorder.{
  new_recorder, emit, attempt_made, Call, attempts, commands, finishes, call, calls,
}
use honeynet.Recorder.Told.{IsTold, calls-IsTold}

abbrev a_command : CommandEvent
a_command = record {
  raw = codes "id";
  argv = codes "id" ∷ [];
  parse_failed = false;
  cwd_then = codes "/root";
  since_start = 5;
  since_prev = 1;
  keystroke_deltas_ms = [];
  bulk_input = false;
  index = 0;
}

abbrev a_session : List (ℕ × Call)
a_session =
    (1, attempts 1 (codes "root") (codes "x") false)
    ∷ (2, attempts 1 (codes "root") (codes "y") true)
    ∷ (5, commands a_command)
    ∷ (9, finishes 2 [])
    ∷ []

calls-IsTold_example :
    IsTold
      (codes "n1")
      (codes "s1")
      0
      0
      (calls
        (λ b. b)
        (λ b. b)
        (λ s. s)
        2
        (new_recorder (codes "n1") (codes "s1") 1 (codes "10.0.0.14") 0)
        a_session).sent
calls-IsTold_example =
    calls-IsTold (λ b. b) (λ b. b) (λ s. s) 2 (codes "n1") (codes "s1") 1 (codes "10.0.0.14") 0
      a_session

two_attempts :
    (calls
      (λ b. b)
      (λ b. b)
      (λ s. s)
      2
      (new_recorder (codes "n1") (codes "s1") 1 (codes "10.0.0.14") 0)
      a_session).auth_count
    ≡ 2
unfolding calls call new_recorder emit attempt_made
two_attempts = refl
