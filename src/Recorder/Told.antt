-- ===== src/Recorder/Told.antt =====
-- What a session tells is numbered without a gap, and its end has the right counts.
use mathlib.Core.Path.{subst}
use honeynet.Base.{
  ℕ, ◌+◌, ◌-◌, ◌%◌, ◌^◌, ◌≡◌, refl, sym, ap, ◌∙◌, List, [], ◌∷◌, ◌++◌, arith, Bytes,
}
use honeynet.Recorder.{
  AuthAttempt, Body, auth_attempt, command_input, http_request, session_end, Envelope,
  schema_version, Recorder, new_recorder, stamp, emit, next_uint32, attempt_made, Call, starts,
  attempts, offers_key, commands, references, uploads, requests, touches, connects, finishes,
  reports, transfers, call, calls,
}

-- What an envelope adds to the attempts, and to the commands and requests.
abbrev pub attempt_of : Body → ℕ
attempt_of (auth_attempt a) = 1
attempt_of _ = 0

abbrev pub command_of : Body → ℕ
command_of (command_input ev) = 1
command_of (http_request ev) = 1
command_of _ = 0

-- What an envelope says, if so many attempts and commands stand before it.
abbrev pub Says : ℕ → ℕ → Body → Type 0
Says attempts_before commands_before (auth_attempt a) = a.attempt_index ≡ attempts_before % 2 ^ 32
Says attempts_before commands_before (session_end end) =
    (end.auth_attempts ≡ attempts_before % 2 ^ 32) × (end.command_count ≡ commands_before % 2 ^ 32)
Says attempts_before commands_before _ = Unit

pub record IsFrom (node_id session_id : Bytes) (e : Envelope) : Type 0 where
  pub of_node : e.node_id ≡ node_id
  pub of_session : e.session_id ≡ session_id
  pub of_schema : e.version ≡ schema_version

module _ (node_id session_id : Bytes) where
  pub IsTold : ℕ → ℕ → List Envelope → Type 0
  IsTold m n [] = Unit
  IsTold m n (e ∷ es) =
      IsFrom node_id session_id e
      × Says m n e.event
      × IsTold (m + attempt_of e.event) (n + command_of e.event) es

pub attempts_in : List Envelope → ℕ
attempts_in [] = 0
attempts_in (e ∷ es) = attempt_of e.event + attempts_in es

pub commands_in : List Envelope → ℕ
commands_in [] = 0
commands_in (e ∷ es) = command_of e.event + commands_in es

module _ (node_id session_id : Bytes) where
  IsTold-append :
      (m n : ℕ) (es : List Envelope) (e : Envelope)
      → IsTold node_id session_id m n es
      → IsFrom node_id session_id e
      → Says (m + attempts_in es) (n + commands_in es) e.event
      → IsTold node_id session_id m n (es ++ e ∷ [])
  unfolding IsTold attempts_in commands_in
  IsTold-append m n [] e h from says =
      let left : m + 0 ≡ m = omega arith in
      let right : n + 0 ≡ n = omega arith in
      (
        from,
        subst (λ k. Says m k e.event) right (subst (λ k. Says k (n + 0) e.event) left says),
        tt,
      )
  IsTold-append m n (x ∷ es) e (of_x, says_x, h) from says =
      let left : m + (attempt_of x.event + attempts_in es)
          ≡ (m + attempt_of x.event) + attempts_in es =
        omega arith in
      let right : n + (command_of x.event + commands_in es)
          ≡ (n + command_of x.event) + commands_in es =
        omega arith in
      (
        of_x,
        says_x,
        IsTold-append (m + attempt_of x.event) (n + command_of x.event) es e h from (
            subst (λ k. Says ((m + attempt_of x.event) + attempts_in es) k e.event) right
              (subst (λ k. Says k (n + (command_of x.event + commands_in es)) e.event) left says)),
      )

  attempts_in-append :
      (es : List Envelope) (e : Envelope)
      → attempts_in (es ++ e ∷ []) ≡ attempts_in es + attempt_of e.event
  unfolding attempts_in
  attempts_in-append [] e = omega arith
  attempts_in-append (x ∷ es) e = omega (arith, attempts_in-append es e)

  commands_in-append :
      (es : List Envelope) (e : Envelope)
      → commands_in (es ++ e ∷ []) ≡ commands_in es + command_of e.event
  unfolding commands_in
  commands_in-append [] e = omega arith
  commands_in-append (x ∷ es) e = omega (arith, commands_in-append es e)

  -- What holds between two calls.
  record IsCounted (r : Recorder) : Type 0 where
    pub told : IsTold node_id session_id 0 0 r.sent
    pub of_node : r.node_id ≡ node_id
    pub of_session : r.session_id ≡ session_id
    pub index : r.auth_index ≡ attempts_in r.sent % 2 ^ 32
    pub attempts_counted : r.auth_count ≡ attempts_in r.sent % 2 ^ 32
    pub commands_counted : r.command_count ≡ commands_in r.sent % 2 ^ 32

  next_counted : (n k : ℕ) → n ≡ k % 2 ^ 32 → next_uint32 n ≡ (k + 1) % 2 ^ 32
  next_counted n k e = omega (arith, e)

  module _ (r : Recorder) (h : IsCounted r) (now : ℕ) where
    IsTold-next :
        (b : Body)
        → Says (attempts_in r.sent) (commands_in r.sent) b
        → IsTold node_id session_id 0 0 (r.sent ++ stamp r now b ∷ [])
    IsTold-next b says =
        let left : attempts_in r.sent ≡ 0 + attempts_in r.sent = omega arith in
        let right : commands_in r.sent ≡ 0 + commands_in r.sent = omega arith in
        IsTold-append 0 0 r.sent (stamp r now b) h.told
          (record { of_node = h.of_node; of_session = h.of_session; of_schema = refl })
          (subst (λ k. Says (0 + attempts_in r.sent) k b) right
            (subst (λ k. Says k (commands_in r.sent) b) left says))

    -- The count behind an envelope that adds so many.
    attempts_next :
        (b : Body) (k : ℕ)
        → attempt_of b ≡ k
        → attempts_in (r.sent ++ stamp r now b ∷ []) ≡ attempts_in r.sent + k
    attempts_next b k e =
        attempts_in-append r.sent (stamp r now b) ∙ ap (λ k. attempts_in r.sent + k) e

    commands_next :
        (b : Body) (k : ℕ)
        → command_of b ≡ k
        → commands_in (r.sent ++ stamp r now b ∷ []) ≡ commands_in r.sent + k
    commands_next b k e =
        commands_in-append r.sent (stamp r now b) ∙ ap (λ k. commands_in r.sent + k) e

    emit-IsCounted :
        (b : Body)
        → attempt_of b ≡ 0
        → command_of b ≡ 0
        → Says (attempts_in r.sent) (commands_in r.sent) b
        → IsCounted (emit r now b)
    unfolding emit
    emit-IsCounted b no_attempt no_command says = record {
      told = IsTold-next b says;
      of_node = h.of_node;
      of_session = h.of_session;
      index = omega (arith, h.index, attempts_next b 0 no_attempt);
      attempts_counted = omega (arith, h.attempts_counted, attempts_next b 0 no_attempt);
      commands_counted = omega (arith, h.commands_counted, commands_next b 0 no_command);
    }

    command-IsCounted :
        (b : Body)
        → attempt_of b ≡ 0
        → command_of b ≡ 1
        → Says (attempts_in r.sent) (commands_in r.sent) b
        → IsCounted (emit (record r { command_count = next_uint32 r.command_count }) now b)
    unfolding emit
    command-IsCounted b no_attempt a_command says = record {
      told = IsTold-next b says;
      of_node = h.of_node;
      of_session = h.of_session;
      index = omega (arith, h.index, attempts_next b 0 no_attempt);
      attempts_counted = omega (arith, h.attempts_counted, attempts_next b 0 no_attempt);
      commands_counted =
          next_counted r.command_count (commands_in r.sent) h.commands_counted
          ∙ ap (λ k. k % 2 ^ 32) (sym (commands_next b 1 a_command));
    }

    attempt_made-IsCounted :
        (message : ℕ → ℕ → AuthAttempt)
        → ((index since : ℕ) → (message index since).attempt_index ≡ index)
        → IsCounted (attempt_made r now message)
    unfolding attempt_made emit
    attempt_made-IsCounted message same =
        let b = auth_attempt (message r.auth_index (now - r.last_auth)) in
        record {
          told = IsTold-next b (same r.auth_index (now - r.last_auth) ∙ h.index);
          of_node = h.of_node;
          of_session = h.of_session;
          index =
              next_counted r.auth_index (attempts_in r.sent) h.index
              ∙ ap (λ k. k % 2 ^ 32) (sym (attempts_next b 1 refl));
          attempts_counted =
              next_counted r.auth_count (attempts_in r.sent) h.attempts_counted
              ∙ ap (λ k. k % 2 ^ 32) (sym (attempts_next b 1 refl));
          commands_counted = omega (arith, h.commands_counted, commands_next b 0 refl);
        }

module _ (sha256 md5 to_lower : Bytes → Bytes) (public_key : ℕ) (node_id session_id : Bytes) where
  call-IsCounted :
      (r : Recorder) (now : ℕ) (c : Call)
      → IsCounted node_id session_id r
      → IsCounted node_id session_id (call sha256 md5 to_lower public_key r now c)
  unfolding call
  call-IsCounted r now (starts banner lists) h =
      emit-IsCounted node_id session_id r h now _ refl refl tt
  call-IsCounted r now (attempts method username password success) h =
      attempt_made-IsCounted node_id session_id r h now _ λ index since. refl
  call-IsCounted r now (offers_key username key_type blob success) h =
      attempt_made-IsCounted node_id session_id r h now _ λ index since. refl
  call-IsCounted r now (commands ev) h = command-IsCounted node_id session_id r h now _ refl refl tt
  call-IsCounted r now (references url tool source) h =
      emit-IsCounted node_id session_id r h now _ refl refl tt
  call-IsCounted r now (uploads content name transport) h =
      emit-IsCounted node_id session_id r h now _ refl refl tt
  call-IsCounted r now (requests ev) h = command-IsCounted node_id session_id r h now _ refl refl tt
  call-IsCounted r now (touches ev) h = emit-IsCounted node_id session_id r h now _ refl refl tt
  call-IsCounted r now (connects ev) h = emit-IsCounted node_id session_id r h now _ refl refl tt
  call-IsCounted r now (finishes reason pcap) h =
      emit-IsCounted node_id session_id r h now _ refl refl (h.attempts_counted, h.commands_counted)
  call-IsCounted r now (reports kind detail) h =
      emit-IsCounted node_id session_id r h now _ refl refl tt
  call-IsCounted r now (transfers in_bytes out_bytes) h = record {
    told = h.told;
    of_node = h.of_node;
    of_session = h.of_session;
    index = h.index;
    attempts_counted = h.attempts_counted;
    commands_counted = h.commands_counted;
  }

  calls-IsCounted :
      (cs : List (ℕ × Call)) (r : Recorder)
      → IsCounted node_id session_id r
      → IsCounted node_id session_id (calls sha256 md5 to_lower public_key r cs)
  unfolding calls
  calls-IsCounted [] r h = h
  calls-IsCounted ((now, c) ∷ cs) r h =
      calls-IsCounted cs (call sha256 md5 to_lower public_key r now c) (call-IsCounted r now c h)

  -- Whatever the methods of a new recorder are called with, and in which order, each envelope has the
  -- node, the session and the version of the schema, the attempts to log in are numbered from zero
  -- without a gap, and the end of a session gives the number of the attempts, and of the commands and
  -- requests, that were told before it, all modulo 2^32.
  pub calls-IsTold :
      (protocol : ℕ) (peer : Bytes) (now : ℕ) (cs : List (ℕ × Call))
      → IsTold node_id session_id 0 0
          (calls sha256 md5 to_lower public_key
            (new_recorder node_id session_id protocol peer now)
            cs).sent
  unfolding new_recorder IsTold attempts_in commands_in
  calls-IsTold protocol peer now cs = IsCounted.told (
      calls-IsCounted cs (new_recorder node_id session_id protocol peer now) (record {
        told = tt;
        of_node = refl;
        of_session = refl;
        index = refl;
        attempts_counted = refl;
        commands_counted = refl;
      }))
