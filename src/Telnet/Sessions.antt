-- ===== src/Telnet/Sessions.antt =====
-- `acquire` and `release`: the counters of open sessions. Each runs under the server's lock, so a
-- run of the listener is a sequence of such steps by any sessions in any order. The counters are
-- natural numbers: `total--` at 0 would differ from the code, and is not reached.
use honeynet.Base.{
  ℕ, ◌+◌, ◌-◌, ◌≤◌, ◌<◌, ◌≡◌, refl, ◌∙◌, Bool, true, false, ◌&&◌, inl, inr, Bool-cases, ltb, leb,
  List, [], ◌∷◌, ◌++◌, if◌then◌else◌, length, length-append, Bytes, equal, equal_iff, arith,
}

-- `map[string]int` with 0 for a missing key.
unfoldable pub get : Bytes → List (Bytes × ℕ) → ℕ
get ip [] = 0
get ip ((k, n) ∷ m) = if equal k ip then n else get ip m

unfoldable pub put : Bytes → ℕ → List (Bytes × ℕ) → List (Bytes × ℕ)
put ip n [] = (ip, n) ∷ []
put ip n ((k, v) ∷ m) = if equal k ip then (k, n) ∷ m else (k, v) ∷ put ip n m

-- `delete(m, ip)`
pub remove : Bytes → List (Bytes × ℕ) → List (Bytes × ℕ)
remove ip [] = []
remove ip ((k, v) ∷ m) = if equal k ip then remove ip m else (k, v) ∷ remove ip m

pub record Server : Type 0 where
  pub max_sessions : ℕ
  pub max_sessions_per_ip : ℕ
  pub total : ℕ
  pub per_ip : List (Bytes × ℕ)

unfoldable pub acquire : Bytes → Server → Bool × Server
acquire ip s =
    if ltb 0 s.max_sessions && leb s.max_sessions s.total
    then (false, s)
    else if ltb 0 s.max_sessions_per_ip && leb s.max_sessions_per_ip (get ip s.per_ip)
    then (false, s)
    else (true, record s { total = s.total + 1; per_ip = put ip (get ip s.per_ip + 1) s.per_ip })

pub release : Bytes → Server → Server
release ip s =
    let n = get ip s.per_ip - 1 in
    record s {
      total = s.total - 1;
      per_ip = (if leb n 0 then remove ip (put ip n s.per_ip) else put ip n s.per_ip);
    }

get-put :
    (ip j : Bytes) (n : ℕ) (m : List (Bytes × ℕ))
    → get j (put ip n m) ≡ (if equal ip j then n else get j m)
unfolding get put
get-put ip j n [] = refl
get-put ip j n ((k, v) ∷ m) =
    ground (arith, equal_iff k ip, equal_iff k j, equal_iff ip j, get-put ip j n m)

get-remove :
    (ip j : Bytes) (m : List (Bytes × ℕ))
    → get j (remove ip m) ≡ (if equal ip j then 0 else get j m)
unfolding get remove
get-remove ip j [] = ground arith
get-remove ip j ((k, v) ∷ m) =
    ground (arith, equal_iff k ip, equal_iff k j, equal_iff ip j, get-remove ip j m)

-- How often an address stands in a list.
pub count : Bytes → List Bytes → ℕ
count ip [] = 0
count ip (k ∷ held) = (if equal k ip then 1 else 0) + count ip held

count-append : (ip : Bytes) (xs ys : List Bytes) → count ip (xs ++ ys) ≡ count ip xs + count ip ys
unfolding count
count-append ip [] ys = omega arith
count-append ip (k ∷ xs) ys = omega (arith, count-append ip xs ys)

-- The states that a server with these limits comes to, with the addresses of its open sessions.
pub data Reach (max max_ip : ℕ) : Server → List Bytes → Type 0 where
  start :
      {s : Server}
      → s ≡ record { max_sessions = max; max_sessions_per_ip = max_ip; total = 0; per_ip = [] }
      → Reach max max_ip s []
  opened :
      {s s' : Server} {held : List Bytes} (ip : Bytes)
      → Reach max max_ip s held
      → acquire ip s ≡ (true, s')
      → Reach max max_ip s' (ip ∷ held)
  turned_away :
      {s s' : Server} {held : List Bytes} (ip : Bytes)
      → Reach max max_ip s held
      → acquire ip s ≡ (false, s')
      → Reach max max_ip s' held
  closed :
      {s s' : Server} {held held' : List Bytes} (ip : Bytes) (before behind : List Bytes)
      → Reach max max_ip s held
      → held ≡ before ++ ip ∷ behind
      → held' ≡ before ++ behind
      → s' ≡ release ip s
      → Reach max max_ip s' held'

-- The counters are right, and the limits kept.
pub record IsCounted (max max_ip : ℕ) (s : Server) (held : List Bytes) : Type 0 where
  pub limit : s.max_sessions ≡ max
  pub limit_ip : s.max_sessions_per_ip ≡ max_ip
  pub total_exact : s.total ≡ length held
  pub ip_exact : (ip : Bytes) → get ip s.per_ip ≡ count ip held
  pub total_bounded : 0 < max → s.total ≤ max
  pub ip_bounded : (ip : Bytes) → 0 < max_ip → get ip s.per_ip ≤ max_ip

acquire-IsCounted :
    (max max_ip : ℕ) (s s' : Server) (held : List Bytes) (ip : Bytes)
    → IsCounted max max_ip s held
    → acquire ip s ≡ (true, s')
    → IsCounted max max_ip s' (ip ∷ held)
unfolding acquire
acquire-IsCounted max max_ip s s' held ip v e = record {
  limit = ground (arith, v.limit);
  limit_ip = ground (arith, v.limit_ip);
  total_exact = ground (arith, v.total_exact);
  ip_exact = λ j.
      unfold count in
      ground (arith, get-put ip j (get ip s.per_ip + 1) s.per_ip, v.ip_exact j, equal_iff ip j);
  total_bounded = λ h. ground (arith, v.total_bounded h, v.limit);
  ip_bounded = λ j h. ground (
    arith,
    get-put ip j (get ip s.per_ip + 1) s.per_ip,
    v.ip_bounded j h,
    v.limit_ip,
    equal_iff ip j,
  );
}

turned_away_lem : (s s' : Server) (ip : Bytes) → acquire ip s ≡ (false, s') → s' ≡ s
unfolding acquire
turned_away_lem s s' ip e = ground arith

get-release :
    (ip j : Bytes) (s : Server)
    → get j (release ip s).per_ip ≡ (if equal ip j then get ip s.per_ip - 1 else get j s.per_ip)
unfolding release
get-release ip j s =
    let n = get ip s.per_ip - 1 in
    let putting = get-put ip j n s.per_ip in
    elim (Bool-cases (leb n 0)) [
      | inl none_left ↦ rw none_left (get-remove ip j (put ip n s.per_ip) ∙ ground (arith, putting))
      | inr some_left ↦ rw some_left putting
    ]

count-without :
    (ip j : Bytes) (before behind : List Bytes)
    → count j (before ++ ip ∷ behind) ≡ (if equal ip j then 1 else 0) + count j (before ++ behind)
unfolding count
count-without ip j before behind =
    omega (arith, count-append j before (ip ∷ behind), count-append j before behind)

release-IsCounted :
    (max max_ip : ℕ) (s : Server) (ip : Bytes) (before behind : List Bytes)
    → IsCounted max max_ip s (before ++ ip ∷ behind)
    → IsCounted max max_ip (release ip s) (before ++ behind)
release-IsCounted max max_ip s ip before behind v = record {
  limit = unfold release in v.limit;
  limit_ip = unfold release in v.limit_ip;
  total_exact =
      unfold release in
      omega (arith, v.total_exact, length-append before (ip ∷ behind), length-append before behind);
  ip_exact = λ j. exact j;
  total_bounded = λ h. unfold release in omega (arith, v.total_bounded h);
  ip_bounded = λ j h. ground (arith, get-release ip j s, v.ip_bounded j h, v.ip_bounded ip h);
}
  where
    exact : (j : Bytes) → get j (release ip s).per_ip ≡ count j (before ++ behind)
    exact j = ground (
      arith,
      get-release ip j s,
      count-without ip j before behind,
      v.ip_exact j,
      v.ip_exact ip,
      equal_iff ip j,
    )

-- In every state that a server comes to, the total is the number of open sessions, each address
-- has as many as are open from it, and neither is above its limit, where a limit is set.
pub Reach-IsCounted :
    {max max_ip : ℕ} {s : Server} {held : List Bytes}
    → Reach max max_ip s held
    → IsCounted max max_ip s held
Reach-IsCounted {max} {max_ip} (start e) = rw e (record {
  limit = refl;
  limit_ip = refl;
  total_exact = refl;
  ip_exact = λ ip. unfold get count in refl;
  total_bounded = λ h. omega arith;
  ip_bounded = λ ip h. unfold get in omega arith;
})
Reach-IsCounted {max} {max_ip} (opened {s} {s'} {held} ip r e) =
    acquire-IsCounted max max_ip s s' held ip (Reach-IsCounted r) e
Reach-IsCounted {max} {max_ip} (turned_away {s} {s'} {held} ip r e) =
    rw (turned_away_lem s s' ip e) (Reach-IsCounted r)
Reach-IsCounted {max} {max_ip} (closed {s} ip before behind r e f g) =
    rw (f, g) (release-IsCounted max max_ip s ip before behind (rw e at (Reach-IsCounted r)))
