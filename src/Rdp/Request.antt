-- ===== src/Rdp/Request.antt =====
-- `parseConnectionRequest` on any input: it does not panic, and what it records is bounded.
use honeynet.Base.{
  ℕ, Bool, ◌+◌, ◌^◌, ◌≤◌, ◌<◌, ◌≡◌, true, false, some, [], ◌∷◌, arith, ltb, inl, inr, Option-cases,
  if◌then◌else◌, ◌==◌, Returns, returns, Returns-bind, Returns-if, Returns-some, length,
  slice-Returns, get_elem?-Returns, All, Bytes, IsByte, little_uint32, codes, has_prefix,
  trim_prefix, trim_space,
}
use honeynet.Rdp.{
  ConnectionRequest, no_request, index_crlf, sanitize, parse_neg_request, is_routing_token,
  read_line, parse_variable, parse_body, parse_connection_request,
}
use honeynet.Rdp.Clean.{IsClean, sanitize-IsClean}

-- What a recorded request promises to the code that logs it.
pub record IsBounded (cr : ConnectionRequest) : Type 0 where
  pub cookie_clean : All IsClean cr.cookie
  pub cookie_short : length cr.cookie ≤ 256
  pub token_clean : All IsClean cr.routing_token
  pub token_short : length cr.routing_token ≤ 256
  pub protocols_fit : cr.protocols < 2 ^ 32

pub little_uint32_lem :
    (s : Bytes) → All IsByte s × (length s ≡ 4) → Returns (λ w. w < 2 ^ 32) (little_uint32 s)
unfolding little_uint32
little_uint32_lem (a ∷ b ∷ c ∷ d ∷ s) h = returns (omega arith)
little_uint32_lem (a ∷ b ∷ c ∷ []) h = absurd (omega arith)
little_uint32_lem (a ∷ b ∷ []) h = absurd (omega arith)
little_uint32_lem (a ∷ []) h = absurd (omega arith)
little_uint32_lem [] h = absurd (omega arith)

parse_neg_request_lem :
    (pdu : Bytes) → All IsByte pdu → Returns (λ p. p < 2 ^ 32) (parse_neg_request pdu)
unfolding parse_neg_request
parse_neg_request_lem pdu bytes =
    Returns-if (ltb (length pdu) 8) (λ _. returns (omega arith))
      λ long. Returns-bind _ (get_elem?-Returns IsByte pdu 0 (ground arith) bytes) λ type _.
        Returns-if (type == 0x01)
          (λ _.
            Returns-bind _ (slice-Returns IsByte pdu 4 8 (omega arith) (ground arith) bytes)
              little_uint32_lem)
          (λ _. returns (omega arith))

index_crlf-lt : (s : Bytes) {i : ℕ} → index_crlf s ≡ some i → i + 2 ≤ length s
unfolding index_crlf
index_crlf-lt [] e = cc
index_crlf-lt (x ∷ []) e = cc
index_crlf-lt (x ∷ y ∷ s) {i} e = elim (Option-cases (index_crlf (y ∷ s))) [
  | inl n ↦ ground arith
  | inr (j, f) ↦ ground (arith, index_crlf-lt (y ∷ s) f)
]

cookie-IsBounded :
    (s : Bytes) (p : ℕ)
    → p < 2 ^ 32
    → IsBounded (record { cookie = sanitize s; routing_token = []; protocols = p })
cookie-IsBounded s p h =
    let (clean, short) = sanitize-IsClean s in
    record {
      cookie_clean = clean;
      cookie_short = short;
      token_clean = tt;
      token_short = omega arith;
      protocols_fit = h;
    }

token-IsBounded :
    (s : Bytes) (p : ℕ)
    → p < 2 ^ 32
    → IsBounded (record { cookie = []; routing_token = sanitize s; protocols = p })
token-IsBounded s p h =
    let (clean, short) = sanitize-IsClean s in
    record {
      cookie_clean = tt;
      cookie_short = omega arith;
      token_clean = clean;
      token_short = short;
      protocols_fit = h;
    }

if-IsBounded :
    (b : Bool) {x y : ConnectionRequest}
    → IsBounded x
    → IsBounded y
    → IsBounded (if b then x else y)
if-IsBounded true h k = h
if-IsBounded false h k = k

read_line-IsBounded : (line : Bytes) (p : ℕ) → p < 2 ^ 32 → IsBounded (read_line line p)
unfolding read_line
read_line-IsBounded line p h =
    if-IsBounded (has_prefix (codes "Cookie: mstshash=") line)
      (cookie-IsBounded (trim_prefix (codes "Cookie: mstshash=") line) p h)
      (if-IsBounded (has_prefix (codes "Cookie:") line)
        (cookie-IsBounded (trim_space (trim_prefix (codes "Cookie:") line)) p h)
        (if-IsBounded (is_routing_token line) {y = record no_request { protocols = p }}
          (token-IsBounded line p h) (omega arith)))

parse_variable_lem : (v : Bytes) → All IsByte v → Returns IsBounded (parse_variable v)
unfolding parse_variable
parse_variable_lem v bytes = elim (Option-cases (index_crlf v)) [
  | inl n ↦
      rw (n, parse_variable)
        (Returns-bind _ (parse_neg_request_lem v bytes) λ p h. returns (omega arith))
  | inr (i, e) ↦
      let fits = index_crlf-lt v e in
      rw (e, parse_variable)
        (Returns-bind _ (slice-Returns IsByte v 0 i (omega arith) (omega arith) bytes) λ line _.
          Returns-bind _ (slice-Returns IsByte v (i + 2) (length v) fits (omega arith) bytes)
            λ rest r.
              Returns-bind _ (parse_neg_request_lem rest r.0)
                λ p h. returns (read_line-IsBounded line p h))
]

parse_body_lem : (body : Bytes) → All IsByte body → Returns IsBounded (parse_body body)
unfolding parse_body
parse_body_lem body bytes =
    Returns-if (ltb (length body) 7) (λ _. returns (omega arith))
      λ long.
        Returns-bind _
          (slice-Returns IsByte body 7 (length body) (ground arith) (omega arith) bytes)
          λ v h. parse_variable_lem v h.0

-- On any bytes the parser returns a request (no index or slice is out of range), the recorded
-- cookie and routing token have at most 256 bytes and no control character, and the protocols fit in 32 bits.
pub parse_connection_request-Returns :
    (pdu : Bytes)
    → All IsByte pdu
    → (cr : ConnectionRequest) × (parse_connection_request pdu ≡ some cr) × IsBounded cr
unfolding parse_connection_request
parse_connection_request-Returns pdu bytes = Returns-some (
    Returns-if (ltb (length pdu) 11) (λ _. returns (omega arith))
      λ long. Returns-bind _ (get_elem?-Returns IsByte pdu 0 (ground arith) bytes) λ version _.
        Returns-if (version == 0x03)
          (λ _.
            Returns-if (ltb (length pdu) 4) (λ _. returns (omega arith))
              λ _.
                Returns-bind _
                  (slice-Returns IsByte pdu 4 (length pdu) (ground arith) (omega arith) bytes)
                  λ body h. parse_body_lem body h.0)
          (λ _. parse_body_lem pdu bytes))
