-- ===== src/Rdp/RoundTrip.antt =====
-- A well-formed Connection Request is read back.
use honeynet.Base.{
  ℕ, ◌+◌, ◌/◌, ◌%◌, ◌^◌, ◌≤◌, ◌<◌, ◌≡◌, refl, ap, some, [], ◌∷◌, ◌++◌, append_assoc, arith, le→ltb,
  length, length-append, slice, All-append, little_uint32, slice-append_left, slice-append_right,
  All, Bytes, IsAscii, codes, has_prefix-append, trim_prefix,
}
use honeynet.Rdp.{
  index_crlf, parse_neg_request, read_line, parse_variable, parse_body, parse_connection_request,
}
use honeynet.Rdp.Clean.{IsClean, sanitize_id}

abbrev mstshash : Bytes
mstshash = codes "Cookie: mstshash="

-- The RDP Negotiation Request of MS-RDPBCGR 2.2.1.1.1.
abbrev pub neg_request : ℕ → ℕ → Bytes
neg_request flags p =
    0x01
    ∷ flags
    ∷ 0x08
    ∷ 0x00
    ∷ p % 0x100
    ∷ p / 0x100 % 0x100
    ∷ p / 0x1_0000 % 0x100
    ∷ p / 0x100_0000 % 0x100
    ∷ []

-- A TPKT header, an X.224 header of seven bytes, a cookie line and a negotiation request.
abbrev pub request_pdu : Bytes → Bytes → Bytes → ℕ → ℕ → Bytes
request_pdu tpkt x224 name flags p =
    0x03 ∷ (tpkt ++ (x224 ++ ((mstshash ++ name) ++ (b'\r' ∷ b'\n' ∷ neg_request flags p))))

index_crlf-append :
    (line rest : Bytes)
    → All IsClean line
    → index_crlf (line ++ (b'\r' ∷ b'\n' ∷ rest)) ≡ some (length line)
unfolding index_crlf
index_crlf-append [] rest h = refl
index_crlf-append (c ∷ []) rest h = ground arith
index_crlf-append (c ∷ d ∷ line) rest h = ground (arith, index_crlf-append (d ∷ line) rest h.1)

slice_behind :
    (line : Bytes) (flags p : ℕ)
    → slice
        (line ++ (b'\r' ∷ b'\n' ∷ neg_request flags p))
        (length line + 2)
        (length (line ++ (b'\r' ∷ b'\n' ∷ neg_request flags p)))
      ≡ some (neg_request flags p)
slice_behind line flags p =
    let crlf : Bytes = b'\r' ∷ b'\n' ∷ [] in
    rw (← append_assoc line crlf (neg_request flags p)) (
      slice-append_right (line ++ crlf) (neg_request flags p)
        (omega (arith, length-append line crlf)) refl)

parse_neg_request-neg_request :
    (flags p : ℕ) → p < 2 ^ 32 → parse_neg_request (neg_request flags p) ≡ some p
unfolding parse_neg_request slice little_uint32
parse_neg_request-neg_request flags p h = ap some (omega arith)

read_line-mstshash :
    (name : Bytes) (p : ℕ)
    → All IsAscii name
    → All IsClean name
    → length name ≤ 256
    → read_line (mstshash ++ name) p ≡ record { cookie = name; routing_token = []; protocols = p }
unfolding read_line trim_prefix
read_line-mstshash name p a c h = rw (has_prefix-append mstshash name) (rw (sanitize_id name a c h))

parse_variable-neg_request :
    (line : Bytes) (flags p : ℕ)
    → All IsClean line
    → p < 2 ^ 32
    → parse_variable (line ++ (b'\r' ∷ b'\n' ∷ neg_request flags p)) ≡ some (read_line line p)
unfolding parse_variable
parse_variable-neg_request line flags p clean h =
    let behind = b'\r' ∷ b'\n' ∷ neg_request flags p in
    rw (index_crlf-append line (neg_request flags p) clean, parse_variable)
      (rw (slice-append_left line behind refl)
        (rw (slice_behind line flags p) (rw (parse_neg_request-neg_request flags p h))))

-- A request that carries a cookie line and a negotiation request is read back, whatever stands in
-- the headers: the cookie of at most 256 printable ASCII bytes, and the 32 bits of protocols.
pub parse_connection_request-request_pdu :
    (tpkt x224 name : Bytes) (flags p : ℕ)
    → length tpkt ≡ 3
    → length x224 ≡ 7
    → All IsAscii name
    → All IsClean name
    → length name ≤ 256
    → p < 2 ^ 32
    → parse_connection_request (request_pdu tpkt x224 name flags p)
      ≡ some (record { cookie = name; routing_token = []; protocols = p })
unfolding parse_connection_request parse_body
parse_connection_request-request_pdu tpkt x224 name flags p ht hx a c short h =
    let variable = (mstshash ++ name) ++ (b'\r' ∷ b'\n' ∷ neg_request flags p) in
    let body = x224 ++ variable in
    let size = length-append x224 variable in
    let clean = All-append IsClean mstshash name (omega arith) c in
    let long : 11 ≤ length (0x03 ∷ (tpkt ++ body)) = omega (
      arith,
      length-append tpkt body,
      size,
      length-append (mstshash ++ name) (b'\r' ∷ b'\n' ∷ neg_request flags p),
    ) in
    rw (le→ltb _ _ long) (
      rw (le→ltb (length (0x03 ∷ (tpkt ++ body))) 4 (omega arith)) (
        rw (slice-append_right (0x03 ∷ tpkt) body {n = 4} (omega arith) refl) (
          rw (le→ltb (length body) 7 (omega arith)) (
            rw (slice-append_right x224 variable {n = 7} (omega arith) refl) (
              rw (parse_variable-neg_request (mstshash ++ name) flags p clean h)
                (ap some (read_line-mstshash name p a c short)))))))
