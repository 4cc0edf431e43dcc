-- ===== src/Rdp/Tests.antt =====
-- Runs of the RDP parsers, and the theorems at concrete inputs.
use honeynet.Base.{
  ℕ, ◌≡◌, refl, some, [], ◌∷◌, ◌≤◌, arith, length, All, Bytes, codes, dec_lt, lt_wf, little_uint32,
  slice, has_prefix, trim_prefix, runes, encode, trim_space,
}
use honeynet.Rdp.{
  ConnectionRequest, index_crlf, sanitize, keep_runes, parse_neg_request, read_line, parse_variable,
  parse_body, parse_connection_request, requests, names_or_rdp, protocol_names, ClientInfo,
  itoa_loop, itoa, utf16_ascii, utf16le, find_core, read_build, read_name, parse_client_info,
}
use honeynet.Rdp.Clean.{IsClean, sanitize-IsClean}
use honeynet.Rdp.Request.{IsBounded, parse_connection_request-Returns}
use honeynet.Rdp.Info.{IsDigit, value, itoa_lem, IsReadable, parse_client_info-Returns}
use honeynet.Rdp.RoundTrip.{request_pdu, parse_connection_request-request_pdu}

abbrev sample : Bytes
sample = request_pdu (0 ∷ 0 ∷ 42 ∷ []) (37 ∷ 0xe0 ∷ 0 ∷ 0 ∷ 0 ∷ 0 ∷ 0 ∷ []) (codes "root") 0 3

parse_sample :
    parse_connection_request sample
    ≡ some (record { cookie = codes "root"; routing_token = []; protocols = 3 })
unfolding parse_connection_request parse_body parse_variable index_crlf parse_neg_request read_line
    has_prefix trim_prefix sanitize keep_runes runes encode slice little_uint32
parse_sample = refl

parse_connection_request-request_pdu_example :
    parse_connection_request sample
    ≡ some (record { cookie = codes "root"; routing_token = []; protocols = 3 })
parse_connection_request-request_pdu_example =
    parse_connection_request-request_pdu (0 ∷ 0 ∷ 42 ∷ []) (37 ∷ 0xe0 ∷ 0 ∷ 0 ∷ 0 ∷ 0 ∷ 0 ∷ [])
      (codes "root") 0 3 refl refl (omega arith) (omega arith) (omega arith) (omega arith)

parse_connection_request-Returns_example :
    (cr : ConnectionRequest) × (parse_connection_request sample ≡ some cr) × IsBounded cr
parse_connection_request-Returns_example = parse_connection_request-Returns sample (omega arith)

-- CS_CORE, 18 bytes, the build 2600 and the name "kali".
abbrev core : Bytes
core =
    0 ∷ 0x01 ∷ 0xc0 ∷ 0 ∷ 0 ∷ 0 ∷ 0 ∷ 0 ∷ 0 ∷ 0 ∷ 0 ∷ 0 ∷ 0 ∷ 0 ∷ 0 ∷ 0 ∷ 0 ∷ 0 ∷ 0 ∷ 0 ∷ 0 ∷ 0x28
    ∷ 0x0a ∷ 0 ∷ 0 ∷ b'k' ∷ 0 ∷ b'a' ∷ 0 ∷ b'l' ∷ 0 ∷ b'i' ∷ 0 ∷ 0 ∷ 0 ∷ 0 ∷ 0 ∷ 0 ∷ 0 ∷ 0 ∷ 0 ∷ 0
    ∷ 0 ∷ 0 ∷ 0 ∷ 0 ∷ 0 ∷ 0 ∷ 0 ∷ 0 ∷ 0 ∷ 0 ∷ 0 ∷ 0 ∷ 0 ∷ 0 ∷ 0 ∷ []

parse_core :
    parse_client_info core ≡ some (record { client_name = codes "kali"; build = codes "2600" })
unfolding parse_client_info find_core read_build read_name utf16le utf16_ascii itoa itoa_loop dec_lt
    lt_wf slice little_uint32 trim_space
parse_core = refl

parse_client_info-Returns_example :
    (info : ClientInfo) × (parse_client_info core ≡ some info) × IsReadable info
parse_client_info-Returns_example = parse_client_info-Returns core (omega arith)

sanitize-IsClean_example :
    All IsClean (sanitize (codes "a\tb")) × (length (sanitize (codes "a\tb")) ≤ 256)
sanitize-IsClean_example = sanitize-IsClean (codes "a\tb")

itoa_digits : All IsDigit (itoa 2600) × ◌≡◌ {A = ℕ} (value 0 (itoa 2600)) 2600
itoa_digits = itoa_lem 2600

names :
    protocol_names (record { cookie = []; routing_token = []; protocols = 11 })
    ≡ codes "SSL" ∷ codes "HYBRID" ∷ codes "HYBRID_EX" ∷ []
unfolding protocol_names requests names_or_rdp
names = refl

-- The control character U+009B is kept.
sanitize_csi : sanitize (0xc2 ∷ 0x9b ∷ codes "2J") ≡ 0xc2 ∷ 0x9b ∷ codes "2J"
unfolding sanitize keep_runes runes encode
sanitize_csi = refl
