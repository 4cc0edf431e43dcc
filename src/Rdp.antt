-- ===== src/Rdp.antt =====
-- node/internal/protocols/rdp/parse.go: the parsers of the first two PDUs of an RDP client, and
-- the answer. A slice expression or an index out of range panics in Go: here it is `none`.
mod Clean
mod Request
mod Info
mod RoundTrip
mod Tests
use Prim.Native.Nat.{bit_and}
use mathlib.Core.Option
use mathlib.Core.Logic.{dite}
use mathlib.Core.WellFounded.{Acc}
use honeynet.Base.{
  ℕ, zero, suc, ◌+◌, ◌-◌, ◌*◌, ◌/◌, ◌%◌, ◌≤◌, ◌<◌, ◌≡◌, refl, Bool, true, false, not, ◌&&◌, Option,
  none, some, List, [], ◌∷◌, ◌++◌, arith, dec_lt, lt_wf, ltb, leb, ◌==◌, if◌then◌else◌, ◌>>=◌,
  length, get_elem?, take, slice, Bytes, codes, has_prefix, trim_prefix, little_uint32,
  little_uint16, runes, encode, trim_space,
}

pub record ConnectionRequest : Type 0 where
  pub cookie : Bytes
  pub routing_token : Bytes
  pub protocols : ℕ

abbrev pub proto_rdp : ℕ
proto_rdp = 0x00000000

abbrev pub proto_ssl : ℕ
proto_ssl = 0x00000001

abbrev pub proto_hybrid : ℕ
proto_hybrid = 0x00000002

abbrev pub proto_rdstls : ℕ
proto_rdstls = 0x00000004

abbrev pub proto_hybrid_ex : ℕ
proto_hybrid_ex = 0x00000008

-- The zero value, `var cr connectionRequest`.
abbrev pub no_request : ConnectionRequest
no_request = record { cookie = []; routing_token = []; protocols = 0 }

-- The position of the first CRLF; `none` is the -1 of the source.
pub index_crlf : Bytes → Option ℕ
index_crlf (x ∷ y ∷ s) =
    if x == b'\r' && y == b'\n' then some 0 else Option.map suc (index_crlf (y ∷ s))
index_crlf _ = none

-- `r >= 0x20 && r != 0x7f`
pub keeps_rune : ℕ → Bool
keeps_rune r = leb 0x20 r && not (r == 0x7f)

pub keep_runes : List ℕ → List ℕ
unfolding keeps_rune
keep_runes [] = []
keep_runes (r ∷ rs) = if keeps_rune r then r ∷ keep_runes rs else keep_runes rs

pub sanitize : Bytes → Bytes
sanitize s =
    let out = encode (keep_runes (runes s)) in if ltb 256 (length out) then take 256 out else out

pub parse_neg_request : Bytes → Option ℕ
parse_neg_request pdu = if ltb (length pdu) 8 then some proto_rdp else do
  type ← get_elem? pdu 0
  if type == 0x01 then slice pdu 4 8 >>= little_uint32 else some proto_rdp

-- `len(line) > 0 && line[0] == 0x03`
pub is_routing_token : Bytes → Bool
is_routing_token [] = false
is_routing_token (c ∷ _) = c == 0x03

-- The switch over the line in front of the CRLF, with the protocols read behind it.
pub read_line : Bytes → ℕ → ConnectionRequest
read_line line protocols =
    if has_prefix (codes "Cookie: mstshash=") line
    then record {
      cookie = sanitize (trim_prefix (codes "Cookie: mstshash=") line);
      routing_token = [];
      protocols = protocols;
    }
    else if has_prefix (codes "Cookie:") line
    then record {
      cookie = sanitize (trim_space (trim_prefix (codes "Cookie:") line));
      routing_token = [];
      protocols = protocols;
    }
    else if is_routing_token line
    then record { cookie = []; routing_token = sanitize line; protocols = protocols }
    else record { cookie = []; routing_token = []; protocols = protocols }

pub parse_variable : Bytes → Option ConnectionRequest
parse_variable variable = elim (index_crlf variable) [
  | some idx ↦ do
    line ← slice variable 0 idx
    rest ← slice variable (idx + 2) (length variable)
    protocols ← parse_neg_request rest
    some (read_line line protocols)
  | none ↦ do
    protocols ← parse_neg_request variable
    some (record no_request { protocols = protocols })
]

abbrev pub x224_fixed_len : ℕ
x224_fixed_len = 7

pub parse_body : Bytes → Option ConnectionRequest
parse_body body =
    if ltb (length body) x224_fixed_len
    then some no_request
    else slice body x224_fixed_len (length body) >>= parse_variable

pub parse_connection_request : Bytes → Option ConnectionRequest
parse_connection_request pdu = if ltb (length pdu) 11 then some no_request else do
  version ← get_elem? pdu 0
  if version == 0x03
      then if ltb (length pdu) 4 then some no_request else slice pdu 4 (length pdu) >>= parse_body
      else parse_body pdu

-- `cr.Protocols & flag != 0`
pub requests : ConnectionRequest → ℕ → Bool
requests cr flag = not (bit_and cr.protocols flag == 0)

abbrev append_if : Bool → Bytes → List Bytes → List Bytes
append_if test name names = if test then names ++ name ∷ [] else names

-- `if len(names) == 0 { return []string{"RDP"} }`
pub names_or_rdp : List Bytes → List Bytes
names_or_rdp [] = codes "RDP" ∷ []
names_or_rdp (name ∷ names) = name ∷ names

pub protocol_names : ConnectionRequest → List Bytes
unfolding requests names_or_rdp
protocol_names cr =
    if cr.protocols == proto_rdp
    then codes "RDP" ∷ []
    else names_or_rdp (
        append_if (requests cr proto_hybrid_ex) (codes "HYBRID_EX") (
          append_if (requests cr proto_rdstls) (codes "RDSTLS") (
            append_if (requests cr proto_hybrid) (codes "HYBRID")
              (append_if (requests cr proto_ssl) (codes "SSL") []))))

pub record ClientInfo : Type 0 where
  pub client_name : Bytes
  pub build : Bytes

tenth_lt : (n : ℕ) → 0 < n → n / 10 < n
tenth_lt n h = omega arith

-- `for n > 0 { b = append([]byte{byte('0' + n%10)}, b...); n /= 10 }`
itoa_loop : (n : ℕ) → Acc ◌<◌ n → Bytes → Bytes
itoa_loop n (Acc.intro _ smaller) b =
    dite (dec_lt 0 n)
      (λ h. itoa_loop (n / 10) (smaller (n / 10) (tenth_lt n h)) ((b'0' + n % 10) ∷ b)) (λ _. b)

pub itoa : ℕ → Bytes
itoa n = if n == 0 then codes "0" else itoa_loop n (lt_wf.apply n) []

pub utf16_ascii : Bytes → Bytes
utf16_ascii (a ∷ b ∷ s) =
    let rest = utf16_ascii s in
    let c = a + b * 0x100 in
    if c == 0 then [] else if leb 0x20 c && ltb c 0x7f then c ∷ rest else rest
utf16_ascii _ = []

pub utf16le : Bytes → Bytes
utf16le b = trim_space (utf16_ascii b)

-- The first position `i` with `i+2 < len(data)` that holds the type CS_CORE.
pub find_core : Bytes → Option ℕ
find_core (a ∷ b ∷ c ∷ s) =
    if a == 0x01 && b == 0xc0 then some 0 else Option.map suc (find_core (b ∷ c ∷ s))
find_core _ = none

pub read_build : Bytes → ℕ → Option Bytes
read_build pdu build =
    if leb (build + 4) (length pdu)
    then (do
      b ← slice pdu build (build + 4) >>= little_uint32
      some (if ltb 0 b && ltb b 100000 then itoa b else []))
    else some []

pub read_name : Bytes → ℕ → Option Bytes
read_name pdu name =
    if leb (name + 32) (length pdu)
    then (do field ← slice pdu name (name + 32); some (utf16le field))
    else some []

pub parse_client_info : Bytes → Option ClientInfo
parse_client_info pdu = elim (find_core pdu) [
  | some i ↦ do
    let base = i + 2 + 2
    build ← read_build pdu (base + 16)
    client_name ← read_name pdu (base + 20)
    some (record { client_name = client_name; build = build })
  | none ↦ some (record { client_name = []; build = [] })
]

-- `byte(total >> 8), byte(total & 0xff)`
pub negotiation_response : Bytes
negotiation_response =
    let neg : Bytes = 0x02 ∷ 0x00 ∷ 0x08 ∷ 0x00 ∷ proto_rdp ∷ 0x00 ∷ 0x00 ∷ 0x00 ∷ [] in
    let x224 : Bytes = (6 + length neg) % 256 ∷ 0xd0 ∷ 0x00 ∷ 0x00 ∷ 0x12 ∷ 0x34 ∷ 0x00 ∷ neg in
    let total = 4 + length x224 in
    (0x03 ∷ 0x00 ∷ (total / 0x100) % 256 ∷ (bit_and total 0xff) ∷ []) ++ x224
