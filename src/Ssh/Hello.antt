-- ===== src/Ssh/Hello.antt =====
-- node/internal/protocols/sshd/kexsniff.go: the tee on a client's first bytes, and the parser that
-- finds the version banner and the algorithm lists in them. A slice or an index out of range
-- panics in Go: here it is `none`, and so is a banner loop that is out of fuel.
mod Names
mod Capture
mod Total
mod Packet
mod RoundTrip
mod Tests
use mathlib.Core.Option
use honeynet.Base.{
  is_empty, split_on, ℕ, zero, suc, ◌+◌, ◌-◌, ◌*◌, ◌%◌, ◌^◌, Bool, true, false, not, ◌||◌, ◌&&◌,
  Option, none, some, List, [], ◌∷◌, ◌++◌, ltb, leb, ◌==◌, if◌then◌else◌, ◌>>=◌, length, get_elem?,
  slice, Bytes, codes, has_prefix, big_uint32,
}

-- What `sniffConn` keeps: the captured bytes, and whether the tee is off.
pub record Sniff : Type 0 where
  pub buf : Bytes
  pub full : Bool

abbrev pub new_sniff : Sniff
new_sniff = record { buf = []; full = false }

abbrev pub sniff_limit : ℕ
sniff_limit = 16 * 1024

-- `Read`, whose connection has delivered these bytes.
pub capture : Sniff → Bytes → Sniff
capture c p =
    if ltb 0 (length p) && not c.full
    then (let buf = c.buf ++ p in record { buf = buf; full = leb sniff_limit (length buf) })
    else c

pub record ClientHello : Type 0 where
  pub banner : Bytes
  pub kex : List Bytes
  pub host_key_algs : List Bytes
  pub ciphers : List Bytes
  pub macs : List Bytes
  pub compression : List Bytes
  pub parsed : Bool

-- The zero value with its banner.
abbrev pub only_banner : Bytes → ClientHello
only_banner banner = record {
  banner = banner;
  kex = [];
  host_key_algs = [];
  ciphers = [];
  macs = [];
  compression = [];
  parsed = false;
}

-- The line up to the first CRLF, and what stands behind it.
pub cut_crlf : Bytes → Option (Bytes × Bytes)
cut_crlf (x ∷ y ∷ s) =
    if x == b'\r' && y == b'\n'
    then some ([], s)
    else Option.map (λ (line, rest). (x ∷ line, rest)) (cut_crlf (y ∷ s))
cut_crlf _ = none

-- The loop over the lines in front of the version; the inner `none` is a buffer that has no version.
pub find_banner : ℕ → Bytes → Option (Option (Bytes × Bytes))
find_banner zero rest = none
find_banner (suc fuel) rest = elim (cut_crlf rest) [
  | none ↦ some none
  | some (line, rest) ↦
      let more = find_banner fuel rest in
      if has_prefix (codes "SSH-") line
      then some (some (line, rest))
      else if is_empty rest
      then some none
      else more
]

pub items : Bytes → List Bytes
items raw = if is_empty raw then [] else split_on b',' raw

-- The loop over the name-lists; the inner `none` is its early return. The sum is one of uint32.
pub read_lists : ℕ → Bytes → Option (Option (List (List Bytes)))
read_lists zero p = some (some [])
read_lists (suc count) p = if ltb (length p) 4 then some none else do
  n ← slice p 0 4 >>= big_uint32
  if ltb (length p - 4) n then some none else do
    raw ← slice p 4 ((4 + n) % 2 ^ 32)
    rest ← slice p ((4 + n) % 2 ^ 32) (length p)
    more ← read_lists count rest
    some (Option.map (◌∷◌ (items raw)) more)

pub fill : Bytes → Option (List (List Bytes)) → Option ClientHello
fill banner none = some (only_banner banner)
fill banner (some lists) = do
  kex ← get_elem? lists 0
  host_key_algs ← get_elem? lists 1
  ciphers ← get_elem? lists 2
  macs ← get_elem? lists 4
  compression ← get_elem? lists 6
  some (record {
    banner = banner;
    kex = kex;
    host_key_algs = host_key_algs;
    ciphers = ciphers;
    macs = macs;
    compression = compression;
    parsed = true;
  })

abbrev pub msg_kex_init : ℕ
msg_kex_init = 20

pub parse_payload : Bytes → Bytes → Option ClientHello
parse_payload banner payload = if ltb (length payload) 17 then some (only_banner banner) else do
  type ← get_elem? payload 0
  if not (type == msg_kex_init)
      then some (only_banner banner)
      else do p ← slice payload 17 (length payload); read_lists 10 p >>= fill banner

-- `payloadLen <= 0` is `packetLen <= padLen + 1` here, where numbers stop at 0.
pub parse_packet : Bytes → Bytes → Option ClientHello
parse_packet banner rest = if ltb (length rest) 6 then some (only_banner banner) else do
  packet_len ← slice rest 0 4 >>= big_uint32
  pad_len ← get_elem? rest 4
  let payload_len = packet_len - pad_len - 1
  if ltb packet_len 2 || ltb (length rest - 4) packet_len
      then some (only_banner banner)
      else if leb packet_len (pad_len + 1) || ltb (length rest) (5 + payload_len)
      then some (only_banner banner)
      else slice rest 5 (5 + payload_len) >>= parse_payload banner

pub parse_rest : Option (Bytes × Bytes) → Option ClientHello
parse_rest none = some (only_banner [])
parse_rest (some (banner, rest)) = parse_packet banner rest

pub parse_hello : Bytes → Option ClientHello
parse_hello buf = find_banner (length buf + 1) buf >>= parse_rest
