-- ===== src/Recorder/Classify.antt =====
-- node/internal/session/recorder.go: the parts of a URL, and the type of a file by its first bytes.
-- `strings.ToLower` is a parameter, of which no slice is out of range here.
mod Tests
use honeynet.Base.{
  ℕ, zero, suc, ◌+◌, ◌-◌, ◌*◌, ◌%◌, ◌^◌, Bool, true, false, ◌&&◌, ◌||◌, Option, none, some, List,
  [], ◌∷◌, ◌++◌, ◌==◌, ltb, leb, if◌then◌else◌, length, take, drop, Bytes, codes, equal, has_prefix,
  is_empty,
}
use honeynet.Shell.Commands.Echo.{index_byte}

pub record UrlParts : Type 0 where
  pub scheme : Bytes
  pub host : Bytes
  pub port : ℕ
  pub path : Bytes

-- The scheme of a URL in lower case, and what stands behind it.
pub cut_scheme : List Bytes → Bytes → Bytes → Bytes × Bytes
cut_scheme [] lower u = ([], u)
cut_scheme (s ∷ schemes) lower u = elim (has_prefix (s ++ codes "://") lower) [
  | true ↦ (s, drop (length s + 3) u)
  | false ↦ cut_scheme schemes lower u
]

pub default_port : Bytes → ℕ
default_port scheme =
    if equal scheme (codes "https")
    then 443
    else if equal scheme (codes "ftp")
    then 21
    else if equal scheme (codes "tftp")
    then 69
    else 80

-- The digits as a number of 32 bits, or 0 if there is something else.
pub port_from : ℕ → Bytes → ℕ
port_from n [] = n
port_from n (c ∷ str) =
    let rest = port_from ((n * 10 + (c - b'0')) % 2 ^ 32) str in
    if leb b'0' c && leb c b'9' then rest else 0

-- `strings.LastIndexByte`
pub last_index : ℕ → Bytes → Option ℕ
last_index c [] = none
last_index c (b ∷ str) = elim (last_index c str) [
  | some i ↦ some (suc i)
  | none ↦ if b == c then some 0 else none
]

pub cut_port : ℕ → Bytes → Bytes × ℕ
cut_port port host = elim (last_index b':' host) [
  | none ↦ (host, port)
  | some i ↦
      let n = port_from 0 (drop (i + 1) host) in if ltb 0 n then (take i host, n) else (host, port)
]

pub cut_path : Bytes → Bytes × Bytes
cut_path rest = elim (index_byte b'/' rest) [
  | some i ↦ (take i rest, drop i rest)
  | none ↦ (rest, codes "/")
]

abbrev pub schemes : List Bytes
schemes = codes "http" ∷ codes "https" ∷ codes "ftp" ∷ codes "tftp" ∷ []

pub split_url : (Bytes → Bytes) → Bytes → UrlParts
split_url to_lower u =
    let (scheme, rest) = cut_scheme schemes (to_lower u) u in
    let (host, path) = cut_path rest in
    let (name, port) = cut_port (default_port scheme) host in
    record { scheme = scheme; host = name; port = port; path = path }

pub printable : Bytes → ℕ
printable [] = 0
printable (c ∷ b) =
    (if c == b'\n' || c == b'\r' || c == b'\t' || leb 0x20 c && ltb c 0x7f then 1 else 0)
    + printable b

pub is_mostly_text : Bytes → Bool
is_mostly_text [] = false
is_mostly_text (c ∷ b) = leb (length (c ∷ b) * 9) (printable (c ∷ b) * 10)

pub detect_type : Bytes → Bytes
detect_type b =
    if has_prefix (codes "\u{7f}ELF") b
    then codes "application/x-elf"
    else if has_prefix (codes "MZ") b
    then codes "application/x-dosexec"
    else if has_prefix (codes "#!") b
    then codes "text/x-script"
    else if has_prefix (codes "PK\u{3}\u{4}") b
    then codes "application/zip"
    else if has_prefix (0x1f ∷ 0x8b ∷ 0x08 ∷ []) b
    then codes "application/gzip"
    else if is_empty b
    then codes "application/x-empty"
    else if is_mostly_text b
    then codes "text/plain"
    else codes "application/octet-stream"
