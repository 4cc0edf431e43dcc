-- ===== src/Shell/Urls.antt =====
-- node/internal/shell/parser.go: the references that a command fetches. `strings.ToLower` is a
-- parameter, as its tables are Go's. A slice or an index out of range panics: here it is `none`, and
-- so is a loop that is out of fuel.
mod Found
mod Ends
mod Extract
mod Tests
use mathlib.Core.Option
use honeynet.Base.{
  ℕ, zero, suc, ◌+◌, ◌-◌, Bool, true, false, not, ◌||◌, ◌&&◌, Option, none, some, List, [], ◌∷◌,
  ◌++◌, ltb, leb, ◌==◌, if◌then◌else◌, ◌>>=◌, length, get_elem?, drop, slice, Bytes, codes, equal,
  has_prefix,
}

-- `strings.Index(s, p)`, with the pattern first; `none` is -1.
pub index : Bytes → Bytes → Option ℕ
index p [] = if has_prefix p [] then some 0 else none
index p (c ∷ s) =
    let rest = index p s in if has_prefix p (c ∷ s) then some 0 else Option.map suc rest

pub is_scheme_char : ℕ → Bool
is_scheme_char b =
    leb b'a' b && leb b b'z' || leb b'0' b && leb b b'9' || b == b'+' || b == b'-' || b == b'.'

pub is_url_terminator : ℕ → Bool
is_url_terminator c =
    c == b' '
    || c == b'\t'
    || c == b'\n'
    || c == b'\r'
    || c == b'"'
    || c == b'\''
    || c == b';'
    || c == b'|'
    || c == b'&'
    || c == b'>'
    || c == b'<'
    || c == b'`'

-- How far the inner loop goes from here.
pub run : Bytes → ℕ
run [] = 0
run (c ∷ s) = let rest = run s in if is_url_terminator c then 0 else suc rest

pub url_end : Bytes → ℕ → ℕ
url_end s start = start + run (drop start s)

-- `start > 0 && isSchemeChar(lower[start-1])`
pub is_preceded : Bytes → ℕ → Option Bool
is_preceded lower start =
    if ltb 0 start
    then (do b ← get_elem? lower (start - 1); some (is_scheme_char b))
    else some false

-- The loop over the occurrences of one scheme from the position `idx` on.
pub scan_scheme : ℕ → Bytes → Bytes → Bytes → ℕ → Option (List Bytes)
scan_scheme zero s lower scheme idx = none
scan_scheme (suc fuel) s lower scheme idx = do
  tail ← slice lower idx (length lower)
  elim (index scheme tail) [
    | none ↦ some []
    | some i ↦ do
      preceded ← is_preceded lower (idx + i)
      let end = url_end s (idx + i)
      let more = scan_scheme fuel s lower scheme (if preceded then idx + i + length scheme else end)
      if preceded then more else do
        url ← slice s (idx + i) end
        if leb (length lower) end then some (url ∷ []) else do urls ← more; some (url ∷ urls)
  ]

abbrev pub schemes : List Bytes
schemes = codes "http://" ∷ codes "https://" ∷ codes "ftp://" ∷ codes "tftp://" ∷ []

abbrev pub scan_fuel : Bytes → ℕ
scan_fuel s = length s + 1

pub scan_schemes : List Bytes → Bytes → Bytes → Option (List Bytes)
scan_schemes [] s lower = some []
scan_schemes (scheme ∷ more) s lower = do
  urls ← scan_scheme (scan_fuel lower) s lower scheme 0
  rest ← scan_schemes more s lower
  some (urls ++ rest)

pub was_seen : Bytes → List Bytes → Bool
was_seen x [] = false
was_seen x (y ∷ ys) = equal x y || was_seen x ys

-- The inner loop of `ExtractURLs`; `seen` has the elements of `urls`.
pub add_new : List Bytes → List Bytes → List Bytes
add_new [] urls = urls
add_new (cand ∷ cands) urls = add_new cands (if was_seen cand urls then urls else urls ++ cand ∷ [])

module _ (to_lower : Bytes → Bytes) where
  pub url_candidates : Bytes → Option (List Bytes)
  url_candidates s = scan_schemes schemes s (to_lower s)

  pub extract_loop : List Bytes → List Bytes → Option (List Bytes)
  extract_loop [] urls = some urls
  extract_loop (a ∷ argv) urls = do cands ← url_candidates a; extract_loop argv (add_new cands urls)

  pub extract_urls : List Bytes → Option (List Bytes)
  extract_urls argv = extract_loop argv []
