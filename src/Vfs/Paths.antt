-- ===== src/Vfs/Paths.antt =====
-- node/internal/vfs/vfs.go, Clean and split, with the functions of Go's `path` under them.
pub mod Canonical
pub mod Parents
mod Tests
pub mod Proper
use mathlib.Core.List.{reverse}
use honeynet.Base.{
  ℕ, zero, suc, Bool, true, false, not, ◌||◌, ◌&&◌, List, [], ◌∷◌, ◌++◌, ◌==◌, if◌then◌else◌, Bytes,
  codes, equal, has_prefix, trim_prefix, is_empty, split_on, join,
}

-- One element of a path, on the elements kept so far, the last one first: `path.Clean` drops empty
-- elements and ".", and takes the element in front of ".." away.
unfoldable pub clean_element : Bool → List Bytes → Bytes → List Bytes
clean_element rooted [] e =
    if is_empty e || equal e (codes ".") || rooted && equal e (codes "..") then [] else e ∷ []
clean_element rooted (top ∷ kept) e =
    if is_empty e || equal e (codes ".")
    then top ∷ kept
    else if equal e (codes "..") && not (equal top (codes ".."))
    then kept
    else e ∷ top ∷ kept

unfoldable pub clean_elements : Bool → List Bytes → List Bytes → List Bytes
clean_elements rooted kept [] = kept
clean_elements rooted kept (e ∷ es) = clean_elements rooted (clean_element rooted kept e) es

abbrev pub is_rooted : Bytes → Bool
is_rooted p = has_prefix (codes "/") p

-- A rooted path from its elements, and a relative one.
abbrev pub render : List Bytes → Bytes
render parts = b'/' ∷ join b'/' parts

abbrev pub render_relative : List Bytes → Bytes
render_relative [] = codes "."
render_relative (e ∷ es) = join b'/' (e ∷ es)

-- `path.Clean`
unfoldable pub path_clean : Bytes → Bytes
path_clean p =
    let parts = reverse (clean_elements (is_rooted p) [] (split_on b'/' p)) in
    if is_rooted p then render parts else render_relative parts

-- `path.Join(a, b)`, which leaves empty arguments out.
unfoldable pub path_join : Bytes → Bytes → Bytes
path_join [] [] = []
path_join [] (c ∷ b) = path_clean (c ∷ b)
path_join (c ∷ a) [] = path_clean (c ∷ a)
path_join (c ∷ a) (d ∷ b) = path_clean ((c ∷ a) ++ b'/' ∷ d ∷ b)

-- All elements but the last, and the last.
unfoldable pub init : List Bytes → List Bytes
init [] = []
init (e ∷ []) = []
init (e ∷ f ∷ es) = e ∷ init (f ∷ es)

unfoldable pub last : List Bytes → Bytes
last [] = []
last (e ∷ []) = e
last (e ∷ f ∷ es) = last (f ∷ es)

-- `path.Dir`: what stands up to the last slash, cleaned.
unfoldable pub path_dir : Bytes → Bytes
path_dir p = path_clean (join b'/' (init (split_on b'/' p) ++ [] ∷ []))

-- `path.Base`: the last element, slashes behind it taken away.
unfoldable pub last_filled : List Bytes → Bytes
last_filled [] = []
last_filled (e ∷ es) = let rest = last_filled es in if is_empty rest then e else rest

unfoldable pub path_base : Bytes → Bytes
path_base [] = codes "."
path_base (c ∷ p) =
    let name = last_filled (split_on b'/' (c ∷ p)) in if is_empty name then codes "/" else name

-- `Clean`: a path against a working directory.
unfoldable pub clean : Bytes → Bytes → Bytes
clean cwd [] = cwd
clean cwd (c ∷ p) =
    let whole = if is_rooted (c ∷ p) then c ∷ p else path_join cwd (c ∷ p) in
    let cleaned = path_clean whole in if is_rooted cleaned then cleaned else b'/' ∷ cleaned

-- `split`: the elements below the root.
unfoldable pub split : Bytes → List Bytes
split p =
    let cleaned = path_clean p in
    if equal cleaned (codes "/") || equal cleaned (codes ".")
    then []
    else split_on b'/' (trim_prefix (codes "/") cleaned)
