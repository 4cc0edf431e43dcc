-- ===== src/Vfs.antt =====
-- node/internal/vfs: the in-memory file system under the emulated shell. The nodes are objects that
-- the directories share by pointer: here a node is a place in a list, the root is place 0, and a
-- directory maps names to places. What the code would do with a pointer to nothing, or in writing
-- to a nil map, is a panic.
pub mod Paths
pub mod Writes
pub mod Ends
pub mod Valid
mod Changes
pub mod Descend
pub mod Attacker
pub mod Small
use Prim.Native.Nat.{bit_and}
use honeynet.Base.{
  ℕ, zero, suc, ◌+◌, ◌*◌, Bool, true, false, not, ◌&&◌, ◌||◌, Option, none, some, List, [], ◌∷◌,
  ◌++◌, map, ltb, leb, ◌==◌, if◌then◌else◌, length, get_elem?, set, Bytes, codes, equal, is_empty,
  find, assign, delete, sort_by,
}
use honeynet.Vfs.Paths.{path_dir, path_base, clean, split}

pub data Error : Type 0 where
  not_found : Error
  not_dir : Error
  is_dir : Error
  permission : Error
  exists : Error
  not_empty : Error
  link_loop : Error
  quota_reached : Error

abbrev pub max_write_bytes : ℕ
max_write_bytes = 32 * 1024 * 1024

pub data Kind : Type 0 where
  file : Kind
  dir : Kind
  symlink : Kind

-- `dynamic` computes the content at a time; `children` is `none` for a nil map.
pub record Node : Type 0 where
  pub name : Bytes
  pub kind : Kind
  pub mode : ℕ
  pub uid : ℕ
  pub gid : ℕ
  pub mod_time : ℕ
  pub target : Bytes
  pub content : Bytes
  pub dynamic : Option (ℕ → Bytes)
  pub children : Option (List (Bytes × ℕ))
  pub attacker_written : Bool

pub record Fs : Type 0 where
  pub nodes : List Node
  pub written : ℕ

pub data Result {ℓ} (A : Type ℓ) : Type ℓ where
  ok : A → Result A
  err : Error → Result A
  panic : Result A

infixl 5 ◌>>=◌
abbrev pub ◌>>=◌ {ℓ κ} : {A : Type ℓ} {B : Type κ} → Result A → (A → Result B) → Result B
ok a >>= f = f a
err e >>= f = err e
panic >>= f = panic

abbrev pub is_kind_dir : Kind → Bool
is_kind_dir dir = true
is_kind_dir _ = false

abbrev pub is_kind_symlink : Kind → Bool
is_kind_symlink symlink = true
is_kind_symlink _ = false

-- The constructors `dir` and `file`.
abbrev pub new_dir : Bytes → ℕ → ℕ → ℕ → ℕ → Node
new_dir name mode uid gid now = record {
  name = name;
  kind = dir;
  mode = mode;
  uid = uid;
  gid = gid;
  mod_time = now;
  target = [];
  content = [];
  dynamic = none;
  children = some [];
  attacker_written = false;
}

abbrev pub new_file : Bytes → ℕ → ℕ → ℕ → ℕ → Bytes → Node
new_file name mode uid gid now content = record {
  name = name;
  kind = file;
  mode = mode;
  uid = uid;
  gid = gid;
  mod_time = now;
  target = [];
  content = content;
  dynamic = none;
  children = none;
  attacker_written = false;
}

abbrev pub new_symlink : Bytes → Bytes → ℕ → Node
new_symlink name target now = record {
  name = name;
  kind = symlink;
  mode = 0x1ff;
  uid = 0;
  gid = 0;
  mod_time = now;
  target = target;
  content = [];
  dynamic = none;
  children = none;
  attacker_written = false;
}

abbrev pub root : ℕ
root = 0

-- The node behind a pointer, and a write to it.
pub at : Fs → ℕ → Result Node
at fs i = elim (get_elem? fs.nodes i) [ some n ↦ ok n | none ↦ panic ]

abbrev pub write_node : Fs → ℕ → Node → Fs
write_node fs i n = record fs { nodes = set fs.nodes i n }

-- Reading a nil map finds nothing, and writing to one panics.
abbrev pub children_of : Node → List (Bytes × ℕ)
children_of n = elim n.children [ some es ↦ es | none ↦ [] ]

pub link : Fs → ℕ → Bytes → ℕ → Result Fs
link fs parent name i = do
  n ← at fs parent
  elim n.children [
    | some es ↦ ok (write_node fs parent (record n { children = some (assign name i es) }))
    | none ↦ panic
  ]

-- A new node under a name.
pub add : Fs → ℕ → Bytes → Node → Result Fs
add fs parent name n = link (record fs { nodes = fs.nodes ++ n ∷ [] }) parent name (length fs.nodes)

pub unlink : Fs → ℕ → Bytes → Result Fs
unlink fs parent name = do
  n ← at fs parent
  elim n.children [
    | some es ↦ ok (write_node fs parent (record n { children = some (delete name es) }))
    | none ↦ ok fs
  ]

-- A link in front of another element is followed, `resolve` being the lookup one level deeper.
pub through : (Bytes → Bool → Result ℕ) → Fs → Bytes → ℕ → Result ℕ
through resolve fs p cur = do
  n ← at fs cur
  if is_kind_symlink n.kind then resolve (clean (path_dir p) n.target) true else ok cur

-- One element below a directory.
pub child : Fs → ℕ → Bytes → Result ℕ
child fs cur part = do
  n ← at fs cur
  if not (is_kind_dir n.kind)
      then err not_dir
      else elim (find part (children_of n)) [ some i ↦ ok i | none ↦ err not_found ]

-- The loop over the elements.
pub walk : (Bytes → Bool → Result ℕ) → Fs → Bytes → Bool → List Bytes → ℕ → Result ℕ
walk resolve fs p follow [] cur = ok cur
walk resolve fs p follow (part ∷ parts) cur = do
  here ← through resolve fs p cur
  next ← child fs here part
  n ← at fs next
  if is_empty parts && is_kind_symlink n.kind && follow
      then resolve (clean (path_dir (clean (codes "/") p)) n.target) true
      else walk resolve fs p follow parts next

-- `lookupDepth`, with the number of levels that are left: the depth is 17 less that, and more
-- than 16 levels are a loop.
pub lookup_depth : ℕ → Fs → Bytes → Bool → Result ℕ
lookup_depth zero fs p follow = err link_loop
lookup_depth (suc left) fs p follow = walk (lookup_depth left fs) fs p follow (split p) root

pub lookup : Fs → Bytes → Bool → Result ℕ
lookup fs p follow = lookup_depth 17 fs p follow

pub stat : Fs → Bytes → Result Node
stat fs p = lookup fs p true >>= at fs

pub lstat : Fs → Bytes → Result Node
lstat fs p = lookup fs p false >>= at fs

-- `Exists` and `IsDir`; a panic goes on.
pub path_exists : Fs → Bytes → Result Bool
path_exists fs p = elim (lookup fs p true) [ ok i ↦ ok true | err e ↦ ok false | panic ↦ panic ]

pub path_is_dir : Fs → Bytes → Result Bool
path_is_dir fs p = elim (stat fs p) [
  | ok n ↦ ok (is_kind_dir n.kind)
  | err e ↦ ok false
  | panic ↦ panic
]

pub read_node : ℕ → Node → Result Bytes
read_node now n =
    if is_kind_dir n.kind
    then err is_dir
    else elim n.dynamic [ some compute ↦ ok (compute now) | none ↦ ok n.content ]

pub read_file : Fs → ℕ → Bytes → Result Bytes
read_file fs now p = do i ← lookup fs p true; n ← at fs i; read_node now n

pub read_entries : Fs → List (Bytes × ℕ) → Result (List Node)
read_entries fs [] = ok []
read_entries fs ((_, i) ∷ es) = do n ← at fs i; rest ← read_entries fs es; ok (n ∷ rest)

pub read_dir : Fs → Bytes → Result (List Node)
read_dir fs p = do
  n ← stat fs p
  if not (is_kind_dir n.kind)
      then err not_dir
      else do out ← read_entries fs (children_of n); ok (sort_by (λ c. c.name) out)
