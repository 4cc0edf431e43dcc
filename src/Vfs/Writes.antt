-- ===== src/Vfs/Writes.antt =====
-- node/internal/vfs/vfs.go: the operations that change the file system, and those that list it. An
-- error leaves it as it was. The counter `written` stays far below the range of int64.
mod Kept
mod Moved
mod Made
pub mod Calls
pub mod ReadBack
mod Tests
use Prim.Native.Nat.{bit_and}
use mathlib.Core.Option
use honeynet.Base.{
  ℕ, zero, suc, ◌+◌, ◌*◌, Bool, true, false, not, ◌&&◌, ◌||◌, Option, none, some, List, [], ◌∷◌,
  ◌++◌, ltb, leb, ◌==◌, if◌then◌else◌, length, get_elem?, set, Bytes, codes, equal, is_empty, find,
  assign, delete, sort_by,
}
use honeynet.Vfs.Paths.{path_dir, path_base, split}
use honeynet.Vfs.{
  Error, not_found, not_dir, is_dir, permission, exists, not_empty, quota_reached, max_write_bytes,
  Kind, file, dir, symlink, Node, Fs, Result, ok, err, panic, ◌>>=◌, is_kind_dir, is_kind_symlink,
  new_dir, new_file, root, at, write_node, children_of, link, add, unlink, lookup,
}

-- Whether the name is that of a directory.
pub names_dir : Fs → Node → Bytes → Result Bool
names_dir fs parent name = elim (find name (children_of parent)) [
  | some i ↦ do n ← at fs i; ok (is_kind_dir n.kind)
  | none ↦ ok false
]

abbrev pub exceeds : Fs → Bytes → Bool
exceeds fs content = ltb max_write_bytes (fs.written + length content)

module _ (now uid gid : ℕ) where
  pub write_file : Fs → Bytes → Bytes → ℕ → Result Fs
  write_file fs p content mode = if exceeds fs content then err quota_reached else do
    parent ← lookup fs (path_dir p) true
    pn ← at fs parent
    if not (is_kind_dir pn.kind) then err not_dir else do
      taken ← names_dir fs pn (path_base p)
      if taken
          then err is_dir
          else add (record fs { written = fs.written + length content }) parent (path_base p)
              (record (new_file (path_base p) mode uid gid now content) { attacker_written = true })

  -- The part of `Append` for a file that is there.
  pub extend : Fs → ℕ → Bytes → Result Fs
  extend fs i content = do
    n ← at fs i
    if is_kind_dir n.kind
        then err is_dir
        else if exceeds fs content
        then err quota_reached
        else ok (
            write_node (record fs { written = fs.written + length content }) i
              (record n {
                content = n.content ++ content;
                mod_time = now;
                attacker_written = true;
              }))

  pub append_file : Fs → Bytes → Bytes → Result Fs
  append_file fs p content = elim (lookup fs p true) [
    | ok i ↦ extend fs i content
    | err e ↦ write_file fs p content 0x1a4
    | panic ↦ panic
  ]

  pub mkdir : Fs → Bytes → ℕ → Result Fs
  mkdir fs p mode = do
    parent ← lookup fs (path_dir p) true
    pn ← at fs parent
    if not (is_kind_dir pn.kind) then err not_dir else elim (find (path_base p) (children_of pn)) [
      | some i ↦ err exists
      | none ↦
          add fs parent (path_base p)
            (record (new_dir (path_base p) mode uid gid now) { attacker_written = true })
    ]

  pub touch : Fs → Bytes → Result Fs
  touch fs p = elim (lookup fs p true) [
    | ok i ↦ do n ← at fs i; ok (write_node fs i (record n { mod_time = now }))
    | err e ↦ write_file fs p [] 0x1a4
    | panic ↦ panic
  ]

  -- The loop of `mkdirAll`, which goes into what is there, whatever its kind.
  pub mkdir_loop : ℕ → Fs → List Bytes → ℕ → Result Fs
  mkdir_loop mode fs [] cur = ok fs
  mkdir_loop mode fs (part ∷ parts) cur = do
    n ← at fs cur
    elim (find part (children_of n)) [
      | some next ↦ mkdir_loop mode fs parts next
      | none ↦ do
        made ← add fs cur part (new_dir part mode uid gid now)
        mkdir_loop mode made parts (length fs.nodes)
    ]

  pub mkdir_all : Fs → Bytes → ℕ → Result Fs
  mkdir_all fs p mode = mkdir_loop mode fs (split p) root

pub remove : Fs → Bytes → Bool → Result Fs
remove fs p recursive = if equal p (codes "/") then err permission else do
  parent ← lookup fs (path_dir p) true
  pn ← at fs parent
  elim (find (path_base p) (children_of pn)) [
    | none ↦ err not_found
    | some i ↦ do
      n ← at fs i
      if is_kind_dir n.kind && not (is_empty (children_of n)) && not recursive
          then err not_empty
          else unlink fs parent (path_base p)
  ]

pub rename : Fs → Bytes → Bytes → Result Fs
rename fs from to = do
  from_parent ← lookup fs (path_dir from) true
  pn ← at fs from_parent
  elim (find (path_base from) (children_of pn)) [
    | none ↦ err not_found
    | some i ↦ do
      to_parent ← lookup fs (path_dir to) true
      gone ← unlink fs from_parent (path_base from)
      n ← at gone i
      link (write_node gone i (record n { name = path_base to; attacker_written = true })) to_parent
          (path_base to) i
  ]

pub chmod : Fs → Bytes → ℕ → Result Fs
chmod fs p mode = do
  i ← lookup fs p true
  n ← at fs i
  ok (write_node fs i (record n { mode = mode; attacker_written = true }))

-- `put`, for a system that was booted at `boot`; a parent that is not found leaves it as it is.
pub put : ℕ → Fs → Bytes → Node → Result Fs
put boot fs p n = do
  made ← mkdir_all boot 0 0 fs (path_dir p) 0x1ed
  elim (lookup made (path_dir p) true) [
    | ok parent ↦ add made parent n.name n
    | err e ↦ ok made
    | panic ↦ panic
  ]

pub chmod_node : Fs → Bytes → ℕ → Result Fs
chmod_node fs p mode = elim (lookup fs p false) [
  | ok i ↦ do n ← at fs i; ok (write_node fs i (record n { mode = mode }))
  | err e ↦ ok fs
  | panic ↦ panic
]

pub size : ℕ → Node → ℕ
size now n =
    if is_kind_dir n.kind
    then 4096
    else elim n.dynamic [ some compute ↦ length (compute now) | none ↦ length n.content ]

-- `ModeString`
abbrev kind_char : Kind → ℕ
kind_char dir = b'd'
kind_char symlink = b'l'
kind_char file = b'-'

perm_char : ℕ → ℕ × ℕ → ℕ
perm_char mode (bit, char) = if not (bit_and mode bit == 0) then char else b'-'

perm_chars : ℕ → List (ℕ × ℕ) → Bytes
perm_chars mode [] = []
perm_chars mode (perm ∷ perms) = perm_char mode perm ∷ perm_chars mode perms

abbrev perms : List (ℕ × ℕ)
perms =
    (0x100, b'r')
    ∷ (0x80, b'w')
    ∷ (0x40, b'x')
    ∷ (0x20, b'r')
    ∷ (0x10, b'w')
    ∷ (0x08, b'x')
    ∷ (0x04, b'r')
    ∷ (0x02, b'w')
    ∷ (0x01, b'x')
    ∷ []

sticky_char : ℕ → ℕ
sticky_char c = if c == b'x' then b't' else b'T'

pub mode_string : Node → Option Bytes
mode_string n =
    let s = kind_char n.kind ∷ perm_chars n.mode perms in
    if not (bit_and n.mode 0x200 == 0)
    then Option.map (λ c. set s 9 (sticky_char c)) (get_elem? s 9)
    else some s
