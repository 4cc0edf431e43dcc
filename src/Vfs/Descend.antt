-- ===== src/Vfs/Descend.antt =====
-- `lookup` along directories: a canonical path of names leads where its names say.
use honeynet.Base.{
  ℕ, ◌≡◌, refl, ap, ◌∙◌, Bool, true, false, ◌&&◌, inl, inr, Bool-cases, Option-cases, Option, none,
  some, List, [], ◌∷◌, arith, if◌then◌else◌, get_elem?, All, Bytes, find,
}
use honeynet.Vfs.Paths.{render}
use honeynet.Vfs.Paths.Canonical.{IsElement, split-render}
use honeynet.Vfs.{
  Kind, Node, Fs, Result, ok, ◌>>=◌, is_kind_dir, is_kind_symlink, root, at, children_of, through,
  child, walk, lookup_depth, lookup,
}

-- The place that names lead to, each but the last the name of a directory.
unfoldable pub descend : Fs → List Bytes → ℕ → Option ℕ
descend fs [] cur = some cur
descend fs (part ∷ parts) cur = elim (get_elem? fs.nodes cur) [
  | none ↦ none
  | some n ↦
      if is_kind_dir n.kind
      then elim (find part (children_of n)) [ some next ↦ descend fs parts next | none ↦ none ]
      else none
]

-- One step of it, taken apart.
pub record Descends (fs : Fs) (part : Bytes) (parts : List Bytes) (cur i : ℕ) : Type 0 where
  pub node : Node
  pub next : ℕ
  pub is_node : get_elem? fs.nodes cur ≡ some node
  pub is_dir : is_kind_dir node.kind ≡ true
  pub is_next : find part (children_of node) ≡ some next
  pub rest : descend fs parts next ≡ some i

pub descend-Descends :
    (fs : Fs) (part : Bytes) (parts : List Bytes) (cur i : ℕ)
    → descend fs (part ∷ parts) cur ≡ some i
    → Descends fs part parts cur i
unfolding descend
descend-Descends fs part parts cur i e = elim (Option-cases (get_elem? fs.nodes cur)) [
  | inl none_there ↦ absurd (ground arith)
  | inr (n, here) ↦ elim (Bool-cases (is_kind_dir n.kind)) [
    | inr no_dir ↦ absurd (ground arith)
    | inl d ↦ elim (Option-cases (find part (children_of n))) [
      | inl missing ↦ absurd (ground arith)
      | inr (next, found) ↦ record {
        node = n;
        next = next;
        is_node = here;
        is_dir = d;
        is_next = found;
        rest = ground arith;
      }
    ]
  ]
]

pub at-some : (fs : Fs) (i : ℕ) (n : Node) → get_elem? fs.nodes i ≡ some n → at fs i ≡ ok n
unfolding at
at-some fs i n e = rw (e, at) refl

dir_no_symlink : (k : Kind) → is_kind_dir k ≡ true → is_kind_symlink k ≡ false
dir_no_symlink k h = ground arith

through-dir :
    (resolve : Bytes → Bool → Result ℕ) (fs : Fs) (p : Bytes) (cur : ℕ) (n : Node)
    → get_elem? fs.nodes cur ≡ some n
    → is_kind_dir n.kind ≡ true
    → through resolve fs p cur ≡ ok cur
unfolding through
through-dir resolve fs p cur n e d = rw (at-some fs cur n e) (rw (dir_no_symlink n.kind d) refl)

child-dir :
    (fs : Fs) (cur next : ℕ) (part : Bytes) (n : Node)
    → get_elem? fs.nodes cur ≡ some n
    → is_kind_dir n.kind ≡ true
    → find part (children_of n) ≡ some next
    → child fs cur part ≡ ok next
unfolding child
child-dir fs cur next part n e d f = rw (at-some fs cur n e) (rw d (rw (f, ◌>>=◌) refl))

-- What stands at the end is no link that is to be followed.
abbrev pub IsEnd : Bool → Node → Type 0
IsEnd follow n = (is_kind_symlink n.kind && follow) ≡ false

not_followed : (b s f : Bool) → (s && f) ≡ false → (b && s && f) ≡ false
not_followed b s f h = ground arith

walk-descend :
    (resolve : Bytes → Bool → Result ℕ) (fs : Fs) (p : Bytes) (follow : Bool) (parts : List Bytes)
    (cur i : ℕ) (n : Node)
    → descend fs parts cur ≡ some i
    → get_elem? fs.nodes i ≡ some n
    → IsEnd follow n
    → walk resolve fs p follow parts cur ≡ ok i
unfolding walk descend
walk-descend resolve fs p follow [] cur i n e here end = cc
walk-descend resolve fs p follow (part ∷ []) cur i n e here end =
    let d = descend-Descends fs part [] cur i e in
    let last : d.next ≡ i = unfold descend in cc (d.rest) in
    rw (through-dir resolve fs p cur d.node d.is_node d.is_dir) (
      rw (child-dir fs cur d.next part d.node d.is_node d.is_dir d.is_next)
        (rw last (rw (at-some fs i n here) (rw end refl))))
walk-descend resolve fs p follow (part ∷ more ∷ parts) cur i n e here end =
    let d = descend-Descends fs part (more ∷ parts) cur i e in
    let b = descend-Descends fs more parts d.next i d.rest in
    rw (through-dir resolve fs p cur d.node d.is_node d.is_dir) (
      rw (child-dir fs cur d.next part d.node d.is_node d.is_dir d.is_next) (
        rw (at-some fs d.next b.node b.is_node)
          (walk-descend resolve fs p follow (more ∷ parts) d.next i n d.rest here end)))

-- A canonical path of directories, but for the last name, is looked up by its names.
pub lookup-descend :
    (fs : Fs) (parts : List Bytes) (follow : Bool) (i : ℕ) (n : Node)
    → All IsElement parts
    → descend fs parts root ≡ some i
    → get_elem? fs.nodes i ≡ some n
    → IsEnd follow n
    → lookup fs (render parts) follow ≡ ok i
unfolding lookup lookup_depth
lookup-descend fs parts follow i n h e here end =
    ap (λ ps. walk (lookup_depth 16 fs) fs (render parts) follow ps root) (split-render parts h)
    ∙ walk-descend (lookup_depth 16 fs) fs (render parts) follow parts root i n e here end
