-- ===== src/Vfs/Valid.antt =====
-- What holds of the file system between two operations, and of what `lookup` finds in it.
use honeynet.Base.{
  ℕ, zero, suc, ◌≤◌, ◌<◌, ◌≡◌, refl, Bool, true, false, not, ◌&&◌, inl, inr, Option-cases, none,
  some, List, [], ◌∷◌, length, get_elem?, get_elem?_lem, get_elem?-lt, All, All-get, Bytes, codes,
  is_empty, find, UniqueKeys, AllValues, AllValues-find,
}
use honeynet.Vfs.Paths.{path_dir, clean, split}
use honeynet.Vfs.{
  Error, max_write_bytes, Node, Fs, Result, ok, is_kind_dir, is_kind_symlink, root, at, children_of,
  through, child, walk, lookup_depth, lookup, path_exists, err, panic, not_dir, not_found,
}
use honeynet.Vfs.Ends.{Ends, ends, fails, panics, Ends-bind, Ends-if}

abbrev pub has_map : Node → Bool
has_map n = elim n.children [ some _ ↦ true | none ↦ false ]

-- A node's names are those of nodes, none twice, and exactly the directories have a map.
pub record IsNode (size : ℕ) (n : Node) : Type 0 where
  pub names_differ : UniqueKeys (children_of n)
  pub entries_exist : AllValues (λ i. i < size) (children_of n)
  pub map_of_dir : has_map n ≡ is_kind_dir n.kind

pub record IsValid (fs : Fs) : Type 0 where
  pub nodes_valid : All (IsNode (length fs.nodes)) fs.nodes
  pub root_dir : (n : Node) × (get_elem? fs.nodes root ≡ some n) × (is_kind_dir n.kind ≡ true)
  pub within_quota : fs.written ≤ max_write_bytes

-- A node that is there.
abbrev pub IsAt : Fs → ℕ → Node → Type 0
IsAt fs i n = IsNode (length fs.nodes) n × (get_elem? fs.nodes i ≡ some n)

abbrev pub IsPlace : Fs → ℕ → Type 0
IsPlace fs i = i < length fs.nodes

pub at_lem :
    (fs : Fs) (i : ℕ) → IsValid fs → IsPlace fs i → (n : Node) × (at fs i ≡ ok n) × IsAt fs i n
unfolding at
at_lem fs i v h =
    let (n, e) = get_elem?_lem fs.nodes i h in
    (n, rw (e, at) refl, (All-get (IsNode (length fs.nodes)) fs.nodes i v.nodes_valid e, e))

module _ (Q : Type 0) (fs : Fs) (v : IsValid fs) where
  pub at-Ends : (i : ℕ) → IsPlace fs i → Ends Q (IsAt fs i) (at fs i)
  at-Ends i h = let (n, e, here) = at_lem fs i v h in rw e (ends here)

  pub root-IsPlace : IsPlace fs root
  root-IsPlace = get_elem?-lt fs.nodes root v.root_dir.1

  abbrev IsLookup : (Bytes → Bool → Result ℕ) → Type 0
  IsLookup resolve = (p : Bytes) (follow : Bool) → Ends Q (IsPlace fs) (resolve p follow)

  through-Ends :
      (resolve : Bytes → Bool → Result ℕ) (p : Bytes) (cur : ℕ)
      → IsLookup resolve
      → IsPlace fs cur
      → Ends Q (IsPlace fs) (through resolve fs p cur)
  unfolding through
  through-Ends resolve p cur r h = Ends-bind _ (at-Ends cur h) λ n _.
      Ends-if (is_kind_symlink n.kind) (λ _. r (clean (path_dir p) n.target) true) (λ _. ends h)

  pub child-Ends :
      (cur : ℕ) (part : Bytes) → IsPlace fs cur → Ends Q (IsPlace fs) (child fs cur part)
  unfolding child
  child-Ends cur part h = Ends-bind _ (at-Ends cur h) λ n here.
      Ends-if (not (is_kind_dir n.kind)) (λ _. fails not_dir)
        λ _. elim (Option-cases (find part (children_of n))) [
          | inl e ↦ rw (e, child) (fails not_found)
          | inr (i, e) ↦
              rw (e, child)
                (ends (
                  AllValues-find (λ i. i < length fs.nodes) part (children_of n)
                    here.0.entries_exist e))
        ]

  walk-Ends :
      (resolve : Bytes → Bool → Result ℕ) (p : Bytes) (follow : Bool) (parts : List Bytes) (cur : ℕ)
      → IsLookup resolve
      → IsPlace fs cur
      → Ends Q (IsPlace fs) (walk resolve fs p follow parts cur)
  unfolding walk
  walk-Ends resolve p follow [] cur r h = ends h
  walk-Ends resolve p follow (part ∷ parts) cur r h =
      Ends-bind _ (through-Ends resolve p cur r h) λ here k.
        Ends-bind _ (child-Ends here part k) λ next l. Ends-bind _ (at-Ends next l) λ n _.
          Ends-if (is_empty parts && is_kind_symlink n.kind && follow)
            (λ _. r (clean (path_dir (clean (codes "/") p)) n.target) true)
            (λ _. walk-Ends resolve p follow parts next r l)

  lookup_depth-Ends :
      (left : ℕ) (p : Bytes) (follow : Bool) → Ends Q (IsPlace fs) (lookup_depth left fs p follow)
  unfolding lookup_depth
  lookup_depth-Ends zero p follow = fails Error.link_loop
  lookup_depth-Ends (suc left) p follow =
      walk-Ends (lookup_depth left fs) p follow (split p) root (lookup_depth-Ends left) root-IsPlace

  -- `lookup` ends on every path, and what it finds is there.
  pub lookup-Ends : (p : Bytes) (follow : Bool) → Ends Q (IsPlace fs) (lookup fs p follow)
  unfolding lookup
  lookup-Ends p follow = lookup_depth-Ends 17 p follow

-- Whether a path is there is known of every path.
pub path_exists_lem : (fs : Fs) (p : Bytes) → IsValid fs → (b : Bool) × (path_exists fs p ≡ ok b)
unfolding path_exists
path_exists_lem fs p v = known (lookup fs p true) (lookup-Ends ⊥ fs v p true)
  where
    known :
        (r : Result ℕ)
        → Ends ⊥ (IsPlace fs) r
        → (b : Bool) × ((elim r [ ok i ↦ ok true | err e ↦ ok false | panic ↦ panic ]) ≡ ok b)
    known (ok i) h = (true, refl)
    known (err e) h = (false, refl)
    known panic (panics h) = absurd h
