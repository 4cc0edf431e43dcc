-- ===== src/Vfs/Changes.antt =====
-- The small changes that the operations are made of keep the file system valid.
use mathlib.Core.Option
use mathlib.Core.Path.{subst}
use honeynet.Base.{
  ℕ, ◌+◌, ◌≤◌, ◌<◌, ◌≡◌, refl, sym, ap, ◌∙◌, Bool, true, false, inl, inr, Bool-cases, Option-cases,
  Option, none, some, List, [], ◌∷◌, ◌++◌, arith, ◌==◌, if◌then◌else◌, length, length-append,
  get_elem?, get_elem?-lt, get_elem?-set, get_elem?-append_left, get_elem?-append_self, set,
  length-set, All, All-set, All-append, Bytes, assign, delete, UniqueKeys, UniqueKeys-assign,
  UniqueKeys-delete, AllValues, AllValues-assign, AllValues-delete,
}
use honeynet.Vfs.{
  Node, Fs, ok, panic, ◌>>=◌, is_kind_dir, root, write_node, children_of, link, add, unlink,
}
use honeynet.Vfs.Ends.{Ends, ends, panics, Ends-bind, Ends-weaken}
use honeynet.Vfs.Valid.{has_map, IsNode, IsValid, IsAt, IsPlace, at_lem, at-Ends}

pub write_node-IsValid :
    (fs : Fs) (i : ℕ) (n old : Node)
    → IsValid fs
    → get_elem? fs.nodes i ≡ some old
    → IsNode (length fs.nodes) n
    → is_kind_dir n.kind ≡ is_kind_dir old.kind
    → IsValid (write_node fs i n)
write_node-IsValid fs i n old v e good same = record {
  nodes_valid =
      subst (λ k. All (IsNode k) (set fs.nodes i n)) (sym (length-set fs.nodes i n))
        (All-set (IsNode (length fs.nodes)) fs.nodes i n v.nodes_valid good);
  root_dir =
      let (r, at_root, is_root) = v.root_dir in
      let found = get_elem?-set fs.nodes i root n (get_elem?-lt fs.nodes i e) in
      elim (Bool-cases (i == root)) [
        | inl here ↦
            let place : i ≡ root = ground arith in
            let kept : some old ≡ some r =
              sym (subst (λ j. get_elem? fs.nodes j ≡ some old) place e) ∙ at_root in
            let still : old ≡ r = cc in
            (
              n,
              found ∙ ap (λ b. if b then some n else get_elem? fs.nodes root) here,
              same ∙ ap (λ m. is_kind_dir m.kind) still ∙ is_root,
            )
        | inr elsewhere ↦ (
          r,
          found ∙ ap (λ b. if b then some n else get_elem? fs.nodes root) elsewhere ∙ at_root,
          is_root,
        )
      ];
  within_quota = v.within_quota;
}

AllValues-weaken :
    (m k : ℕ) (es : List (Bytes × ℕ))
    → m ≤ k
    → AllValues (λ i. i < m) es
    → AllValues (λ i. i < k) es
AllValues-weaken m k [] h a = tt
AllValues-weaken m k (e ∷ es) h a = (omega arith, AllValues-weaken m k es h a.1)

nodes-weaken : (m k : ℕ) (ns : List Node) → m ≤ k → All (IsNode m) ns → All (IsNode k) ns
nodes-weaken m k [] h a = tt
nodes-weaken m k (n ∷ ns) h a = (
  record {
    names_differ = a.0.names_differ;
    entries_exist = AllValues-weaken m k (children_of n) h a.0.entries_exist;
    map_of_dir = a.0.map_of_dir;
  },
  nodes-weaken m k ns h a.1,
)

abbrev pub with_node : Fs → Node → Fs
with_node fs n = record fs { nodes = fs.nodes ++ n ∷ [] }

pub with_node-IsValid :
    (fs : Fs) (n : Node)
    → IsValid fs
    → IsNode (length fs.nodes) n
    → IsValid (with_node fs n) × (length (with_node fs n).nodes ≡ length fs.nodes + 1)
with_node-IsValid fs n v good =
    let grown : length (fs.nodes ++ n ∷ []) ≡ length fs.nodes + 1 =
      omega (arith, length-append fs.nodes (n ∷ [])) in
    (
      record {
        nodes_valid =
            nodes-weaken (length fs.nodes) (length (fs.nodes ++ n ∷ [])) (fs.nodes ++ n ∷ [])
              (omega arith)
              (All-append (IsNode (length fs.nodes)) fs.nodes (n ∷ []) v.nodes_valid (good, tt));
        root_dir =
            let (r, at_root, is_root) = v.root_dir in
            (
              r,
              get_elem?-append_left fs.nodes (n ∷ []) root (get_elem?-lt fs.nodes root at_root)
                  ∙ at_root,
              is_root,
            );
        within_quota = v.within_quota;
      },
      grown,
    )

-- What is there and is no directory.
abbrev pub IsNoDir : Fs → ℕ → Type 0
IsNoDir fs i = (n : Node) × (get_elem? fs.nodes i ≡ some n) × (is_kind_dir n.kind ≡ false)

with_children :
    (fs : Fs) (i : ℕ) (n : Node) (es : List (Bytes × ℕ)) (new : List (Bytes × ℕ))
    → IsValid fs
    → IsAt fs i n
    → n.children ≡ some es
    → AllValues (λ j. j < length fs.nodes) new
    → UniqueKeys new
    → IsValid (write_node fs i (record n { children = some new }))
with_children fs i n es new v here e all differ =
    let mapped : has_map n ≡ true = rw e refl in
    write_node-IsValid fs i (record n { children = some new }) n v here.1
      (record {
        names_differ = differ;
        entries_exist = all;
        map_of_dir = sym mapped ∙ here.0.map_of_dir;
      })
      refl

entries :
    (fs : Fs) (n : Node) (es : List (Bytes × ℕ))
    → IsNode (length fs.nodes) n
    → n.children ≡ some es
    → AllValues (λ j. j < length fs.nodes) es
entries fs n es here e =
    subst (AllValues (λ j. j < length fs.nodes))
      (ap (λ o. elim o as (λ _. List (Bytes × ℕ)) [ some m ↦ m | none ↦ [] ]) e) here.entries_exist

differing :
    (fs : Fs) (n : Node) (es : List (Bytes × ℕ))
    → IsNode (length fs.nodes) n
    → n.children ≡ some es
    → UniqueKeys es
differing fs n es here e =
    subst UniqueKeys (ap (λ o. elim o as (λ _. List (Bytes × ℕ)) [ some m ↦ m | none ↦ [] ]) e)
      here.names_differ

-- A name is given to a node, unless its parent is no directory.
pub link-Ends :
    (fs : Fs) (parent : ℕ) (name : Bytes) (i : ℕ)
    → IsValid fs
    → IsPlace fs parent
    → IsPlace fs i
    → Ends (IsNoDir fs parent) IsValid (link fs parent name i)
unfolding link
link-Ends fs parent name i v h k = Ends-bind _ (at-Ends (IsNoDir fs parent) fs v parent h) λ n here.
    elim (Option-cases n.children) [
      | inl e ↦
          let bare : has_map n ≡ false = rw e refl in
          rw (e, link) (panics (n, here.1, sym here.0.map_of_dir ∙ bare))
      | inr (es, e) ↦
          rw (e, link)
            (ends (
              with_children fs parent n es (assign name i es) v here e
                (AllValues-assign (λ j. j < length fs.nodes) name i es k (entries fs n es here.0 e))
                (UniqueKeys-assign name i es (differing fs n es here.0 e))))
    ]

-- Writing a node of the same kind leaves every node's kind.
abbrev pub dir_at : Fs → ℕ → Option Bool
dir_at fs j = Option.map (λ n. is_kind_dir n.kind) (get_elem? fs.nodes j)

pub dir_at-write_node :
    (fs : Fs) (i : ℕ) (n old : Node)
    → get_elem? fs.nodes i ≡ some old
    → is_kind_dir n.kind ≡ is_kind_dir old.kind
    → (j : ℕ) → dir_at (write_node fs i n) j ≡ dir_at fs j
dir_at-write_node fs i n old e same j =
    ap (Option.map (λ m. is_kind_dir m.kind))
      (get_elem?-set fs.nodes i j n (get_elem?-lt fs.nodes i e))
    ∙ elim (Bool-cases (i == j)) [
      | inl here ↦
          let place : i ≡ j = ground arith in
          rw here (
            ap some same ∙ sym (ap (Option.map (λ m. is_kind_dir m.kind)) e) ∙ ap (dir_at fs) place)
      | inr elsewhere ↦ rw elsewhere refl
    ]

-- The same nodes, of the same kinds.
abbrev pub IsSimilar : Fs → Fs → Type 0
IsSimilar fs fs' = (length fs'.nodes ≡ length fs.nodes) × ((j : ℕ) → dir_at fs' j ≡ dir_at fs j)

-- A name is always taken away.
pub unlink_lem :
    (fs : Fs) (parent : ℕ) (name : Bytes)
    → IsValid fs
    → IsPlace fs parent
    → (fs' : Fs) × (unlink fs parent name ≡ ok fs') × IsValid fs' × IsSimilar fs fs'
unfolding unlink
unlink_lem fs parent name v h =
    let (n, found, here) = at_lem fs parent v h in
    elim (Option-cases n.children) [
      | inl e ↦ (fs, rw found (rw (e, ◌>>=◌) refl), v, (refl, λ j. refl))
      | inr (es, e) ↦
          let n' : Node = record n { children = some (delete name es) } in
          (
            write_node fs parent n',
            rw found (rw (e, ◌>>=◌) refl),
            with_children fs parent n es (delete name es) v here e
                (AllValues-delete (λ j. j < length fs.nodes) name es (entries fs n es here.0 e))
                (UniqueKeys-delete name es (differing fs n es here.0 e)),
            (length-set fs.nodes parent n', dir_at-write_node fs parent n' n here.1 refl),
          )
    ]

pub unlink-Ends :
    (Q : Type 0) (fs : Fs) (parent : ℕ) (name : Bytes)
    → IsValid fs
    → IsPlace fs parent
    → Ends Q (λ fs'. IsValid fs' × IsSimilar fs fs') (unlink fs parent name)
unlink-Ends Q fs parent name v h =
    let (fs', e, valid, similar) = unlink_lem fs parent name v h in rw e (ends (valid, similar))

-- A name below what is no directory is a write to a nil map.
pub link-panic :
    (fs : Fs) (parent : ℕ) (name : Bytes) (i : ℕ)
    → IsValid fs
    → IsNoDir fs parent
    → link fs parent name i ≡ panic
unfolding link
link-panic fs parent name i v (m, at_m, no_dir) =
    let (n, found, here) = at_lem fs parent v (get_elem?-lt fs.nodes parent at_m) in
    let same : n ≡ m = cc in
    let bare : has_map n ≡ false = here.0.map_of_dir ∙ ap (λ x. is_kind_dir x.kind) same ∙ no_dir in
    rw found (elim (Option-cases n.children) [
      | inl e ↦ rw (e, ◌>>=◌) refl
      | inr (es, e) ↦ absurd (ground arith)
    ])

-- A new node gets a name.
pub add-Ends :
    (fs : Fs) (parent : ℕ) (name : Bytes) (n : Node)
    → IsValid fs
    → IsPlace fs parent
    → IsNode (length fs.nodes) n
    → Ends (IsNoDir fs parent) IsValid (add fs parent name n)
unfolding add
add-Ends fs parent name n v h good =
    let (grown, size) = with_node-IsValid fs n v good in
    Ends-weaken same_parent (λ _ k. k)
      (link-Ends (with_node fs n) parent name (length fs.nodes) grown (omega arith) (omega arith))
  where
    same_parent : IsNoDir (with_node fs n) parent → IsNoDir fs parent
    same_parent (m, e, k) = (m, sym (get_elem?-append_left fs.nodes (n ∷ []) parent h) ∙ e, k)

-- The new node is at the end of the list.
pub add-new :
    (fs fs' : Fs) (parent : ℕ) (name : Bytes) (n : Node)
    → IsValid fs
    → IsPlace fs parent
    → IsNode (length fs.nodes) n
    → add fs parent name n ≡ ok fs'
    → get_elem? fs'.nodes (length fs.nodes) ≡ some n
unfolding add link
add-new fs fs' parent name n v h good e =
    let (grown, size) = with_node-IsValid fs n v good in
    let (m, found, here) = at_lem (with_node fs n) parent grown (omega arith) in
    let e' = rw found at e in
    elim (Option-cases m.children) [
      | inl bare ↦ absurd (no_result (rw (bare, ◌>>=◌) at e'))
      | inr (es, filled) ↦
          let m' : Node = record m { children = some (assign name (length fs.nodes) es) } in
          let e'' : ok (write_node (with_node fs n) parent m') ≡ ok fs' =
            rw (filled, ◌>>=◌) at e' in
          let same : write_node (with_node fs n) parent m' ≡ fs' = cc in
          subst (λ f. get_elem? f.nodes (length fs.nodes) ≡ some n) same
            (get_elem?-set (with_node fs n).nodes parent (length fs.nodes) m' (omega arith)
              ∙ ap (λ b. if b then some m' else get_elem? (fs.nodes ++ n ∷ []) (length fs.nodes))
                  elsewhere
              ∙ get_elem?-append_self fs.nodes n)
    ]
  where
    no_result : {f : Fs} → panic ≡ ok f → ⊥
    no_result p = absurd (ground arith)

    elsewhere : (parent == length fs.nodes) ≡ false
    elsewhere = ground arith
