-- ===== src/Vfs/Attacker/Listed.antt =====
-- The list of the attacker's files is the set of paths that lead to a node marked AttackerWritten.
use mathlib.Core.Path.{subst}
use honeynet.Base.{
  ℕ, zero, suc, ◌+◌, ◌≤◌, ◌<◌, ◌≡◌, refl, sym, ap, ◌∙◌, ◌↔◌, inl, inr, true, Option, some, List, [],
  ◌∷◌, ◌++◌, arith, if◌then◌else◌, get_elem?, get_elem?_lem, length, All-get, Bytes, find,
  UniqueKeys, AllValues, IsIn, IsIn-append, IsIn-sort_by, sort_by, join, append_assoc,
}
use honeynet.Vfs.Paths.{render}
use honeynet.Vfs.{Node, Fs, is_kind_dir, root, children_of}
use honeynet.Vfs.Valid.{IsNode, IsValid}
use honeynet.Vfs.Descend.{descend, descend-Descends}
use honeynet.Vfs.Attacker.{files_below, files_in, attacker_files}
use honeynet.Vfs.Attacker.Entries.{
  below, IsWritten, Lists, some_inj, split_entry, first_entry, later_entry, none_written, if_dir,
  IsIn-entry,
}

-- What a directory holds has a lower rank than the directory.
module _ (fs : Fs) (rank : ℕ → ℕ) where
  abbrev IsBelow : ℕ → List (Bytes × ℕ) → Type 0
  IsBelow bound = AllValues (λ j. (j < length fs.nodes) × (rank j < bound))

  abbrev IsWalk : ℕ → (Bytes → Node → Option (List Bytes)) → Type 0
  IsWalk bound walk =
      (path : Bytes) (i : ℕ) (c : Node)
      → get_elem? fs.nodes i ≡ some c
      → rank i < bound
      → Lists fs path (children_of c) (walk path c)

  files_below-Lists :
      (walk : Bytes → Node → Option (List Bytes)) (bound : ℕ) (prefix : Bytes)
      (es : List (Bytes × ℕ))
      → IsWalk bound walk
      → UniqueKeys es
      → IsBelow bound es
      → Lists fs prefix es (files_below walk fs prefix es)
  unfolding files_below
  files_below-Lists walk bound prefix [] w u b = record {
    out = [];
    returns = refl;
    lists = λ p. ((λ k. absurd k), (λ k. absurd (none_written fs prefix p k)));
  }
  files_below-Lists walk bound prefix ((name, i) ∷ es) w u b =
      let (c, here) = get_elem?_lem fs.nodes i b.0.0 in
      let path = prefix ++ b'/' ∷ name in
      let inside = if_dir fs path c (walk path c) (w path i c here b.0.1) in
      let rest = files_below-Lists walk bound prefix es w u.1 b.1 in
      let first = if c.attacker_written then path ∷ inside.out else inside.out in
      record {
        out = first ++ rest.out;
        returns = rw here (rw inside.returns (rw rest.returns refl));
        lists = λ p.
            let app = IsIn-append p first rest.out in
            let entry = IsIn-entry fs path i c inside.out here inside.lists p in
            (
              (λ k. elim (app.0 k) [
                | inl a ↦ first_entry fs prefix p name i es (entry.0 a)
                | inr r ↦ later_entry fs prefix p name i es u.0 ((rest.lists p).0 r)
              ]),
              (λ k. app.1 (elim (split_entry fs prefix p name i es k) [
                | inl l ↦ inl (entry.1 l)
                | inr r ↦ inr ((rest.lists p).1 r)
              ])),
            );
      }

  -- The ranks of the places from `start` on.
  abbrev pub IsRanked : ℕ → List Node → Type 0
  IsRanked start [] = Unit
  IsRanked start (n ∷ ns) =
      AllValues (λ j. rank j < rank start) (children_of n) × IsRanked (suc start) ns

  IsRanked-get :
      (start i : ℕ) (ns : List Node) (n : Node)
      → IsRanked start ns
      → get_elem? ns i ≡ some n
      → AllValues (λ j. rank j < rank (start + i)) (children_of n)
  IsRanked-get start i [] n r e = absurd (ground arith)
  IsRanked-get start zero (m ∷ ns) n r e =
      let same : m ≡ n = some_inj e in
      let here : start + 0 ≡ start = omega arith in
      rw here (subst (λ k. AllValues (λ j. rank j < rank start) (children_of k)) same r.0)
  IsRanked-get start (suc i) (m ∷ ns) n r e =
      let there : start + suc i ≡ suc start + i = omega arith in
      rw there (IsRanked-get (suc start) i ns n r.1 e)

  zero_add : (i : ℕ) → 0 + i ≡ i
  zero_add i = omega arith

  IsBelow-lower :
      (top bound : ℕ) (es : List (Bytes × ℕ))
      → AllValues (λ j. j < length fs.nodes) es
      → AllValues (λ j. rank j < top) es
      → top ≤ bound
      → IsBelow bound es
  IsBelow-lower top bound [] p r h = tt
  IsBelow-lower top bound ((name, i) ∷ es) p r h =
      let near = r.0 in ((p.0, omega arith), IsBelow-lower top bound es p.1 r.1 h)

  files_in-Lists :
      (left i : ℕ) (prefix : Bytes) (n : Node)
      → IsValid fs
      → IsRanked 0 fs.nodes
      → get_elem? fs.nodes i ≡ some n
      → rank i < left
      → Lists fs prefix (children_of n) (files_in left fs prefix n)
  unfolding files_in
  files_in-Lists zero i prefix n v r here h = absurd (ground arith)
  files_in-Lists (suc left) i prefix n v r here h =
      let node = All-get (IsNode (length fs.nodes)) fs.nodes i v.nodes_valid here in
      files_below-Lists (files_in left fs) left prefix (children_of n)
        (λ path j c there k. files_in-Lists left j path c v r there k) node.names_differ
        (IsBelow-lower (rank i) left (children_of n) node.entries_exist
          (subst (λ k. AllValues (λ j. rank j < rank k) (children_of n)) (zero_add i)
            (IsRanked-get 0 i fs.nodes n r here))
          (omega arith))

-- A path below the root by which the session's end finds a node that is marked AttackerWritten.
pub record IsDropping (fs : Fs) (p : Bytes) : Type 0 where
  pub part : Bytes
  pub parts : List Bytes
  pub place : ℕ
  pub node : Node
  pub leads : descend fs (part ∷ parts) root ≡ some place
  pub is_node : get_elem? fs.nodes place ≡ some node
  pub is_written : node.attacker_written ≡ true
  pub is_path : p ≡ render (part ∷ parts)

below-render :
    (prefix part : Bytes) (parts : List Bytes)
    → below prefix (part ∷ parts) ≡ prefix ++ render (part ∷ parts)
unfolding below join
below-render prefix part [] = refl
below-render prefix part (next ∷ parts) =
    below-render (prefix ++ b'/' ∷ part) next parts
    ∙ append_assoc prefix (b'/' ∷ part) (render (next ∷ parts))

IsWritten-IsDropping :
    (fs : Fs) (n : Node) (p : Bytes)
    → get_elem? fs.nodes root ≡ some n
    → is_kind_dir n.kind ≡ true
    → IsWritten fs [] (children_of n) p ↔ IsDropping fs p
unfolding descend
IsWritten-IsDropping fs n p here d = (there, back)
  where
    there : IsWritten fs [] (children_of n) p → IsDropping fs p
    there w = record {
      part = w.part;
      parts = w.parts;
      place = w.place;
      node = w.node;
      leads = rw (here, descend) (rw d (rw (w.found, descend) w.leads));
      is_node = w.is_node;
      is_written = w.is_written;
      is_path = w.is_path ∙ below-render [] w.part w.parts;
    }

    back : IsDropping fs p → IsWritten fs [] (children_of n) p
    back w =
        let step = descend-Descends fs w.part w.parts root w.place w.leads in
        let same : step.node ≡ n = some_inj (sym step.is_node ∙ here) in
        record {
          part = w.part;
          parts = w.parts;
          next = step.next;
          place = w.place;
          node = w.node;
          found = ap (λ m. find w.part (children_of m)) (sym same) ∙ step.is_next;
          leads = step.rest;
          is_node = w.is_node;
          is_written = w.is_written;
          is_path = w.is_path ∙ sym (below-render [] w.part w.parts);
        }

-- In a valid file system where ranks fall from a directory to what it holds, with a level for every
-- rank, the walk returns, and lists exactly the paths that lead by directories from the root to a node
-- that is marked AttackerWritten.
pub attacker_files-lists :
    (fs : Fs) (rank : ℕ → ℕ) (left : ℕ)
    → IsValid fs
    → IsRanked fs rank 0 fs.nodes
    → rank root < left
    → (out : List Bytes) × (attacker_files left fs ≡ some out)
      × ((p : Bytes) → IsIn p out ↔ IsDropping fs p)
unfolding attacker_files
attacker_files-lists fs rank left v r h =
    let (n, here, d) = v.root_dir in
    let l = files_in-Lists fs rank left root [] n v r here h in
    (
      sort_by (λ p. p) l.out,
      rw here (rw l.returns refl),
      λ p.
          let sorted = IsIn-sort_by (λ q. q) p l.out in
          let step = IsWritten-IsDropping fs n p here d in
          ((λ k. step.0 ((l.lists p).0 (sorted.0 k))), (λ k. sorted.1 ((l.lists p).1 (step.1 k)))),
    )
