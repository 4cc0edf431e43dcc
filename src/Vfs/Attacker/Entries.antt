-- ===== src/Vfs/Attacker/Entries.antt =====
-- What one entry of a directory adds to the list of the attacker's files.
use mathlib.Core.Path.{subst}
use honeynet.Base.{
  ℕ, ◌≡◌, refl, sym, ap, ◌∙◌, ◌↔◌, ◌⊎◌, inl, inr, Bool, true, false, Bool-cases, Option, none, some,
  List, [], ◌∷◌, ◌++◌, arith, if◌then◌else◌, get_elem?, Bytes, equal, equal_iff, find, IsIn,
}
use honeynet.Vfs.{Node, Fs, is_kind_dir, children_of}
use honeynet.Vfs.Descend.{descend, descend-Descends}

-- The path of names below a prefix.
unfoldable pub below : Bytes → List Bytes → Bytes
below prefix [] = prefix
below prefix (part ∷ parts) = below (prefix ++ b'/' ∷ part) parts

-- A path that leads from entries of a map to a node that is marked AttackerWritten.
pub record IsWritten (fs : Fs) (prefix : Bytes) (es : List (Bytes × ℕ)) (p : Bytes) : Type 0 where
  pub part : Bytes
  pub parts : List Bytes
  pub next : ℕ
  pub place : ℕ
  pub node : Node
  pub found : find part es ≡ some next
  pub leads : descend fs parts next ≡ some place
  pub is_node : get_elem? fs.nodes place ≡ some node
  pub is_written : node.attacker_written ≡ true
  pub is_path : p ≡ below prefix (part ∷ parts)

-- The same from one entry.
pub record LeadsFrom (fs : Fs) (prefix : Bytes) (next : ℕ) (p : Bytes) : Type 0 where
  pub parts : List Bytes
  pub place : ℕ
  pub node : Node
  pub leads : descend fs parts next ≡ some place
  pub is_node : get_elem? fs.nodes place ≡ some node
  pub is_written : node.attacker_written ≡ true
  pub is_path : p ≡ below prefix parts

pub some_inj : {A : Type 0} {a b : A} → some a ≡ some b → a ≡ b
some_inj p = cc

-- An entry in front of others, whose name is not among theirs.
module _ (fs : Fs) (prefix p name : Bytes) (i : ℕ) (es : List (Bytes × ℕ)) where
  pub split_entry :
      IsWritten fs prefix ((name, i) ∷ es) p
      → LeadsFrom fs (prefix ++ b'/' ∷ name) i p ⊎ IsWritten fs prefix es p
  unfolding find below
  split_entry w = elim (Bool-cases (equal w.part name)) [
    | inl same ↦ inl record {
      parts = w.parts;
      place = w.place;
      node = w.node;
      leads =
          subst (λ j. descend fs w.parts j ≡ some w.place) (some_inj (sym (rw same at w.found)))
            w.leads;
      is_node = w.is_node;
      is_written = w.is_written;
      is_path =
          w.is_path ∙ ap (λ n. below (prefix ++ b'/' ∷ n) w.parts) ((equal_iff w.part name).0 same);
    }
    | inr other ↦ inr record {
      part = w.part;
      parts = w.parts;
      next = w.next;
      place = w.place;
      node = w.node;
      found = rw other at w.found;
      leads = w.leads;
      is_node = w.is_node;
      is_written = w.is_written;
      is_path = w.is_path;
    }
  ]

  pub first_entry :
      LeadsFrom fs (prefix ++ b'/' ∷ name) i p → IsWritten fs prefix ((name, i) ∷ es) p
  unfolding find below
  first_entry l = record {
    part = name;
    parts = l.parts;
    next = i;
    place = l.place;
    node = l.node;
    found = ground (arith, equal_iff name name);
    leads = l.leads;
    is_node = l.is_node;
    is_written = l.is_written;
    is_path = l.is_path;
  }

  pub later_entry :
      find name es ≡ none → IsWritten fs prefix es p → IsWritten fs prefix ((name, i) ∷ es) p
  unfolding find
  later_entry fresh w = record {
    part = w.part;
    parts = w.parts;
    next = w.next;
    place = w.place;
    node = w.node;
    found = elim (Bool-cases (equal w.part name)) [
      | inl same ↦ absurd (found_fresh w.part ((equal_iff w.part name).0 same) w.found)
      | inr other ↦ rw other w.found
    ];
    leads = w.leads;
    is_node = w.is_node;
    is_written = w.is_written;
    is_path = w.is_path;
  }
    where
      found_fresh : (part : Bytes) → part ≡ name → find part es ≡ some w.next → ⊥
      found_fresh part e f = let g : find part es ≡ none = rw e fresh in absurd (ground arith)

-- From one place: the node itself, or what stands below a directory.
module _ (fs : Fs) (p path : Bytes) (i : ℕ) (c : Node) (here : get_elem? fs.nodes i ≡ some c) where
  abbrev IsOrHas : Type 0
  IsOrHas =
      (c.attacker_written ≡ true) × (p ≡ path)
      ⊎ (is_kind_dir c.kind ≡ true) × IsWritten fs path (children_of c) p

  open_place :
      (parts : List Bytes) (place : ℕ) (n : Node)
      → descend fs parts i ≡ some place
      → get_elem? fs.nodes place ≡ some n
      → n.attacker_written ≡ true
      → p ≡ below path parts
      → IsOrHas
  unfolding descend below
  open_place [] place n leads there written e =
      let same : n ≡ c =
        some_inj (sym there ∙ ap (get_elem? fs.nodes) (sym (some_inj leads)) ∙ here) in
      inl (ap (λ m. m.attacker_written) (sym same) ∙ written, e)
  open_place (part ∷ parts) place n leads there written e =
      let d = descend-Descends fs part parts i place leads in
      let same : d.node ≡ c = some_inj (sym d.is_node ∙ here) in
      inr (
        ap (λ m. is_kind_dir m.kind) (sym same) ∙ d.is_dir,
        record {
          part = part;
          parts = parts;
          next = d.next;
          place = place;
          node = n;
          found = ap (λ m. find part (children_of m)) (sym same) ∙ d.is_next;
          leads = d.rest;
          is_node = there;
          is_written = written;
          is_path = e;
        },
      )

  close_place : IsOrHas → LeadsFrom fs path i p
  unfolding descend below
  close_place (inl (w, e)) = record {
    parts = [];
    place = i;
    node = c;
    leads = refl;
    is_node = here;
    is_written = w;
    is_path = e;
  }
  close_place (inr (d, w)) = record {
    parts = w.part ∷ w.parts;
    place = w.place;
    node = w.node;
    leads = rw (here, descend) (rw d (rw (w.found, descend) w.leads));
    is_node = w.is_node;
    is_written = w.is_written;
    is_path = w.is_path;
  }

-- The list that a walk returns, and the paths it lists.
pub record Lists (fs : Fs) (prefix : Bytes) (es : List (Bytes × ℕ)) (r : Option (List Bytes))
    : Type 0 where
  pub out : List Bytes
  pub returns : r ≡ some out
  pub lists : (p : Bytes) → IsIn p out ↔ IsWritten fs prefix es p

-- What one entry adds.
pub IsIn-entry :
    (fs : Fs) (path : Bytes) (i : ℕ) (c : Node) (inside : List Bytes)
    → get_elem? fs.nodes i ≡ some c
    → ((p : Bytes)
        → IsIn p inside ↔ ((is_kind_dir c.kind ≡ true) × IsWritten fs path (children_of c) p))
    → (p : Bytes)
    → IsIn p (if c.attacker_written then path ∷ inside else inside) ↔ LeadsFrom fs path i p
IsIn-entry fs path i c inside here h p = elim (Bool-cases c.attacker_written) [
  | inl w ↦ rw w (
    (λ k. close_place fs p path i c here (elim k [ inl e ↦ inl (w, e) | inr r ↦ inr ((h p).0 r) ])),
    (λ l. elim (opened l) [ inl e ↦ inl e.1 | inr r ↦ inr ((h p).1 r) ]),
  )
  | inr w ↦ rw w (
    (λ k. close_place fs p path i c here (inr ((h p).0 k))),
    (λ l. elim (opened l) [ inl e ↦ absurd (true_false (sym e.0 ∙ w)) | inr r ↦ (h p).1 r ]),
  )
]
  where
    opened : LeadsFrom fs path i p → IsOrHas fs p path i c here
    opened l =
        open_place fs p path i c here l.parts l.place l.node l.leads l.is_node l.is_written
          l.is_path

    true_false : true ≡ false → ⊥
    true_false e = absurd (ground arith)

pub none_written : (fs : Fs) (prefix p : Bytes) → IsWritten fs prefix [] p → ⊥
unfolding find
none_written fs prefix p k = let f : none ≡ some k.next = k.found in absurd (ground arith)

-- What the walk finds behind one entry: nothing, when that is no directory.
pub record Inside (fs : Fs) (path : Bytes) (c : Node) (r : Option (List Bytes)) : Type 0 where
  pub out : List Bytes
  pub returns : r ≡ some out
  pub lists :
      (p : Bytes) → IsIn p out ↔ ((is_kind_dir c.kind ≡ true) × IsWritten fs path (children_of c) p)

pub if_dir :
    (fs : Fs) (path : Bytes) (c : Node) (r : Option (List Bytes))
    → Lists fs path (children_of c) r
    → Inside fs path c (if is_kind_dir c.kind then r else some [])
if_dir fs path c r l = elim (Bool-cases (is_kind_dir c.kind)) [
  | inl d ↦ record {
    out = l.out;
    returns = rw d l.returns;
    lists = λ p. ((λ k. (d, (l.lists p).0 k)), (λ k. (l.lists p).1 k.1));
  }
  | inr d ↦ record {
    out = [];
    returns = rw d refl;
    lists = λ p. ((λ k. absurd k), (λ k. absurd (no_dir d k.0)));
  }
]
  where
    no_dir : {b : Bool} → b ≡ false → b ≡ true → ⊥
    no_dir e f = absurd (ground arith)
