-- ===== src/Vfs/Writes/ReadBack.antt =====
-- What is written is read back, and the other files keep their content.
use mathlib.Core.Path.{subst}
use honeynet.Base.{
  ℕ, ◌+◌, ◌≡◌, ◌≢◌, ◌⊎◌, refl, sym, ap, ◌∙◌, true, false, ◌&&◌, inl, inr, Bool-cases, Option-cases,
  none, some, List, [], ◌∷◌, ◌++◌, arith, ◌==◌, if◌then◌else◌, length, length-append, get_elem?,
  get_elem?-lt, get_elem?-set, get_elem?-append_left, get_elem?-append_self, set, All, All-get,
  Bytes, equal, equal_iff, find, assign, find-assign,
}
use honeynet.Vfs.Paths.{render, path_dir}
use honeynet.Vfs.Paths.Canonical.{IsElement}
use honeynet.Vfs.Paths.Parents.{path_dir-render, init-append, path_base-append}
use honeynet.Vfs.{
  file, Node, Fs, ok, ◌>>=◌, is_kind_dir, is_kind_symlink, new_file, root, children_of, link, add,
  lookup, read_node, read_file,
}
use honeynet.Vfs.Writes.{names_dir, exceeds, write_file}
use honeynet.Vfs.Valid.{has_map, IsNode, IsValid, IsPlace}
use honeynet.Vfs.Descend.{descend, Descends, descend-Descends, at-some, lookup-descend}

descend-append :
    (fs : Fs) (parts : List Bytes) (name : Bytes) (cur i : ℕ)
    → descend fs parts cur ≡ some i
    → descend fs (parts ++ name ∷ []) cur ≡ descend fs (name ∷ []) i
unfolding descend
descend-append fs [] name cur i e = let same : cur ≡ i = cc in rw same refl
descend-append fs (part ∷ parts) name cur i e =
    let d = descend-Descends fs part parts cur i e in
    rw (d.is_node, descend)
      (rw d.is_dir (rw (d.is_next, descend) (descend-append fs parts name d.next i d.rest)))

-- No directory has the name in this one.
abbrev pub IsFree : Fs → Node → Bytes → Type 0
IsFree fs pn name =
    (find name (children_of pn) ≡ none)
    ⊎ ((o : ℕ) × (m : Node) × (find name (children_of pn) ≡ some o)
        × (get_elem? fs.nodes o ≡ some m)
        × (is_kind_dir m.kind ≡ false))

module _ (now uid gid mode : ℕ) (fs : Fs) (v : IsValid fs) (name content : Bytes) (parent : ℕ)
    (pn : Node) (at_parent : get_elem? fs.nodes parent ≡ some pn)
    (is_dir : is_kind_dir pn.kind ≡ true) (free : IsFree fs pn name) where
  abbrev written_file : Node
  written_file = record (new_file name mode uid gid now content) { attacker_written = true }

  abbrev parent_after : Node
  parent_after = record pn { children = some (assign name (length fs.nodes) (children_of pn)) }

  -- The file system behind the write.
  abbrev after : Fs
  after = record {
    nodes = set (fs.nodes ++ written_file ∷ []) parent parent_after;
    written = fs.written + length content;
  }

  in_range : IsPlace fs parent
  in_range = get_elem?-lt fs.nodes parent at_parent

  after_at :
      (j : ℕ)
      → get_elem? after.nodes j
        ≡ (if parent == j then some parent_after else get_elem? (fs.nodes ++ written_file ∷ []) j)
  after_at j =
      get_elem?-set (fs.nodes ++ written_file ∷ []) parent j parent_after
        (omega (arith, in_range, length-append fs.nodes (written_file ∷ [])))

  after_at_new : get_elem? after.nodes (length fs.nodes) ≡ some written_file
  after_at_new =
      after_at (length fs.nodes)
      ∙ ap
          (λ b.
            if b
            then some parent_after
            else get_elem? (fs.nodes ++ written_file ∷ []) (length fs.nodes))
          elsewhere
      ∙ get_elem?-append_self fs.nodes written_file
    where
      elsewhere : (parent == length fs.nodes) ≡ false
      elsewhere = ground (arith, in_range)

  after_at_parent : get_elem? after.nodes parent ≡ some parent_after
  after_at_parent =
      after_at parent
      ∙ ap (λ b. if b then some parent_after else get_elem? (fs.nodes ++ written_file ∷ []) parent)
          here
    where
      here : (parent == parent) ≡ true
      here = ground arith

  after_at_other :
      (j : ℕ) (m : Node)
      → (parent == j) ≡ false
      → get_elem? fs.nodes j ≡ some m
      → get_elem? after.nodes j ≡ some m
  after_at_other j m other e =
      after_at j
      ∙ ap (λ b. if b then some parent_after else get_elem? (fs.nodes ++ written_file ∷ []) j) other
      ∙ get_elem?-append_left fs.nodes (written_file ∷ []) j (get_elem?-lt fs.nodes j e)
      ∙ e

  -- A way that does not end at the file which is replaced stays.
  descend-after :
      (parts : List Bytes) (cur j : ℕ)
      → descend fs parts cur ≡ some j
      → find name (children_of pn) ≢ some j
      → descend after parts cur ≡ some j
  unfolding descend
  descend-after [] cur j e other = e
  descend-after (part ∷ parts) cur j e other =
      let d = descend-Descends fs part parts cur j e in
      let rest = descend-after parts d.next j d.rest other in
      elim (Bool-cases (parent == cur)) [
        | inr elsewhere ↦
            rw (after_at_other cur d.node elsewhere d.is_node, descend)
              (rw d.is_dir (rw (d.is_next, descend) rest))
        | inl here ↦
            let place : parent ≡ cur = ground arith in
            let same : some pn ≡ some d.node =
              sym at_parent ∙ ap (get_elem? fs.nodes) place ∙ d.is_node in
            let node_is : d.node ≡ pn = cc in
            let next_is : find part (children_of pn) ≡ some d.next =
              subst (λ n. find part (children_of n) ≡ some d.next) node_is d.is_next in
            let at_cur : get_elem? after.nodes cur ≡ some parent_after =
              ap (get_elem? after.nodes) (sym place) ∙ after_at_parent in
            let kept : find part (assign name (length fs.nodes) (children_of pn)) ≡ some d.next =
              find-assign part name (length fs.nodes) (children_of pn)
              ∙ elim (Bool-cases (equal name part)) [
                | inr differ ↦ rw differ next_is
                | inl hit ↦ absurd (
                    other_child parts part j d.next next_is ((equal_iff name part).0 hit) d.rest
                      other)
              ] in
            rw (at_cur, descend) (rw is_dir (rw (kept, descend) rest))
      ]
    where
      -- The replaced file is at the end of every way to it.
      other_child :
          (ps : List Bytes) (part : Bytes) (j next : ℕ)
          → find part (children_of pn) ≡ some next
          → name ≡ part
          → descend fs ps next ≡ some j
          → find name (children_of pn) ≢ some j
          → ⊥
      other_child [] part j next e hit way other =
          let end : next ≡ j = cc in other (ap (λ k. find k (children_of pn)) hit ∙ e ∙ ap some end)
      other_child (p ∷ ps) part j next e hit way other =
          let d = descend-Descends fs p ps next j way in
          let named : find name (children_of pn) ≡ some next =
            ap (λ k. find k (children_of pn)) hit ∙ e in
          not_free free named d
        where
          not_free :
              IsFree fs pn name
              → find name (children_of pn) ≡ some next
              → Descends fs p ps next j
              → ⊥
          not_free (inl missing) named d = absurd (ground arith)
          not_free (inr (o, m, there, at_o, no_dir)) named d =
              let place : o ≡ next = cc in
              let same : some m ≡ some d.node =
                sym at_o ∙ ap (get_elem? fs.nodes) place ∙ d.is_node in
              let node_is : m ≡ d.node = cc in
              absurd (ground (arith, ap (λ n. is_kind_dir n.kind) node_is, no_dir, d.is_dir))

  pn_valid : IsNode (length fs.nodes) pn
  pn_valid = All-get (IsNode (length fs.nodes)) fs.nodes parent v.nodes_valid at_parent

  names_dir-free : names_dir fs pn name ≡ ok false
  unfolding names_dir
  names_dir-free = named free
    where
      named : IsFree fs pn name → names_dir fs pn name ≡ ok false
      named (inl e) = rw (e, names_dir) refl
      named (inr (o, m, e, at_o, no_dir)) =
          rw (e, names_dir) (rw (at-some fs o m at_o) (ap ok no_dir))

  add-after :
      add (record fs { written = fs.written + length content }) parent name written_file ≡ ok after
  unfolding add link
  add-after =
      rw
        (at-some
          (record { nodes = fs.nodes ++ written_file ∷ []; written = fs.written + length content })
          parent pn
          (get_elem?-append_left fs.nodes (written_file ∷ []) parent in_range ∙ at_parent))
        (elim (Option-cases pn.children) [
          | inl bare ↦
              let none_there : has_map pn ≡ false = rw bare refl in
              absurd (ground (arith, pn_valid.map_of_dir))
          | inr (es, e) ↦ rw (e, ◌>>=◌) refl
        ])

  module _ (parts : List Bytes) (good : All IsElement (parts ++ name ∷ []))
      (leads : descend fs parts root ≡ some parent) where
    abbrev path : Bytes
    path = render (parts ++ name ∷ [])

    parts_good : (ps : List Bytes) → All IsElement (ps ++ name ∷ []) → All IsElement ps
    parts_good [] h = tt
    parts_good (e ∷ ps) h = (h.0, parts_good ps h.1)

    write_file-after :
        exceeds fs content ≡ false → write_file now uid gid fs path content mode ≡ ok after
    unfolding write_file
    write_file-after fits =
        let above : path_dir path ≡ render parts =
          path_dir-render (parts ++ name ∷ []) good ∙ ap render (init-append parts name) in
        let found : lookup fs (render parts) true ≡ ok parent =
          lookup-descend fs parts true parent pn (parts_good parts good) leads at_parent
            (ground arith) in
        rw fits (
          rw above (
            rw found (
              rw (at-some fs parent pn at_parent)
                (rw is_dir (rw (path_base-append parts name good) (rw names_dir-free add-after))))))

    parent_kept : find name (children_of pn) ≢ some parent
    parent_kept = named free
      where
        named : IsFree fs pn name → find name (children_of pn) ≢ some parent
        named (inl e) f = absurd (ground arith)
        named (inr (o, m, e, at_o, no_dir)) f =
            let place : o ≡ parent = cc in
            let same : some m ≡ some pn = sym at_o ∙ ap (get_elem? fs.nodes) place ∙ at_parent in
            let node_is : m ≡ pn = cc in
            absurd (ground (arith, ap (λ n. is_kind_dir n.kind) node_is))

    way_to_new : descend after (parts ++ name ∷ []) root ≡ some (length fs.nodes)
    unfolding descend
    way_to_new =
        descend-append after parts name root parent
          (descend-after parts root parent leads parent_kept)
        ∙ rw (after_at_parent, descend)
            (rw is_dir (
              rw
                (
                  find-assign name name (length fs.nodes) (children_of pn)
                      ∙ ap (λ b. if b then some (length fs.nodes) else find name (children_of pn))
                          ((equal_iff name name).1 refl),
                  descend,
                )
                refl))

    -- A write to a free name in a directory that the path leads to, by directories, and within the
    -- quota succeeds, and the file is read back as it was written, at any time.
    pub write_file-read_file :
        (t : ℕ)
        → exceeds fs content ≡ false
        → (fs' : Fs) × (write_file now uid gid fs path content mode ≡ ok fs')
          × (read_file fs' t path ≡ ok content)
    unfolding read_file read_node
    write_file-read_file t fits = (
      after,
      write_file-after fits,
      rw
          (lookup-descend after (parts ++ name ∷ []) true (length fs.nodes) written_file good
            way_to_new after_at_new refl)
          (rw (at-some after (length fs.nodes) written_file after_at_new) refl),
    )

    -- Every other file on a path of directories is read as before, the replaced one excepted.
    pub write_file-frame :
        (t j : ℕ) (others : List Bytes) (m : Node)
        → exceeds fs content ≡ false
        → All IsElement others
        → descend fs others root ≡ some j
        → get_elem? fs.nodes j ≡ some m
        → m.kind ≡ file
        → find name (children_of pn) ≢ some j
        → (fs' : Fs) × (write_file now uid gid fs path content mode ≡ ok fs')
          × (read_file fs' t (render others) ≡ read_file fs t (render others))
    unfolding read_file
    write_file-frame t j others m fits clean way at_j is_file other =
        let end : (is_kind_symlink m.kind && true) ≡ false = rw is_file refl in
        let elsewhere : (parent == j) ≡ false = elim (Bool-cases (parent == j)) [
          | inr apart ↦ apart
          | inl here ↦
              let place : parent ≡ j = ground arith in
              let same : some pn ≡ some m = sym at_parent ∙ ap (get_elem? fs.nodes) place ∙ at_j in
              let node_is : pn ≡ m = cc in
              absurd (ground (arith, ap (λ n. is_kind_dir n.kind) node_is, ap is_kind_dir is_file))
        ] in
        let at_after = after_at_other j m elsewhere at_j in
        (
          after,
          write_file-after fits,
          rw
              (lookup-descend after others true j m clean (descend-after others root j way other)
                at_after end)
              (rw (lookup-descend fs others true j m clean way at_j end)
                (rw (at-some after j m at_after) (rw (at-some fs j m at_j) refl))),
        )
