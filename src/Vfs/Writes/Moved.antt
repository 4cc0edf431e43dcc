-- ===== src/Vfs/Writes/Moved.antt =====
-- Rename keeps the file system valid, and panics exactly where the new parent is no directory.
use mathlib.Core.Option
use mathlib.Core.Path.{subst}
use honeynet.Base.{
  ℕ, ◌≡◌, refl, sym, ap, ◌∙◌, true, false, inl, inr, Option-cases, some, arith, get_elem?,
  get_elem?-lt, length-set, Bytes, find,
}
use honeynet.Vfs.Paths.{path_dir, path_base}
use honeynet.Vfs.{
  Error, Node, Fs, Result, ok, panic, ◌>>=◌, is_kind_dir, at, write_node, children_of, link, unlink,
  lookup,
}
use honeynet.Vfs.Writes.{rename}
use honeynet.Vfs.Ends.{Ends, fails, Ends-bind, Ends-bind_eq, Ends-weaken}
use honeynet.Vfs.Valid.{IsValid, IsPlace, at_lem, at-Ends, lookup-Ends}
use honeynet.Vfs.Changes.{
  write_node-IsValid, IsNoDir, dir_at, IsSimilar, dir_at-write_node, link-Ends, link-panic,
  unlink_lem,
}
use honeynet.Vfs.Writes.Kept.{find-IsPlace}

-- The path leads to something that is no directory.
abbrev pub LeadsToNoDir : Fs → Bytes → Type 0
LeadsToNoDir fs p = (i : ℕ) × (lookup fs p true ≡ ok i) × IsNoDir fs i

IsNoDir-dir_at : (fs : Fs) (i : ℕ) → dir_at fs i ≡ some false → IsNoDir fs i
IsNoDir-dir_at fs i e = elim (Option-cases (get_elem? fs.nodes i)) [
  | inl missing ↦ absurd (ground arith)
  | inr (n, here) ↦ (n, here, ground arith)
]

-- A file system with the same kinds has no directory at the same places.
IsNoDir-similar : (fs fs' : Fs) (i : ℕ) → dir_at fs' i ≡ dir_at fs i → IsNoDir fs i → IsNoDir fs' i
IsNoDir-similar fs fs' i same (n, here, k) =
    IsNoDir-dir_at fs' i (same ∙ ap (Option.map (λ m. is_kind_dir m.kind)) here ∙ ap some k)

-- The node that is moved, under its new name.
abbrev moved_node : Node → Bytes → Node
moved_node n to = record n { name = path_base to; attacker_written = true }

abbrev move : Fs → Bytes → Bytes → ℕ → ℕ → ℕ → Result Fs
move fs from to from_parent i to_parent = do
  gone ← unlink fs from_parent (path_base from)
  n ← at gone i
  link (write_node gone i (moved_node n to)) to_parent (path_base to) i

module _ (fs : Fs) (v : IsValid fs) (from to : Bytes) where
  moved_lem :
      (from_parent i : ℕ)
      → IsPlace fs from_parent
      → IsPlace fs i
      → (moved : Fs) × IsValid moved
        × IsSimilar fs moved
        × ((to_parent : ℕ)
            → move fs from to from_parent i to_parent ≡ link moved to_parent (path_base to) i)
  moved_lem from_parent i h k =
      let (gone, unlinked, valid, similar) = unlink_lem fs from_parent (path_base from) v h in
      let (n, found, here) = at_lem gone i valid (omega (arith, similar.0)) in
      (
        write_node gone i (moved_node n to),
        write_node-IsValid gone i (moved_node n to) n valid here.1
            (record {
              names_differ = here.0.names_differ;
              entries_exist = here.0.entries_exist;
              map_of_dir = here.0.map_of_dir;
            })
            refl,
        (
          length-set gone.nodes i (moved_node n to) ∙ similar.0,
          λ j. dir_at-write_node gone i (moved_node n to) n here.1 refl j ∙ similar.1 j,
        ),
        λ to_parent. rw unlinked (rw found refl),
      )

  move-Ends :
      (from_parent i to_parent : ℕ)
      → IsPlace fs from_parent
      → IsPlace fs i
      → IsPlace fs to_parent
      → Ends (IsNoDir fs to_parent) IsValid (move fs from to from_parent i to_parent)
  move-Ends from_parent i to_parent h k l =
      let (moved, valid, similar, e) = moved_lem from_parent i h k in
      subst (Ends (IsNoDir fs to_parent) IsValid) (sym (e to_parent)) (
        Ends-weaken (IsNoDir-similar moved fs to_parent (sym (similar.1 to_parent))) (λ _ x. x)
          (link-Ends moved to_parent (path_base to) i valid (omega (arith, similar.0))
            (omega (arith, similar.0))))

  -- From a valid file system `Rename` ends in a valid one, in an error, or in a panic, and a panic
  -- only where the new path's parent leads to something that is no directory.
  pub rename-Ends : Ends (LeadsToNoDir fs (path_dir to)) IsValid (rename fs from to)
  unfolding rename
  rename-Ends =
      Ends-bind _ (lookup-Ends (LeadsToNoDir fs (path_dir to)) fs v (path_dir from) true)
        λ from_parent h.
          Ends-bind _ (at-Ends (LeadsToNoDir fs (path_dir to)) fs v from_parent h) λ pn here.
            elim (Option-cases (find (path_base from) (children_of pn))) [
              | inl e ↦ rw (e, ◌>>=◌) (fails Error.not_found)
              | inr (i, e) ↦
                  rw (e, ◌>>=◌)
                    (Ends-bind_eq _
                      (lookup-Ends (LeadsToNoDir fs (path_dir to)) fs v (path_dir to) true)
                      λ to_parent led l.
                        Ends-weaken (λ q. (to_parent, led, q)) (λ _ x. x)
                          (move-Ends from_parent i to_parent h
                            (find-IsPlace fs pn (path_base from) i here.0 e) l))
            ]

  -- An entry that is moved to a path whose parent is no directory panics.
  pub rename-panic :
      (from_parent i : ℕ) (pn : Node)
      → lookup fs (path_dir from) true ≡ ok from_parent
      → get_elem? fs.nodes from_parent ≡ some pn
      → find (path_base from) (children_of pn) ≡ some i
      → LeadsToNoDir fs (path_dir to)
      → rename fs from to ≡ panic
  unfolding rename
  rename-panic from_parent i pn led at_pn e (to_parent, to_led, no_dir) =
      let h : IsPlace fs from_parent = get_elem?-lt fs.nodes from_parent at_pn in
      let (n, found, here) = at_lem fs from_parent v h in
      let same : n ≡ pn = cc in
      let named : find (path_base from) (children_of n) ≡ some i = rw same e in
      let (moved, valid, similar, step) =
        moved_lem from_parent i h (find-IsPlace fs n (path_base from) i here.0 named) in
      rw led (
        rw found (
          rw (named, ◌>>=◌)
            (rw to_led (
              step to_parent
              ∙ link-panic moved to_parent (path_base to) i valid
                  (IsNoDir-similar fs moved to_parent (similar.1 to_parent) no_dir)))))
