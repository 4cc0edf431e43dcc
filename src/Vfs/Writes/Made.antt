-- ===== src/Vfs/Writes/Made.antt =====
-- mkdirAll keeps the file system valid, and panics only where something that is no directory is in
-- the way.
use honeynet.Base.{
  ℕ, ◌≡◌, refl, inl, inr, Option-cases, none, some, List, [], ◌∷◌, length, get_elem?, get_elem?-lt,
  Bytes, find,
}
use honeynet.Vfs.Paths.{split}
use honeynet.Vfs.{Node, Fs, ◌>>=◌, new_dir, root, children_of}
use honeynet.Vfs.Writes.{mkdir_loop, mkdir_all}
use honeynet.Vfs.Ends.{Ends, ends, Ends-bind_eq, Ends-weaken}
use honeynet.Vfs.Valid.{IsNode, IsValid, IsPlace, at_lem, root-IsPlace}
use honeynet.Vfs.Changes.{IsNoDir, add-Ends, add-new}
use honeynet.Vfs.Writes.Kept.{find-IsPlace, clash}

-- The elements lead, as far as they are there, to something that is no directory.
pub data IsBlocked (fs : Fs) : List Bytes → ℕ → Type 0 where
  here :
      {part : Bytes} {parts : List Bytes} {cur : ℕ}
      → IsNoDir fs cur
      → IsBlocked fs (part ∷ parts) cur
  below :
      {part : Bytes} {parts : List Bytes} {cur next : ℕ} (n : Node)
      → get_elem? fs.nodes cur ≡ some n
      → find part (children_of n) ≡ some next
      → IsBlocked fs parts next
      → IsBlocked fs (part ∷ parts) cur

module _ (now uid gid mode : ℕ) where
  made : Bytes → Node
  made part = new_dir part mode uid gid now

  -- Below a new directory everything is made.
  mkdir_loop-new :
      (fs : Fs) (parts : List Bytes) (cur : ℕ) (part : Bytes)
      → IsValid fs
      → get_elem? fs.nodes cur ≡ some (new_dir part mode uid gid now)
      → Ends ⊥ IsValid (mkdir_loop now uid gid mode fs parts cur)
  unfolding mkdir_loop
  mkdir_loop-new fs [] cur name v e = ends v
  mkdir_loop-new fs (part ∷ parts) cur name v e =
      let h : IsPlace fs cur = get_elem?-lt fs.nodes cur e in
      let (n, found, at_n) = at_lem fs cur v h in
      let same : n ≡ new_dir name mode uid gid now = cc in
      let good : IsNode (length fs.nodes) (new_dir part mode uid gid now) = record {
        names_differ = tt;
        entries_exist = tt;
        map_of_dir = refl;
      } in
      let none_there : find part (children_of n) ≡ none = rw same (unfold find in refl) in
      rw found (
        rw (none_there, ◌>>=◌)
          (Ends-bind_eq _
            (Ends-weaken (clash fs cur (new_dir name mode uid gid now) e refl) (λ _ k. k)
              (add-Ends fs cur part (new_dir part mode uid gid now) v h good))
            λ grown eq valid.
              mkdir_loop-new grown parts (length fs.nodes) part valid
                (add-new fs grown cur part (new_dir part mode uid gid now) v h good eq)))

  mkdir_loop-Ends :
      (fs : Fs) (parts : List Bytes) (cur : ℕ)
      → IsValid fs
      → IsPlace fs cur
      → Ends (IsBlocked fs parts cur) IsValid (mkdir_loop now uid gid mode fs parts cur)
  unfolding mkdir_loop
  mkdir_loop-Ends fs [] cur v h = ends v
  mkdir_loop-Ends fs (part ∷ parts) cur v h =
      let (n, found, at_n) = at_lem fs cur v h in
      let good : IsNode (length fs.nodes) (new_dir part mode uid gid now) = record {
        names_differ = tt;
        entries_exist = tt;
        map_of_dir = refl;
      } in
      rw found (elim (Option-cases (find part (children_of n))) [
        | inr (next, e) ↦
            rw (e, ◌>>=◌)
              (Ends-weaken (below n at_n.1 e) (λ _ k. k)
                (mkdir_loop-Ends fs parts next v (find-IsPlace fs n part next at_n.0 e)))
        | inl e ↦
            rw (e, ◌>>=◌)
              (Ends-bind_eq _
                (Ends-weaken here (λ _ k. k)
                  (add-Ends fs cur part (new_dir part mode uid gid now) v h good))
                λ grown eq valid.
                  Ends-weaken (λ q. absurd q) (λ _ k. k)
                    (mkdir_loop-new grown parts (length fs.nodes) part valid
                      (add-new fs grown cur part (new_dir part mode uid gid now) v h good eq)))
      ])

  pub mkdir_all-Ends :
      (fs : Fs) (p : Bytes)
      → IsValid fs
      → Ends (IsBlocked fs (split p) root) IsValid (mkdir_all now uid gid fs p mode)
  unfolding mkdir_all
  mkdir_all-Ends fs p v = mkdir_loop-Ends fs (split p) root v (root-IsPlace ⊥ fs v)
