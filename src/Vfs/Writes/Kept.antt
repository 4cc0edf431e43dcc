-- ===== src/Vfs/Writes/Kept.antt =====
-- Every operation keeps the file system valid, and most of them cannot panic.
use honeynet.Base.{
  ℕ, ◌+◌, ◌<◌, ◌≡◌, refl, sym, ap, ◌∙◌, Bool, true, false, not, ◌&&◌, inl, inr, Option-cases, some,
  [], ◌++◌, arith, ltb→le, length, get_elem?, Bytes, codes, equal, is_empty, find, AllValues-find,
}
use honeynet.Vfs.Paths.{path_dir, path_base}
use honeynet.Vfs.{
  Error, max_write_bytes, Node, Fs, Result, ok, err, panic, ◌>>=◌, is_kind_dir, new_dir, new_file,
  at, write_node, children_of, lookup,
}
use honeynet.Vfs.Writes.{
  names_dir, exceeds, write_file, extend, append_file, mkdir, touch, remove, chmod,
}
use honeynet.Vfs.Ends.{Ends, ends, fails, panics, Ends-bind, Ends-if, Ends-weaken}
use honeynet.Vfs.Valid.{IsNode, IsValid, IsPlace, at-Ends, lookup-Ends}
use honeynet.Vfs.Changes.{write_node-IsValid, IsNoDir, unlink-Ends, add-Ends}

-- What is found under a name.
pub find-IsPlace :
    (fs : Fs) (n : Node) (name : Bytes) (i : ℕ)
    → IsNode (length fs.nodes) n
    → find name (children_of n) ≡ some i
    → IsPlace fs i
find-IsPlace fs n name i h e =
    AllValues-find (λ j. j < length fs.nodes) name (children_of n) h.entries_exist e

-- A directory is not no directory.
pub clash :
    (fs : Fs) (i : ℕ) (n : Node)
    → get_elem? fs.nodes i ≡ some n
    → is_kind_dir n.kind ≡ true
    → IsNoDir fs i
    → ⊥
clash fs i n e d (m, f, k) =
    let same : n ≡ m = cc in
    let both : true ≡ false = sym d ∙ ap (λ x. is_kind_dir x.kind) same ∙ k in
    elim (true-ne-false both) [ ]
  where
    true-ne-false : true ≡ false → ⊥
    true-ne-false p = absurd (ground arith)

counted :
    (fs : Fs) (content : Bytes)
    → IsValid fs
    → exceeds fs content ≡ false
    → IsValid (record fs { written = fs.written + length content })
counted fs content v fits = record {
  nodes_valid = v.nodes_valid;
  root_dir = v.root_dir;
  within_quota = ltb→le max_write_bytes (fs.written + length content) fits;
}

names_dir-Ends :
    (fs : Fs) (n : Node) (name : Bytes)
    → IsValid fs
    → IsNode (length fs.nodes) n
    → Ends ⊥ (λ _. Unit {0}) (names_dir fs n name)
unfolding names_dir
names_dir-Ends fs n name v h = elim (Option-cases (find name (children_of n))) [
  | inl e ↦ rw (e, names_dir) (ends tt)
  | inr (i, e) ↦
      rw (e, names_dir)
        (Ends-bind _ (at-Ends ⊥ fs v i (find-IsPlace fs n name i h e)) λ m _. ends tt)
]

module _ (now uid gid : ℕ) (fs : Fs) (v : IsValid fs) where
  pub write_file-Ends :
      (p content : Bytes) (mode : ℕ) → Ends ⊥ IsValid (write_file now uid gid fs p content mode)
  unfolding write_file
  write_file-Ends p content mode =
      Ends-if (exceeds fs content) (λ _. fails Error.quota_reached)
        λ fits. Ends-bind _ (lookup-Ends ⊥ fs v (path_dir p) true) λ parent h.
          Ends-bind _ (at-Ends ⊥ fs v parent h) λ pn here.
            Ends-if (not (is_kind_dir pn.kind)) (λ _. fails Error.not_dir)
              λ is_dir. Ends-bind _ (names_dir-Ends fs pn (path_base p) v here.0) λ taken _.
                Ends-if taken (λ _. fails Error.is_dir)
                  λ _.
                    Ends-weaken (clash fs parent pn here.1 (ground arith)) (λ _ k. k)
                      (add-Ends (record fs { written = fs.written + length content }) parent
                        (path_base p)
                        (record (new_file (path_base p) mode uid gid now content) {
                          attacker_written = true;
                        })
                        (counted fs content v fits) h
                        (record { names_differ = tt; entries_exist = tt; map_of_dir = refl }))

  pub extend-Ends :
      (i : ℕ) (content : Bytes) → IsPlace fs i → Ends ⊥ IsValid (extend now uid gid fs i content)
  unfolding extend
  extend-Ends i content h = Ends-bind _ (at-Ends ⊥ fs v i h) λ n here.
      Ends-if (is_kind_dir n.kind) (λ _. fails Error.is_dir)
        λ _.
          Ends-if (exceeds fs content) (λ _. fails Error.quota_reached)
            λ fits. ends (
              write_node-IsValid (record fs { written = fs.written + length content }) i
                (record n {
                  content = n.content ++ content;
                  mod_time = now;
                  attacker_written = true;
                })
                n (counted fs content v fits) here.1
                (record {
                  names_differ = here.0.names_differ;
                  entries_exist = here.0.entries_exist;
                  map_of_dir = here.0.map_of_dir;
                })
                refl)

  pub append_file-Ends : (p content : Bytes) → Ends ⊥ IsValid (append_file now uid gid fs p content)
  unfolding append_file
  append_file-Ends p content = found (lookup fs p true) (lookup-Ends ⊥ fs v p true)
    where
      found :
          (r : Result ℕ)
          → Ends ⊥ (IsPlace fs) r
          → Ends ⊥ IsValid (elim r [
            | ok i ↦ extend now uid gid fs i content
            | err e ↦ write_file now uid gid fs p content 0x1a4
            | panic ↦ panic
          ])
      found (ok i) (ends h) = extend-Ends i content h
      found (err e) (fails _) = write_file-Ends p content 0x1a4
      found panic (panics q) = panics q

  pub mkdir-Ends : (p : Bytes) (mode : ℕ) → Ends ⊥ IsValid (mkdir now uid gid fs p mode)
  unfolding mkdir
  mkdir-Ends p mode = Ends-bind _ (lookup-Ends ⊥ fs v (path_dir p) true) λ parent h.
      Ends-bind _ (at-Ends ⊥ fs v parent h) λ pn here.
        Ends-if (not (is_kind_dir pn.kind)) (λ _. fails Error.not_dir)
          λ is_dir. elim (Option-cases (find (path_base p) (children_of pn))) [
            | inr (i, e) ↦ rw (e, mkdir) (fails Error.exists)
            | inl e ↦
                rw (e, mkdir)
                  (Ends-weaken (clash fs parent pn here.1 (ground arith)) (λ _ k. k)
                    (add-Ends fs parent (path_base p)
                      (record (new_dir (path_base p) mode uid gid now) { attacker_written = true })
                      v h (record { names_differ = tt; entries_exist = tt; map_of_dir = refl })))
          ]

  pub touch-Ends : (p : Bytes) → Ends ⊥ IsValid (touch now uid gid fs p)
  unfolding touch
  touch-Ends p = found (lookup fs p true) (lookup-Ends ⊥ fs v p true)
    where
      found :
          (r : Result ℕ)
          → Ends ⊥ (IsPlace fs) r
          → Ends ⊥ IsValid (elim r [
            | ok i ↦ at fs i >>= λ n. ok (write_node fs i (record n { mod_time = now }))
            | err e ↦ write_file now uid gid fs p [] 0x1a4
            | panic ↦ panic
          ])
      found (ok i) (ends h) = Ends-bind _ (at-Ends ⊥ fs v i h) λ n here. ends (
          write_node-IsValid fs i (record n { mod_time = now }) n v here.1
            (record {
              names_differ = here.0.names_differ;
              entries_exist = here.0.entries_exist;
              map_of_dir = here.0.map_of_dir;
            })
            refl)
      found (err e) (fails _) = write_file-Ends p [] 0x1a4
      found panic (panics q) = panics q

module _ (fs : Fs) (v : IsValid fs) where
  pub remove-Ends : (p : Bytes) (recursive : Bool) → Ends ⊥ IsValid (remove fs p recursive)
  unfolding remove
  remove-Ends p recursive =
      Ends-if (equal p (codes "/")) (λ _. fails Error.permission)
        λ _. Ends-bind _ (lookup-Ends ⊥ fs v (path_dir p) true) λ parent h.
          Ends-bind _ (at-Ends ⊥ fs v parent h) λ pn here.
            elim (Option-cases (find (path_base p) (children_of pn))) [
              | inl e ↦ rw (e, remove) (fails Error.not_found)
              | inr (i, e) ↦
                  rw (e, remove)
                    (Ends-bind _ (at-Ends ⊥ fs v i (find-IsPlace fs pn (path_base p) i here.0 e))
                      λ n _.
                        Ends-if
                          (is_kind_dir n.kind && not (is_empty (children_of n)) && not recursive)
                          (λ _. fails Error.not_empty)
                          (λ _.
                            Ends-weaken (λ q. q) (λ _ k. k.0)
                              (unlink-Ends ⊥ fs parent (path_base p) v h)))
            ]

  pub chmod-Ends : (p : Bytes) (mode : ℕ) → Ends ⊥ IsValid (chmod fs p mode)
  unfolding chmod
  chmod-Ends p mode = Ends-bind _ (lookup-Ends ⊥ fs v p true) λ i h.
      Ends-bind _ (at-Ends ⊥ fs v i h) λ n here. ends (
        write_node-IsValid fs i (record n { mode = mode; attacker_written = true }) n v here.1
          (record {
            names_differ = here.0.names_differ;
            entries_exist = here.0.entries_exist;
            map_of_dir = here.0.map_of_dir;
          })
          refl)
