-- ===== src/Vfs/Attacker.antt =====
-- node/internal/vfs/vfs.go, AttackerFiles: the files that the session left behind.
mod Entries
mod Listed
mod Tests
use honeynet.Base.{
  ℕ, zero, suc, Option, none, some, ◌>>=◌, List, [], ◌∷◌, ◌++◌, Bytes, if◌then◌else◌, get_elem?,
  sort_by,
}
use honeynet.Vfs.{Node, Fs, is_kind_dir, root, children_of}

-- The function literal `walk`, on the levels that are left: what stands below a directory, by the
-- entries of its map. `none` is a walk that needs more levels.
pub files_below :
    (Bytes → Node → Option (List Bytes)) → Fs → Bytes → List (Bytes × ℕ) → Option (List Bytes)
files_below deeper fs prefix [] = some []
files_below deeper fs prefix ((name, i) ∷ es) = do
  c ← get_elem? fs.nodes i
  inside ← if is_kind_dir c.kind then deeper (prefix ++ b'/' ∷ name) c else some []
  rest ← files_below deeper fs prefix es
  some ((if c.attacker_written then (prefix ++ b'/' ∷ name) ∷ inside else inside) ++ rest)

pub files_in : ℕ → Fs → Bytes → Node → Option (List Bytes)
files_in zero fs prefix n = none
files_in (suc left) fs prefix n = files_below (files_in left fs) fs prefix (children_of n)

pub attacker_files : ℕ → Fs → Option (List Bytes)
attacker_files left fs = do
  n ← get_elem? fs.nodes root
  out ← files_in left fs [] n
  some (sort_by (λ p. p) out)
