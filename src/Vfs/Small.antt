-- ===== src/Vfs/Small.antt =====
-- A small file system for the tests: a file in /tmp that the attacker wrote, and a link in /bin.
use honeynet.Base.{ℕ, refl, true, some, List, [], ◌∷◌, arith, Bytes, codes, equal, find}
use honeynet.Vfs.{Node, Fs, new_dir, new_file, new_symlink}
use honeynet.Vfs.Valid.{IsValid}

abbrev pub holding : List (Bytes × ℕ) → Node → Node
holding es n = record n { children = some es }

abbrev pub small : Fs
small = record {
  nodes =
      holding ((codes "tmp", 1) ∷ (codes "etc", 2) ∷ (codes "bin", 5) ∷ [])
        (new_dir (codes "/") 0x1ed 0 0 7)
      ∷ holding ((codes "x", 4) ∷ []) (new_dir (codes "tmp") 0x3ff 0 0 7)
      ∷ holding ((codes "passwd", 3) ∷ []) (new_dir (codes "etc") 0x1ed 0 0 7)
      ∷ new_file (codes "passwd") 0x1a4 0 0 7 (codes "root:x")
      ∷ (record (new_file (codes "x") 0x1a4 1000 1000 9 (codes "hi")) { attacker_written = true })
      ∷ holding ((codes "dash", 6) ∷ (codes "sh", 7) ∷ []) (new_dir (codes "bin") 0x1ed 0 0 7)
      ∷ new_file (codes "dash") 0x1ed 0 0 7 (codes "ELF")
      ∷ new_symlink (codes "sh") (codes "dash") 7
      ∷ [];
  written = 2;
}

pub small-IsValid : IsValid small
unfolding find equal
small-IsValid = record {
  nodes_valid = (
    record {
      names_differ = (refl, (refl, (refl, tt)));
      entries_exist = (omega arith, (omega arith, (omega arith, tt)));
      map_of_dir = refl;
    },
    (
      record { names_differ = (refl, tt); entries_exist = (omega arith, tt); map_of_dir = refl },
      (
        record { names_differ = (refl, tt); entries_exist = (omega arith, tt); map_of_dir = refl },
        (
          record { names_differ = tt; entries_exist = tt; map_of_dir = refl },
          (
            record { names_differ = tt; entries_exist = tt; map_of_dir = refl },
            (
              record {
                names_differ = (refl, (refl, tt));
                entries_exist = (omega arith, (omega arith, tt));
                map_of_dir = refl;
              },
              (
                record { names_differ = tt; entries_exist = tt; map_of_dir = refl },
                (record { names_differ = tt; entries_exist = tt; map_of_dir = refl }, tt),
              ),
            ),
          ),
        ),
      ),
    ),
  );
  root_dir = (
    holding ((codes "tmp", 1) ∷ (codes "etc", 2) ∷ (codes "bin", 5) ∷ [])
        (new_dir (codes "/") 0x1ed 0 0 7),
    refl,
    refl,
  );
  within_quota = omega arith;
}
