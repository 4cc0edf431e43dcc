-- ===== src/Vfs/Paths/Tests.antt =====
-- Runs of the path functions, and the theorem on them.
use honeynet.Base.{
  ◌≡◌, refl, true, [], ◌∷◌, codes, equal, has_prefix, trim_prefix, split_on, cons_head,
}
use honeynet.Vfs.Paths.{clean_element, clean_elements, path_clean, path_join, clean, split}
use honeynet.Vfs.Paths.Canonical.{IsCanonical, clean-IsCanonical}
use honeynet.Vfs.Paths.Proper.{lacks, are_proper, are_proper-IsElement}

-- No way leads above the root.
above_root : clean (codes "/home/me") (codes "../../../etc/./passwd") ≡ codes "/etc/passwd"
unfolding clean path_join path_clean clean_elements clean_element split_on equal has_prefix
    cons_head
above_root = refl

elements : split (codes "//var/../tmp/x/") ≡ codes "tmp" ∷ codes "x" ∷ []
unfolding split path_clean clean_elements clean_element split_on equal has_prefix trim_prefix
    cons_head
elements = refl

good : are_proper (codes "home" ∷ codes "me" ∷ []) ≡ true
unfolding are_proper lacks equal
good = refl

clean-IsCanonical_example :
    IsCanonical (clean (codes "/home/me") (codes "../x//y"))
    × (clean (codes "/") (clean (codes "/home/me") (codes "../x//y"))
        ≡ clean (codes "/home/me") (codes "../x//y"))
clean-IsCanonical_example = clean-IsCanonical (codes "/home/me") (codes "../x//y") (codes "/") (
  codes "home" ∷ codes "me" ∷ [],
  are_proper-IsElement (codes "home" ∷ codes "me" ∷ []) good,
  refl,
)
