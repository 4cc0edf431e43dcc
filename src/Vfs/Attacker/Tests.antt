-- ===== src/Vfs/Attacker/Tests.antt =====
-- Runs of the walk on the small file system, and the theorem on it.
use honeynet.Base.{
  ℕ, ◌-◌, ◌≡◌, refl, ◌↔◌, none, some, List, [], ◌∷◌, arith, Bytes, codes, IsIn, sort_by, before,
  sort_into,
}
use honeynet.Vfs.Small.{small, small-IsValid}
use honeynet.Vfs.Attacker.{files_below, files_in, attacker_files}
use honeynet.Vfs.Attacker.Listed.{IsRanked, IsDropping, attacker_files-lists}

droppings : attacker_files 3 small ≡ some (codes "/tmp/x" ∷ [])
unfolding attacker_files files_in files_below sort_by sort_into before
droppings = refl

too_few_levels : attacker_files 1 small ≡ none
unfolding attacker_files files_in files_below sort_by sort_into before
too_few_levels = refl

-- In the small file system every entry stands behind its directory.
abbrev rank : ℕ → ℕ
rank i = 8 - i

attacker_files-lists_example :
    (out : List Bytes) × (attacker_files 9 small ≡ some out)
    × ((p : Bytes) → IsIn p out ↔ IsDropping small p)
attacker_files-lists_example = attacker_files-lists small rank 9 small-IsValid ranked (omega arith)
  where
    ranked : IsRanked small rank 0 small.nodes
    ranked = (
      (omega arith, (omega arith, (omega arith, tt))),
      (
        (omega arith, tt),
        ((omega arith, tt), (tt, (tt, ((omega arith, (omega arith, tt)), (tt, (tt, tt)))))),
      ),
    )
