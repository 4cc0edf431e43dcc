-- ===== src/Vfs/Paths/Proper.antt =====
-- A test for proper elements, by which the theorems on paths apply to given ones.
use honeynet.Base.{
  ℕ, ◌≡◌, ap, Bool, true, not, ◌&&◌, List, [], ◌∷◌, arith, ◌==◌, All, Bytes, codes, equal,
  equal_iff, is_empty, Lacks,
}
use honeynet.Vfs.Paths.Canonical.{IsElement}

unfoldable pub lacks : ℕ → Bytes → Bool
lacks sep [] = true
lacks sep (c ∷ s) = not (c == sep) && lacks sep s

lacks-Lacks : (sep : ℕ) (s : Bytes) → lacks sep s ≡ true → Lacks sep s
unfolding lacks
lacks-Lacks sep [] h = tt
lacks-Lacks sep (c ∷ s) h = ((λ e. absurd (ground arith)), lacks-Lacks sep s (ground arith))

unfoldable pub are_proper : List Bytes → Bool
are_proper [] = true
are_proper (e ∷ es) =
    not (is_empty e)
    && not (equal e (codes "."))
    && not (equal e (codes ".."))
    && lacks b'/' e
    && are_proper es

pub are_proper-IsElement : (es : List Bytes) → are_proper es ≡ true → All IsElement es
unfolding are_proper
are_proper-IsElement [] h = tt
are_proper-IsElement (e ∷ es) h = (
  (
    (λ q. absurd (ground (arith, ap is_empty q))),
    (λ q. absurd (ground (arith, (equal_iff e (codes ".")).1 q))),
    (λ q. absurd (ground (arith, (equal_iff e (codes "..")).1 q))),
    lacks-Lacks b'/' e (ground arith),
  ),
  are_proper-IsElement es (ground arith),
)
