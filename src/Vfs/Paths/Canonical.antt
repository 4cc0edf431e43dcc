-- ===== src/Vfs/Paths/Canonical.antt =====
-- What Clean and split make of a path: a rooted path of proper elements, without a way above the root.
use mathlib.Core.List.{reverse, reverse-reverse, reverse-append}
use mathlib.Core.Path.{subst}
use honeynet.Base.{
  ℕ, ◌≡◌, ◌≢◌, refl, sym, ap, ◌∙◌, Bool, true, inl, inr, Bool-cases, List, [], ◌∷◌, ◌++◌,
  append-nil, append_assoc, arith, if◌then◌else◌, All, All-append, Bytes, codes, equal, equal_iff,
  has_prefix, trim_prefix, split_on, join, Lacks, split_on-join, split_on-Lacks,
}
use honeynet.Vfs.Paths.{
  clean_element, clean_elements, is_rooted, render, path_clean, path_join, clean, split,
}

-- A proper element: not empty, not "." or "..", and without a slash.
abbrev pub IsElement : Bytes → Type 0
IsElement e = (e ≢ []) × (e ≢ codes ".") × (e ≢ codes "..") × Lacks b'/' e

-- A path that is "/" and proper elements with slashes between them.
abbrev pub IsCanonical : Bytes → Type 0
IsCanonical p = (parts : List Bytes) × All IsElement parts × (p ≡ render parts)

-- Proper elements are kept as they are.
pub clean_element-IsElement :
    (rooted : Bool) (kept : List Bytes) (e : Bytes)
    → IsElement e
    → clean_element rooted kept e ≡ e ∷ kept
unfolding clean_element
clean_element-IsElement rooted [] [] h = absurd (h.0 refl)
clean_element-IsElement rooted [] (c ∷ e) h =
    ground (arith, equal_iff (c ∷ e) (codes "."), equal_iff (c ∷ e) (codes ".."), h.1, h.2)
clean_element-IsElement rooted (top ∷ kept) [] h = absurd (h.0 refl)
clean_element-IsElement rooted (top ∷ kept) (c ∷ e) h =
    ground (arith, equal_iff (c ∷ e) (codes "."), equal_iff (c ∷ e) (codes ".."), h.1, h.2)

pub clean_elements-IsElement :
    (rooted : Bool) (kept es : List Bytes)
    → All IsElement es
    → clean_elements rooted kept es ≡ reverse es ++ kept
unfolding clean_elements
clean_elements-IsElement rooted kept [] h = refl
clean_elements-IsElement rooted kept (e ∷ es) h = rw (clean_element-IsElement rooted kept e h.0) (
    clean_elements-IsElement rooted (e ∷ kept) es h.1
    ∙ sym (append_assoc (reverse es) (e ∷ []) kept)
    ∙ ap (λ k. k ++ kept) (sym (reverse-append (e ∷ []) es)))

-- Below the root only proper elements are kept.
clean_element-rooted :
    (kept : List Bytes) (e : Bytes)
    → All IsElement kept
    → Lacks b'/' e
    → All IsElement (clean_element true kept e)
unfolding clean_element
clean_element-rooted [] e h l = ground (arith, equal_iff e (codes "."), equal_iff e (codes ".."))
clean_element-rooted (top ∷ kept) e h l =
    ground
      (arith, equal_iff e (codes "."), equal_iff e (codes ".."), equal_iff top (codes ".."), h.0)

clean_elements-rooted :
    (kept es : List Bytes)
    → All IsElement kept
    → All (Lacks b'/') es
    → All IsElement (clean_elements true kept es)
unfolding clean_elements
clean_elements-rooted kept [] h l = h
clean_elements-rooted kept (e ∷ es) h l =
    clean_elements-rooted (clean_element true kept e) es (clean_element-rooted kept e h l.0) l.1

All-reverse : (es : List Bytes) → All IsElement es → All IsElement (reverse es)
All-reverse [] h = tt
All-reverse (e ∷ es) h =
    subst (All IsElement) (sym (reverse-append (e ∷ []) es))
      (All-append IsElement (reverse es) (e ∷ []) (All-reverse es h.1) (h.0, tt))

-- A rooted path is cleaned to a canonical one.
pub path_clean-rooted : (p : Bytes) → IsCanonical (path_clean (b'/' ∷ p))
unfolding path_clean
path_clean-rooted p =
    unfold has_prefix in
    let kept = clean_elements true [] (split_on b'/' (b'/' ∷ p)) in
    (
      reverse kept,
      All-reverse kept
          (clean_elements-rooted [] (split_on b'/' (b'/' ∷ p)) tt (split_on-Lacks b'/' (b'/' ∷ p))),
      refl,
    )

pub elements-Lacks : (parts : List Bytes) → All IsElement parts → All (Lacks b'/') parts
elements-Lacks [] h = tt
elements-Lacks (e ∷ parts) h = (h.0.3, elements-Lacks parts h.1)

-- The elements of a canonical path, with the empty ones that its slashes make.
pub split_on-render :
    (e : Bytes) (parts : List Bytes)
    → All IsElement (e ∷ parts)
    → split_on b'/' (render (e ∷ parts)) ≡ [] ∷ e ∷ parts
split_on-render e parts h =
    unfold split_on in ap (◌∷◌ []) (split_on-join b'/' e parts (elements-Lacks (e ∷ parts) h))

pub path_clean-render :
    (parts : List Bytes) → All IsElement parts → path_clean (render parts) ≡ render parts
unfolding path_clean
path_clean-render [] h = unfold has_prefix split_on clean_elements clean_element equal in refl
path_clean-render (e ∷ parts) h =
    unfold has_prefix in
    ap (λ es. render (reverse es))
      (ap (clean_elements true []) (split_on-render e parts h)
        ∙ skip_empty
        ∙ clean_elements-IsElement true [] (e ∷ parts) h
        ∙ append-nil (reverse (e ∷ parts)))
    ∙ ap render (reverse-reverse (e ∷ parts))
  where
    skip_empty : clean_elements true [] ([] ∷ e ∷ parts) ≡ clean_elements true [] (e ∷ parts)
    skip_empty = unfold clean_elements clean_element in refl

-- A canonical path is its elements.
pub split-render : (parts : List Bytes) → All IsElement parts → split (render parts) ≡ parts
unfolding split
split-render [] h = unfold path_clean has_prefix split_on clean_elements clean_element equal in refl
split-render ([] ∷ parts) h = absurd (h.0.0 refl)
split-render ((c ∷ e) ∷ []) h = rw (path_clean-render ((c ∷ e) ∷ []) h) (
    unfold trim_prefix has_prefix equal in
    split_on-join b'/' (c ∷ e) [] (elements-Lacks ((c ∷ e) ∷ []) h))
split-render ((c ∷ e) ∷ f ∷ parts) h = rw (path_clean-render ((c ∷ e) ∷ f ∷ parts) h) (
    unfold trim_prefix has_prefix equal in
    split_on-join b'/' (c ∷ e) (f ∷ parts) (elements-Lacks ((c ∷ e) ∷ f ∷ parts) h))

pub clean-render :
    (cwd : Bytes) (parts : List Bytes)
    → All IsElement parts
    → clean cwd (render parts) ≡ render parts
unfolding clean has_prefix
clean-render cwd parts h = ap (λ q. if is_rooted q then q else b'/' ∷ q) (path_clean-render parts h)

rooted_again : (q : Bytes) → IsCanonical q → IsCanonical (if is_rooted q then q else b'/' ∷ q)
unfolding has_prefix
rooted_again q (parts, h, e) =
    subst (λ q. IsCanonical (if is_rooted q then q else b'/' ∷ q)) (sym e) (parts, h, refl)

path_clean-path_join :
    (cwd p : Bytes) → IsCanonical cwd → p ≢ [] → IsCanonical (path_clean (path_join cwd p))
unfolding path_join
path_clean-path_join cwd [] h filled = absurd (filled refl)
path_clean-path_join cwd (c ∷ p) (parts, h, e) filled =
    let joined = path_clean-rooted (join b'/' parts ++ b'/' ∷ c ∷ p) in
    subst (λ q. IsCanonical (path_clean (path_join q (c ∷ p)))) (sym e)
      (subst (λ q. IsCanonical (path_clean q)) (sym joined.2)
        (joined.0, joined.1, path_clean-render joined.0 joined.1))

is_rooted-eq : (c : ℕ) (p : Bytes) → is_rooted (c ∷ p) ≡ true → b'/' ≡ c
unfolding has_prefix
is_rooted-eq c p h = ground arith

clean-IsCanonical_once : (cwd p : Bytes) → IsCanonical cwd → IsCanonical (clean cwd p)
unfolding clean
clean-IsCanonical_once cwd [] h = h
clean-IsCanonical_once cwd (c ∷ p) h = elim (Bool-cases (is_rooted (c ∷ p))) [
  | inl rooted ↦ rw rooted (
      rooted_again (path_clean (c ∷ p)) (
        subst (λ c. IsCanonical (path_clean (c ∷ p))) (is_rooted-eq c p rooted)
          (path_clean-rooted p)))
  | inr relative ↦ rw relative (
      rooted_again (path_clean (path_join cwd (c ∷ p)))
        (path_clean-path_join cwd (c ∷ p) h (λ e. cc)))
]

-- Whatever the argument, `Clean` against a canonical directory gives a canonical path, one below
-- the root, and cleaning that once more, against any directory, changes nothing.
pub clean-IsCanonical :
    (cwd p other : Bytes)
    → IsCanonical cwd
    → IsCanonical (clean cwd p) × (clean other (clean cwd p) ≡ clean cwd p)
clean-IsCanonical cwd p other h =
    let (parts, good, e) = clean-IsCanonical_once cwd p h in
    ((parts, good, e), subst (λ q. clean other q ≡ q) (sym e) (clean-render other parts good))
