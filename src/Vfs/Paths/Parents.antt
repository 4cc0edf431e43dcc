-- ===== src/Vfs/Paths/Parents.antt =====
-- The directory and the last element of a canonical path.
use mathlib.Core.List.{reverse, reverse-reverse}
use honeynet.Base.{
  ◌≡◌, ◌≢◌, refl, sym, ap, ◌∙◌, Bool, true, List, [], ◌∷◌, ◌++◌, append-nil, if◌then◌else◌, All,
  All-append, Bytes, codes, has_prefix, is_empty, split_on, join, Lacks, split_on-join,
}
use honeynet.Vfs.Paths.{
  clean_element, clean_elements, render, path_clean, init, last, path_dir, last_filled, path_base,
}
use honeynet.Vfs.Paths.Canonical.{
  IsElement, clean_elements-IsElement, elements-Lacks, split_on-render,
}

All-init : (parts : List Bytes) → All IsElement parts → All IsElement (init parts)
unfolding init
All-init [] h = tt
All-init (e ∷ []) h = tt
All-init (e ∷ f ∷ parts) h = (h.0, All-init (f ∷ parts) h.1)

clean_elements-append :
    (rooted : Bool) (kept es fs : List Bytes)
    → clean_elements rooted kept (es ++ fs)
      ≡ clean_elements rooted (clean_elements rooted kept es) fs
unfolding clean_elements
clean_elements-append rooted kept [] fs = refl
clean_elements-append rooted kept (e ∷ es) fs =
    clean_elements-append rooted (clean_element rooted kept e) es fs

clean_element-empty : (rooted : Bool) (kept : List Bytes) → clean_element rooted kept [] ≡ kept
unfolding clean_element
clean_element-empty rooted [] = refl
clean_element-empty rooted (top ∷ kept) = refl

clean_elements-empty_ends :
    (parts : List Bytes)
    → clean_elements true [] ([] ∷ parts ++ [] ∷ []) ≡ clean_elements true [] parts
unfolding clean_elements
clean_elements-empty_ends parts =
    clean_elements-append true [] ([] ∷ parts) ([] ∷ [])
    ∙ clean_element-empty true (clean_elements true (clean_element true [] []) parts)
    ∙ ap (λ k. clean_elements true k parts) (clean_element-empty true [])

-- A slash behind the elements is dropped.
path_clean-slash :
    (parts : List Bytes)
    → All IsElement parts
    → path_clean (join b'/' ([] ∷ parts ++ [] ∷ [])) ≡ render parts
unfolding path_clean
path_clean-slash parts h =
    rooted_first parts
    ∙ ap (λ es. render (reverse es))
        (ap (clean_elements true []) (cut parts h)
          ∙ clean_elements-empty_ends parts
          ∙ clean_elements-IsElement true [] parts h
          ∙ append-nil (reverse parts))
    ∙ ap render (reverse-reverse parts)
  where
    rooted_first :
        (ps : List Bytes)
        → path_clean (join b'/' ([] ∷ ps ++ [] ∷ []))
          ≡ render
              (reverse (clean_elements true [] (split_on b'/' (join b'/' ([] ∷ ps ++ [] ∷ [])))))
    rooted_first [] = unfold has_prefix in refl
    rooted_first (e ∷ ps) = unfold has_prefix in refl

    cut :
        (ps : List Bytes)
        → All IsElement ps
        → split_on b'/' (join b'/' ([] ∷ ps ++ [] ∷ [])) ≡ [] ∷ ps ++ [] ∷ []
    cut ps l =
        split_on-join b'/' [] (ps ++ [] ∷ [])
          (tt, All-append (Lacks b'/') ps ([] ∷ []) (elements-Lacks ps l) (tt, tt))

-- The directory of a canonical path, and its last element.
pub path_dir-render :
    (parts : List Bytes) → All IsElement parts → path_dir (render parts) ≡ render (init parts)
unfolding path_dir
path_dir-render [] h =
    unfold split_on init path_clean has_prefix clean_elements clean_element in refl
path_dir-render (e ∷ parts) h =
    ap (λ es. path_clean (join b'/' (init es ++ [] ∷ []))) (split_on-render e parts h)
    ∙ unfold init in path_clean-slash (init (e ∷ parts)) (All-init (e ∷ parts) h)

last-ne-nil : (f : Bytes) (ps : List Bytes) → All IsElement (f ∷ ps) → last (f ∷ ps) ≢ []
unfolding last
last-ne-nil f [] l = l.0.0
last-ne-nil f (g ∷ ps) l = last-ne-nil g ps l.1

last_filled-last :
    (e : Bytes) (parts : List Bytes)
    → All IsElement (e ∷ parts)
    → last_filled (e ∷ parts) ≡ last (e ∷ parts)
unfolding last_filled last
last_filled-last e [] h = refl
last_filled-last e ([] ∷ parts) h = absurd (h.1.0.0 refl)
last_filled-last e ((c ∷ f) ∷ parts) h =
    ap (λ r. if is_empty r then e else r) (last_filled-last (c ∷ f) parts h.1)
    ∙ kept (last ((c ∷ f) ∷ parts)) (last-ne-nil (c ∷ f) parts h.1)
  where
    kept : (r : Bytes) → r ≢ [] → (if is_empty r then e else r) ≡ r
    kept [] p = absurd (p refl)
    kept (x ∷ r) p = refl

pub path_base-render :
    (e : Bytes) (parts : List Bytes)
    → All IsElement (e ∷ parts)
    → path_base (render (e ∷ parts)) ≡ last (e ∷ parts)
unfolding path_base
path_base-render e parts h =
    ap (λ es. let name = last_filled es in if is_empty name then codes "/" else name)
      (split_on-render e parts h)
    ∙ unfold last_filled in named (last_filled (e ∷ parts)) (last_filled-last e parts h)
  where
    named :
        (n : Bytes)
        → n ≡ last (e ∷ parts)
        → (if is_empty (if is_empty n then [] else n)
            then codes "/"
            else if is_empty n
            then []
            else n)
          ≡ last (e ∷ parts)
    named [] p = absurd (last-ne-nil e parts h (sym p))
    named (x ∷ n) p = p

pub init-append : (parts : List Bytes) (name : Bytes) → init (parts ++ name ∷ []) ≡ parts
unfolding init
init-append [] name = refl
init-append (e ∷ []) name = refl
init-append (e ∷ f ∷ parts) name = ap (◌∷◌ e) (init-append (f ∷ parts) name)

last-append : (parts : List Bytes) (name : Bytes) → last (parts ++ name ∷ []) ≡ name
unfolding last
last-append [] name = refl
last-append (e ∷ []) name = refl
last-append (e ∷ f ∷ parts) name = last-append (f ∷ parts) name

pub path_base-append :
    (parts : List Bytes) (name : Bytes)
    → All IsElement (parts ++ name ∷ [])
    → path_base (render (parts ++ name ∷ [])) ≡ name
path_base-append [] name h = path_base-render name [] h ∙ last-append [] name
path_base-append (e ∷ parts) name h =
    path_base-render e (parts ++ name ∷ []) h ∙ last-append (e ∷ parts) name
