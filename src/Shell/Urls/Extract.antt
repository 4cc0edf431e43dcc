-- ===== src/Shell/Urls/Extract.antt =====
-- `ExtractURLs` on ASCII arguments: it ends without a panic, and what it finds is what it says.
use honeynet.Base.{
  ◌≡◌, refl, false, ◌⊎◌, inl, inr, Bool-cases, some, List, [], ◌∷◌, ◌++◌, arith, Returns, returns,
  Returns-bind, Returns-some, All, All-append, Bytes, IsAscii, equal, equal_iff,
}
use honeynet.Shell.Urls.{
  is_url_terminator, schemes, scan_fuel, scan_schemes, was_seen, add_new, url_candidates,
  extract_loop, extract_urls,
}
use honeynet.Shell.Urls.Found.{lowered, IsUrl, length-lowered}
use honeynet.Shell.Urls.Ends.{IsScheme, scan_scheme-Returns}

-- A reference by one of the schemes.
abbrev pub IsLink : List Bytes → Bytes → Type 0
IsLink [] url = ⊥
IsLink (scheme ∷ more) url = IsUrl scheme url ⊎ IsLink more url

module _ {A : Type 0} {P Q : A → Type 0} (f : (a : A) → P a → Q a) where
  All-weaken : (xs : List A) → All P xs → All Q xs
  All-weaken [] h = tt
  All-weaken (x ∷ xs) h = (f x h.0, All-weaken xs h.1)

scan_schemes-Returns :
    (ss : List Bytes) (s : Bytes)
    → All IsScheme ss
    → Returns (All (IsLink ss)) (scan_schemes ss s (lowered s))
unfolding scan_schemes
scan_schemes-Returns [] s h = returns tt
scan_schemes-Returns (scheme ∷ ss) s h =
    Returns-bind _
      (scan_scheme-Returns scheme h.0 (scan_fuel (lowered s)) s 0 (omega arith)
        (omega (arith, length-lowered s)))
      λ urls p. Returns-bind _ (scan_schemes-Returns ss s h.1) λ rest q. returns (
        All-append (IsLink (scheme ∷ ss)) urls rest (All-weaken (λ _ u. inl u) urls p)
          (All-weaken (λ _ u. inr u) rest q))

schemes-IsScheme : All IsScheme schemes
unfolding is_url_terminator
schemes-IsScheme = ground arith

-- No element stands behind itself.
abbrev pub AreDistinct : List Bytes → Type 0
AreDistinct [] = Unit
AreDistinct (x ∷ xs) = (was_seen x xs ≡ false) × AreDistinct xs

was_seen-snoc :
    (x y : Bytes) (xs : List Bytes)
    → was_seen x xs ≡ false
    → equal y x ≡ false
    → was_seen x (xs ++ y ∷ []) ≡ false
unfolding was_seen
was_seen-snoc x y [] h k = ground (arith, equal_iff x y, equal_iff y x, k)
was_seen-snoc x y (z ∷ xs) h k = ground (arith, was_seen-snoc x y xs, k)

AreDistinct-snoc :
    (xs : List Bytes) (y : Bytes)
    → AreDistinct xs
    → was_seen y xs ≡ false
    → AreDistinct (xs ++ y ∷ [])
unfolding was_seen
AreDistinct-snoc [] y d h = (refl, tt)
AreDistinct-snoc (x ∷ xs) y d h =
    let first : equal y x ≡ false = ground arith in
    let rest : was_seen y xs ≡ false = ground arith in
    (was_seen-snoc x y xs d.0 first, AreDistinct-snoc xs y d.1 rest)

-- What the result keeps to while it grows.
abbrev IsResult : List Bytes → Type 0
IsResult urls = All (IsLink schemes) urls × AreDistinct urls

add_new-IsResult :
    (cands urls : List Bytes)
    → All (IsLink schemes) cands
    → IsResult urls
    → IsResult (add_new cands urls)
unfolding add_new
add_new-IsResult [] urls h r = r
add_new-IsResult (cand ∷ cands) urls h r = elim (Bool-cases (was_seen cand urls)) [
  | inl known ↦ rw known (add_new-IsResult cands urls h.1 r)
  | inr fresh ↦ rw fresh (
      add_new-IsResult cands (urls ++ cand ∷ []) h.1 (
        All-append (IsLink schemes) urls (cand ∷ []) r.0 (h.0, tt),
        AreDistinct-snoc urls cand r.1 fresh,
      ))
]

module _ (to_lower : Bytes → Bytes)
    (lower_ascii : (s : Bytes) → All IsAscii s → to_lower s ≡ lowered s) where
  extract_loop-Returns :
      (argv urls : List Bytes)
      → All (All IsAscii) argv
      → IsResult urls
      → Returns IsResult (extract_loop to_lower argv urls)
  unfolding extract_loop url_candidates
  extract_loop-Returns [] urls ascii r = returns r
  extract_loop-Returns (a ∷ argv) urls ascii r = rw (lower_ascii a ascii.0) (
      Returns-bind _ (scan_schemes-Returns schemes a schemes-IsScheme) λ cands h.
        extract_loop-Returns argv (add_new cands urls) ascii.1 (add_new-IsResult cands urls h r))

  -- Where ToLower maps ASCII text a byte at a time, ExtractURLs on ASCII arguments returns (no slice
  -- is out of range, and its loops end) references without a terminator, each with one of the four
  -- schemes in front in either case, and none twice.
  pub extract_urls-Returns :
      (argv : List Bytes)
      → All (All IsAscii) argv
      → (urls : List Bytes) × (extract_urls to_lower argv ≡ some urls)
        × (All (IsLink schemes) urls × AreDistinct urls)
  unfolding extract_urls
  extract_urls-Returns argv ascii = Returns-some (extract_loop-Returns argv [] ascii (tt, tt))
