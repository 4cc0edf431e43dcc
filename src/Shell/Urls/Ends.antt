-- ===== src/Shell/Urls/Ends.antt =====
-- The loop over the occurrences of one scheme in an ASCII argument ends without a panic.
use honeynet.Base.{
  ℕ, zero, suc, ◌+◌, ◌-◌, ◌≤◌, ◌<◌, ◌≡◌, sym, ap, ◌∙◌, Bool, true, false, inl, inr, Option-cases,
  some, arith, ltb, leb, if◌then◌else◌, ◌>>=◌, Returns, returns, Returns-bind, Returns-if, length,
  take, drop, take_all, length-drop, length-take, slice, slice_lem, get_elem?_lem, All, Bytes,
  has_prefix,
}
use honeynet.Shell.Urls.{index, run, url_end, is_preceded, scan_scheme}
use honeynet.Shell.Urls.Found.{
  lowered, IsUrlByte, IsUrl, length-lowered, drop-lowered, drop-drop, index-has_prefix,
  has_prefix-length, run-le, take-run, has_prefix-run,
}

-- A scheme is not empty and has no terminator.
abbrev pub IsScheme : Bytes → Type 0
IsScheme scheme = (0 < length scheme) × All IsUrlByte scheme

slice-tail : (s : Bytes) (idx : ℕ) → idx ≤ length s → slice s idx (length s) ≡ some (drop idx s)
slice-tail s idx h =
    slice_lem s idx (length s) h (omega arith)
    ∙ ap some (take_all (length s - idx) (drop idx s) (omega (arith, length-drop idx s)))

is_preceded-Returns :
    (lower : Bytes) (start : ℕ)
    → start ≤ length lower
    → Returns (λ _. Unit) (is_preceded lower start)
unfolding is_preceded
is_preceded-Returns lower start h =
    Returns-if (ltb 0 start)
      (λ pos. let (b, e) = get_elem?_lem lower (start - 1) (ground arith) in rw e (returns tt))
      (λ _. returns tt)

between :
    (b : Bool) (lo hi x y : ℕ)
    → (lo < x) × (x ≤ hi)
    → (lo < y) × (y ≤ hi)
    → (lo < (if b then x else y)) × ((if b then x else y) ≤ hi)
between true lo hi x y p q = p
between false lo hi x y p q = q

module _ (scheme : Bytes) (good : IsScheme scheme) where
  -- The candidate at an occurrence of the scheme.
  candidate_lem :
      (s : Bytes) (start : ℕ)
      → start ≤ length s
      → has_prefix scheme (lowered (drop start s)) ≡ true
      → (slice s start (url_end s start) ≡ some (take (run (drop start s)) (drop start s)))
        × IsUrl scheme (take (run (drop start s)) (drop start s))
        × (start < url_end s start)
        × (url_end s start ≤ length s)
        × (start + length scheme ≤ length s)
  unfolding url_end
  candidate_lem s start h found =
      let tail = drop start s in
      let here = has_prefix-run scheme tail good.1 found in
      let long = has_prefix-length scheme (lowered (take (run tail) tail)) here in
      let fits = has_prefix-length scheme (lowered tail) found in
      let past : length scheme ≤ run tail = omega (
        arith,
        long,
        length-lowered (take (run tail) tail),
        length-take (run tail) tail,
        run-le tail,
      ) in
      (
        slice_lem s start (start + run tail) (omega arith)
              (omega (arith, run-le tail, length-drop start s))
            ∙ ap (λ k. some (take k tail)) (add_sub start (run tail)),
        (take-run tail, here),
        omega (arith, good.0),
        omega (arith, run-le tail, length-drop start s),
        omega (arith, fits, length-lowered tail, length-drop start s),
      )
    where
      add_sub : (a b : ℕ) → a + b - a ≡ b
      add_sub a b = omega arith

  pub scan_scheme-Returns :
      (fuel : ℕ) (s : Bytes) (idx : ℕ)
      → idx ≤ length s
      → length s < fuel + idx
      → Returns (All (IsUrl scheme)) (scan_scheme fuel s (lowered s) scheme idx)
  unfolding scan_scheme
  scan_scheme-Returns zero s idx h enough = absurd (omega arith)
  scan_scheme-Returns (suc fuel) s idx h enough =
      let size = length-lowered s in
      rw (slice-tail (lowered s) idx (omega arith))
        (elim (Option-cases (index scheme (drop idx (lowered s)))) [
          | inl n ↦ rw (n, ◌>>=◌) (returns tt)
          | inr (i, e) ↦
              let (le, found) = index-has_prefix scheme (drop idx (lowered s)) e in
              let start = idx + i in
              let inside : start ≤ length s = omega (arith, le, length-drop idx (lowered s)) in
              let here : has_prefix scheme (lowered (drop start s)) ≡ true =
                ap (has_prefix scheme) (sym (drop-drop idx i (lowered s) ∙ drop-lowered start s))
                ∙ found in
              let (cut, is_url, after, before_end, room) = candidate_lem s start inside here in
              rw (e, ◌>>=◌)
                (Returns-bind _ (is_preceded-Returns (lowered s) start (omega arith)) λ preceded _.
                  let next = if preceded then start + length scheme else url_end s start in
                  let (on, in_s) =
                    between preceded start (length s) (start + length scheme) (url_end s start)
                      (omega (arith, good.0), room) (after, before_end) in
                  let more = scan_scheme-Returns fuel s next in_s (omega arith) in
                  Returns-if preceded (λ _. more)
                    λ _. rw cut (
                      Returns-if (leb (length (lowered s)) (url_end s start))
                        (λ _. returns (is_url, tt))
                        λ _. Returns-bind _ more λ urls all. returns (is_url, all)))
        ])
