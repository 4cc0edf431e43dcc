-- ===== src/Credentials/Accounts.antt =====
-- The roster that a policy is built from.
use honeynet.Base.{
  ◌≡◌, refl, ◌∙◌, Bool, true, false, not, ◌&&◌, ◌||◌, List, [], ◌∷◌, ◌++◌, map, if◌then◌else◌,
  Bytes, equal, equal_iff, arith,
}
use honeynet.Credentials.{Primitives, contains, normalise, accounts_loop, accounts_from}
use honeynet.Credentials.Policy.{is_account}

-- No name stands twice.
pub distinct : List Bytes → Bool
distinct [] = true
distinct (x ∷ xs) = not (contains xs x) && distinct xs

contains-append :
    (xs : List Bytes) (name j : Bytes)
    → contains (xs ++ name ∷ []) j ≡ (if contains xs j then true else equal name j)
unfolding contains
contains-append [] name j = ground arith
contains-append (x ∷ xs) name j = ground (arith, contains-append xs name j)

distinct-append :
    (xs : List Bytes) (name : Bytes)
    → contains xs name ≡ false
    → distinct xs ≡ true
    → distinct (xs ++ name ∷ []) ≡ true
unfolding contains distinct
distinct-append [] name h k = refl
distinct-append (x ∷ xs) name h k =
    ground (
      arith,
      distinct-append xs name,
      contains-append xs name x,
      equal_iff x name,
      equal_iff name x,
    )

-- The elements of `out` behind a round for the name `n`.
round : Bytes → List Bytes → List Bytes
round n out = if equal n [] then out else if contains out n then out else out ++ n ∷ []

distinct-round :
    (n : Bytes) (out : List Bytes) → distinct out ≡ true → distinct (round n out) ≡ true
unfolding round
distinct-round n out h = ground (arith, distinct-append out n)

contains-round :
    (n j : Bytes) (out : List Bytes)
    → contains (round n out) j ≡ (contains out j || not (equal n []) && equal n j)
unfolding round
contains-round n j out = ground (arith, contains-append out n j, equal_iff n j)

module _ (lib : Primitives) where
  joined :
      (n : Bytes) (j : Bytes) (out names : List Bytes)
      → (contains (round n out) j || is_account lib names j)
        ≡ (contains out j || not (equal j []) && contains (n ∷ map (normalise lib) names) j)
  unfolding contains
  joined n j out names =
      ground (arith, contains-round n j out, equal_iff n [], equal_iff j [], equal_iff n j)

  accounts_loop_lem :
      (names out : List Bytes)
      → distinct out ≡ true
      → (distinct (accounts_loop lib names out) ≡ true)
        × ((j : Bytes)
            → contains (accounts_loop lib names out) j ≡ (contains out j || is_account lib names j))
  unfolding accounts_loop contains round
  accounts_loop_lem [] out d = (d, λ j. ground arith)
  accounts_loop_lem (n ∷ names) out d =
      let name = normalise lib n in
      let (distinct_out, spec) =
        accounts_loop_lem names (round name out) (distinct-round name out d) in
      (distinct_out, λ j. spec j ∙ joined name j out names)

  -- The roster has no name twice, and has exactly the names that get a password.
  pub accounts_from-contains :
      (names : List Bytes)
      → (distinct (accounts_from lib names) ≡ true)
        × ((j : Bytes) → contains (accounts_from lib names) j ≡ is_account lib names j)
  unfolding accounts_from
  accounts_from-contains names = unfold contains distinct in accounts_loop_lem names [] refl
