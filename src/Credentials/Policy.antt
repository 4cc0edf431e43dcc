-- ===== src/Credentials/Policy.antt =====
-- A node's policy: one password for each account of the roster, and none for any other name.
use honeynet.Base.{
  ℕ, zero, suc, ◌<◌, ◌≡◌, ◌↔◌, refl, sym, ap, ◌∙◌, inl, inr, Bool, true, false, not, ◌&&◌,
  Bool-cases, Option, Option-cases, none, some, List, [], ◌∷◌, ◌++◌, map, if◌then◌else◌, length,
  get_elem?, get_elem?_lem, slice_lem, take, Bytes, codes, equal, equal_iff, equal_refl, arith,
}
use honeynet.Credentials.Wordlist.{head_passwords, tail_passwords, weak_accounts}
use honeynet.Credentials.{
  Primitives, contains, lookup, insert, big_uint64, normalise, pick, derive_password, add_accounts,
  new_policy, accept,
}

lookup-insert :
    (k v j : Bytes) (m : List (Bytes × Bytes))
    → lookup (insert k v m) j ≡ (if equal k j then some v else lookup m j)
unfolding lookup insert
lookup-insert k v j [] = refl
lookup-insert k v j ((i, w) ∷ m) =
    ground (arith, equal_iff k j, equal_iff i k, equal_iff i j, lookup-insert k v j m)

contains-get :
    (xs : List Bytes) (i : ℕ) {w : Bytes} → get_elem? xs i ≡ some w → contains xs w ≡ true
unfolding contains
contains-get [] i e = cc
contains-get (x ∷ xs) zero {w} e = let same : x ≡ w = cc in rw (← same) (rw (equal_refl x))
contains-get (x ∷ xs) (suc i) {w} e = ground (arith, contains-get xs i e)

-- The names that get a password: those of the roster, normalised and not empty.
abbrev pub is_account : Primitives → List Bytes → Bytes → Bool
is_account lib accounts name = not (equal name []) && contains (map (normalise lib) accounts) name

module _ {A : Type 0} where
  empty_step :
      (n j : Bytes) (names : List Bytes) (x y : A)
      → equal n [] ≡ true
      → (if not (equal j []) && contains names j then x else y)
        ≡ (if not (equal j []) && contains (n ∷ names) j then x else y)
  unfolding contains
  empty_step n j names x y h = ground (arith, equal_iff n [], equal_iff j [], equal_iff n j)

  named_step :
      (n j : Bytes) (names : List Bytes) (x y : A) {w : A}
      → equal n [] ≡ false
      → (equal n j ≡ true → x ≡ w)
      → (if not (equal j []) && contains names j then x else (if equal n j then w else y))
        ≡ (if not (equal j []) && contains (n ∷ names) j then x else y)
  unfolding contains
  named_step n j names x y h k = ground (arith, equal_iff n [], equal_iff j [], equal_iff n j)

module _ (lib : Primitives) where
  pick_lem :
      (words : List Bytes) (seed : ℕ)
      → 0 < length words
      → (w : Bytes) × (pick lib words seed ≡ some w) × (contains words w ≡ true)
  unfolding pick
  pick_lem words seed h =
      let (w, e) =
        get_elem?_lem words (lib.intn seed (length words)) (lib.intn_lt seed (length words) h) in
      (w, e, contains-get words _ e)

  -- Every account has a password: nothing is out of range. It is one of the sprayed head of the
  -- wordlists if the account is one of the weak ones, and one of the tail if not.
  pub derive_password-contains :
      (secret account : Bytes)
      → (w : Bytes) × (derive_password lib secret account ≡ some w)
        × (contains (if contains weak_accounts account then head_passwords else tail_passwords) w
            ≡ true)
  unfolding derive_password
  derive_password-contains secret account =
      let message = codes "honeynet/credentials/v2:" ++ account in
      let sum = lib.hmac_sha256 secret message in
      let seed = big_uint64 0 (take 8 sum) in
      let cut = slice_lem sum 0 8 (omega arith) (omega (arith, lib.hmac_length secret message)) in
      rw cut (elim (Bool-cases (contains weak_accounts account)) [
        | inl weak ↦ rw weak (pick_lem head_passwords seed head_some)
        | inr strong ↦ rw strong (pick_lem tail_passwords seed tail_some)
      ])
    where
      head_some : 0 < length head_passwords
      head_some = unfold head_passwords in omega arith

      tail_some : 0 < length tail_passwords
      tail_some = unfold tail_passwords in omega arith

  add_accounts_lem :
      (secret : Bytes) (accounts : List Bytes) (m : List (Bytes × Bytes))
      → (p : List (Bytes × Bytes)) × (add_accounts lib secret accounts m ≡ some p)
        × ((j : Bytes)
            → lookup p j
              ≡ (if is_account lib accounts j then derive_password lib secret j else lookup m j))
  unfolding add_accounts contains
  add_accounts_lem secret [] m = (m, refl, λ j. ground arith)
  add_accounts_lem secret (a ∷ accounts) m = elim (Bool-cases (equal (normalise lib a) [])) [
    | inl empty ↦
        let (p, e, spec) = add_accounts_lem secret accounts m in
        rw empty (p, e, λ j. spec j ∙ empty_step _ j (map (normalise lib) accounts) _ _ empty)
    | inr named ↦
        let (w, d, _) = derive_password-contains secret (normalise lib a) in
        let (p, e, spec) = add_accounts_lem secret accounts (insert (normalise lib a) w m) in
        rw (named, d)
          (
            p,
            e,
            λ j.
                spec j
                ∙ (ap
                      (λ (t : Option Bytes).
                        if is_account lib accounts j then derive_password lib secret j else t)
                      (lookup-insert (normalise lib a) w j m)
                    ∙ named_step (normalise lib a) j (map (normalise lib) accounts) _ _ named
                        (λ same.
                          ap (derive_password lib secret)
                            (sym ((equal_iff (normalise lib a) j).0 same))
                          ∙ d)),
          )
  ]

  -- Building a policy does not panic, and the policy holds exactly the accounts of the roster,
  -- each with the password derived for it.
  pub new_policy-lookup :
      (secret : Bytes) (accounts : List Bytes)
      → (p : List (Bytes × Bytes)) × (new_policy lib secret accounts ≡ some p)
        × ((j : Bytes)
            → lookup p j
              ≡ (if is_account lib accounts j then derive_password lib secret j else none))
  unfolding new_policy
  new_policy-lookup secret accounts =
      let (p, e, spec) = add_accounts_lem secret accounts [] in
      (p, e, λ j. spec j ∙ unfold lookup in refl)

  accept_lem :
      (p : List (Bytes × Bytes)) (user pass : Bytes)
      → (accept lib p user pass ≡ true) ↔ (lookup p (normalise lib user) ≡ some pass)
  unfolding accept
  accept_lem p user pass = elim (Option-cases (lookup p (normalise lib user))) [
    | inl unknown ↦ rw (unknown, accept) ((λ h. cc), (λ h. cc))
    | inr (want, known) ↦
        rw (known, accept)
          ((λ h. ap some (sym ((equal_iff pass want).0 h))), (λ h. (equal_iff pass want).1 (cc)))
  ]

  -- A login is accepted exactly if the name is an account of the roster, up to case and blanks
  -- around it, and the password is the one derived for that account.
  pub accept-new_policy :
      (secret : Bytes) (accounts : List Bytes) {p : List (Bytes × Bytes)} (user pass : Bytes)
      → new_policy lib secret accounts ≡ some p
      → (accept lib p user pass ≡ true) ↔ (
          (is_account lib accounts (normalise lib user) ≡ true)
          × (derive_password lib secret (normalise lib user) ≡ some pass))
  accept-new_policy secret accounts {p} user pass built =
      let (q, e, spec) = new_policy-lookup secret accounts in
      let same : q ≡ p = cc in
      let name = normalise lib user in
      let known : lookup p name
          ≡ (if is_account lib accounts name then derive_password lib secret name else none) =
        ap (λ (t : List (Bytes × Bytes)). lookup t name) (sym same) ∙ spec name in
      let (to, from) = accept_lem p user pass in
      elim (Bool-cases (is_account lib accounts (normalise lib user))) [
        | inl account ↦ (
          (λ h. (account, cc (to h, rw account at known))),
          (λ h. from (rw account at known ∙ h.1)),
        )
        | inr stranger ↦ ((λ h. cc (to h, rw stranger at known)), (λ h. cc))
      ]
