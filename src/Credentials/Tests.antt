-- ===== src/Credentials/Tests.antt =====
-- Runs of the credentials package, and the theorems at concrete inputs.
use honeynet.Base.{
  ℕ, ◌≡◌, ◌↔◌, refl, true, false, none, some, List, [], ◌∷◌, ◌++◌, ◌%◌, ◌<◌, arith, length, Bytes,
  codes, equal, runes, encode, trim_space, slice, if◌then◌else◌,
}
use honeynet.Credentials.Wordlist.{head_passwords, tail_passwords, weak_accounts}
use honeynet.Credentials.{
  Primitives, contains, lookup, insert, big_uint64, lower, to_lower, normalise, pick,
  derive_password, add_accounts, new_policy, accept, accounts_from,
}
use honeynet.Credentials.Policy.{
  is_account, derive_password-contains, new_policy-lookup, accept-new_policy,
}
use honeynet.Credentials.Accounts.{distinct, accounts_from-contains}
use honeynet.Credentials.Secret.{
  loaded, created, content, not_exist, hex, hex_digit, load_or_create_secret, read_or_create,
  create, load_or_create_secret-created,
}

-- A digest of 32 bytes that depends on the length of the message alone.
abbrev digest : Bytes → Bytes → Bytes
digest key message =
    0
    ∷ 0
    ∷ 0
    ∷ 0
    ∷ 0
    ∷ 0
    ∷ 0
    ∷ length message
    ∷ 0
    ∷ 0
    ∷ 0
    ∷ 0
    ∷ 0
    ∷ 0
    ∷ 0
    ∷ 0
    ∷ 0
    ∷ 0
    ∷ 0
    ∷ 0
    ∷ 0
    ∷ 0
    ∷ 0
    ∷ 0
    ∷ 0
    ∷ 0
    ∷ 0
    ∷ 0
    ∷ 0
    ∷ 0
    ∷ 0
    ∷ 0
    ∷ []

mod-lt_lem : (seed n : ℕ) → 0 < n → seed % n < n
mod-lt_lem seed n h = omega arith

abbrev simple : Primitives
simple = record {
  hmac_sha256 = digest;
  hmac_length = λ key message. refl;
  intn = λ seed n. seed % n;
  intn_lt = mod-lt_lem;
  lower_rune = λ r. r;
}

abbrev roster : List Bytes
roster = codes "root" ∷ codes " Alice " ∷ codes "ROOT" ∷ []

abbrev policy : List (Bytes × Bytes)
policy = (codes "root", codes "iloveyou") ∷ (codes "alice", codes "matrix") ∷ []

new_policy-roster : new_policy simple (codes "key") roster ≡ some policy
unfolding new_policy add_accounts derive_password pick insert normalise to_lower lower runes encode
    trim_space slice contains weak_accounts head_passwords tail_passwords equal big_uint64
new_policy-roster = refl

accept-new_policy_example : (accept simple policy (codes "Root ") (codes "iloveyou") ≡ true) ↔ (
    (is_account simple roster (normalise simple (codes "Root ")) ≡ true)
    × (derive_password simple (codes "key") (normalise simple (codes "Root "))
        ≡ some (codes "iloveyou")))
accept-new_policy_example =
    accept-new_policy simple (codes "key") roster (codes "Root ") (codes "iloveyou")
      new_policy-roster

new_policy-lookup_example :
    (p : List (Bytes × Bytes)) × (new_policy simple (codes "key") roster ≡ some p)
    × ((j : Bytes)
        → lookup p j
          ≡ (if is_account simple roster j then derive_password simple (codes "key") j else none))
new_policy-lookup_example = new_policy-lookup simple (codes "key") roster

derive_password-contains_example :
    (w : Bytes) × (derive_password simple (codes "key") (codes "root") ≡ some w)
    × (contains (if contains weak_accounts (codes "root") then head_passwords else tail_passwords) w
        ≡ true)
derive_password-contains_example = derive_password-contains simple (codes "key") (codes "root")

accounts_from-contains_example :
    (distinct (accounts_from simple roster) ≡ true)
    × ((j : Bytes) → contains (accounts_from simple roster) j ≡ is_account simple roster j)
accounts_from-contains_example = accounts_from-contains simple roster

abbrev random_bytes : Bytes
random_bytes =
    0 ∷ 1 ∷ 2 ∷ 3 ∷ 4 ∷ 5 ∷ 6 ∷ 7 ∷ 8 ∷ 9 ∷ 10 ∷ 11 ∷ 12 ∷ 13 ∷ 14 ∷ 255 ∷ 16 ∷ 17 ∷ 18 ∷ 19 ∷ 20
    ∷ 21 ∷ 22 ∷ 23 ∷ 24 ∷ 25 ∷ 26 ∷ 27 ∷ 28 ∷ 29 ∷ 30 ∷ 31 ∷ []

abbrev secret_text : Bytes
secret_text = codes "000102030405060708090a0b0c0d0eff101112131415161718191a1b1c1d1e1f"

first_start :
    load_or_create_secret (codes "secret") not_exist (some random_bytes) true true
    ≡ created secret_text (secret_text ++ codes "\n")
unfolding load_or_create_secret read_or_create create hex hex_digit equal
first_start = refl

load_or_create_secret-created_example :
    load_or_create_secret (codes "secret") (content (secret_text ++ codes "\n")) none false false
    ≡ loaded secret_text
load_or_create_secret-created_example =
    load_or_create_secret-created (codes "secret") random_bytes true true none false false
      (omega arith) refl first_start

tail_not_sprayed : contains head_passwords (codes "mustang01") ≡ false
unfolding contains head_passwords equal
tail_not_sprayed = refl
