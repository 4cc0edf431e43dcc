-- ===== src/Credentials.antt =====
-- node/internal/credentials: which logins a sensor accepts. The digest, the generator and the
-- case tables of Go's library are the fields of `Primitives`.
pub mod Wordlist
pub mod Secret
mod Policy
mod Accounts
mod Tests
use Prim.Native.Nat.{bit_and}
use honeynet.Base.{
  ℕ, ◌+◌, ◌*◌, ◌<◌, ◌≡◌, Bool, true, false, not, ◌&&◌, Option, none, some, List, [], ◌∷◌, ◌++◌, map,
  ltb, leb, ◌==◌, if◌then◌else◌, ◌>>=◌, length, get_elem?, slice, Bytes, codes, equal, runes,
  encode, trim_space,
}
use honeynet.Credentials.Wordlist.{head_passwords, tail_passwords, weak_accounts}

-- What the package takes from Go's library, with what is documented of it.
pub record Primitives : Type 0 where
  -- `hmac.New(sha256.New, key)` fed with a message: 32 bytes.
  pub hmac_sha256 : Bytes → Bytes → Bytes
  pub hmac_length : (key message : Bytes) → length (hmac_sha256 key message) ≡ 32
  -- `rand.New(rand.NewSource(seed)).Intn(n)`, a number below `n`.
  pub intn : ℕ → ℕ → ℕ
  pub intn_lt : (seed n : ℕ) → 0 < n → intn seed n < n
  -- `unicode.ToLower` above ASCII.
  pub lower_rune : ℕ → ℕ

pub contains : List Bytes → Bytes → Bool
contains [] name = false
contains (x ∷ xs) name = if equal x name then true else contains xs name

-- The values of a `map[string]string` as the last write left them.
pub lookup : List (Bytes × Bytes) → Bytes → Option Bytes
lookup [] name = none
lookup ((k, v) ∷ m) name = if equal k name then some v else lookup m name

-- `m[name] = value`: a key stands once.
pub insert : Bytes → Bytes → List (Bytes × Bytes) → List (Bytes × Bytes)
insert name value [] = (name, value) ∷ []
insert name value ((k, v) ∷ m) =
    if equal k name then (k, value) ∷ m else (k, v) ∷ insert name value m

pub big_uint64 : ℕ → Bytes → ℕ
big_uint64 n [] = n
big_uint64 n (b ∷ s) = big_uint64 (n * 256 + b) s

module _ (lib : Primitives) where
  pub lower : ℕ → ℕ
  lower r =
      if ltb r 0x80 then (if leb b'A' r && leb r b'Z' then r + 32 else r) else lib.lower_rune r

  -- `strings.ToLower`
  pub to_lower : Bytes → Bytes
  to_lower s = encode (map lower (runes s))

  -- `strings.ToLower(strings.TrimSpace(s))`
  pub normalise : Bytes → Bytes
  normalise s = to_lower (trim_space s)

  pub pick : List Bytes → ℕ → Option Bytes
  pick words seed = get_elem? words (lib.intn seed (length words))

  pub derive_password : Bytes → Bytes → Option Bytes
  derive_password secret account = do
    prefix ← slice (lib.hmac_sha256 secret (codes "honeynet/credentials/v2:" ++ account)) 0 8
    let seed = big_uint64 0 prefix
    if contains weak_accounts account then pick head_passwords seed else pick tail_passwords seed

  -- The loop of `NewPolicy` over the accounts.
  pub add_accounts : Bytes → List Bytes → List (Bytes × Bytes) → Option (List (Bytes × Bytes))
  add_accounts secret [] passwords = some passwords
  add_accounts secret (account ∷ accounts) passwords =
      let name = normalise account in
      let skipped = add_accounts secret accounts passwords in
      let added = derive_password secret name >>= λ password.
      add_accounts secret accounts (insert name password passwords) in
      if equal name [] then skipped else added

  pub new_policy : Bytes → List Bytes → Option (List (Bytes × Bytes))
  new_policy secret accounts = add_accounts secret accounts []

  -- `Accept`: the comparison of an unknown account with the decoy has no effect on the result.
  pub accept : List (Bytes × Bytes) → Bytes → Bytes → Bool
  accept passwords user pass = elim (lookup passwords (normalise user)) [
    | some want ↦ equal pass want
    | none ↦ false
  ]

  pub password_for : List (Bytes × Bytes) → Bytes → Option Bytes
  password_for passwords account = lookup passwords (normalise account)

  -- The loop of `AccountsFrom`; `seen` has the elements of `out`.
  pub accounts_loop : List Bytes → List Bytes → List Bytes
  accounts_loop [] out = out
  accounts_loop (n ∷ names) out =
      let name = normalise n in
      accounts_loop names
        (if equal name [] then out else if contains out name then out else out ++ name ∷ [])

  pub accounts_from : List Bytes → List Bytes
  accounts_from names = accounts_loop names []
