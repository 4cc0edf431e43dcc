-- ===== src/Credentials/Secret.antt =====
-- node/internal/credentials/secret.go: `LoadOrCreateSecret`. What the file system and the random
-- source answer are arguments; the result has the file that is written, if any.
use honeynet.Base.{
  ℕ, ◌+◌, ◌-◌, ◌*◌, ◌/◌, ◌%◌, ◌<◌, ◌≡◌, refl, Bool, false, Option, none, some, [], ◌∷◌, ◌++◌, ltb,
  if◌then◌else◌, length, All, IsByte, IsGraph, trim_space-newline, le→ltb, Bytes, equal, codes,
  trim_space, arith,
}

abbrev pub secret_bytes : ℕ
secret_bytes = 32

-- `os.ReadFile`: the content, `os.IsNotExist(err)`, or another error.
pub data Read : Type 0 where
  content : Bytes → Read
  not_exist : Read
  unreadable : Read

pub data Failure : Type 0 where
  path_required too_short generate create_directory write unreadable_file : Failure

-- The secret, with the content written to the file; or an error.
pub data Loaded : Type 0 where
  loaded : Bytes → Loaded
  created : Bytes → Bytes → Loaded
  failed : Failure → Loaded

unfoldable pub hex_digit : ℕ → ℕ
hex_digit d = if ltb d 10 then b'0' + d else b'a' + (d - 10)

-- `hex.EncodeToString`
unfoldable pub hex : Bytes → Bytes
hex [] = []
hex (b ∷ s) = hex_digit (b / 16) ∷ hex_digit (b % 16) ∷ hex s

-- `rand.Read` fills the buffer, or fails; the directory and the file are written, or not.
unfoldable pub create : Option Bytes → Bool → Bool → Loaded
create none directory_made file_written = failed generate
create (some buf) directory_made file_written =
    if directory_made
    then if file_written then created (hex buf) (hex buf ++ codes "\n") else failed write
    else failed create_directory

unfoldable pub check_length : Bytes → Loaded
check_length secret =
    if ltb (length secret) (2 * secret_bytes) then failed too_short else loaded secret

unfoldable pub read_or_create : Read → Option Bytes → Bool → Bool → Loaded
read_or_create (content text) random directory_made file_written = check_length (trim_space text)
read_or_create not_exist random directory_made file_written =
    create random directory_made file_written
read_or_create unreadable random directory_made file_written = failed unreadable_file

unfoldable pub load_or_create_secret : Bytes → Read → Option Bytes → Bool → Bool → Loaded
load_or_create_secret path read random directory_made file_written =
    if equal path []
    then failed path_required
    else read_or_create read random directory_made file_written

hex_digit-IsGraph : (d : ℕ) → d < 16 → IsGraph (hex_digit d)
unfolding hex_digit
hex_digit-IsGraph d h = ground arith

hex-IsGraph : (s : Bytes) → All IsByte s → All IsGraph (hex s)
unfolding hex
hex-IsGraph [] h = tt
hex-IsGraph (b ∷ s) h = (
  hex_digit-IsGraph (b / 16) (omega arith),
  (hex_digit-IsGraph (b % 16) (omega arith), hex-IsGraph s h.1),
)

length-hex : (s : Bytes) → length (hex s) ≡ 2 * length s
unfolding hex
length-hex [] = refl
length-hex (b ∷ s) = omega (arith, length-hex s)

-- The file that a first start writes is read back, at every later start and whatever the random
-- source says then, as the same secret.
pub load_or_create_secret-created :
    (path buf : Bytes) {secret file : Bytes} (directory_made file_written : Bool)
    (random : Option Bytes) (directory_made' file_written' : Bool)
    → All IsByte buf
    → length buf ≡ secret_bytes
    → load_or_create_secret path not_exist (some buf) directory_made file_written
      ≡ created secret file
    → load_or_create_secret path (content file) random directory_made' file_written' ≡ loaded secret
unfolding load_or_create_secret read_or_create create check_length
load_or_create_secret-created path buf {secret} {file} d w random d' w' bytes size made =
    let long = le→ltb (length (hex buf)) (2 * secret_bytes) (omega (arith, length-hex buf)) in
    let read = trim_space-newline (hex buf) (hex-IsGraph buf bytes) in
    let parts : (equal path [] ≡ false) × (secret ≡ hex buf) × (file ≡ hex buf ++ codes "\n") =
      ground arith in
    rw (parts.0, parts.1, parts.2) (rw read (rw long))
