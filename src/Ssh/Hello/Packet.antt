-- ===== src/Ssh/Hello/Packet.antt =====
-- A binary packet of SSH with an SSH_MSG_KEXINIT in it (RFC 4253) is read back.
use honeynet.Base.{
  join, ℕ, suc, ◌+◌, ◌-◌, ◌/◌, ◌%◌, ◌^◌, ◌≤◌, ◌<◌, ◌≡◌, refl, ap, ◌∙◌, true, false, ◌||◌, some,
  List, [], ◌∷◌, ◌++◌, arith, ltb, leb, le→ltb, length, length-append, take, take-append, slice,
  slice_lem, slice-append_left, slice-append_right, All, Bytes, big_uint32,
}
use honeynet.Ssh.Hello.{
  ClientHello, items, read_lists, fill, msg_kex_init, parse_payload, parse_packet,
}
use honeynet.Ssh.Hello.Names.{IsName, items-join}
use honeynet.Ssh.Hello.Total.{uint32_lem}

abbrev pub big_bytes : ℕ → Bytes
big_bytes n = n / 0x100_0000 % 0x100 ∷ n / 0x1_0000 % 0x100 ∷ n / 0x100 % 0x100 ∷ n % 0x100 ∷ []

-- Name-lists, one after another, and what stands behind them.
abbrev pub name_lists : List (List Bytes) → Bytes → Bytes
name_lists [] behind = behind
name_lists (names ∷ lists) behind =
    big_bytes (length (join b',' names)) ++ (join b',' names ++ name_lists lists behind)

big_uint32-big_bytes : (n : ℕ) (s : Bytes) → n < 2 ^ 32 → big_uint32 (big_bytes n) ≡ some n
unfolding big_uint32
big_uint32-big_bytes n s h = ap some (omega arith)

-- The slices behind a count of four bytes.
counted_slice :
    (n : ℕ) (raw rest : Bytes) → slice (big_bytes n ++ (raw ++ rest)) 4 (4 + length raw) ≡ some raw
counted_slice n raw rest =
    slice_lem (big_bytes n ++ (raw ++ rest)) 4 (4 + length raw) (omega arith)
      (omega (arith, length-append raw rest))
    ∙ ap some (ap (λ k. take k (raw ++ rest)) (sub_lem (length raw)) ∙ take-append raw rest)
  where
    sub_lem : (k : ℕ) → 4 + k - 4 ≡ k
    sub_lem k = omega arith

count_slice : (n : ℕ) (s : Bytes) → slice (big_bytes n ++ s) 0 4 ≡ some (big_bytes n)
count_slice n s = slice-append_left (big_bytes n) s refl

behind_slice :
    (n : ℕ) (raw rest : Bytes) {l : ℕ}
    → l ≡ length (big_bytes n ++ (raw ++ rest))
    → slice (big_bytes n ++ (raw ++ rest)) (4 + length raw) l ≡ some rest
behind_slice n raw rest e = slice-append_right (big_bytes n ++ raw) rest (omega arith) e

-- One list is read, and the loop goes on behind it.
read_lists-step :
    (count : ℕ) (raw rest : Bytes) {lists : List (List Bytes)}
    → length (big_bytes (length raw) ++ (raw ++ rest)) < 2 ^ 32
    → read_lists count rest ≡ some (some lists)
    → read_lists (suc count) (big_bytes (length raw) ++ (raw ++ rest))
      ≡ some (some (items raw ∷ lists))
unfolding read_lists
read_lists-step count raw rest {lists} short e =
    let sum : length (raw ++ rest) ≡ length raw + length rest = length-append raw rest in
    let p : Bytes = big_bytes (length raw) ++ (raw ++ rest) in
    rw (le→ltb (length p) 4 (omega arith)) (
      rw (count_slice (length raw) (raw ++ rest)) (
        rw (big_uint32-big_bytes (length raw) rest (omega arith)) (
          rw (le→ltb (length p - 4) (length raw) (omega arith)) (
            rw (uint32_lem (length raw) (omega arith)) (
              rw (counted_slice (length raw) raw rest)
                (rw (behind_slice (length raw) raw rest refl) (rw e refl)))))))

read_lists-name_lists :
    (lists : List (List Bytes)) (behind : Bytes)
    → All (All IsName) lists
    → length (name_lists lists behind) < 2 ^ 32
    → read_lists (length lists) (name_lists lists behind) ≡ some (some lists)
read_lists-name_lists [] behind h short = unfold read_lists in refl
read_lists-name_lists (names ∷ lists) behind h short =
    let rest = name_lists lists behind in
    read_lists-step (length lists) (join b',' names) rest short
      (read_lists-name_lists lists behind h.1 (omega (arith, length-append (join b',' names) rest)))
    ∙ ap (λ x. some (some (x ∷ lists))) (items-join names h.0)

-- The lists of a SSH_MSG_KEXINIT (RFC 4253, section 7.1).
pub record KexLists : Type 0 where
  pub kex : List Bytes
  pub host_keys : List Bytes
  pub ciphers_in : List Bytes
  pub ciphers_out : List Bytes
  pub macs_in : List Bytes
  pub macs_out : List Bytes
  pub compression_in : List Bytes
  pub compression_out : List Bytes
  pub languages_in : List Bytes
  pub languages_out : List Bytes

abbrev pub all_lists : KexLists → List (List Bytes)
all_lists k =
    k.kex ∷ k.host_keys ∷ k.ciphers_in ∷ k.ciphers_out ∷ k.macs_in ∷ k.macs_out ∷ k.compression_in
    ∷ k.compression_out ∷ k.languages_in ∷ k.languages_out ∷ []

-- What is to be recovered: the lists from the client to the server.
abbrev pub hello_of : Bytes → KexLists → ClientHello
hello_of banner k = record {
  banner = banner;
  kex = k.kex;
  host_key_algs = k.host_keys;
  ciphers = k.ciphers_in;
  macs = k.macs_in;
  compression = k.compression_in;
  parsed = true;
}

-- `behind` holds the flag and the reserved number of the message.
abbrev pub kex_init : Bytes → KexLists → Bytes → Bytes
kex_init cookie k behind = msg_kex_init ∷ (cookie ++ name_lists (all_lists k) behind)

pub parse_payload-kex_init :
    (banner cookie : Bytes) (k : KexLists) (behind : Bytes)
    → length cookie ≡ 16
    → All (All IsName) (all_lists k)
    → length (kex_init cookie k behind) < 2 ^ 32
    → parse_payload banner (kex_init cookie k behind) ≡ some (hello_of banner k)
unfolding parse_payload fill
parse_payload-kex_init banner cookie k behind full names short =
    let lists = name_lists (all_lists k) behind in
    let sum : length (cookie ++ lists) ≡ length cookie + length lists =
      length-append cookie lists in
    rw (le→ltb (length (kex_init cookie k behind)) 17 (omega arith)) (
      rw
        (slice-append_right (msg_kex_init ∷ cookie) lists {n = 17}
          {m = length (kex_init cookie k behind)} (omega arith) refl)
        (rw (read_lists-name_lists (all_lists k) behind names (omega arith)) refl))

-- A binary packet (RFC 4253, section 6) and what stands behind it.
abbrev pub packet : Bytes → Bytes → Bytes → Bytes
packet payload padding behind =
    big_bytes (length payload + length padding + 1)
    ++ (length padding ∷ (payload ++ (padding ++ behind)))

payload_slice :
    (n c : ℕ) (raw rest : Bytes) {k : ℕ}
    → k ≡ length raw
    → slice (big_bytes n ++ (c ∷ (raw ++ rest))) 5 (5 + k) ≡ some raw
payload_slice n c raw rest {k} e =
    slice_lem (big_bytes n ++ (c ∷ (raw ++ rest))) 5 (5 + k) (omega arith)
      (omega (arith, length-append raw rest))
    ∙ ap some (ap (λ k. take k (raw ++ rest)) (sub_lem k ∙ e) ∙ take-append raw rest)
  where
    sub_lem : (k : ℕ) → 5 + k - 5 ≡ k
    sub_lem k = omega arith

pub parse_packet-packet :
    (banner payload padding behind : Bytes)
    → 0 < length payload
    → length (packet payload padding behind) < 2 ^ 32
    → parse_packet banner (packet payload padding behind) ≡ parse_payload banner payload
unfolding parse_packet
parse_packet-packet banner payload padding behind filled short =
    let rest : Bytes = packet payload padding behind in
    let n : ℕ = length payload + length padding + 1 in
    let sum : length rest ≡ 5 + (length payload + (length padding + length behind)) =
      omega (arith, length-append payload (padding ++ behind), length-append padding behind) in
    let payload_len : n - length padding - 1 ≡ length payload = omega arith in
    rw (le→ltb (length rest) 6 (omega arith)) (
      rw (count_slice n (length padding ∷ (payload ++ (padding ++ behind)))) (
        rw (big_uint32-big_bytes n [] (omega arith)) (
          rw (long_enough n (length rest) (omega arith) (omega arith)) (
            rw
              (has_payload n (length padding) (length rest) (n - length padding - 1) (omega arith)
                (omega arith))
              (rw (payload_slice n (length padding) payload (padding ++ behind) payload_len)
                refl)))))
  where
    long_enough : (n l : ℕ) → 2 ≤ n → n ≤ l - 4 → (ltb n 2 || ltb (l - 4) n) ≡ false
    long_enough n l p q = ground arith

    has_payload :
        (n pad l k : ℕ) → pad + 1 < n → 5 + k ≤ l → (leb n (pad + 1) || ltb l (5 + k)) ≡ false
    has_payload n pad l k p q = ground arith
