-- ===== src/Ssh/Hello/Total.antt =====
-- `parseHello` on any input: it does not panic, and what it recovers is well-formed.
use mathlib.Core.Option
use honeynet.Base.{
  is_empty, ℕ, zero, suc, ◌+◌, ◌-◌, ◌%◌, ◌^◌, ◌≤◌, ◌<◌, ◌≡◌, ◌⊎◌, refl, ap, true, not, ◌||◌, inl,
  inr, Option-cases, Option, none, some, List, [], ◌∷◌, arith, ltb, leb, ◌==◌, Returns, returns,
  Returns-bind, Returns-if, Returns-some, length, slice-Returns, get_elem?-Returns, All, Bytes,
  IsByte, big_uint32, codes, has_prefix,
}
use honeynet.Ssh.Hello.{
  ClientHello, only_banner, cut_crlf, find_banner, items, read_lists, fill, msg_kex_init,
  parse_payload, parse_packet, parse_rest, parse_hello,
}
use honeynet.Ssh.Hello.Names.{NoComma, items-NoComma}

abbrev pub IsVersion : Bytes → Type 0
IsVersion line = has_prefix (codes "SSH-") line ≡ true

-- What a hello promises to the code that records it.
pub record IsHello (h : ClientHello) : Type 0 where
  pub version : (h ≡ only_banner []) ⊎ IsVersion h.banner
  pub unparsed : (h.parsed ≡ true) ⊎ (h ≡ only_banner h.banner)
  pub names : All (All NoComma) (h.kex ∷ h.host_key_algs ∷ h.ciphers ∷ h.macs ∷ h.compression ∷ [])

big_uint32_lem :
    (s : Bytes) → All IsByte s × (length s ≡ 4) → Returns (λ w. w < 2 ^ 32) (big_uint32 s)
unfolding big_uint32
big_uint32_lem (a ∷ b ∷ c ∷ d ∷ s) h = returns (omega arith)
big_uint32_lem (a ∷ b ∷ c ∷ []) h = absurd (omega arith)
big_uint32_lem (a ∷ b ∷ []) h = absurd (omega arith)
big_uint32_lem (a ∷ []) h = absurd (omega arith)
big_uint32_lem [] h = absurd (omega arith)

-- What the loops of the parser hand on: bytes, few enough for the sums of uint32.
abbrev IsInput : Bytes → Type 0
IsInput s = All IsByte s × (length s < 2 ^ 32)

cut_crlf-shorter :
    (s : Bytes) {line rest : Bytes}
    → cut_crlf s ≡ some (line, rest)
    → All IsByte s
    → All IsByte rest × (length rest < length s)
unfolding cut_crlf
cut_crlf-shorter [] e bytes = cc
cut_crlf-shorter (x ∷ []) e bytes = cc
cut_crlf-shorter (x ∷ y ∷ s) e bytes = elim (Option-cases (cut_crlf (y ∷ s))) [
  | inl n ↦ ground arith
  | inr (cut, f) ↦ ground (arith, cut_crlf-shorter (y ∷ s) f bytes.1)
]

abbrev IsFound : Option (Bytes × Bytes) → Type 0
IsFound none = Unit
IsFound (some (line, rest)) = IsVersion line × IsInput rest

find_banner_lem :
    (fuel : ℕ) (s : Bytes) → length s < fuel → IsInput s → Returns IsFound (find_banner fuel s)
unfolding find_banner
find_banner_lem zero s enough h = absurd (omega arith)
find_banner_lem (suc fuel) s enough h = elim (Option-cases (cut_crlf s)) [
  | inl n ↦ rw (n, find_banner) (returns tt)
  | inr ((line, rest), e) ↦
      let (bytes, shorter) = cut_crlf-shorter s e h.0 in
      rw (e, find_banner)
        (Returns-if (has_prefix (codes "SSH-") line)
          (λ version. returns (version, (bytes, omega arith)))
          λ _.
            Returns-if (is_empty rest) (λ _. returns tt)
              λ _. find_banner_lem fuel rest (omega arith) (bytes, omega arith))
]

abbrev IsLists : ℕ → Option (List (List Bytes)) → Type 0
IsLists count none = Unit
IsLists count (some lists) = (length lists ≡ count) × All (All NoComma) lists

pub uint32_lem : (n : ℕ) → 4 + n < 2 ^ 32 → (4 + n) % 2 ^ 32 ≡ 4 + n
uint32_lem n h = omega arith

read_lists_lem : (count : ℕ) (p : Bytes) → IsInput p → Returns (IsLists count) (read_lists count p)
unfolding read_lists
read_lists_lem zero p h = returns (refl, tt)
read_lists_lem (suc count) p h =
    Returns-if (ltb (length p) 4) (λ _. returns tt)
      λ long.
        Returns-bind _
          (Returns-bind _ (slice-Returns IsByte p 0 4 (omega arith) (ground arith) h.0)
            big_uint32_lem)
          λ n _.
            Returns-if (ltb (length p - 4) n) (λ _. returns tt)
              λ fits.
                let room : 4 + n ≤ length p = ground arith in
                rw (uint32_lem n (omega arith)) (
                  Returns-bind _ (slice-Returns IsByte p 4 (4 + n) (omega arith) room h.0) λ raw _.
                    Returns-bind _
                      (slice-Returns IsByte p (4 + n) (length p) room (omega arith) h.0)
                      λ rest r.
                        Returns-bind _ (read_lists_lem count rest (r.0, omega arith))
                          (more_lem raw))
  where
    more_lem :
        (raw : Bytes) (more : Option (List (List Bytes)))
        → IsLists count more
        → Returns (IsLists (suc count)) (some (Option.map (◌∷◌ (items raw)) more))
    more_lem raw none k = returns tt
    more_lem raw (some lists) k = returns (ap suc k.0, (items-NoComma raw, k.1))

only_banner-IsHello : (banner : Bytes) → IsVersion banner → IsHello (only_banner banner)
only_banner-IsHello banner version = record {
  version = inr version;
  unparsed = inr refl;
  names = (tt, (tt, (tt, (tt, (tt, tt)))));
}

fill_lem :
    (banner : Bytes)
    → IsVersion banner
    → (lists : Option (List (List Bytes))) → IsLists 10 lists
    → Returns IsHello (fill banner lists)
unfolding fill
fill_lem banner version none k = returns (only_banner-IsHello banner version)
fill_lem banner version (some lists) k =
    Returns-bind _ (get_elem?-Returns (All NoComma) lists 0 (omega arith) k.1) λ kex p0.
      Returns-bind _ (get_elem?-Returns (All NoComma) lists 1 (omega arith) k.1) λ keys p1.
        Returns-bind _ (get_elem?-Returns (All NoComma) lists 2 (omega arith) k.1) λ ciphers p2.
          Returns-bind _ (get_elem?-Returns (All NoComma) lists 4 (omega arith) k.1) λ macs p4.
            Returns-bind _ (get_elem?-Returns (All NoComma) lists 6 (omega arith) k.1)
              λ compression p6. returns (record {
                version = inr version;
                unparsed = inl refl;
                names = (p0, (p1, (p2, (p4, (p6, tt)))));
              })

module _ (banner : Bytes) (version : IsVersion banner) where
  parse_payload_lem :
      (payload : Bytes) → IsInput payload → Returns IsHello (parse_payload banner payload)
  unfolding parse_payload
  parse_payload_lem payload h =
      let short = only_banner-IsHello banner version in
      Returns-if (ltb (length payload) 17) (λ _. returns short)
        λ long. Returns-bind _ (get_elem?-Returns IsByte payload 0 (ground arith) h.0) λ type _.
          Returns-if (not (type == msg_kex_init)) (λ _. returns short)
            λ _.
              Returns-bind _
                (slice-Returns IsByte payload 17 (length payload) (ground arith) (omega arith) h.0)
                λ p r.
                  Returns-bind _ (read_lists_lem 10 p (r.0, omega arith)) (fill_lem banner version)

  parse_packet_lem : (rest : Bytes) → IsInput rest → Returns IsHello (parse_packet banner rest)
  unfolding parse_packet
  parse_packet_lem rest h =
      let short = only_banner-IsHello banner version in
      Returns-if (ltb (length rest) 6) (λ _. returns short)
        λ long.
          Returns-bind _
            (Returns-bind _ (slice-Returns IsByte rest 0 4 (omega arith) (ground arith) h.0)
              big_uint32_lem)
            λ packet_len _.
              Returns-bind _ (get_elem?-Returns IsByte rest 4 (ground arith) h.0) λ pad_len _.
                let payload_len = packet_len - pad_len - 1 in
                Returns-if (ltb packet_len 2 || ltb (length rest - 4) packet_len)
                  (λ _. returns short)
                  λ _.
                    Returns-if (leb packet_len (pad_len + 1) || ltb (length rest) (5 + payload_len))
                      (λ _. returns short)
                      λ fits.
                        Returns-bind _
                          (slice-Returns IsByte rest 5 (5 + payload_len) (omega arith)
                            (ground arith) h.0)
                          λ payload r. parse_payload_lem payload (r.0, ground arith)

parse_rest_lem :
    (found : Option (Bytes × Bytes)) → IsFound found → Returns IsHello (parse_rest found)
unfolding parse_rest
parse_rest_lem none h =
    returns
      (record { version = inl refl; unparsed = inr refl; names = (tt, (tt, (tt, (tt, (tt, tt))))) })
parse_rest_lem (some (banner, rest)) h = parse_packet_lem banner h.0 rest h.1

-- On any bytes, fewer than 2^32, the parser returns (no index or slice is out of range, and the
-- loop over the lines ends): either nothing is recovered or the banner begins with "SSH-", no list
-- is filled unless `Parsed` is set, and no name has a comma.
pub parse_hello-Returns :
    (buf : Bytes)
    → All IsByte buf
    → length buf < 2 ^ 32
    → (h : ClientHello) × (parse_hello buf ≡ some h) × IsHello h
unfolding parse_hello
parse_hello-Returns buf bytes short = Returns-some (
    Returns-bind parse_rest (find_banner_lem (length buf + 1) buf (omega arith) (bytes, short))
      parse_rest_lem)
