-- ===== src/Rdp/Clean.antt =====
-- What `sanitize` lets through.
use honeynet.Base.{
  ℕ, ◌≤◌, ◌≡◌, ◌≢◌, refl, true, List, [], ◌∷◌, arith, ltb, inl, inr, Bool-cases, le→ltb, length,
  length-take, All, All-append, All-take, Bytes, runes, encode, encode_rune, encode_rune-high,
  encode_rune-low, runes-ascii, encode-ascii, IsAscii,
}
use honeynet.Rdp.{keeps_rune, keep_runes, sanitize}

-- A byte that is no ASCII control character.
abbrev pub IsClean : ℕ → Type 0
IsClean b = (0x20 ≤ b) × (b ≢ 0x7f)

high-IsClean : (s : Bytes) → All (λ b. 0x80 ≤ b) s → All IsClean s
high-IsClean [] h = tt
high-IsClean (b ∷ s) h = (ground arith, high-IsClean s h.1)

encode_rune-IsClean : (r : ℕ) → keeps_rune r ≡ true → All IsClean (encode_rune r)
unfolding keeps_rune
encode_rune-IsClean r h = elim (Bool-cases (ltb r 0x80)) [
  | inl e ↦ rw (encode_rune-low r (ground arith)) (ground arith)
  | inr e ↦ high-IsClean _ (encode_rune-high r (ground arith))
]

encode-IsClean : (rs : List ℕ) → All IsClean (encode (keep_runes rs))
unfolding keep_runes encode
encode-IsClean [] = tt
encode-IsClean (r ∷ rs) = elim (Bool-cases (keeps_rune r)) [
  | inl e ↦
      rw e (All-append IsClean (encode_rune r) _ (encode_rune-IsClean r e) (encode-IsClean rs))
  | inr e ↦ rw e (encode-IsClean rs)
]

-- A captured string holds no ASCII control character and at most 256 bytes.
pub sanitize-IsClean : (s : Bytes) → All IsClean (sanitize s) × (length (sanitize s) ≤ 256)
unfolding sanitize
sanitize-IsClean s =
    let out = encode (keep_runes (runes s)) in
    elim (Bool-cases (ltb 256 (length out))) [
      | inl e ↦
          rw e (
            All-take IsClean 256 out (encode-IsClean (runes s)),
            omega (arith, length-take 256 out),
          )
      | inr e ↦ rw e (encode-IsClean (runes s), ground arith)
    ]

keep_runes-IsClean : (s : Bytes) → All IsClean s → keep_runes s ≡ s
unfolding keep_runes keeps_rune
keep_runes-IsClean [] h = refl
keep_runes-IsClean (c ∷ s) h = ground (arith, keep_runes-IsClean s h.1)

-- Printable ASCII of at most 256 bytes is kept as it is.
pub sanitize_id : (s : Bytes) → All IsAscii s → All IsClean s → length s ≤ 256 → sanitize s ≡ s
unfolding sanitize
sanitize_id s a c h = rw (runes-ascii s a, keep_runes-IsClean s c, encode-ascii s a, le→ltb _ _ h)
