-- ===== src/Shell/Parser/Quoting.antt =====
-- A line of double-quoted words is tokenized into those words, and parsed as one command.
use honeynet.Base.{
  ℕ, ◌≡◌, refl, sym, ◌∙◌, true, false, ◌||◌, inl, inr, Bool-cases, List, [], ◌∷◌, ◌++◌, map,
  append-nil, append_assoc, ◌==◌, if◌then◌else◌, Bytes, encode, runes-encode, is_space, IsRune, All,
  All-append, arith,
}
use honeynet.Shell.Parser.{
  Token, Scan, plain, double, step, step_double, scan, tokenize, no_stage, Parse, accept,
  accept_all, initial, flush_stage, flush_pipeline, close_pipeline, parse_tokens, parse, step_plain,
  emit, write_rune, push_word,
}

-- What a client types for a rune between double quotes.
abbrev pub hide : ℕ → List ℕ
hide c = if c == b'"' || c == b'\\' then b'\\' ∷ c ∷ [] else c ∷ []

abbrev pub hide_all : List ℕ → List ℕ
hide_all [] = []
hide_all (c ∷ w) = hide c ++ hide_all w

-- Each word between double quotes, with a blank behind it.
abbrev pub quote_line : List (List ℕ) → List ℕ
quote_line [] = []
quote_line (w ∷ ws) = b'"' ∷ (hide_all w ++ (b'"' ∷ b' ' ∷ quote_line ws))

abbrev pub word : List ℕ → Token
word w = record { text = encode w; quoted = true }

scan-hide :
    (s : Scan) (c : ℕ) (rest : List ℕ)
    → scan double s (hide c ++ rest) ≡ scan double (write_rune s c) rest
unfolding scan step step_double
scan-hide s c rest = ground arith

scan-hide_all :
    (s : Scan) (w rest : List ℕ)
    → scan double s (hide_all w ++ (b'"' ∷ rest))
      ≡ scan plain (record s { cur = s.cur ++ encode w }) rest
unfolding encode
scan-hide_all s [] rest = rw append-nil (unfold scan step step_double in refl)
scan-hide_all s (c ∷ w) rest =
    rw (append_assoc (hide c) (hide_all w) (b'"' ∷ rest))
      (scan-hide s c _ ∙ scan-hide_all (write_rune s c) w rest ∙ rw append_assoc)

abbrev between : List Token → Scan
between out = record { out = out; cur = []; cur_quoted = false; has_cur = false }

scan_open :
    (out : List Token) (rest : List ℕ)
    → scan plain (between out) (b'"' ∷ rest)
      ≡ scan double (record { out = out; cur = []; cur_quoted = true; has_cur = true }) rest
unfolding scan step step_plain
scan_open out rest = refl

scan_blank : (s : Scan) (rest : List ℕ) → scan plain s (b' ' ∷ rest) ≡ scan plain (emit s) rest
unfolding scan step step_plain is_space
scan_blank s rest = refl

scan-quote_line :
    (out : List Token) (ws : List (List ℕ))
    → scan plain (between out) (quote_line ws) ≡ out ++ map word ws
scan-quote_line out [] = unfold scan in sym (append-nil out)
scan-quote_line out (w ∷ ws) =
    scan_open out _
    ∙ scan-hide_all _ w (b' ' ∷ quote_line ws)
    ∙ scan_blank _ (quote_line ws)
    ∙ scan-quote_line (out ++ word w ∷ []) ws
    ∙ append_assoc out (word w ∷ []) (map word ws)

hide-IsRune : (c : ℕ) → IsRune c → All IsRune (hide c)
hide-IsRune c h = elim (Bool-cases (c == b'"' || c == b'\\')) [
  | inl e ↦ rw e (omega arith, (h, tt))
  | inr e ↦ rw e (h, tt)
]

hide_all-IsRune : (w : List ℕ) → All IsRune w → All IsRune (hide_all w)
hide_all-IsRune [] h = tt
hide_all-IsRune (c ∷ w) h =
    All-append IsRune (hide c) (hide_all w) (hide-IsRune c h.0) (hide_all-IsRune w h.1)

quote_line-IsRune : (ws : List (List ℕ)) → All (All IsRune) ws → All IsRune (quote_line ws)
quote_line-IsRune [] h = tt
quote_line-IsRune (w ∷ ws) h = (
  omega arith,
  All-append IsRune (hide_all w) _ (hide_all-IsRune w h.0)
      (omega arith, (omega arith, quote_line-IsRune ws h.1)),
)

-- Double quotes with a backslash before each quote and backslash protect any words: the line is
-- tokenized into exactly these words, each marked as quoted.
pub tokenize-quote_line :
    (ws : List (List ℕ)) → All (All IsRune) ws → tokenize (encode (quote_line ws)) ≡ map word ws
unfolding tokenize
tokenize-quote_line ws h =
    rw (runes-encode (quote_line ws) (quote_line-IsRune ws h)) (scan-quote_line [] ws)

abbrev reading : Parse → List Bytes → Parse
reading p argv = record p { stage = record (p.stage) { argv = argv }; pending_redirect = [] }

accept_all-word :
    (p : Parse) (argv : List Bytes) (ws : List (List ℕ))
    → accept_all (reading p argv) (map word ws) ≡ reading p (argv ++ map encode ws)
unfolding accept_all accept push_word
accept_all-word p argv [] = rw append-nil
accept_all-word p argv (w ∷ ws) = accept_all-word p (argv ++ encode w ∷ []) ws ∙ rw append_assoc

-- Such a line is parsed as one pipeline of one command with these words as its argv.
pub parse-quote_line :
    (w : List ℕ) (ws : List (List ℕ))
    → All (All IsRune) (w ∷ ws)
    → parse (encode (quote_line (w ∷ ws)))
      ≡ record {
        stages = record no_stage { argv = map encode (w ∷ ws) } ∷ [];
        next = [];
        background = false;
      }
        ∷ []
unfolding parse parse_tokens flush_pipeline flush_stage close_pipeline
parse-quote_line w ws h =
    rw (tokenize-quote_line (w ∷ ws) h) (rw (accept_all-word initial [] (w ∷ ws)))
