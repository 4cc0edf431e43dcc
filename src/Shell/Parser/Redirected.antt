-- ===== src/Shell/Parser/Redirected.antt =====
-- A line of plain words, a word between single quotes and a redirection is parsed as typed.
use honeynet.Base.{
  ℕ, ◌<◌, ◌≡◌, ◌≢◌, refl, ap, ◌∙◌, Bool, true, false, not, ◌&&◌, ◌||◌, List, [], ◌∷◌, ◌++◌,
  append-nil, append_assoc, ◌==◌, ltb, Bytes, codes, equal, is_empty, IsAscii, runes-ascii,
  encode_rune, encode_rune-low, is_space, All, All-append, arith,
}
use honeynet.Shell.Parser.{
  Token, Scan, plain, single, step, step_plain, scan, tokenize, no_stage, Stage, accept, accept_all,
  flush_stage, flush_pipeline, close_pipeline, parse_tokens, parse, emit, start, push_word,
  double_operator, operate, redirect,
}

-- A printable ASCII character that the shell takes as it is.
abbrev pub is_word_char : ℕ → Bool
is_word_char c =
    ltb 0x20 c
    && ltb c 0x7f
    && not (
        c == b'\\'
        || c == b'\''
        || c == b'"'
        || c == b'|'
        || c == b'&'
        || c == b';'
        || c == b'>'
        || c == b'<')

abbrev pub IsWordChar : ℕ → Type 0
IsWordChar c = is_word_char c ≡ true

-- What may stand between single quotes, of ASCII.
abbrev pub IsQuotable : ℕ → Type 0
IsQuotable c = (c < 0x80) × (c ≢ b'\'')

is_space-word_char : (c : ℕ) → IsWordChar c → is_space c ≡ false
unfolding is_space
is_space-word_char c h = ground arith

abbrev typed : Scan → Bytes → Scan
typed s w = record s { cur = s.cur ++ w; has_cur = true }

step_plain-word_char :
    (s : Scan) (c : ℕ) (rest : List ℕ)
    → IsWordChar c
    → step_plain s c rest ≡ (plain, typed s (c ∷ []))
unfolding step_plain double_operator
step_plain-word_char s c rest h =
    let blank = is_space-word_char c h in
    let low : c < 0x80 = ground arith in
    let same = encode_rune-low c low in
    let escape : (c == b'\\') ≡ false = ground arith in
    let single_quote : (c == b'\'') ≡ false = ground arith in
    let double_quote : (c == b'"') ≡ false = ground arith in
    let bar : (c == b'|') ≡ false = ground arith in
    let ampersand : (c == b'&') ≡ false = ground arith in
    let semicolon : (c == b';') ≡ false = ground arith in
    let greater : (c == b'>') ≡ false = ground arith in
    let less : (c == b'<') ≡ false = ground arith in
    rw (escape, single_quote, double_quote, blank, bar, ampersand, semicolon, greater, less, same)
      refl

emit-typed :
    (s : Scan) (c : ℕ) (w : Bytes)
    → s.has_cur ≡ true
    → (emit (record (typed s (c ∷ [])) { cur = (s.cur ++ c ∷ []) ++ w })).out
      ≡ (emit (record s { cur = s.cur ++ c ∷ w })).out
emit-typed s c w e = let whole = append_assoc s.cur (c ∷ []) w in rw (e, whole) refl

scan-word :
    (s : Scan) (w : Bytes)
    → All IsWordChar w
    → s.has_cur ≡ true
    → scan plain s w ≡ (emit (record s { cur = s.cur ++ w })).out
unfolding scan step
scan-word s [] h e = rw append-nil refl
scan-word s (c ∷ w) (h, hs) e =
    rw (step_plain-word_char s c w h) (scan-word (typed s (c ∷ [])) w hs refl ∙ emit-typed s c w e)

step-quotable :
    (s : Scan) (c : ℕ) (rest : List ℕ)
    → IsQuotable c
    → step single s c rest ≡ (single, record s { cur = s.cur ++ c ∷ [] })
unfolding step
step-quotable s c rest (low, other) =
    let apart : (c == b'\'') ≡ false = ground (arith, other) in
    let same = encode_rune-low c low in rw (apart, same) refl

scan-quotable :
    (s : Scan) (w rest : List ℕ)
    → All IsQuotable w
    → scan single s (w ++ b'\'' ∷ rest) ≡ scan plain (record s { cur = s.cur ++ w }) rest
unfolding scan step
scan-quotable s [] rest h = rw append-nil refl
scan-quotable s (c ∷ w) rest (q, h) =
    ap (λ q. scan q.0 q.1 (w ++ b'\'' ∷ rest)) (step-quotable s c (w ++ b'\'' ∷ rest) q)
    ∙ scan-quotable (record s { cur = s.cur ++ c ∷ [] }) w rest h
    ∙ ap (λ cur. scan plain (record s { cur = cur }) rest) (append_assoc s.cur (c ∷ []) w)

-- The scanner behind the quote that opens, and behind the redirection.
abbrev word : Bytes → Token
word text = record { text = text; quoted = false }

abbrev quotation : Bytes → Token
quotation text = record { text = text; quoted = true }

abbrev opened : Scan
opened = record {
  out = word (codes "echo") ∷ word (codes "-ne") ∷ [];
  cur = [];
  cur_quoted = true;
  has_cur = true;
}

abbrev pointed : Bytes → Scan
pointed w = record {
  out = word (codes "echo") ∷ word (codes "-ne") ∷ quotation w ∷ word (codes ">") ∷ [];
  cur = [];
  cur_quoted = false;
  has_cur = false;
}

scan-opened :
    (rest : List ℕ) → scan plain start (codes "echo -ne '" ++ rest) ≡ scan single opened rest
unfolding scan step step_plain is_space encode_rune
scan-opened rest = refl

scan-pointed :
    (w : Bytes) (rest : List ℕ)
    → scan plain (record opened { cur = w }) (codes " > " ++ rest) ≡ scan plain (pointed w) rest
unfolding scan step step_plain double_operator is_space
scan-pointed w rest = refl

-- `echo -ne '…' > path`
abbrev pub echo_line : Bytes → Bytes → Bytes
echo_line text path = codes "echo -ne '" ++ text ++ b'\'' ∷ (codes " > " ++ path)

abbrev pub echo_stage : Bytes → Bytes → Stage
echo_stage text path = record no_stage {
  argv = codes "echo" ∷ codes "-ne" ∷ text ∷ [];
  redirect_out = path;
}

low-word_char : (c : ℕ) → IsWordChar c → IsAscii c
low-word_char c h = ground arith

quotable-IsAscii : (w : Bytes) → All IsQuotable w → All IsAscii w
quotable-IsAscii [] h = tt
quotable-IsAscii (c ∷ w) (q, h) = (q.0, quotable-IsAscii w h)

word-IsAscii : (w : Bytes) → All IsWordChar w → All IsAscii w
word-IsAscii [] h = tt
word-IsAscii (c ∷ w) (q, h) = (low-word_char c q, word-IsAscii w h)

echo_line-IsAscii :
    (text path : Bytes)
    → All IsQuotable text
    → All IsWordChar path
    → All IsAscii (echo_line text path)
echo_line-IsAscii text path quotable written =
    let front : All IsAscii (codes "echo -ne '") = ground arith in
    let middle : All IsAscii (b'\'' ∷ codes " > ") = ground arith in
    All-append IsAscii (codes "echo -ne '") (text ++ b'\'' ∷ (codes " > " ++ path)) front (
      All-append IsAscii text (b'\'' ∷ (codes " > " ++ path)) (quotable-IsAscii text quotable)
        (All-append IsAscii (b'\'' ∷ codes " > ") path middle (word-IsAscii path written)))

tokenize-echo_line :
    (text : Bytes) (c : ℕ) (path : Bytes)
    → All IsQuotable text
    → All IsWordChar (c ∷ path)
    → tokenize (echo_line text (c ∷ path))
      ≡ word (codes "echo")
        ∷ word (codes "-ne")
        ∷ quotation text
        ∷ word (codes ">")
        ∷ word (c ∷ path)
        ∷ []
unfolding tokenize scan step
tokenize-echo_line text c path quotable (first, rest) =
    ap (scan plain start) (
      runes-ascii (echo_line text (c ∷ path))
        (echo_line-IsAscii text (c ∷ path) quotable (first, rest)))
    ∙ scan-opened (text ++ b'\'' ∷ (codes " > " ++ c ∷ path))
    ∙ scan-quotable opened text (codes " > " ++ c ∷ path) quotable
    ∙ scan-pointed text (c ∷ path)
    ∙ rw (step_plain-word_char (pointed text) c path first)
        (scan-word (typed (pointed text) (c ∷ [])) path rest refl)

-- Such a line is one pipeline of one stage, with the text as its last word and its output in the file.
pub parse-echo_line :
    (text path : Bytes)
    → All IsQuotable text
    → All IsWordChar path
    → is_empty path ≡ false
    → parse (echo_line text path)
      ≡ record { stages = echo_stage text path ∷ []; next = []; background = false } ∷ []
unfolding parse accept_all accept operate push_word redirect flush_stage flush_pipeline
    close_pipeline parse_tokens equal
parse-echo_line text [] quotable written filled = absurd (ground arith)
parse-echo_line text (c ∷ path) quotable written filled =
    rw (tokenize-echo_line text c path quotable written) refl
