-- ===== src/Shell/Parser.antt =====
-- node/internal/shell/parser.go: `tokenize` and `Parse`. The scanner walks the runes of the line;
-- what an iteration takes beyond its own rune (`i++`, the inner loops of the quotes) is the mode
-- in which the next rune is read.
mod Quoting
mod Shape
mod Words
mod Escapes
pub mod Redirected
mod Tests
use honeynet.Base.{
  is_empty, ℕ, ◌≡◌, refl, Bool, true, false, not, ◌&&◌, ◌||◌, List, [], ◌∷◌, ◌++◌, ◌==◌,
  if◌then◌else◌, Bytes, codes, equal, runes, encode_rune, is_space,
}

pub record Token : Type 0 where
  pub text : Bytes
  pub quoted : Bool

-- `cur`, `curQuoted` and `hasCur` with the tokens emitted so far.
pub record Scan : Type 0 where
  pub out : List Token
  pub cur : Bytes
  pub cur_quoted : Bool
  pub has_cur : Bool

abbrev pub start : Scan
start = record { out = []; cur = []; cur_quoted = false; has_cur = false }

abbrev pub emit : Scan → Scan
emit s =
    if s.has_cur
    then record {
      out = s.out ++ (record { text = s.cur; quoted = s.cur_quoted } ∷ []);
      cur = [];
      cur_quoted = false;
      has_cur = false;
    }
    else s

-- `cur.WriteRune(c)`
abbrev pub write_rune : Scan → ℕ → Scan
write_rune s c = record s { cur = s.cur ++ encode_rune c }

-- `out = append(out, token{text: …})` of an operator.
abbrev pub operator : Scan → Bytes → Scan
operator s op = record s { out = s.out ++ (record { text = op; quoted = false } ∷ []) }

abbrev quote : Scan → Scan
quote s = record s { has_cur = true; cur_quoted = true }

pub data Mode : Type 0 where
  plain : Mode
  -- behind a backslash of the plain text, and of a double quote
  escaped double_escaped : Mode
  single double : Mode
  -- the second rune of `||`, `&&` and `>>`
  skip : Mode

-- `i+1 < len(runes)`, and `i+1 < len(runes) && runes[i+1] == c`
abbrev more : List ℕ → Bool
more [] = false
more (_ ∷ _) = true

abbrev next_is : ℕ → List ℕ → Bool
next_is c [] = false
next_is c (d ∷ _) = d == c

-- An operator of one rune, or of two.
double_operator : Scan → ℕ → List ℕ → Mode × Scan
double_operator s c rest =
    if next_is c rest then (skip, operator s (c ∷ c ∷ [])) else (plain, operator s (c ∷ []))

step_plain : Scan → ℕ → List ℕ → Mode × Scan
step_plain s c rest =
    if c == b'\\' && more rest
    then (escaped, s)
    else if c == b'\''
    then (single, quote s)
    else if c == b'"'
    then (double, quote s)
    else if is_space c
    then (plain, emit s)
    else if c == b'|' || c == b'&'
    then double_operator (emit s) c rest
    else if c == b';'
    then (plain, operator (emit s) (codes ";"))
    else if c == b'>'
    then double_operator (emit s) c rest
    else if c == b'<'
    then (plain, operator (emit s) (codes "<"))
    else (plain, record (write_rune s c) { has_cur = true })

step_double : Scan → ℕ → List ℕ → Mode × Scan
step_double s c rest =
    if c == b'"'
    then (plain, s)
    else if c == b'\\' && more rest
    then (double_escaped, s)
    else (double, write_rune s c)

pub step : Mode → Scan → ℕ → List ℕ → Mode × Scan
step plain s c rest = step_plain s c rest
step escaped s c rest = (plain, record (write_rune s c) { has_cur = true })
step single s c rest = if c == b'\'' then (plain, s) else (single, write_rune s c)
step double s c rest = step_double s c rest
step double_escaped s c rest = (double, write_rune s c)
step skip s c rest = (plain, s)

-- The loop over the runes, and the `emit` behind it.
pub scan : Mode → Scan → List ℕ → List Token
scan m s [] = (emit s).out
scan m s (c ∷ rest) = scan (step m s c rest).0 (step m s c rest).1 rest

pub tokenize : Bytes → List Token
tokenize s = scan plain start (runes s)

pub record Stage : Type 0 where
  pub argv : List Bytes
  pub redirect_out : Bytes
  pub redirect_append : Bytes
  pub redirect_in : Bytes
  pub heredoc : Bytes

pub record Pipeline : Type 0 where
  pub stages : List Stage
  pub next : Bytes
  pub background : Bool

abbrev pub no_stage : Stage
no_stage = record {
  argv = [];
  redirect_out = [];
  redirect_append = [];
  redirect_in = [];
  heredoc = [];
}

abbrev pub no_pipeline : Pipeline
no_pipeline = record { stages = []; next = []; background = false }

-- The variables of `Parse`.
pub record Parse : Type 0 where
  pub pipelines : List Pipeline
  pub cur : Pipeline
  pub stage : Stage
  pub pending_redirect : Bytes

-- `s == ""`, and `len(s) == 0` of a slice.
pub flush_stage : Parse → Parse
flush_stage p =
    let st = p.stage in
    let kept = p.cur.stages ++ st ∷ [] in
    let has_any =
      not (is_empty st.argv)
      || not (is_empty st.redirect_out)
      || not (is_empty st.redirect_append) in
    record p {
      cur = (if has_any then record (p.cur) { stages = kept } else p.cur);
      stage = no_stage;
    }

close_pipeline : Parse → Bytes → Parse
close_pipeline p op = record p {
  pipelines =
      (if is_empty p.cur.stages
        then p.pipelines
        else p.pipelines ++ record (p.cur) { next = op } ∷ []);
  cur = no_pipeline;
}

pub flush_pipeline : Parse → Bytes → Parse
flush_pipeline p op = close_pipeline (flush_stage p) op

-- `switch pendingRedirect`
redirect : Stage → Bytes → Bytes → Stage
redirect st pending target =
    if equal pending (codes ">")
    then record st { redirect_out = target }
    else if equal pending (codes ">>")
    then record st { redirect_append = target }
    else if equal pending (codes "<")
    then record st { redirect_in = target }
    else st

push_word : Parse → Bytes → Parse
push_word p word = record p { stage = record (p.stage) { argv = p.stage.argv ++ word ∷ [] } }

-- `switch t.text`, for a token that is not quoted.
operate : Parse → Bytes → Parse
operate p text =
    if equal text (codes "|")
    then flush_stage p
    else if equal text (codes ";") || equal text (codes "\n")
    then flush_pipeline p (codes ";")
    else if equal text (codes "&&")
    then flush_pipeline p (codes "&&")
    else if equal text (codes "||")
    then flush_pipeline p (codes "||")
    else if equal text (codes "&")
    then flush_pipeline (record p { cur = record (p.cur) { background = true } }) (codes ";")
    else if equal text (codes ">") || equal text (codes ">>") || equal text (codes "<")
    then record p { pending_redirect = text }
    else push_word p text

pub accept : Parse → Token → Parse
accept p t =
    if not (is_empty p.pending_redirect)
    then record p { stage = redirect p.stage p.pending_redirect t.text; pending_redirect = [] }
    else if t.quoted
    then push_word p t.text
    else operate p t.text

pub accept_all : Parse → List Token → Parse
accept_all p [] = p
accept_all p (t ∷ ts) = accept_all (accept p t) ts

abbrev pub initial : Parse
initial = record { pipelines = []; cur = no_pipeline; stage = no_stage; pending_redirect = [] }

pub parse_tokens : List Token → List Pipeline
parse_tokens [] = []
parse_tokens (t ∷ ts) = (flush_pipeline (accept_all initial (t ∷ ts)) []).pipelines

pub parse : Bytes → List Pipeline
parse line = parse_tokens (tokenize line)
