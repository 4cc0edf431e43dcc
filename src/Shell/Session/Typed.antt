-- ===== src/Shell/Session/Typed.antt =====
-- A line of printable bytes, typed or pasted in any pieces, is what `readLine` returns.
use honeynet.Base.{
  ℕ, ◌+◌, ◌-◌, ◌≤◌, ◌<◌, ◌≡◌, refl, sym, ap, ◌∙◌, Bool, false, ◌||◌, Option, none, some, List, [],
  ◌∷◌, ◌++◌, arith, ltb, append-nil, append_assoc, length, length-append, All, Bytes, codes,
  is_empty, encode, encode-ascii, IsAscii, All-append, encode_rune-low,
}
use honeynet.Shell.Session.{
  Shell, Line, print, edits, press, Typing, entered, typing, type_bytes, Input, arrives,
  count_printable, note_read, note_bulk, add_delta, left, eof, ReadLine, returned, read_line,
  new_line,
}

abbrev pub IsPrintable : ℕ → Type 0
IsPrintable b = (0x20 ≤ b) × (b < 0x7f)

abbrev typed : Line → Bytes → Line
typed l text = record l { buf = l.buf ++ text }

press-printable :
    (s : Shell) (l : Line) (b : ℕ) (behind : Bytes)
    → IsPrintable b
    → press s l b behind ≡ some (edits (print s (b ∷ [])) (typed l (b ∷ [])) 0)
unfolding press
press-printable s l b behind (lo, hi) = ground (arith, encode_rune-low b (omega arith))

type_bytes-printable :
    (s : Shell) (l : Line) (text behind : Bytes)
    → All IsPrintable text
    → type_bytes 0 s l (text ++ behind) ≡ type_bytes 0 (print s text) (typed l text) behind
unfolding type_bytes
type_bytes-printable s l [] behind h = rw (append-nil s.output) (rw (append-nil l.buf) refl)
type_bytes-printable s l (b ∷ text) behind h =
    rw (press-printable s l b (text ++ behind) h.0, type_bytes)
      (type_bytes-printable (print s (b ∷ [])) (typed l (b ∷ [])) text behind h.1
        ∙ rw (append_assoc s.output (b ∷ []) text) (rw (append_assoc l.buf (b ∷ []) text) refl))

-- The pieces in which a line arrives, with the time of each.
abbrev pub IsPiece : Bytes × ℕ → Type 0
IsPiece (bs, gap) = (is_empty bs ≡ false) × All IsPrintable bs

unfoldable pub type_pieces : List (Bytes × ℕ) → Input → Input
type_pieces [] last = last
type_pieces ((bs, gap) ∷ pieces) last = arrives bs gap (type_pieces pieces last)

unfoldable pub text_of : List (Bytes × ℕ) → Bytes
text_of [] = []
text_of ((bs, gap) ∷ pieces) = bs ++ text_of pieces

unfoldable pub is_pasted : List (Bytes × ℕ) → Bool
is_pasted [] = false
is_pasted ((bs, gap) ∷ pieces) = ltb 2 (count_printable bs) || is_pasted pieces

-- What is returned of a line that is typed behind what the buffer has.
pub record IsTyped (s : Shell) (l : Line) (text : Bytes) (pasted : Bool) (rest : Input)
    (r : Option ReadLine) : Type 0 where
  pub result : ReadLine
  pub returns : r ≡ some result
  pub is_line : result.line ≡ encode (l.buf ++ text)
  pub is_bulk : result.bulk ≡ (l.bulk || pasted)
  pub no_error : result.error ≡ none
  pub is_rest : result.rest ≡ rest
  pub is_echo : result.shell.output ≡ s.output ++ text ++ codes "\r\n"

-- The shell and the line behind the bookkeeping of a read.
abbrev counted : Shell → ℕ → Bytes → Shell
counted s gap bs = record s { clock = s.clock + gap; in_bytes = s.in_bytes + length bs }

abbrev noted : Shell → Line → ℕ → Bytes → Line
noted s l gap bs =
    note_bulk
      (record l { last = s.clock + gap; deltas = add_delta (s.clock + gap - l.last) l.deltas }) bs

-- What becomes of the bytes of a read.
abbrev resume : Input → Option Typing → Option ReadLine
resume rest o = elim o [
  | none ↦ none
  | some (entered u k) ↦ some (returned u k k.buf none rest)
  | some (left u k) ↦ some (returned u k [] (some eof) rest)
  | some (typing u k) ↦ read_line u k rest
]

read_line-arrives :
    (s : Shell) (l : Line) (bs : Bytes) (gap : ℕ) (rest : Input)
    → is_empty bs ≡ false
    → s.in_bytes + length bs ≤ s.lim.max_input_bytes
    → read_line s l (arrives bs gap rest)
      ≡ resume rest (type_bytes 0 (counted s gap bs) (noted s l gap bs) bs)
unfolding read_line note_read
read_line-arrives s l bs gap rest filled fits =
    let bound : ltb s.lim.max_input_bytes (s.in_bytes + length bs) ≡ false = ground arith in
    rw (filled, read_line) (rw (bound, read_line) refl)

is_empty-append : (text : Bytes) (c : ℕ) (behind : Bytes) → is_empty (text ++ c ∷ behind) ≡ false
is_empty-append [] c behind = refl
is_empty-append (b ∷ text) c behind = refl

-- The piece with the carriage return.
read_line-last :
    (s : Shell) (l : Line) (text behind : Bytes) (gap : ℕ) (rest : Input)
    → All IsPrintable text
    → s.in_bytes + length (text ++ b'\r' ∷ behind) ≤ s.lim.max_input_bytes
    → IsTyped s l text
        (ltb 2 (count_printable (text ++ b'\r' ∷ behind)))
        rest
        (read_line s l (arrives (text ++ b'\r' ∷ behind) gap rest))
unfolding type_bytes press
read_line-last s l text behind gap rest h fits =
    let bs = text ++ b'\r' ∷ behind in
    let t = print (counted s gap bs) text in
    let m = typed (noted s l gap bs) text in
    record {
      result = returned (print t (codes "\r\n")) m m.buf none rest;
      returns =
          read_line-arrives s l bs gap rest (is_empty-append text b'\r' behind) fits
          ∙ ap (resume rest)
              (type_bytes-printable (counted s gap bs) (noted s l gap bs) text (b'\r' ∷ behind) h);
      is_line = refl;
      is_bulk = refl;
      no_error = refl;
      is_rest = refl;
      is_echo = refl;
    }

-- A piece in front of it.
read_line-piece :
    (s : Shell) (l : Line) (bs : Bytes) (gap : ℕ) (rest : Input)
    → IsPiece (bs, gap)
    → s.in_bytes + length bs ≤ s.lim.max_input_bytes
    → read_line s l (arrives bs gap rest)
      ≡ read_line (print (counted s gap bs) bs) (typed (noted s l gap bs) bs) rest
unfolding type_bytes
read_line-piece s l bs gap rest (filled, h) fits =
    read_line-arrives s l bs gap rest filled fits
    ∙ ap (λ text. resume rest (type_bytes 0 (counted s gap bs) (noted s l gap bs) text))
        (sym (append-nil bs))
    ∙ ap (resume rest) (type_bytes-printable (counted s gap bs) (noted s l gap bs) bs [] h)

or_assoc : (a b c d : Bool) → ((a || b) || (c || d)) ≡ (a || ((b || c) || d))
or_assoc a b c d = ground arith

regroup : (a b c d : Bytes) → (a ++ b) ++ (c ++ d) ≡ a ++ ((b ++ c) ++ d)
regroup a b c d = append_assoc a b (c ++ d) ∙ ap (λ x. a ++ x) (sym (append_assoc b c d))

read_line-IsTyped :
    (s : Shell) (l : Line) (pieces : List (Bytes × ℕ)) (text behind : Bytes) (gap : ℕ)
    (rest : Input)
    → All IsPiece pieces
    → All IsPrintable text
    → s.in_bytes + length (text_of pieces) + length (text ++ b'\r' ∷ behind) ≤ s.lim.max_input_bytes
    → IsTyped s l
        (text_of pieces ++ text)
        (is_pasted pieces || ltb 2 (count_printable (text ++ b'\r' ∷ behind)))
        rest
        (read_line s l (type_pieces pieces (arrives (text ++ b'\r' ∷ behind) gap rest)))
unfolding type_pieces text_of is_pasted
read_line-IsTyped s l [] text behind gap rest h k fits =
    read_line-last s l text behind gap rest k (omega arith)
read_line-IsTyped s l ((bs, wait) ∷ pieces) text behind gap rest h k fits =
    let long = length-append bs (text_of pieces) in
    let t = print (counted s wait bs) bs in
    let m = typed (noted s l wait bs) bs in
    let later =
      read_line-IsTyped t m pieces text behind gap rest h.1 k (omega (arith, long, fits)) in
    let step =
      read_line-piece s l bs wait (type_pieces pieces (arrives (text ++ b'\r' ∷ behind) gap rest))
        h.0 (omega (arith, long, fits)) in
    record {
      result = later.result;
      returns = step ∙ later.returns;
      is_line = later.is_line ∙ ap encode (regroup l.buf bs (text_of pieces) text);
      is_bulk =
          later.is_bulk
          ∙ or_assoc l.bulk (ltb 2 (count_printable bs)) (is_pasted pieces)
              (ltb 2 (count_printable (text ++ b'\r' ∷ behind)));
      no_error = later.no_error;
      is_rest = later.is_rest;
      is_echo =
          later.is_echo ∙ ap (λ x. x ++ codes "\r\n") (regroup s.output bs (text_of pieces) text);
    }

All-IsAscii : (text : Bytes) → All IsPrintable text → All IsAscii text
All-IsAscii [] h = tt
All-IsAscii (b ∷ text) h = (omega (arith, h.0.1), All-IsAscii text h.1)

All-text_of : (pieces : List (Bytes × ℕ)) → All IsPiece pieces → All IsPrintable (text_of pieces)
unfolding text_of
All-text_of [] h = tt
All-text_of ((bs, gap) ∷ pieces) h =
    All-append IsPrintable bs (text_of pieces) h.0.1 (All-text_of pieces h.1)

-- A line of printable bytes that arrives in any pieces, the last of them with a carriage return
-- behind it and whatever the client sent along, is returned and echoed as it is, noted as pasted
-- where a read has more than two printable bytes, and what was sent along is dropped.
pub read_line-typed :
    (s : Shell) (pieces : List (Bytes × ℕ)) (text behind : Bytes) (gap : ℕ) (rest : Input)
    → All IsPiece pieces
    → All IsPrintable text
    → s.in_bytes + length (text_of pieces) + length (text ++ b'\r' ∷ behind) ≤ s.lim.max_input_bytes
    → (r : ReadLine) × (read_line s
          (new_line s)
          (type_pieces pieces (arrives (text ++ b'\r' ∷ behind) gap rest))
        ≡ some r)
      × (r.line ≡ text_of pieces ++ text)
      × (r.bulk ≡ (is_pasted pieces || ltb 2 (count_printable (text ++ b'\r' ∷ behind))))
      × (r.error ≡ none)
      × (r.rest ≡ rest)
      × (r.shell.output ≡ s.output ++ (text_of pieces ++ text) ++ codes "\r\n")
read_line-typed s pieces text behind gap rest h k fits =
    let r = read_line-IsTyped s (new_line s) pieces text behind gap rest h k fits in
    let ascii =
      All-append IsAscii (text_of pieces) text (All-IsAscii (text_of pieces) (All-text_of pieces h))
        (All-IsAscii text k) in
    (
      r.result,
      r.returns,
      r.is_line ∙ encode-ascii (text_of pieces ++ text) ascii,
      r.is_bulk,
      r.no_error,
      r.is_rest,
      r.is_echo,
    )
