-- ===== src/Telnet/Lines.antt =====
-- `readLine` ends, and what it accepts as a line.
use honeynet.Base.{
  is_empty, ℕ, zero, suc, ◌+◌, ◌-◌, ◌≤◌, ◌<◌, ◌≡◌, ◌≢◌, refl, Bool, true, false, ◌||◌, inl, inr,
  Bool-cases, ltb, ltb→le, leb, Option, none, some, List, [], ◌∷◌, ◌==◌, if◌then◌else◌, length,
  length-append, length-take, All, All-append, All-take, Bytes, arith,
}
use honeynet.Telnet.{
  Arrival, Mode, payload, Next, go, stop, step, ReadResult, read_end, is_full, read_loop, read,
  Conn, Line, line, broken, no_fuel, Edit, edit, enter, edit_byte, first_byte, Round, again,
  finished, after_edit, after_read, round, read_line,
}

read_end_rest : (m : Mode) (out : Bytes) → (read_end m out).rest ≡ []
unfolding read_end
read_end_rest payload out = refl
read_end_rest _ out = refl

read_loop_rest :
    (m : Mode) (left : ℕ) (out : Bytes) (input : List Arrival)
    → length (read_loop m left out input).rest ≤ length input
unfolding read_loop
read_loop_rest m left out [] = elim (Bool-cases (is_full m left)) [
  | inl full ↦ rw full (omega arith)
  | inr room ↦ rw room (rw (read_end_rest m out) (omega arith))
]
read_loop_rest m left out (a ∷ input) = elim (Bool-cases (is_full m left)) [
  | inl full ↦ rw (full, read_loop) (omega arith)
  | inr room ↦
      rw (room, read_loop)
        (behind (step m left out a) (λ m' left' out'. read_loop_rest m' left' out' input))
]
  where
    behind :
        (n : Next)
        → ((m' : Mode) (left' : ℕ) (out' : Bytes)
            → length (read_loop m' left' out' input).rest ≤ length input)
        → length
            (elim n as (λ x. ReadResult) [
              | go left' m' out' ↦ read_loop m' left' out' input
              | stop out' ↦ record { bytes = out'; failed = false; rest = input }
            ]).rest
          ≤ suc (length input)
    behind (go left' m' out') ih = omega (arith, ih m' left' out')
    behind (stop out') ih = omega arith

-- A read that succeeds takes a byte of the input.
read_shrinks :
    (input : List Arrival)
    → (read 1 input).failed ≡ false
    → length (read 1 input).rest < length input
unfolding read read_loop is_full read_end
read_shrinks [] h = cc
read_shrinks (a ∷ input) h = behind (step payload 1 [] a)
  where
    behind :
        (n : Next)
        → length
            (elim n as (λ x. ReadResult) [
              | go left' m' out' ↦ read_loop m' left' out' input
              | stop out' ↦ record { bytes = out'; failed = false; rest = input }
            ]).rest
          < suc (length input)
    behind (go left' m' out') = omega (arith, read_loop_rest m' left' out' input)
    behind (stop out') = omega arith

-- What a line is made of: no control character; telnet's 0xff and the bytes above ASCII are let through.
abbrev pub IsLineByte : ℕ → Type 0
IsLineByte b = (0x20 ≤ b) × (b ≢ 0x7f)

abbrev IsEdit : Bytes → Edit → Type 0
IsEdit buf (edit buf' echoed) = All IsLineByte buf' × (length buf' ≤ length buf + 1)
IsEdit buf enter = buf ≢ []

if-IsEdit :
    (b : Bool) (buf : Bytes) (x y : Edit)
    → (b ≡ true → IsEdit buf x)
    → (b ≡ false → IsEdit buf y)
    → IsEdit buf (if b then x else y)
if-IsEdit true buf x y h k = h refl
if-IsEdit false buf x y h k = k refl

is_empty_lem : (buf : Bytes) → is_empty buf ≡ false → buf ≢ []
is_empty_lem [] h = cc
is_empty_lem (x ∷ buf) h = λ e. cc

edit_byte-IsEdit :
    (echo : Bool) (buf : Bytes) (b : ℕ) → All IsLineByte buf → IsEdit buf (edit_byte echo buf b)
unfolding edit_byte
edit_byte-IsEdit echo buf b h =
    if-IsEdit (b == b'\r' || b == b'\n') buf _ _
      (λ _.
        if-IsEdit (is_empty buf) buf (edit buf []) enter (λ _. (h, omega arith))
          (λ some_left. is_empty_lem buf some_left))
      (λ _.
        if-IsEdit (b == 0x7f || b == 0x08) buf _ _
          (λ _. (
            All-take IsLineByte (length buf - 1) buf h,
            omega (arith, length-take (length buf - 1) buf),
          ))
          (λ no_delete.
            if-IsEdit (leb 0x20 b) buf _ (edit buf [])
              (λ visible. (
                All-append IsLineByte buf (b ∷ []) h (ground arith, tt),
                omega (arith, length-append buf (b ∷ [])),
              ))
              (λ _. (h, omega arith))))

-- A line that is accepted is not empty, has no ASCII control character and at most 512 bytes; a broken
-- one has at most one byte more; the fuel does not run out.
abbrev pub IsResult : Line → Type 0
IsResult (line text) = (text ≢ []) × All IsLineByte text × (length text ≤ 512)
IsResult (broken text) = All IsLineByte text × (length text ≤ 513)
IsResult no_fuel = ⊥

abbrev IsRound : ℕ → Round → Type 0
IsRound size (again buf c) = All IsLineByte buf × (length buf ≤ 512) × (length c.input < size)
IsRound size (finished result c) = IsResult result × (length c.input ≤ size)

after_edit-IsRound :
    (size : ℕ) (buf : Bytes) (c : Conn) (e : Edit)
    → length c.input < size
    → All IsLineByte buf
    → length buf ≤ 512
    → IsEdit buf e
    → IsRound size (after_edit buf c e)
unfolding after_edit
after_edit-IsRound size buf c enter fewer h short some_left = ((some_left, h, short), omega arith)
after_edit-IsRound size buf c (edit buf' echoed) fewer h short (h', grown) =
    elim (Bool-cases (ltb 512 (length buf'))) [
      | inl long ↦ rw long ((h', omega arith), omega arith)
      | inr fits ↦ rw fits (h', ltb→le 512 (length buf') fits, fewer)
    ]

after_read-IsRound :
    (size : ℕ) (echo : Bool) (buf : Bytes) (c : Conn) (o : Option ℕ)
    → length c.input < size
    → All IsLineByte buf
    → length buf ≤ 512
    → IsRound size (after_read echo buf c o)
unfolding after_read
after_read-IsRound size echo buf c none fewer h short = (h, short, fewer)
after_read-IsRound size echo buf c (some b) fewer h short =
    after_edit-IsRound size buf c (edit_byte echo buf b) fewer h short
      (edit_byte-IsEdit echo buf b h)

read_rest : (input : List Arrival) → length (read 1 input).rest ≤ length input
unfolding read
read_rest input = read_loop_rest payload 1 [] input

round-IsRound :
    (echo : Bool) (buf : Bytes) (c : Conn)
    → All IsLineByte buf
    → length buf ≤ 512
    → IsRound (length c.input) (round echo buf c)
unfolding round
round-IsRound echo buf c h short = elim (Bool-cases (read 1 c.input).failed) [
  | inl failed ↦ rw failed ((h, omega arith), read_rest c.input)
  | inr came ↦ rw came (
      after_read-IsRound (length c.input) echo buf _ (first_byte (read 1 c.input).bytes)
        (read_shrinks c.input came) h short)
]

read_line_from :
    (fuel : ℕ) (echo : Bool) (buf : Bytes) (c : Conn)
    → length c.input < fuel
    → All IsLineByte buf
    → length buf ≤ 512
    → IsResult (read_line fuel echo buf c).0
unfolding read_line
read_line_from zero echo buf c enough h short = absurd (omega arith)
read_line_from (suc fuel) echo buf c enough h short =
    behind (round echo buf c) (round-IsRound echo buf c h short)
      (λ buf' c' fewer h' short'. read_line_from fuel echo buf' c' fewer h' short')
  where
    behind :
        (r : Round)
        → IsRound (length c.input) r
        → ((buf' : Bytes) (c' : Conn)
            → length c'.input < fuel
            → All IsLineByte buf'
            → length buf' ≤ 512
            → IsResult (read_line fuel echo buf' c').0)
        → IsResult
            (elim r as (λ x. Line × Conn) [
              | again buf' c' ↦ read_line fuel echo buf' c'
              | finished result c' ↦ (result, c')
            ]).0
    behind (again buf' c') (h', short', fewer) ih = ih buf' c' (omega arith) h' short'
    behind (finished result c') (good, fewer) ih = good

-- `readLine` returns on every input once the fuel is above the number of bytes left; the line is
-- not empty and has at most 512 bytes, none of them an ASCII control character.
pub read_line-IsResult :
    (fuel : ℕ) (echo : Bool) (c : Conn)
    → length c.input < fuel
    → IsResult (read_line fuel echo [] c).0
read_line-IsResult fuel echo c enough = read_line_from fuel echo [] c enough tt (omega arith)
