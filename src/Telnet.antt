-- ===== src/Telnet.antt =====
-- node/internal/protocols/telnet/server.go: the connection (`Read`, `readLine`), the login
-- dialogue and the counters of sessions.
--
-- The bytes of a connection are the arrivals that `bufio.Reader` delivers; each says whether it is
-- the last of what has been buffered (`Buffered() == 0` behind it). The end of the list is the
-- error with which the connection ends.
mod Strip
mod Lines
mod Login
mod Sessions
mod Tests
use honeynet.Base.{
  is_empty, ℕ, zero, suc, ◌+◌, ◌-◌, ◌≤◌, ◌<◌, ◌≡◌, Bool, true, false, not, ◌&&◌, ◌||◌, Option, none,
  some, List, [], ◌∷◌, ◌++◌, ltb, leb, ◌==◌, if◌then◌else◌, length, take, Bytes, codes, equal,
}

abbrev pub iac : ℕ
iac = 255

abbrev pub dont : ℕ
dont = 254

abbrev pub doo : ℕ
doo = 253

abbrev pub wont : ℕ
wont = 252

abbrev pub will : ℕ
will = 251

abbrev pub sb : ℕ
sb = 250

abbrev pub se : ℕ
se = 240

pub record Arrival : Type 0 where
  pub byte : ℕ
  pub drained : Bool

-- Where `Read` stands: at the head of its loop, behind an IAC, before the option byte of a
-- negotiation, in a subnegotiation, behind an IAC in there.
pub data Mode : Type 0 where
  payload command option sub sub_iac : Mode

-- What a byte does: the loop goes on with the number of bytes that the buffer still takes, the
-- mode and the bytes delivered, or `Read` returns.
pub data Next : Type 0 where
  go : ℕ → Mode → Bytes → Next
  stop : Bytes → Next

step_payload : ℕ → Bytes → Arrival → Next
step_payload left out a =
    if a.byte == iac
    then go left command out
    else if a.byte == 0
    then go left payload out
    else if a.drained
    then stop (out ++ a.byte ∷ [])
    else go (left - 1) payload (out ++ a.byte ∷ [])

step_command : ℕ → Bytes → ℕ → Next
step_command left out cmd =
    if cmd == will || cmd == wont || cmd == doo || cmd == dont
    then go left option out
    else if cmd == sb
    then go left sub out
    else if cmd == iac
    then go (left - 1) payload (out ++ iac ∷ [])
    else go left payload out

pub step : Mode → ℕ → Bytes → Arrival → Next
step payload left out a = step_payload left out a
step command left out a = step_command left out a.byte
step option left out a = go left payload out
step sub left out a = go left (if a.byte == iac then sub_iac else sub) out
step sub_iac left out a = go left (if a.byte == se then payload else sub) out

-- `(n, err)` with the bytes put into the buffer, and the arrivals not read.
pub record ReadResult : Type 0 where
  pub bytes : Bytes
  pub failed : Bool
  pub rest : List Arrival

-- A `ReadByte` that fails.
pub read_end : Mode → Bytes → ReadResult
read_end payload out = record { bytes = out; failed = is_empty out; rest = [] }
read_end _ out = record { bytes = out; failed = true; rest = [] }

-- `n < len(p)` at the head of the loop.
pub is_full : Mode → ℕ → Bool
is_full payload left = left == 0
is_full _ left = false

pub read_loop : Mode → ℕ → Bytes → List Arrival → ReadResult
read_loop m left out [] =
    if is_full m left then record { bytes = out; failed = false; rest = [] } else read_end m out
read_loop m left out (a ∷ input) = elim (is_full m left) [
  | true ↦ record { bytes = out; failed = false; rest = a ∷ input }
  | false ↦ elim (step m left out a) [
    | go left' m' out' ↦ read_loop m' left' out' input
    | stop out' ↦ record { bytes = out'; failed = false; rest = input }
  ]
]

-- `Read` into a buffer of `cap` bytes.
pub read : ℕ → List Arrival → ReadResult
read cap input = read_loop payload cap [] input

pub record Conn : Type 0 where
  pub input : List Arrival
  pub sent : Bytes

abbrev pub write : Conn → Bytes → Conn
write c text = record c { sent = c.sent ++ text }

-- The result of `readLine`: a line, the line so far with an error, or no fuel.
pub data Line : Type 0 where
  line : Bytes → Line
  broken : Bytes → Line
  no_fuel : Line

-- What a byte of the line does: the buffer behind it, and the bytes echoed; or the end of the line.
pub data Edit : Type 0 where
  edit : Bytes → Bytes → Edit
  enter : Edit

-- `buf[:len(buf)-1]`
abbrev pub drop_last : Bytes → Bytes
drop_last buf = take (length buf - 1) buf

pub edit_byte : Bool → Bytes → ℕ → Edit
edit_byte echo buf b =
    if b == b'\r' || b == b'\n'
    then (if is_empty buf then edit buf [] else enter)
    else if b == 0x7f || b == 0x08
    then edit (drop_last buf) (if not (is_empty buf) && echo then 0x08 ∷ b' ' ∷ 0x08 ∷ [] else [])
    else if leb 0x20 b
    then edit (buf ++ b ∷ []) (if echo then b ∷ [] else [])
    else edit buf []

-- The byte that `one` holds when `Read` has returned it.
pub first_byte : Bytes → Option ℕ
first_byte [] = none
first_byte (b ∷ _) = some b

-- One round of the loop of `readLine`: another one with this buffer, or the end.
pub data Round : Type 0 where
  again : Bytes → Conn → Round
  finished : Line → Conn → Round

after_edit : Bytes → Conn → Edit → Round
after_edit buf c enter = finished (line buf) (write c (codes "\r\n"))
after_edit buf c (edit buf' echoed) =
    if ltb 512 (length buf')
    then finished (broken buf') (write c echoed)
    else again buf' (write c echoed)

after_read : Bool → Bytes → Conn → Option ℕ → Round
after_read echo buf c none = again buf c
after_read echo buf c (some b) = after_edit buf c (edit_byte echo buf b)

pub round : Bool → Bytes → Conn → Round
round echo buf c =
    let r = read 1 c.input in
    let c' = record c { input = r.rest } in
    if r.failed then finished (broken buf) c' else after_read echo buf c' (first_byte r.bytes)

pub read_line : ℕ → Bool → Bytes → Conn → Line × Conn
read_line zero echo buf c = (no_fuel, c)
read_line (suc fuel) echo buf c = elim (round echo buf c) [
  | again buf' c' ↦ read_line fuel echo buf' c'
  | finished result c' ↦ (result, c')
]
