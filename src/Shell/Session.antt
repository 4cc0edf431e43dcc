-- ===== src/Shell/Session.antt =====
-- node/internal/shell/shell.go: the state of a session, what it writes to the terminal, and how it
-- reads a line. What the hooks are told is the list `events`. The clock stands still while the code
-- computes, and each read says how long it took. An exit code is its 64-bit pattern.
mod Output
mod Typed
mod Tests
pub mod Kept
use honeynet.Base.{
  ℕ, zero, suc, ◌+◌, ◌-◌, ◌/◌, ◌^◌, ◌*◌, Bool, true, false, not, ◌&&◌, ◌||◌, Option, none, some,
  List, [], ◌∷◌, ◌++◌, ◌==◌, ltb, leb, if◌then◌else◌, length, get_elem?, Bytes, codes, equal,
  has_prefix, trim_prefix, is_empty, split_on, runes, encode, encode_rune, find,
}
use honeynet.Vfs.{Fs}

pub record CommandEvent : Type 0 where
  pub raw : Bytes
  pub argv : List Bytes
  pub parse_failed : Bool
  pub cwd_then : Bytes
  pub since_start : ℕ
  pub since_prev : ℕ
  pub keystroke_deltas_ms : List ℕ
  pub bulk_input : Bool
  pub index : ℕ

pub data Event : Type 0 where
  on_command : CommandEvent → Event
  -- the URL, the tool and the line
  on_artifact : Bytes → Bytes → Bytes → Event
  -- the path, the content, the claimed name and the transport
  on_upload : Bytes → Bytes → Bytes → Bytes → Event

-- Which hooks are set.
pub record Hooks : Type 0 where
  pub has_command : Bool
  pub has_artifact : Bool
  pub has_upload : Bool

pub record Limits : Type 0 where
  pub max_commands : ℕ
  pub max_input_bytes : ℕ
  pub max_duration : ℕ

-- `DefaultLimits`, durations in nanoseconds.
abbrev pub default_limits : Limits
default_limits = record {
  max_commands = 500;
  max_input_bytes = 4 * 1024 * 1024;
  max_duration = 30 * 60 * 1000000000;
}

pub record Shell : Type 0 where
  pub hostname : Bytes
  pub fs : Fs
  pub hooks : Hooks
  pub lim : Limits
  pub pty : Bool
  pub user : Bytes
  pub uid : ℕ
  pub gid : ℕ
  pub cwd : Bytes
  pub env : List (Bytes × Bytes)
  pub history : List Bytes
  pub cmd_index : ℕ
  pub exit_code : ℕ
  pub started : ℕ
  pub last_cmd : ℕ
  pub in_bytes : ℕ
  pub exit_flag : Bool
  pub clock : ℕ
  pub output : Bytes
  pub events : List Event

-- `strings.ReplaceAll(str, "\r\n", "\n")`, and back.
pub to_lf : Bytes → Bytes
to_lf [] = []
to_lf (c ∷ str) =
    let rest = to_lf str in if c == b'\r' && has_prefix (codes "\n") str then rest else c ∷ rest

pub to_crlf : Bytes → Bytes
to_crlf [] = []
to_crlf (c ∷ str) = let rest = to_crlf str in if c == b'\n' then b'\r' ∷ c ∷ rest else c ∷ rest

-- `printf`, on what it has formatted.
abbrev pub print : Shell → Bytes → Shell
print s str = record s { output = s.output ++ str }

-- What `write` sends.
pub sent : Bool → Bytes → Bytes
sent pty str = if pty then to_crlf (to_lf str) else str

unfoldable pub write : Shell → Bytes → Shell
write s str = if is_empty str then s else print s (sent s.pty str)

pub errf : Shell → Bytes → Shell
errf s str = write s (str ++ codes "\n")

-- A lookup in a map of strings, empty for a missing key.
abbrev pub lookup_env : Bytes → List (Bytes × Bytes) → Bytes
lookup_env name env = elim (find name env) [ some v ↦ v | none ↦ [] ]

abbrev first_label : List Bytes → Bytes
first_label [] = []
first_label (label ∷ labels) = label

pub displayed : Shell → Bytes
displayed s =
    let home = lookup_env (codes "HOME") s.env in
    if not (equal home (codes "/")) && has_prefix home s.cwd
    then codes "~" ++ trim_prefix home s.cwd
    else s.cwd

pub prompt : Shell → Bytes
prompt s =
    s.user
    ++ codes "@"
    ++ first_label (split_on b'.' s.hostname)
    ++ codes ":"
    ++ displayed s
    ++ (if s.uid == 0 then codes "#" else codes "$")
    ++ codes " "

pub write_prompt : Shell → Shell
write_prompt s = print s (prompt s)

-- The variables of `readLine`; `buf` has runes.
pub record Line : Type 0 where
  pub buf : List ℕ
  pub deltas : List ℕ
  pub bulk : Bool
  pub last : ℕ
  pub hist_pos : ℕ

abbrev pub new_line : Shell → Line
new_line s = record {
  buf = [];
  deltas = [];
  bulk = false;
  last = s.clock;
  hist_pos = length s.history;
}

-- "\b \b" for each rune of the buffer.
pub erase : List ℕ → Bytes
erase [] = []
erase (r ∷ buf) = codes "\u{8} \u{8}" ++ erase buf

pub replace_line : Shell → Line → Bytes → Shell × Line
replace_line s l next = (print s (erase l.buf ++ next), record l { buf = runes next })

-- `buf[:len(buf)-1]`
pub drop_last : List ℕ → List ℕ
drop_last [] = []
drop_last (r ∷ []) = []
drop_last (r ∷ q ∷ buf) = r ∷ drop_last (q ∷ buf)

-- What a byte does: the line is entered, the session is left, or the line is edited and so many
-- bytes behind are used up.
pub data Key : Type 0 where
  enters : Shell → Key
  leaves : Shell → Key
  edits : Shell → Line → ℕ → Key

-- The arrow keys: a line of the history.
pub arrow : Shell → Line → ℕ → Option (Shell × Line)
arrow s l key =
    if key == b'A'
    then if leb 1 l.hist_pos
      then elim (get_elem? s.history (l.hist_pos - 1)) [
        | some line ↦ some (replace_line s (record l { hist_pos = l.hist_pos - 1 }) line)
        | none ↦ none
      ]
      else some (s, l)
    else if key == b'B'
    then if ltb (l.hist_pos + 1) (length s.history)
      then elim (get_elem? s.history (l.hist_pos + 1)) [
        | some line ↦ some (replace_line s (record l { hist_pos = l.hist_pos + 1 }) line)
        | none ↦ none
      ]
      else some (replace_line s (record l { hist_pos = length s.history }) [])
    else some (s, l)

pub escape : Shell → Line → Bytes → Option Key
escape s l (b ∷ key ∷ behind) =
    if b == b'['
    then elim (arrow s l key) [ some (t, m) ↦ some (edits t m 2) | none ↦ none ]
    else some (edits s l 0)
escape s l _ = some (edits s l 0)

pub press : Shell → Line → ℕ → Bytes → Option Key
press s l b behind =
    if b == b'\r' || b == b'\n'
    then some (enters (print s (codes "\r\n")))
    else if b == 0x03
    then some (edits (write_prompt (print s (codes "^C\r\n"))) (record l { buf = [] }) 0)
    else if b == 0x04
    then if is_empty l.buf
      then some (leaves (record (print s (codes "logout\r\n")) { exit_flag = true }))
      else some (edits s l 0)
    else if b == 0x7f || b == 0x08
    then if is_empty l.buf
      then some (edits s l 0)
      else some (edits (print s (codes "\u{8} \u{8}")) (record l { buf = drop_last l.buf }) 0)
    else if b == 0x15
    then some (edits (print s (erase l.buf)) (record l { buf = [] }) 0)
    else if b == 0x1b
    then escape s l behind
    else if leb 0x20 b
    then some (edits (print s (encode_rune b)) (record l { buf = l.buf ++ b ∷ [] }) 0)
    else some (edits s l 0)

pub data Typing : Type 0 where
  entered : Shell → Line → Typing
  left : Shell → Line → Typing
  typing : Shell → Line → Typing

-- The loop over the bytes of a read, with the number of those that are used up.
pub type_bytes : ℕ → Shell → Line → Bytes → Option Typing
type_bytes used s l [] = some (typing s l)
type_bytes (suc used) s l (b ∷ bs) = type_bytes used s l bs
type_bytes zero s l (b ∷ bs) = elim (press s l b bs) [
  | none ↦ none
  | some (enters t) ↦ some (entered t l)
  | some (leaves t) ↦ some (left t l)
  | some (edits t m used) ↦ type_bytes used t m bs
]

pub data ReadError : Type 0 where
  eof : ReadError
  limit_exceeded : ReadError
  broken : ReadError

-- What the connection delivers: reads of some bytes after some time, and at last an error.
pub data Input : Type 0 where
  arrives : Bytes → ℕ → Input → Input
  ends : ReadError → Input

pub count_printable : Bytes → ℕ
count_printable [] = 0
count_printable (b ∷ bs) =
    let rest = count_printable bs in if leb 0x20 b && not (b == 0x7f) then rest + 1 else rest

pub add_delta : ℕ → List ℕ → List ℕ
add_delta gap deltas =
    let ms = gap / 1000000 in if ltb ms (2 ^ 31) then deltas ++ ms ∷ [] else deltas

-- The bookkeeping of a read, of its time and of its size.
pub note_read : Shell → Line → Bytes → Shell × Line
note_read s l bs = (
  record s { in_bytes = s.in_bytes + length bs },
  record l { last = s.clock; deltas = add_delta (s.clock - l.last) l.deltas },
)

abbrev pub note_bulk : Line → Bytes → Line
note_bulk l bs = record l { bulk = l.bulk || ltb 2 (count_printable bs) }

pub record ReadLine : Type 0 where
  pub shell : Shell
  pub line : Bytes
  pub deltas : List ℕ
  pub bulk : Bool
  pub error : Option ReadError
  pub rest : Input

abbrev pub returned : Shell → Line → List ℕ → Option ReadError → Input → ReadLine
returned s l buf error rest = record {
  shell = s;
  line = encode buf;
  deltas = l.deltas;
  bulk = l.bulk;
  error = error;
  rest = rest;
}

pub read_line : Shell → Line → Input → Option ReadLine
read_line s l (ends e) = some (returned s l l.buf (some e) (ends e))
read_line s l (arrives bs gap rest) =
    let waited = record s { clock = s.clock + gap } in
    elim (is_empty bs) [
      | true ↦ read_line waited l rest
      | false ↦
          let (t, m) = note_read waited l bs in
          elim (ltb t.lim.max_input_bytes t.in_bytes) [
            | true ↦ some (returned t m m.buf (some limit_exceeded) rest)
            | false ↦ elim (type_bytes 0 t (note_bulk m bs) bs) [
              | none ↦ none
              | some (entered u k) ↦ some (returned u k k.buf none rest)
              | some (left u k) ↦ some (returned u k [] (some eof) rest)
              | some (typing u k) ↦ read_line u k rest
            ]
          ]
    ]
