-- ===== src/Shell/Session/Kept.antt =====
-- What reading and writing at the terminal leaves alone: the counter of the commands, the limits,
-- the hooks, the commands that were reported, the directory, the file system and the history.
use honeynet.Base.{
  ℕ, zero, suc, ◌+◌, ◌-◌, ◌≤◌, ◌<◌, ◌≡◌, refl, ◌∙◌, Bool, true, false, ◌||◌, inl, inr, Bool-cases,
  Option, none, some, ◌>>=◌, List, [], ◌∷◌, ◌++◌, arith, ◌==◌, ltb, leb, if◌then◌else◌, length,
  get_elem?, get_elem?_lem, Bytes, codes, is_empty,
}
use honeynet.Vfs.{Fs}
use honeynet.Shell.Session.{
  CommandEvent, Event, on_command, Hooks, Limits, Shell, Line, write, errf, write_prompt,
  replace_line, arrow, escape, Key, enters, leaves, edits, press, Typing, entered, left, typing,
  type_bytes, eof, Input, arrives, ends, note_read, note_bulk, add_delta, ReadLine, returned,
  read_line,
}

-- What holds of the result, with what holds if there is none, which is a panic.
pub data Gives {ℓ} {A : Type ℓ} (Q : Type 0) (P : A → Type 0) : Option A → Type ℓ where
  panics : Q → Gives Q P none
  gives : {a : A} → P a → Gives Q P (some a)

module _ {ℓ} {A : Type ℓ} {Q : Type 0} {P : A → Type 0} where
  pub Gives-if :
      (b : Bool) {x y : Option A} → Gives Q P x → Gives Q P y → Gives Q P (if b then x else y)
  Gives-if true h k = h
  Gives-if false h k = k

module _ {ℓ κ} {A : Type ℓ} {B : Type κ} {Q : Type 0} {P : A → Type 0} {R : B → Type 0} where
  pub Gives-bind :
      {m : Option A} (f : A → Option B)
      → Gives Q P m
      → ((a : A) → P a → Gives Q R (f a))
      → Gives Q R (m >>= f)
  Gives-bind f (panics q) k = panics q
  Gives-bind f (gives {a} h) k = k a h

module _ {ℓ} {A : Type ℓ} {Q : Type 0} {P R : A → Type 0} where
  pub Gives-weaken : {m : Option A} → ((a : A) → P a → R a) → Gives Q P m → Gives Q R m
  Gives-weaken f (panics q) = panics q
  Gives-weaken f (gives {a} h) = gives (f a h)

unfoldable pub commands : List Event → List CommandEvent
commands [] = []
commands (on_command c ∷ es) = c ∷ commands es
commands (_ ∷ es) = commands es

-- What a step leaves alone.
abbrev pub kept : Shell → ℕ × Limits × Hooks × List CommandEvent × Bytes × Fs × List Bytes
kept s = (s.cmd_index, s.lim, s.hooks, commands s.events, s.cwd, s.fs, s.history)

abbrev pub Keeps : Shell → Shell → Type 0
Keeps s t = kept t ≡ kept s

pub write-Keeps : (s : Shell) (str : Bytes) → Keeps s (write s str)
unfolding write
write-Keeps s [] = refl
write-Keeps s (c ∷ str) = refl

pub errf-Keeps : (s : Shell) (str : Bytes) → Keeps s (errf s str)
unfolding errf
errf-Keeps s str = write-Keeps s (str ++ codes "\n")

pub write_prompt-Keeps : (s : Shell) → Keeps s (write_prompt s)
unfolding write_prompt
write_prompt-Keeps s = refl

-- The place in the history is in range, or just behind it.
abbrev IsPlaced : Shell → Line → Type 0
IsPlaced s l = l.hist_pos ≤ length s.history

abbrev KeyKeeps : Shell → Key → Type 0
KeyKeeps s (enters t) = Keeps s t
KeyKeeps s (leaves t) = Keeps s t
KeyKeeps s (edits t m used) = Keeps s t × IsPlaced t m

module _ {Q : Type 0} where
  history-Keeps :
      (s : Shell) (l : Line) (i : ℕ)
      → i < length s.history
      → Gives Q
          (λ r. Keeps s r.0 × IsPlaced r.0 r.1)
          (elim (get_elem? s.history i) [
            | some line ↦ some (replace_line s (record l { hist_pos = i }) line)
            | none ↦ none
          ])
  unfolding replace_line
  history-Keeps s l i h =
      let (line, e) = get_elem?_lem s.history i h in rw e (gives (refl, omega arith))

  arrow-Keeps :
      (s : Shell) (l : Line) (key : ℕ)
      → IsPlaced s l
      → Gives Q (λ r. Keeps s r.0 × IsPlaced r.0 r.1) (arrow s l key)
  unfolding arrow replace_line
  arrow-Keeps s l key placed =
      Gives-if (key == b'A')
        (elim (Bool-cases (leb 1 l.hist_pos)) [
          | inl above ↦ rw above (history-Keeps s l (l.hist_pos - 1) (ground arith))
          | inr top ↦ rw top (gives (refl, placed))
        ])
        (Gives-if (key == b'B')
          (elim (Bool-cases (ltb (l.hist_pos + 1) (length s.history))) [
            | inl below ↦ rw below (history-Keeps s l (l.hist_pos + 1) (ground arith))
            | inr end ↦ rw end (gives (refl, omega arith))
          ])
          (gives (refl, placed)))

  escape-Keeps :
      (s : Shell) (l : Line) (behind : Bytes)
      → IsPlaced s l
      → Gives Q (KeyKeeps s) (escape s l behind)
  unfolding escape
  escape-Keeps s l [] placed = gives (refl, placed)
  escape-Keeps s l (b ∷ []) placed = gives (refl, placed)
  escape-Keeps s l (b ∷ key ∷ behind) placed =
      Gives-if (b == b'[') (pressed (arrow s l key) (arrow-Keeps s l key placed))
        (gives (refl, placed))
    where
      pressed :
          (o : Option (Shell × Line))
          → Gives Q (λ r. Keeps s r.0 × IsPlaced r.0 r.1) o
          → Gives Q (KeyKeeps s) (elim o [ some (t, m) ↦ some (edits t m 2) | none ↦ none ])
      pressed none (panics q) = panics q
      pressed (some (t, m)) (gives h) = gives h

  press-Keeps :
      (s : Shell) (l : Line) (b : ℕ) (behind : Bytes)
      → IsPlaced s l
      → Gives Q (KeyKeeps s) (press s l b behind)
  unfolding press write_prompt
  press-Keeps s l b behind placed = Gives-if (b == b'\r' || b == b'\n') (gives refl) (
      Gives-if (b == 0x03) (gives (refl, placed)) (
        Gives-if (b == 0x04) (Gives-if (is_empty l.buf) (gives refl) (gives (refl, placed))) (
          Gives-if (b == 0x7f || b == 0x08)
            (Gives-if (is_empty l.buf) (gives (refl, placed)) (gives (refl, placed)))
            (Gives-if (b == 0x15) (gives (refl, placed)) (
              Gives-if (b == 0x1b) (escape-Keeps s l behind placed)
                (Gives-if (leb 0x20 b) (gives (refl, placed)) (gives (refl, placed))))))))

abbrev TypingKeeps : Shell → Typing → Type 0
TypingKeeps s (entered t m) = Keeps s t
TypingKeeps s (left t m) = Keeps s t
TypingKeeps s (typing t m) = Keeps s t × IsPlaced t m

TypingKeeps-from : (s t : Shell) (k : Typing) → Keeps s t → TypingKeeps t k → TypingKeeps s k
TypingKeeps-from s t (entered u m) h k = k ∙ h
TypingKeeps-from s t (left u m) h k = k ∙ h
TypingKeeps-from s t (typing u m) h k = (k.0 ∙ h, k.1)

-- What a key press that gives this comes to.
type_bytes-Keeps :
    {Q : Type 0} (used : ℕ) (s : Shell) (l : Line) (bs : Bytes)
    → IsPlaced s l
    → Gives Q (TypingKeeps s) (type_bytes used s l bs)
unfolding type_bytes
type_bytes-Keeps used s l [] placed = gives (refl, placed)
type_bytes-Keeps (suc used) s l (b ∷ bs) placed = type_bytes-Keeps used s l bs placed
type_bytes-Keeps {Q} zero s l (b ∷ bs) placed =
    after (press s l b bs) (press-Keeps s l b bs placed)
      (λ used t m in_place. type_bytes-Keeps used t m bs in_place)
  where
    after :
        (o : Option Key)
        → Gives Q (KeyKeeps s) o
        → ((used : ℕ) (t : Shell) (m : Line)
            → IsPlaced t m
            → Gives Q (TypingKeeps t) (type_bytes used t m bs))
        → Gives Q (TypingKeeps s) (elim o [
          | none ↦ none
          | some (enters t) ↦ some (entered t l)
          | some (leaves t) ↦ some (left t l)
          | some (edits t m used) ↦ type_bytes used t m bs
        ])
    after none (panics q) k = panics q
    after (some (enters t)) (gives h) k = gives h
    after (some (leaves t)) (gives h) k = gives h
    after (some (edits t m used)) (gives h) k =
        Gives-weaken (λ a. TypingKeeps-from s t a h.0) (k used t m h.1)

-- The reads that are left, and what `readLine` leaves alone; a line that is entered takes one.
unfoldable pub reads : Input → ℕ
reads (arrives bs gap rest) = suc (reads rest)
reads (ends e) = 0

abbrev pub ReadKeeps : Shell → Input → ReadLine → Type 0
ReadKeeps s input r = Keeps s r.shell × (r.error ≡ none → reads r.rest < reads input)

-- Reading a line does not panic: a place in the history is in range.
pub read_line-Keeps :
    {Q : Type 0} (s : Shell) (l : Line) (input : Input)
    → IsPlaced s l
    → Gives Q (ReadKeeps s input) (read_line s l input)
unfolding read_line reads note_read
read_line-Keeps s l (ends e) placed = gives (refl, λ h. absurd (ground arith))
read_line-Keeps {Q} s l (arrives bs gap rest) placed = elim (Bool-cases (is_empty bs)) [
  | inl nothing ↦
      rw (nothing, read_line)
        (Gives-weaken (λ r h. (h.0, λ e. let near = h.1 e in omega arith))
          (read_line-Keeps (record s { clock = s.clock + gap }) l rest placed))
  | inr filled ↦
      rw (filled, read_line)
        (elim (Bool-cases (ltb s.lim.max_input_bytes (s.in_bytes + length bs))) [
          | inl over ↦ rw (over, read_line) (gives (refl, λ h. absurd (ground arith)))
          | inr within ↦
              rw (within, read_line)
                (after
                  (type_bytes 0
                    (record s { clock = s.clock + gap; in_bytes = s.in_bytes + length bs }) l' bs)
                  (type_bytes-Keeps 0
                    (record s { clock = s.clock + gap; in_bytes = s.in_bytes + length bs }) l' bs
                    placed)
                  (λ t m in_place. read_line-Keeps t m rest in_place))
        ])
]
  where
    l' : Line
    l' =
        note_bulk
          (record l { last = s.clock + gap; deltas = add_delta (s.clock + gap - l.last) l.deltas })
          bs

    after :
        (o : Option Typing)
        → Gives Q (TypingKeeps s) o
        → ((t : Shell) (m : Line) → IsPlaced t m → Gives Q (ReadKeeps t rest) (read_line t m rest))
        → Gives Q (ReadKeeps s (arrives bs gap rest)) (elim o [
          | none ↦ none
          | some (entered u k) ↦ some (returned u k k.buf none rest)
          | some (left u k) ↦ some (returned u k [] (some eof) rest)
          | some (typing u k) ↦ read_line u k rest
        ])
    after none (panics q) k = panics q
    after (some (entered u m)) (gives h) k = gives (h, λ e. omega arith)
    after (some (left u m)) (gives h) k = gives (h, λ e. absurd (ground arith))
    after (some (typing u m)) (gives h) k =
        Gives-weaken (λ r g. (g.0 ∙ h.0, λ e. let near = g.1 e in omega arith)) (k u m h.1)
