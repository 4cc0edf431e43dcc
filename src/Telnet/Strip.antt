-- ===== src/Telnet/Strip.antt =====
-- `Read` delivers the payload of the stream, however it is cut into packets and reads.
use honeynet.Base.{
  ℕ, ◌+◌, ◌-◌, ◌≤◌, ◌<◌, ◌≡◌, refl, sym, ap, ◌∙◌, Bool, true, false, ◌||◌, inl, inr, Bool-cases,
  List, [], ◌∷◌, ◌++◌, append-nil, append_assoc, ◌==◌, if◌then◌else◌, length, length-append, Bytes,
  arith,
}
use honeynet.Telnet.{
  iac, dont, doo, wont, will, sb, se, Arrival, Mode, payload, command, option, sub, sub_iac, Next,
  go, stop, step, step_payload, step_command, ReadResult, read_end, is_full, read_loop, read,
}

-- The payload of a stream by RFC 854: what is behind a byte, and what the byte delivers.
abbrev next_mode : Mode → ℕ → Mode
next_mode payload b = if b == iac then command else payload
next_mode command b =
    if b == will || b == wont || b == doo || b == dont
    then option
    else if b == sb
    then sub
    else payload
next_mode option b = payload
next_mode sub b = if b == iac then sub_iac else sub
next_mode sub_iac b = if b == se then payload else sub

abbrev payload_of : Mode → ℕ → Bytes
payload_of payload b = if b == iac then [] else if b == 0 then [] else b ∷ []
payload_of command b = if b == iac then iac ∷ [] else []
payload_of _ b = []

unfoldable pub strip : Mode → List Arrival → Bytes
strip m [] = []
strip m (a ∷ input) = payload_of m a.byte ++ strip (next_mode m a.byte) input

-- Behind the head of the loop there is room for a byte.
abbrev Room : Mode → ℕ → Type 0
Room payload left = Unit
Room _ left = 0 < left

-- What a step puts into the buffer is the payload of its byte; where it goes on, it goes on in the
-- mode of the stream, and where it stops, the stream is in its payload.
abbrev Delivers : Mode → ℕ → Bytes → ℕ → Next → Type 0
Delivers m left out b (go left' m' out') =
    (m' ≡ next_mode m b)
    × (out' ≡ out ++ payload_of m b)
    × (length out' + left' ≤ length out + left)
    × Room m' left'
Delivers m left out b (stop out') =
    (next_mode m b ≡ payload) × (out' ≡ out ++ payload_of m b) × (length out' ≤ length out + left)

payload-Delivers :
    (left : ℕ) (out : Bytes) (b : ℕ) (drained : Bool)
    → 0 < left
    → Delivers payload left out b (step_payload left out (record { byte = b; drained = drained }))
unfolding step_payload
payload-Delivers left out b drained h = elim (Bool-cases (b == iac)) [
  | inl e ↦ rw e (rw e, rw e (sym (append-nil out)), omega arith, h)
  | inr e ↦ rw e (elim (Bool-cases (b == 0)) [
    | inl z ↦ rw z (rw e, rw (e, z) (sym (append-nil out)), omega arith, tt)
    | inr z ↦ rw z (either drained (rw e) (rw (e, z)))
  ])
]
  where
    either :
        (d : Bool)
        → next_mode payload b ≡ payload
        → payload_of payload b ≡ b ∷ []
        → Delivers payload left out b
            (if d then stop (out ++ b ∷ []) else go (left - 1) payload (out ++ b ∷ []))
    either true m o = (m, ap (◌++◌ out) (sym o), omega (arith, length-append out (b ∷ [])))
    either false m o = (sym m, ap (◌++◌ out) (sym o), omega (arith, length-append out (b ∷ [])), tt)

command-Delivers :
    (left : ℕ) (out : Bytes) (b : ℕ)
    → 0 < left
    → Delivers command left out b (step_command left out b)
unfolding step_command
command-Delivers left out b h =
    elim (Bool-cases (b == will || b == wont || b == doo || b == dont)) [
      | inl e ↦ rw e (rw e, ground (arith, append-nil out), omega arith, h)
      | inr e ↦ rw e (elim (Bool-cases (b == sb)) [
        | inl z ↦ rw z (rw (e, z), ground (arith, append-nil out), omega arith, h)
        | inr z ↦ rw z (elim (Bool-cases (b == iac)) [
          | inl w ↦ rw w (rw (e, z), rw w, omega (arith, length-append out (iac ∷ [])), tt)
          | inr w ↦ rw w (rw (e, z), rw w (sym (append-nil out)), omega arith, tt)
        ])
      ])
    ]

Room-if : (b : Bool) {left : ℕ} → 0 < left → Room (if b then sub_iac else sub) left
Room-if true h = h
Room-if false h = h

Room-se : (b : Bool) {left : ℕ} → 0 < left → Room (if b then payload else sub) left
Room-se true h = tt
Room-se false h = h

step-Delivers :
    (m : Mode) (left : ℕ) (out : Bytes) (a : Arrival)
    → 0 < left
    → Delivers m left out a.byte (step m left out a)
unfolding step
step-Delivers payload left out a h = payload-Delivers left out a.byte a.drained h
step-Delivers command left out a h = command-Delivers left out a.byte h
step-Delivers option left out a h = (refl, sym (append-nil out), omega arith, tt)
step-Delivers sub left out a h =
    (refl, sym (append-nil out), omega arith, Room-if (a.byte == iac) h)
step-Delivers sub_iac left out a h =
    (refl, sym (append-nil out), omega arith, Room-se (a.byte == se) h)

is_full_lem : (m : Mode) (left : ℕ) → Room m left → is_full m left ≡ false → 0 < left
unfolding is_full
is_full_lem payload left r h = ground arith
is_full_lem command left r h = r
is_full_lem option left r h = r
is_full_lem sub left r h = r
is_full_lem sub_iac left r h = r

is_full-payload : (m : Mode) (left : ℕ) → Room m left → is_full m left ≡ true → m ≡ payload
unfolding is_full
is_full-payload payload left r h = refl
is_full-payload _ left r h = cc

-- What `read_loop` promises: the bytes with the payload still to come, and the size.
record IsRead (m : Mode) (left : ℕ) (out : Bytes) (input : List Arrival) (r : ReadResult)
    : Type 0 where
  kept : r.bytes ++ strip payload r.rest ≡ out ++ strip m input
  fits : length r.bytes ≤ length out + left

read_end-IsRead : (m : Mode) (left : ℕ) (out : Bytes) → IsRead m left out [] (read_end m out)
unfolding read_end strip
read_end-IsRead payload left out = record { kept = refl; fits = omega arith }
read_end-IsRead _ left out = record { kept = refl; fits = omega arith }

read_loop-IsRead :
    (m : Mode) (left : ℕ) (out : Bytes) (input : List Arrival)
    → Room m left
    → IsRead m left out input (read_loop m left out input)
unfolding read_loop strip
read_loop-IsRead m left out [] r = elim (Bool-cases (is_full m left)) [
  | inl full ↦ rw full (record { kept = unfold strip in refl; fits = omega arith })
  | inr room ↦ rw room (read_end-IsRead m left out)
]
read_loop-IsRead m left out (a ∷ input) r = elim (Bool-cases (is_full m left)) [
  | inl full ↦
      rw (full, read_loop)
        (record {
          kept = ap (λ n. out ++ strip n (a ∷ input)) (sym (is_full-payload m left r full));
          fits = omega arith;
        })
  | inr room ↦
      rw (room, read_loop)
        (behind (step m left out a) (step-Delivers m left out a (is_full_lem m left r room))
          (λ left' m' out' room'. read_loop-IsRead m' left' out' input room'))
]
  where
    behind :
        (n : Next)
        → Delivers m left out a.byte n
        → ((left' : ℕ) (m' : Mode) (out' : Bytes)
            → Room m' left'
            → IsRead m' left' out' input (read_loop m' left' out' input))
        → IsRead m left out (a ∷ input) (elim n [
          | go left' m' out' ↦ read_loop m' left' out' input
          | stop out' ↦ record { bytes = out'; failed = false; rest = input }
        ])
    behind (go left' m' out') (same, delivered, fits, room') ih =
        let later = ih left' m' out' room' in
        record {
          kept = later.kept ∙ rw (same, delivered) (append_assoc out _ _);
          fits = omega (arith, later.fits);
        }
    behind (stop out') (same, delivered, fits) ih = record {
      kept = rw (delivered, ← same) (append_assoc out _ _);
      fits = fits;
    }

-- A read puts at most `cap` bytes into the buffer, and what it puts there with the payload of the
-- bytes that it leaves is the payload of its input: no byte of payload is lost, made up or
-- reordered, however the stream is cut into packets and reads.
pub read_lem :
    (cap : ℕ) (input : List Arrival)
    → ((read cap input).bytes ++ strip payload (read cap input).rest ≡ strip payload input)
      × (length (read cap input).bytes ≤ cap)
unfolding read
read_lem cap input =
    let r = read_loop-IsRead payload cap [] input tt in (r.kept, omega (arith, r.fits))
