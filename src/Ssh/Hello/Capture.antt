-- ===== src/Ssh/Hello/Capture.antt =====
-- `sniffConn.Read` over a whole connection: what the tee keeps of the stream.
use honeynet.Base.{
  ℕ, ◌+◌, ◌≤◌, ◌<◌, ◌≡◌, refl, sym, ap, ◌∙◌, Bool, true, false, not, ◌&&◌, lt→ltb, ◌⊎◌, inl, inr,
  Bool-cases, List, [], ◌∷◌, ◌++◌, append-nil, append_assoc, arith, ltb, leb, if◌then◌else◌, length,
  length-append, All, Bytes,
}
use honeynet.Ssh.Hello.{Sniff, new_sniff, sniff_limit, capture}

-- What the reads of a connection deliver, one after another.
abbrev pub stream : List Bytes → Bytes
stream [] = []
stream (p ∷ reads) = p ++ stream reads

abbrev pub capture_all : Sniff → List Bytes → Sniff
capture_all c [] = c
capture_all c (p ∷ reads) = capture_all (capture c p) reads

-- The tee is off exactly if the limit is reached, and then by less than one read.
pub record IsSniff (most : ℕ) (c : Sniff) : Type 0 where
  pub full_at : c.full ≡ leb sniff_limit (length c.buf)
  pub short : length c.buf < sniff_limit + most

abbrev taken : Sniff → Bytes → Sniff
taken c p = let buf = c.buf ++ p in record { buf = buf; full = leb sniff_limit (length buf) }

-- A read that delivers nothing, or comes when the tee is off, leaves it as it is.
capture-off : (c : Sniff) (p : Bytes) → (p ≡ []) ⊎ (c.full ≡ true) → capture c p ≡ c
unfolding capture
capture-off c p (inl e) = rw e refl
capture-off c p (inr off) =
    ap (λ b. if b then taken c p else c) (off_test (ltb 0 (length p)) c.full off)
  where
    off_test : (a f : Bool) → f ≡ true → (a && not f) ≡ false
    off_test a f e = ground arith

capture-on : (c : Sniff) (x : ℕ) (p : Bytes) → c.full ≡ false → capture c (x ∷ p) ≡ taken c (x ∷ p)
unfolding capture
capture-on c x p on =
    ap (λ b. if b then taken c (x ∷ p) else c)
      (on_test (ltb 0 (length (x ∷ p))) c.full (lt→ltb _ _ (omega arith)) on)
  where
    on_test : (a f : Bool) → a ≡ true → f ≡ false → (a && not f) ≡ true
    on_test a f d e = ground arith

capture-IsSniff :
    (most : ℕ) (c : Sniff) (p : Bytes)
    → length p ≤ most
    → IsSniff most c
    → IsSniff most (capture c p)
capture-IsSniff most c [] h v = rw (capture-off c [] (inl refl)) v
capture-IsSniff most c (x ∷ p) h v = elim (Bool-cases c.full) [
  | inl off ↦ rw (capture-off c (x ∷ p) (inr off)) v
  | inr on ↦ rw (capture-on c x p on) (record {
    full_at = refl;
    short =
        let small : leb sniff_limit (length c.buf) ≡ false = sym v.full_at ∙ on in
        ground (arith, length-append c.buf (x ∷ p), small);
  })
]

-- The captured bytes are a prefix of the stream, the whole of it unless the tee is off.
abbrev pub IsPrefix : Bytes → Sniff → Type 0
IsPrefix s c = (more : Bytes) × (s ≡ c.buf ++ more) × ((more ≡ []) ⊎ (c.full ≡ true))

capture_all-off : (c : Sniff) (reads : List Bytes) → c.full ≡ true → capture_all c reads ≡ c
capture_all-off c [] off = refl
capture_all-off c (p ∷ reads) off = rw (capture-off c p (inr off)) (capture_all-off c reads off)

buf-capture : (c : Sniff) (p : Bytes) → c.full ≡ false → (capture c p).buf ≡ c.buf ++ p
buf-capture c [] on = rw (capture-off c [] (inl refl)) (sym (append-nil c.buf))
buf-capture c (x ∷ p) on = ap (λ t. t.buf) (capture-on c x p on)

capture_all-IsPrefix :
    (c : Sniff) (reads : List Bytes) → IsPrefix (c.buf ++ stream reads) (capture_all c reads)
capture_all-IsPrefix c [] = ([], refl, inl refl)
capture_all-IsPrefix c (p ∷ reads) = elim (Bool-cases c.full) [
  | inl off ↦ rw (capture_all-off c (p ∷ reads) off) (p ++ stream reads, refl, inr off)
  | inr on ↦
      let (more, e, end) = capture_all-IsPrefix (capture c p) reads in
      (
        more,
        sym (append_assoc c.buf p (stream reads))
            ∙ ap (λ b. b ++ stream reads) (sym (buf-capture c p on))
            ∙ e,
        end,
      )
]

capture_all-IsSniff :
    (most : ℕ) (c : Sniff) (reads : List Bytes)
    → All (λ p. length p ≤ most) reads
    → IsSniff most c
    → IsSniff most (capture_all c reads)
capture_all-IsSniff most c [] h v = v
capture_all-IsSniff most c (p ∷ reads) h v =
    capture_all-IsSniff most (capture c p) reads h.1 (capture-IsSniff most c p h.0 v)

-- Whatever the reads deliver, at most `most` bytes each: the captured bytes are a prefix of the
-- stream, and the whole of it unless the tee is off; the tee is off exactly if at least
-- sniffLimit bytes are captured, and fewer than sniffLimit + `most` are.
pub capture_all-new_sniff :
    (most : ℕ) (reads : List Bytes)
    → All (λ p. length p ≤ most) reads
    → IsPrefix (stream reads) (capture_all new_sniff reads)
      × IsSniff most (capture_all new_sniff reads)
capture_all-new_sniff most reads h = (
  capture_all-IsPrefix new_sniff reads,
  capture_all-IsSniff most new_sniff reads h (record { full_at = refl; short = omega arith }),
)
