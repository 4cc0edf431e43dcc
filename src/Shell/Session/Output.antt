-- ===== src/Shell/Session/Output.antt =====
-- What a session writes: on a terminal every line feed stands behind a carriage return.
use honeynet.Base.{
  ℕ, ◌≡◌, refl, sym, true, false, inl, inr, Bool-cases, [], ◌∷◌, ◌++◌, arith, ◌==◌, append-nil,
  Bytes, codes, has_prefix,
}
use honeynet.Shell.Session.{Shell, to_lf, to_crlf, sent, write}

to_crlf-has_prefix : (t : Bytes) → has_prefix (codes "\n") (to_crlf t) ≡ false
unfolding to_crlf has_prefix
to_crlf-has_prefix [] = refl
to_crlf-has_prefix (c ∷ t) = ground arith

to_lf-to_crlf : (t : Bytes) → to_lf (to_crlf t) ≡ t
unfolding to_lf to_crlf has_prefix
to_lf-to_crlf [] = refl
to_lf-to_crlf (c ∷ t) = elim (Bool-cases (c == b'\n')) [
  | inl lf ↦ rw lf (ground (arith, to_lf-to_crlf t, to_crlf-has_prefix t))
  | inr other ↦ rw other (ground (arith, to_lf-to_crlf t, to_crlf-has_prefix t))
]

-- No line feed without a carriage return in front of it.
abbrev pub IsCrlf : ℕ → Bytes → Type 0
IsCrlf before [] = Unit
IsCrlf before (c ∷ str) = (c ≡ b'\n' → before ≡ b'\r') × IsCrlf c str

to_crlf-IsCrlf : (before : ℕ) (t : Bytes) → IsCrlf before (to_crlf t)
unfolding to_crlf
to_crlf-IsCrlf before [] = tt
to_crlf-IsCrlf before (c ∷ t) = elim (Bool-cases (c == b'\n')) [
  | inl lf ↦ rw lf ((λ e. absurd (ground arith)), ((λ _. refl), to_crlf-IsCrlf c t))
  | inr other ↦ rw other ((λ e. absurd (ground arith)), to_crlf-IsCrlf c t)
]

-- On a terminal, what `write` sends has its line feeds behind carriage returns, and is the text
-- otherwise.
pub write-IsCrlf :
    (s : Shell) (str : Bytes)
    → s.pty ≡ true
    → (new : Bytes) × ((write s str).output ≡ s.output ++ new)
      × IsCrlf 0 new
      × (to_lf new ≡ to_lf str)
unfolding write sent
write-IsCrlf s [] terminal = ([], sym (append-nil s.output), tt, refl)
write-IsCrlf s (c ∷ str) terminal = (
  to_crlf (to_lf (c ∷ str)),
  rw terminal refl,
  to_crlf-IsCrlf 0 (to_lf (c ∷ str)),
  to_lf-to_crlf (to_lf (c ∷ str)),
)
