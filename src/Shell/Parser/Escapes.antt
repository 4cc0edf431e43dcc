-- ===== src/Shell/Parser/Escapes.antt =====
-- A backslash does not mark the token that it stands in as quoted.
use honeynet.Base.{ℕ, ◌≡◌, ◌⊎◌, inl, inr, false, List, [], ◌∷◌, encode_rune, is_space}
use honeynet.Shell.Parser.{Token, Scan, plain, step, step_plain, double_operator, scan}

abbrev pub between : List Token → Scan
between out = record { out = out; cur = []; cur_quoted = false; has_cur = false }

-- The runes that are operators by themselves.
abbrev pub IsOperatorRune : ℕ → Type 0
IsOperatorRune c = (c ≡ b';') ⊎ ((c ≡ b'|') ⊎ ((c ≡ b'&') ⊎ ((c ≡ b'>') ⊎ (c ≡ b'<'))))

-- An escaped operator rune with a blank behind it is scanned as the operator itself: `\;` is `;`.
pub scan_escaped_operator :
    (out : List Token) (c : ℕ) (rest : List ℕ)
    → IsOperatorRune c
    → scan plain (between out) (b'\\' ∷ c ∷ b' ' ∷ rest)
      ≡ scan plain (between out) (c ∷ b' ' ∷ rest)
unfolding scan step step_plain double_operator is_space encode_rune
scan_escaped_operator out c rest (inl e) = rw e
scan_escaped_operator out c rest (inr (inl e)) = rw e
scan_escaped_operator out c rest (inr (inr (inl e))) = rw e
scan_escaped_operator out c rest (inr (inr (inr (inl e)))) = rw e
scan_escaped_operator out c rest (inr (inr (inr (inr e)))) = rw e
