-- ===== src/Shell/Parser/Shape.antt =====
-- The shape of what `Parse` returns, whatever the line.
use mathlib.Core.Path.{subst}
use honeynet.Base.{
  is_empty, ◌≡◌, ◌≢◌, refl, sym, ◌∙◌, append-nil, ◌⊎◌, inl, inr, Bool, true, false, not, ◌||◌, List,
  [], ◌∷◌, ◌++◌, if◌then◌else◌, Bool-cases, Bytes, codes, equal, All, All-append, arith,
}
use honeynet.Shell.Parser.{
  Token, Stage, Pipeline, Parse, flush_stage, close_pipeline, flush_pipeline, redirect, push_word,
  operate, accept, accept_all, initial, parse_tokens, tokenize, parse,
}

-- A stage has a word or the target of an output redirection.
abbrev pub IsStage : Stage → Type 0
IsStage st = (st.argv ≢ []) ⊎ ((st.redirect_out ≢ []) ⊎ (st.redirect_append ≢ []))

abbrev pub IsOperator : Bytes → Type 0
IsOperator op = (op ≡ codes ";") ⊎ ((op ≡ codes "&&") ⊎ (op ≡ codes "||"))

-- What holds of a pipeline that is not the last; in the background it was ended by `&`, which
-- counts as `;`.
record IsClosed (pl : Pipeline) : Type 0 where
  some_stage : pl.stages ≢ []
  stages_shaped : All IsStage pl.stages
  next_known : IsOperator pl.next
  background_next : pl.background ≡ true → pl.next ≡ codes ";"

-- A list of pipelines: each has a stage and only proper stages, is followed by an operator if
-- another pipeline comes behind it and else by an operator or by the end of the line.
abbrev pub IsParsed : List Pipeline → Type 0
IsParsed [] = Unit
IsParsed (pl ∷ pls) =
    (pl.stages ≢ [])
    × All IsStage pl.stages
    × (IsOperator pl.next ⊎ (pl.next ≡ []))
    × (pls ≢ [] → IsOperator pl.next)
    × (pl.background ≡ true → pl.next ≡ codes ";")
    × IsParsed pls

IsParsed-append : (xs ys : List Pipeline) → All IsClosed xs → IsParsed ys → IsParsed (xs ++ ys)
IsParsed-append [] ys h k = k
IsParsed-append (pl ∷ xs) ys h k = (
  h.0.some_stage,
  h.0.stages_shaped,
  inl h.0.next_known,
  (λ _. h.0.next_known),
  h.0.background_next,
  IsParsed-append xs ys h.1 k,
)

record Inv (p : Parse) : Type 0 where
  done : All IsClosed p.pipelines
  stages : All IsStage p.cur.stages
  foreground : p.cur.background ≡ false

IsStage-kept :
    (st : Stage)
    → (not (is_empty st.argv)
        || not (is_empty st.redirect_out)
        || not (is_empty st.redirect_append))
      ≡ true
    → IsStage st
IsStage-kept st h = ground arith

flush_stage_stages : (p : Parse) → All IsStage p.cur.stages → All IsStage (flush_stage p).cur.stages
unfolding flush_stage
flush_stage_stages p h =
    let st = p.stage in
    elim (Bool-cases (
      not (is_empty st.argv)
      || not (is_empty st.redirect_out)
      || not (is_empty st.redirect_append))) [
        | inl kept ↦
            rw kept (All-append IsStage p.cur.stages (st ∷ []) h (IsStage-kept st kept, tt))
        | inr dropped ↦ rw dropped h
      ]

flush_stage_rest :
    (p : Parse)
    → ((flush_stage p).pipelines ≡ p.pipelines)
      × ((flush_stage p).cur.background ≡ p.cur.background)
unfolding flush_stage
flush_stage_rest p = ground arith

is_empty_lem {ℓ} : {A : Type ℓ} (xs : List A) → is_empty xs ≡ false → xs ≢ []
is_empty_lem [] h = cc
is_empty_lem (x ∷ xs) h = λ e. cc

close_pipeline-Inv :
    (p : Parse) (op : Bytes)
    → All IsClosed p.pipelines
    → All IsStage p.cur.stages
    → IsOperator op
    → (p.cur.background ≡ true → op ≡ codes ";")
    → Inv (close_pipeline p op)
unfolding close_pipeline
close_pipeline-Inv p op done stages known back = elim (Bool-cases (is_empty p.cur.stages)) [
  | inl none_left ↦ rw none_left (record { done = done; stages = tt; foreground = refl })
  | inr some_left ↦ rw some_left (record {
    done = All-append IsClosed p.pipelines _ done (
      record {
        some_stage = is_empty_lem p.cur.stages some_left;
        stages_shaped = stages;
        next_known = known;
        background_next = back;
      },
      tt,
    );
    stages = tt;
    foreground = refl;
  })
]

flush_pipeline-Inv :
    (p : Parse) (op : Bytes)
    → All IsClosed p.pipelines
    → All IsStage p.cur.stages
    → IsOperator op
    → (p.cur.background ≡ true → op ≡ codes ";")
    → Inv (flush_pipeline p op)
unfolding flush_pipeline
flush_pipeline-Inv p op done stages known back =
    let (same, bg) = flush_stage_rest p in
    close_pipeline-Inv (flush_stage p) op (rw same done) (flush_stage_stages p stages) known
      (λ h. back (sym bg ∙ h))

flush_stage-Inv : (p : Parse) → Inv p → Inv (flush_stage p)
flush_stage-Inv p v =
    let (same, bg) = flush_stage_rest p in
    record {
      done = rw same v.done;
      stages = flush_stage_stages p v.stages;
      foreground = bg ∙ v.foreground;
    }

end-Inv : (p : Parse) (op : Bytes) → Inv p → IsOperator op → Inv (flush_pipeline p op)
end-Inv p op v known = flush_pipeline-Inv p op v.done v.stages known (λ h. cc)

if-Inv : (b : Bool) {x y : Parse} → Inv x → Inv y → Inv (if b then x else y)
if-Inv true h k = h
if-Inv false h k = k

operate-Inv : (p : Parse) (text : Bytes) → Inv p → Inv (operate p text)
unfolding operate push_word
operate-Inv p text v = if-Inv (equal text (codes "|")) (flush_stage-Inv p v) (
    if-Inv (equal text (codes ";") || equal text (codes "\n")) (end-Inv p (codes ";") v (inl refl))
      (if-Inv (equal text (codes "&&")) (end-Inv p (codes "&&") v (inr (inl refl))) (
        if-Inv (equal text (codes "||")) (end-Inv p (codes "||") v (inr (inr refl))) (
          if-Inv (equal text (codes "&"))
            (flush_pipeline-Inv (record p { cur = record (p.cur) { background = true } })
              (codes ";") v.done v.stages (inl refl) (λ _. refl))
            (if-Inv (equal text (codes ">") || equal text (codes ">>") || equal text (codes "<"))
              {x = record p { pending_redirect = text }} {y = push_word p text}
              (record { done = v.done; stages = v.stages; foreground = v.foreground })
              (record { done = v.done; stages = v.stages; foreground = v.foreground }))))))

accept-Inv : (p : Parse) (t : Token) → Inv p → Inv (accept p t)
unfolding accept push_word
accept-Inv p t v =
    if-Inv (not (is_empty p.pending_redirect))
      {x = record p { stage = redirect p.stage p.pending_redirect t.text; pending_redirect = [] }}
      (record { done = v.done; stages = v.stages; foreground = v.foreground })
      (if-Inv t.quoted {x = push_word p t.text}
        (record { done = v.done; stages = v.stages; foreground = v.foreground })
        (operate-Inv p t.text v))

accept_all-Inv : (p : Parse) (ts : List Token) → Inv p → Inv (accept_all p ts)
unfolding accept_all
accept_all-Inv p [] v = v
accept_all-Inv p (t ∷ ts) v = accept_all-Inv (accept p t) ts (accept-Inv p t v)

close_last :
    (p : Parse)
    → All IsClosed p.pipelines
    → All IsStage p.cur.stages
    → p.cur.background ≡ false
    → IsParsed (close_pipeline p []).pipelines
unfolding close_pipeline
close_last p done stages fg = elim (Bool-cases (is_empty p.cur.stages)) [
  | inl none_left ↦
      rw none_left
        (subst IsParsed (append-nil p.pipelines) (IsParsed-append p.pipelines [] done tt))
  | inr some_left ↦ rw some_left (
      IsParsed-append p.pipelines _ done (
        is_empty_lem p.cur.stages some_left,
        stages,
        inr refl,
        (λ h. absurd (h refl)),
        (λ h. cc),
        tt,
      ))
]

-- Whatever the tokens, the pipelines have the shape of IsParsed.
parse_tokens-IsParsed : (ts : List Token) → IsParsed (parse_tokens ts)
unfolding parse_tokens flush_pipeline
parse_tokens-IsParsed [] = tt
parse_tokens-IsParsed (t ∷ ts) =
    let p = accept_all initial (t ∷ ts) in
    let v =
      accept_all-Inv initial (t ∷ ts) (record { done = tt; stages = tt; foreground = refl }) in
    let (same, bg) = flush_stage_rest p in
    close_last (flush_stage p) (rw same v.done) (flush_stage_stages p v.stages) (bg ∙ v.foreground)

-- Whatever the line, no pipeline is empty, each stage has a word or an output redirection, the
-- operator behind each pipeline but the last is ";", "&&" or "||", that behind the last one of
-- these or none, and a pipeline in the background has ";".
pub parse-IsParsed : (line : Bytes) → IsParsed (parse line)
unfolding parse
parse-IsParsed line = parse_tokens-IsParsed (tokenize line)
