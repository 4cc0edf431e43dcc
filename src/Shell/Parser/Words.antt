-- ===== src/Shell/Parser/Words.antt =====
-- `Parse` keeps every word, in order: what is no operator and no target of a redirection.
use honeynet.Base.{
  is_empty, ◌≡◌, refl, sym, ap, ◌∙◌, inl, inr, Bool, true, false, not, ◌||◌, List, [], ◌∷◌, ◌++◌,
  append-nil, append_assoc, if◌then◌else◌, Bool-cases, Bytes, codes, equal, arith,
}
use honeynet.Shell.Parser.{
  Token, Stage, Pipeline, no_stage, no_pipeline, Parse, flush_stage, close_pipeline, flush_pipeline,
  redirect, push_word, operate, accept, accept_all, initial, parse_tokens,
}

abbrev pub is_redirect : Bytes → Bool
is_redirect text = equal text (codes ">") || equal text (codes ">>") || equal text (codes "<")

abbrev pub is_separator : Bytes → Bool
is_separator text =
    equal text (codes "|")
    || ((equal text (codes ";") || equal text (codes "\n"))
        || (equal text (codes "&&") || (equal text (codes "||") || equal text (codes "&"))))

-- The words among the tokens; the flag is set behind a redirection.
unfoldable pub words : Bool → List Token → List Bytes
words behind [] = []
words true (t ∷ ts) = words false ts
words false (t ∷ ts) =
    let rest = words false ts in
    let behind = words true ts in
    if t.quoted
    then t.text ∷ rest
    else if is_separator t.text
    then rest
    else if is_redirect t.text
    then behind
    else t.text ∷ rest

abbrev pub stage_words : List Stage → List Bytes
stage_words [] = []
stage_words (st ∷ sts) = st.argv ++ stage_words sts

-- The words of all commands.
abbrev pub all_words : List Pipeline → List Bytes
all_words [] = []
all_words (pl ∷ pls) = stage_words pl.stages ++ all_words pls

stage_words-append :
    (xs ys : List Stage) → stage_words (xs ++ ys) ≡ stage_words xs ++ stage_words ys
stage_words-append [] ys = refl
stage_words-append (st ∷ xs) ys = simp (stage_words-append xs ys, append_assoc)

all_words-append : (xs ys : List Pipeline) → all_words (xs ++ ys) ≡ all_words xs ++ all_words ys
all_words-append [] ys = refl
all_words-append (pl ∷ xs) ys = simp (all_words-append xs ys, append_assoc)

abbrev collected : Parse → List Bytes
collected p = all_words p.pipelines ++ (stage_words p.cur.stages ++ p.stage.argv)

is_empty-eq {ℓ} : {A : Type ℓ} (xs : List A) → is_empty xs ≡ true → xs ≡ []
is_empty-eq [] h = refl
is_empty-eq (x ∷ xs) h = cc

dropped_argv :
    (st : Stage)
    → (not (is_empty st.argv)
        || not (is_empty st.redirect_out)
        || not (is_empty st.redirect_append))
      ≡ false
    → st.argv ≡ []
dropped_argv st h = ground arith

flush_stage-collected : (p : Parse) → collected (flush_stage p) ≡ collected p
unfolding flush_stage
flush_stage-collected p =
    let st = p.stage in
    elim (Bool-cases (
      not (is_empty st.argv)
      || not (is_empty st.redirect_out)
      || not (is_empty st.redirect_append))) [
        | inl kept ↦ rw kept (
            ap (λ t. all_words p.pipelines ++ t)
              (append-nil _
                ∙ stage_words-append p.cur.stages (st ∷ [])
                ∙ ap (λ t. stage_words p.cur.stages ++ t) (append-nil st.argv)))
        | inr dropped ↦ rw dropped (
            ap (λ t. all_words p.pipelines ++ (stage_words p.cur.stages ++ t))
              (sym (dropped_argv st dropped)))
      ]

close_pipeline-collected : (p : Parse) (op : Bytes) → collected (close_pipeline p op) ≡ collected p
unfolding close_pipeline
close_pipeline-collected p op = elim (Bool-cases (is_empty p.cur.stages)) [
  | inl none_left ↦ rw none_left (
      ap (λ (t : List Stage). all_words p.pipelines ++ (stage_words t ++ p.stage.argv))
        (sym (is_empty-eq p.cur.stages none_left)))
  | inr some_left ↦ rw some_left (simp (all_words-append, append_assoc, append-nil))
]

flush_pipeline-collected : (p : Parse) (op : Bytes) → collected (flush_pipeline p op) ≡ collected p
unfolding flush_pipeline
flush_pipeline-collected p op =
    close_pipeline-collected (flush_stage p) op ∙ flush_stage-collected p

flush_pipeline_pending :
    (p : Parse) (op : Bytes) → (flush_pipeline p op).pending_redirect ≡ p.pending_redirect
unfolding flush_pipeline flush_stage close_pipeline
flush_pipeline_pending p op = refl

flush_stage_pending : (p : Parse) → (flush_stage p).pending_redirect ≡ p.pending_redirect
unfolding flush_stage
flush_stage_pending p = refl

-- What has been collected, with the words of the tokens still to come.
abbrev total : Parse → List Token → List Bytes
total p ts = collected p ++ words (not (is_empty p.pending_redirect)) ts

push_word-total :
    (p : Parse) (w : Bytes) (ts : List Token)
    → p.pending_redirect ≡ []
    → total (push_word p w) ts ≡ collected p ++ w ∷ words false ts
unfolding push_word
push_word-total p w ts e = rw e (simp append_assoc)

total_eq :
    (p q : Parse) (ts : List Token)
    → p.pending_redirect ≡ []
    → collected q ≡ collected p
    → q.pending_redirect ≡ p.pending_redirect
    → total q ts ≡ collected p ++ words false ts
total_eq p q ts e same pending = rw (pending, same, e)

if-total :
    (b : Bool) (x y : Parse) (ts : List Token) {u v : List Bytes}
    → total x ts ≡ u
    → total y ts ≡ v
    → total (if b then x else y) ts ≡ (if b then u else v)
if-total true x y ts h k = h
if-total false x y ts h k = k

-- The tests of `operate` one after another are those of `words`.
join_tests :
    (pipe semi and_if or_if amp redirected : Bool) (front same behind word : List Bytes)
    → (if pipe
        then front ++ same
        else if semi
        then front ++ same
        else if and_if
        then front ++ same
        else if or_if
        then front ++ same
        else if amp
        then front ++ same
        else if redirected
        then front ++ behind
        else front ++ word)
      ≡ front
        ++ (if pipe || (semi || (and_if || (or_if || amp)))
            then same
            else if redirected
            then behind
            else word)
join_tests true _ _ _ _ _ front same behind word = refl
join_tests false true _ _ _ _ front same behind word = refl
join_tests false false true _ _ _ front same behind word = refl
join_tests false false false true _ _ front same behind word = refl
join_tests false false false false true _ front same behind word = refl
join_tests false false false false false true front same behind word = refl
join_tests false false false false false false front same behind word = refl

redirect-total :
    (p : Parse) (text : Bytes) (ts : List Token)
    → is_redirect text ≡ true
    → total (record p { pending_redirect = text }) ts ≡ collected p ++ words true ts
unfolding equal
redirect-total p [] ts h = cc
redirect-total p (c ∷ text) ts h = refl

operate-total :
    (p : Parse) (text : Bytes) (ts : List Token)
    → p.pending_redirect ≡ []
    → total (operate p text) ts
      ≡ collected p ++ words false (record { text = text; quoted = false } ∷ ts)
unfolding operate words
operate-total p text ts e =
    let ended = λ (op : Bytes).
      total_eq p (flush_pipeline p op) ts e (flush_pipeline-collected p op)
        (flush_pipeline_pending p op) in
    let background = record p { cur = record (p.cur) { background = true } } in
    if-total (equal text (codes "|")) _ _ ts
      (total_eq p (flush_stage p) ts e (flush_stage-collected p) (flush_stage_pending p))
      (if-total (equal text (codes ";") || equal text (codes "\n")) _ _ ts (ended (codes ";")) (
        if-total (equal text (codes "&&")) _ _ ts (ended (codes "&&")) (
          if-total (equal text (codes "||")) _ _ ts (ended (codes "||")) (
            if-total (equal text (codes "&")) _ _ ts
              (total_eq p (flush_pipeline background (codes ";")) ts e
                (flush_pipeline-collected background (codes ";"))
                (flush_pipeline_pending background (codes ";")))
              (last_tests (is_redirect text) refl)))))
    ∙ join_tests (equal text (codes "|")) (equal text (codes ";") || equal text (codes "\n"))
        (equal text (codes "&&")) (equal text (codes "||")) (equal text (codes "&"))
        (is_redirect text) (collected p) (words false ts) (words true ts) (text ∷ words false ts)
  where
    last_tests :
        (b : Bool)
        → is_redirect text ≡ b
        → total (if b then record p { pending_redirect = text } else push_word p text) ts
          ≡ (if b then collected p ++ words true ts else collected p ++ text ∷ words false ts)
    last_tests true h = redirect-total p text ts h
    last_tests false h = push_word-total p text ts e

redirect_argv : (st : Stage) (pending target : Bytes) → (redirect st pending target).argv ≡ st.argv
unfolding redirect
redirect_argv st pending target = ground arith

accept_ready :
    (p : Parse) (t : Token) (ts : List Token)
    → p.pending_redirect ≡ []
    → total (if t.quoted then push_word p t.text else operate p t.text) ts
      ≡ collected p ++ words false (t ∷ ts)
unfolding words
accept_ready p t ts e = elim (Bool-cases t.quoted) [
  | inl q ↦ rw q (push_word-total p t.text ts e)
  | inr q ↦ rw q (operate-total p t.text ts e)
]

accept-total : (p : Parse) (t : Token) (ts : List Token) → total (accept p t) ts ≡ total p (t ∷ ts)
unfolding accept
accept-total p t ts = elim (Bool-cases (is_empty p.pending_redirect)) [
  | inl none_pending ↦
      rw none_pending (accept_ready p t ts (is_empty-eq p.pending_redirect none_pending))
  | inr pending ↦
      rw (pending, redirect_argv p.stage p.pending_redirect t.text) (unfold words in refl)
]

accept_all-total : (p : Parse) (ts : List Token) → collected (accept_all p ts) ≡ total p ts
unfolding accept_all
accept_all-total p [] = unfold words in sym (append-nil (collected p))
accept_all-total p (t ∷ ts) = accept_all-total (accept p t) ts ∙ accept-total p t ts

no_words :
    (p : Parse) → p.stage ≡ no_stage → p.cur ≡ no_pipeline → collected p ≡ all_words p.pipelines
no_words p e f = rw (e, f) (append-nil (all_words p.pipelines))

flush_pipeline_cleared :
    (p : Parse) (op : Bytes)
    → ((flush_pipeline p op).stage ≡ no_stage) × ((flush_pipeline p op).cur ≡ no_pipeline)
unfolding flush_pipeline flush_stage close_pipeline
flush_pipeline_cleared p op = (refl, refl)

-- No word is lost, made up or moved: the argvs of all commands, one after another, are the words
-- among the tokens in their order. A token is no word if it is an operator outside quotes, or
-- stands behind a redirection.
pub parse_tokens-words : (ts : List Token) → all_words (parse_tokens ts) ≡ words false ts
unfolding parse_tokens
parse_tokens-words [] = unfold words in refl
parse_tokens-words (t ∷ ts) =
    let p = accept_all initial (t ∷ ts) in
    let (no_stage_left, no_cur_left) = flush_pipeline_cleared p [] in
    sym (no_words (flush_pipeline p []) no_stage_left no_cur_left)
    ∙ flush_pipeline-collected p []
    ∙ accept_all-total initial (t ∷ ts)
