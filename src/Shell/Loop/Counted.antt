-- ===== src/Shell/Loop/Counted.antt =====
-- A session counts and reports each line that is not blank, and serves no more than the limit.
use mathlib.Core.Path.{subst}
use honeynet.Base.{
  ℕ, zero, suc, ◌+◌, ◌-◌, ◌%◌, ◌^◌, ◌≤◌, ◌<◌, ◌≡◌, ◌≢◌, refl, sym, ap, ◌∙◌, Bool, true, false, inl,
  inr, Bool-cases, Option, none, some, List, [], ◌∷◌, ◌++◌, arith, leb, ltb, if◌then◌else◌, All,
  All-append, Bytes, is_empty, trim_space,
}
use honeynet.Shell.Parser.{parse}
use honeynet.Vfs.{Fs}
use honeynet.Shell.Urls.{extract_urls}
use honeynet.Shell.Session.{
  CommandEvent, Event, on_command, Hooks, Limits, Shell, write_prompt, new_line, ReadError, eof,
  limit_exceeded, broken, Input,
}
use honeynet.Shell.Session.Kept.{
  Gives, gives, Gives-if, Gives-bind, commands, kept, Keeps, reads, read_line-Keeps,
  write_prompt-Keeps,
}
use honeynet.Shell.Evaluate.{Handler, log}
use honeynet.Shell.Loop.{
  first_command, End, session_ended, over_limit, failed, unfinished, observe, tell_command,
  write_motd, rounds, run_interactive,
}
use honeynet.Shell.Evaluate.Kept.{
  IsTable, IsStoring, Steps, counts, Keeps-Steps, commands-append, exec_line-Steps,
}
use honeynet.Shell.Loop.Told.{report_pipelines-Keeps}

-- The commands have the numbers from `start` up to `next`.
abbrev pub IsNumbered : ℕ → List CommandEvent → ℕ → Type 0
IsNumbered start [] next = start ≡ next
IsNumbered start (c ∷ cs) next = (c.index ≡ start) × IsNumbered (suc start) cs next

IsNumbered-append :
    (start next : ℕ) (cs : List CommandEvent) (c : CommandEvent)
    → IsNumbered start cs next
    → c.index ≡ next
    → IsNumbered start (cs ++ c ∷ []) (suc next)
IsNumbered-append start next [] c h e = (e ∙ sym h, ap suc h)
IsNumbered-append start next (d ∷ cs) c h e = (h.0, IsNumbered-append (suc start) next cs c h.1 e)

abbrev pub IsLine : CommandEvent → Type 0
IsLine c = is_empty (trim_space c.raw) ≡ false

-- What the bookkeeping of a session promises.
abbrev pub Promise : ℕ × Limits × Hooks × List CommandEvent → Type 0
Promise (count, lim, hooks, cs) =
    (count ≤ lim.max_commands)
    × (lim.max_commands < 2 ^ 32)
    × (hooks.has_command ≡ true)
    × IsNumbered 0 cs count
    × All IsLine cs

-- And a condition on the directory and the file system.
abbrev pub IsCounted : (Bytes → Fs → Type 0) → Shell → Type 0
IsCounted Inv s = Promise (counts s) × Inv s.cwd s.fs

Steps-IsCounted :
    (Inv : Bytes → Fs → Type 0) (s t : Shell) → Steps Inv s t → IsCounted Inv s → IsCounted Inv t
Steps-IsCounted Inv s t step h = (subst Promise (sym step.counted) h.0, step.holds h.1)

kept-tell_command :
    (s : Shell) (line : Bytes) (deltas : List ℕ) (bulk : Bool)
    → s.hooks.has_command ≡ true
    → kept (tell_command s line deltas bulk) ≡ (
      s.cmd_index,
      s.lim,
      s.hooks,
      commands s.events ++ first_command s line deltas bulk ∷ [],
      s.cwd,
      s.fs,
      s.history,
    )
unfolding tell_command commands
kept-tell_command s line deltas bulk hook =
    ap (λ b. kept (if b then log s (on_command (first_command s line deltas bulk)) else s)) hook
    ∙ ap (λ cs. (s.cmd_index, s.lim, s.hooks, cs, s.cwd, s.fs, s.history))
        (commands-append s.events (on_command (first_command s line deltas bulk) ∷ []))

no_wrap : (n m : ℕ) → n < m → m < 2 ^ 32 → (n + 1) % 2 ^ 32 ≡ suc n
no_wrap n m h k = omega arith

-- One more command.
one_more :
    (n : ℕ) (lim : Limits) (hooks : Hooks) (cs : List CommandEvent) (c : CommandEvent)
    → Promise (n, lim, hooks, cs)
    → leb lim.max_commands n ≡ false
    → c.index ≡ n
    → IsLine c
    → Promise ((n + 1) % 2 ^ 32, lim, hooks, cs ++ c ∷ [])
one_more n lim hooks cs c (count, bound, hook, numbered, lines) room index filled =
    let more : n < lim.max_commands = ground arith in
    rw (no_wrap n lim.max_commands more bound) (
      omega arith,
      bound,
      hook,
      IsNumbered-append 0 n cs c numbered index,
      All-append IsLine cs (c ∷ []) lines (filled, tt),
    )

abbrev pub IsOver : (Bytes → Fs → Type 0) → Shell × End → Type 0
IsOver Inv (s, e) = IsCounted Inv s × (e ≢ unfinished)

-- A session whose read failed.
closed :
    {Q : Type 0} (Inv : Bytes → Fs → Type 0) (s : Shell)
    → IsCounted Inv s
    → (o : Option ReadError) {x : Option (Shell × End)} → (o ≡ none → Gives Q (IsOver Inv) x)
    → Gives Q (IsOver Inv) (elim o [
      | some eof ↦ some (s, session_ended)
      | some limit_exceeded ↦ some (s, over_limit)
      | some broken ↦ some (s, failed)
      | none ↦ x
    ])
closed Inv s h none k = k refl
closed Inv s h (some eof) k = gives (h, λ e. absurd (ground arith))
closed Inv s h (some limit_exceeded) k = gives (h, λ e. absurd (ground arith))
closed Inv s h (some broken) k = gives (h, λ e. absurd (ground arith))

fresh_commands : (es : List Event) → es ≡ [] → commands es ≡ []
unfolding commands
fresh_commands es e = rw e refl

module _ (Q : Type 0) (Inv : Bytes → Fs → Type 0) (storing : IsStoring Q Inv)
    (builtins : Bytes → Option Handler) (to_lower : Bytes → Bytes) (table : IsTable Q Inv builtins)
    (urls_panic : (argv : List Bytes) → extract_urls to_lower argv ≡ none → Q) where
  observe-IsCounted :
      (s : Shell) (line : Bytes) (deltas : List ℕ) (bulk : Bool)
      → IsCounted Inv s
      → leb s.lim.max_commands s.cmd_index ≡ false
      → is_empty (trim_space line) ≡ false
      → Gives Q (IsCounted Inv) (observe builtins to_lower s line deltas bulk)
  unfolding observe
  observe-IsCounted s line deltas bulk h room filled =
      Gives-bind _
        (Gives-if s.hooks.has_artifact
          (report_pipelines-Keeps Q builtins to_lower urls_panic line
            (tell_command s line deltas bulk) (parse line))
          (gives refl))
        λ t same.
          let told = same ∙ kept-tell_command s line deltas bulk h.0.2 in
          gives (
            subst Promise (sym (ap (λ k. ((s.cmd_index + 1) % 2 ^ 32, k.1, k.2, k.3)) told)) (
                one_more s.cmd_index s.lim s.hooks (commands s.events)
                  (first_command s line deltas bulk) h.0 room refl filled),
            subst (λ k. Inv k.4 k.5) (sym told) h.1,
          )

  rounds-IsCounted :
      (motd : Bytes) (hours_before : ℕ → Bytes) (left : ℕ) (s : Shell) (input : Input)
      → IsCounted Inv s
      → reads input < left
      → Gives Q (IsOver Inv) (rounds builtins to_lower motd hours_before left s input)
  unfolding rounds
  rounds-IsCounted motd hours_before zero s input h enough = absurd (ground arith)
  rounds-IsCounted motd hours_before (suc left) s input h enough = elim (Bool-cases s.exit_flag) [
    | inl gone ↦ rw (gone, rounds) (gives (h, λ e. absurd (ground arith)))
    | inr here ↦
        rw (here, rounds)
          (elim (Bool-cases (leb s.lim.max_commands s.cmd_index)) [
            | inl full ↦ rw (full, rounds) (gives (h, λ e. absurd (ground arith)))
            | inr room ↦
                rw (room, rounds)
                  (elim (Bool-cases (ltb s.lim.max_duration (s.clock - s.started))) [
                    | inl late ↦ rw (late, rounds) (gives (h, λ e. absurd (ground arith)))
                    | inr early ↦
                        rw (early, rounds)
                          (Gives-bind _
                            (read_line-Keeps (write_prompt s) (new_line (write_prompt s)) input
                              (omega arith))
                            λ r k.
                              let same = k.0 ∙ write_prompt-Keeps s in
                              let counted =
                                Steps-IsCounted Inv s r.shell (Keeps-Steps Inv s r.shell same) h in
                              closed Inv r.shell counted r.error λ e.
                                let fewer = k.1 e in
                                elim (Bool-cases (is_empty (trim_space r.line))) [
                                  | inl blank ↦
                                      rw (blank, rounds)
                                        (rounds-IsCounted motd hours_before left r.shell r.rest
                                          counted (omega arith))
                                  | inr filled ↦
                                      rw (filled, rounds)
                                        (Gives-bind _
                                          (observe-IsCounted
                                            (record r.shell {
                                              history = r.shell.history ++ r.line ∷ [];
                                            })
                                            r.line r.deltas r.bulk counted
                                            (ap (λ q. leb q.1.max_commands q.0) same ∙ room) filled)
                                          λ t g.
                                            Gives-bind _
                                              (exec_line-Steps Q Inv storing builtins to_lower table
                                                t r.line g.1)
                                              λ u w.
                                                rounds-IsCounted motd hours_before left u r.rest
                                                  (Steps-IsCounted Inv t u w g) (omega arith))
                                ])
                  ])
          ])
  ]

  write_motd-Keeps :
      (motd : Bytes) (hours_before : ℕ → Bytes) (s : Shell)
      → Keeps s (write_motd builtins to_lower motd hours_before s)
  unfolding write_motd
  write_motd-Keeps motd hours_before s = elim (Bool-cases (is_empty motd)) [
    | inl silent ↦ rw (silent, write_motd) refl
    | inr greeting ↦ rw (greeting, write_motd) refl
  ]

  -- With a round for each read and one more, a session that starts with no commands and no events,
  -- with OnCommand set, a limit below 2^32 and the condition, ends: reading a line does not panic, so that a panic is one of a command, of a write or
  -- a lookup where the condition holds, or of the extraction of URLs. At its end the condition holds,
  -- it has served no more commands than the limit, and each of them was reported, numbered from zero
  -- on, and none of these lines is blank.
  pub run_interactive-IsOver :
      (motd : Bytes) (hours_before : ℕ → Bytes) (left : ℕ) (s : Shell) (input : Input)
      → s.cmd_index ≡ 0
      → s.events ≡ []
      → s.hooks.has_command ≡ true
      → s.lim.max_commands < 2 ^ 32
      → reads input < left
      → Inv s.cwd s.fs
      → Gives Q (IsOver Inv) (run_interactive builtins to_lower motd hours_before left s input)
  unfolding run_interactive
  run_interactive-IsOver motd hours_before left s input none_yet nothing hook bound enough held =
      rounds-IsCounted motd hours_before left (write_motd builtins to_lower motd hours_before s)
        input
        (Steps-IsCounted Inv s (write_motd builtins to_lower motd hours_before s)
          (Keeps-Steps Inv s (write_motd builtins to_lower motd hours_before s)
            (write_motd-Keeps motd hours_before s))
          (fresh s.events nothing, held))
        enough
    where
      fresh : (es : List Event) → es ≡ [] → Promise (s.cmd_index, s.lim, s.hooks, commands es)
      fresh es e =
          let h : commands es ≡ [] = fresh_commands es e in
          rw h (omega arith, bound, hook, sym none_yet, tt)
