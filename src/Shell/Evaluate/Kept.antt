-- ===== src/Shell/Evaluate/Kept.antt =====
-- A line that is run leaves the session's bookkeeping alone, if the commands do.
use mathlib.Core.Path.{subst}
use honeynet.Base.{
  ℕ, ◌≡◌, ◌⊎◌, refl, sym, ap, ◌∙◌, Bool, true, false, not, ◌&&◌, inl, inr, Bool-cases, Option-cases,
  Option, none, some, List, [], ◌∷◌, ◌++◌, if◌then◌else◌, append-nil, Bytes, codes, is_empty,
  assign,
}
use honeynet.Vfs.{Error, Fs, Result, ok, err, panic, path_exists}
use honeynet.Vfs.Paths.{clean, path_base}
use honeynet.Vfs.Writes.{write_file, append_file}
use honeynet.Shell.Parser.{Pipeline, Stage, parse}
use honeynet.Shell.Session.{
  CommandEvent, Event, on_command, on_artifact, on_upload, Hooks, Limits, Shell, write,
}
use honeynet.Shell.Session.Kept.{
  Gives, panics, gives, Gives-if, Gives-bind, Gives-weaken, commands, Keeps, write-Keeps,
  errf-Keeps,
}
use honeynet.Shell.Evaluate.{
  Handler, message, contains, is_assignment, key_of, value_of, is_empty_argv, is_last, assign_all,
  log, stops, dispatch, run_stage, refuse, redirect_out_to, append_out_to, deliver, run_stages,
  run_pipeline, exec_pipelines, exec_line,
}

pub commands-append : (es fs : List Event) → commands (es ++ fs) ≡ commands es ++ commands fs
unfolding commands
commands-append [] fs = refl
commands-append (on_command c ∷ es) fs = ap (◌∷◌ c) (commands-append es fs)
commands-append (on_artifact u t l ∷ es) fs = commands-append es fs
commands-append (on_upload p c n t ∷ es) fs = commands-append es fs

-- An event that is no command.
pub log-Keeps : (s : Shell) (e : Event) → commands (e ∷ []) ≡ [] → Keeps s (log s e)
log-Keeps s e other =
    ap (λ cs. (s.cmd_index, s.lim, s.hooks, cs, s.cwd, s.fs, s.history))
      (commands-append s.events (e ∷ [])
        ∙ ap (λ cs. commands s.events ++ cs) other
        ∙ append-nil (commands s.events))

assign_all-Keeps : (s : Shell) (argv : List Bytes) → Keeps s (assign_all s argv).0
unfolding assign_all
assign_all-Keeps s [] = refl
assign_all-Keeps s (word ∷ argv) = elim (Bool-cases (is_assignment word)) [
  | inl set ↦
      rw (set, assign_all)
        (assign_all-Keeps (record s { env = assign (key_of word) (value_of word) s.env }) argv)
  | inr command ↦ rw (command, assign_all) refl
]

abbrev pub behind : Bytes × ℕ × Shell → Shell
behind (out, code, t) = t

-- What a line that is run leaves alone, and a condition on the directory and the file system, which
-- it keeps.
abbrev pub counts : Shell → ℕ × Limits × Hooks × List CommandEvent
counts s = (s.cmd_index, s.lim, s.hooks, commands s.events)

pub record Steps (Inv : Bytes → Fs → Type 0) (s t : Shell) : Type 0 where
  pub counted : counts t ≡ counts s
  pub holds : Inv s.cwd s.fs → Inv t.cwd t.fs

-- The condition outlasts the writes of redirected output. Where it holds, a write or a lookup that
-- panics comes with `Q`.
pub record IsStoring (Q : Type 0) (Inv : Bytes → Fs → Type 0) : Type 0 where
  pub stored :
      (now uid gid mode : ℕ) (cwd p content : Bytes) (fs fs' : Fs)
      → write_file now uid gid fs p content mode ≡ ok fs'
      → Inv cwd fs
      → Inv cwd fs'
  pub appended :
      (now uid gid : ℕ) (cwd p content : Bytes) (fs fs' : Fs)
      → append_file now uid gid fs p content ≡ ok fs'
      → Inv cwd fs
      → Inv cwd fs'
  pub write_panics :
      (now uid gid mode : ℕ) (cwd p content : Bytes) (fs : Fs)
      → write_file now uid gid fs p content mode ≡ panic
      → Inv cwd fs
      → Q
  pub append_panics :
      (now uid gid : ℕ) (cwd p content : Bytes) (fs : Fs)
      → append_file now uid gid fs p content ≡ panic
      → Inv cwd fs
      → Q
  pub looked_up :
      (cwd p : Bytes) (fs : Fs) → Inv cwd fs → ((b : Bool) × (path_exists fs p ≡ ok b)) ⊎ Q

-- What the code relies on in a table of commands: none of them counts or reports a line, they keep
-- the condition, and one that panics comes with `Q`.
abbrev pub IsTable : Type 0 → (Bytes → Fs → Type 0) → (Bytes → Option Handler) → Type 0
IsTable Q Inv builtins =
    (name : Bytes) (handler : Handler)
    → builtins name ≡ some handler
    → (s : Shell) (arg : Bytes) (args : List Bytes) (stdin : Bytes) → Inv s.cwd s.fs
    → Gives Q (λ r. Steps Inv s (behind r)) (handler s arg args stdin)

module _ (Inv : Bytes → Fs → Type 0) where
  pub Keeps-Steps : (s t : Shell) → Keeps s t → Steps Inv s t
  Keeps-Steps s t e = record {
    counted = ap (λ k. (k.0, k.1, k.2, k.3)) e;
    holds = subst (λ k. Inv k.4 k.5) (sym e);
  }

  pub Steps-trans : {s t u : Shell} → Steps Inv s t → Steps Inv t u → Steps Inv s u
  Steps-trans h k = record { counted = k.counted ∙ h.counted; holds = λ x. k.holds (h.holds x) }

module _ (Q : Type 0) (Inv : Bytes → Fs → Type 0) (storing : IsStoring Q Inv)
    (builtins : Bytes → Option Handler) (to_lower : Bytes → Bytes)
    (table : IsTable Q Inv builtins) where
  dispatch-Steps :
      (s : Shell) (argv : List Bytes) (stdin : Bytes)
      → Inv s.cwd s.fs
      → Gives Q (λ r. Steps Inv s (behind r)) (dispatch builtins to_lower s argv stdin)
  unfolding dispatch
  dispatch-Steps s [] stdin v = gives (record { counted = refl; holds = λ x. x })
  dispatch-Steps s (full ∷ args) stdin v = elim (Option-cases (builtins (path_base full))) [
    | inr (handler, known) ↦
        rw (known, dispatch) (table (path_base full) handler known s (path_base full) args stdin v)
    | inl unknown ↦
        rw (unknown, dispatch)
          (Gives-if (contains b'/' full)
            (elim (storing.looked_up s.cwd (clean s.cwd full) s.fs v) [
              | inl (there, e) ↦ rw e (missing there)
              | inr q ↦ broken (path_exists s.fs (clean s.cwd full)) q
            ])
            (gives (record { counted = refl; holds = λ x. x })))
  ]
    where
      missing :
          (there : Bool)
          → Gives Q
              (λ r. Steps Inv s (behind r))
              (elim there [
                | true ↦ some (codes "bash: " ++ full ++ codes ": Permission denied\n", 126, s)
                | false ↦
                    some (codes "bash: " ++ full ++ codes ": No such file or directory\n", 127, s)
              ])
      missing true = gives (record { counted = refl; holds = λ x. x })
      missing false = gives (record { counted = refl; holds = λ x. x })

      broken :
          (r : Result Bool)
          → Q
          → Gives Q
              (λ r. Steps Inv s (behind r))
              (elim r [
                | ok true ↦ some (codes "bash: " ++ full ++ codes ": Permission denied\n", 126, s)
                | ok false ↦
                    some (codes "bash: " ++ full ++ codes ": No such file or directory\n", 127, s)
                | err e ↦ none
                | panic ↦ none
              ])
      broken (ok true) q = gives (record { counted = refl; holds = λ x. x })
      broken (ok false) q = gives (record { counted = refl; holds = λ x. x })
      broken (err e) q = panics q
      broken panic q = panics q

  pub run_stage-Steps :
      (s : Shell) (st : Stage) (stdin : Bytes)
      → Inv s.cwd s.fs
      → Gives Q (λ r. Steps Inv s (behind r)) (run_stage builtins to_lower s st stdin)
  unfolding run_stage
  run_stage-Steps s st stdin v =
      Gives-weaken
        (λ r h.
          Steps-trans Inv (Keeps-Steps Inv s (assign_all s st.argv).0 (assign_all-Keeps s st.argv))
            h)
        (dispatch-Steps (assign_all s st.argv).0 (assign_all s st.argv).1 stdin
          ((Keeps-Steps Inv s (assign_all s st.argv).0 (assign_all-Keeps s st.argv)).holds v))

  refuse-Keeps :
      (s : Shell) (name : Bytes) (e : Error) → Keeps s (refuse builtins to_lower s name e)
  unfolding refuse
  refuse-Keeps s name e = errf-Keeps s (codes "bash: " ++ name ++ codes ": " ++ message e)

  redirect_out_to-Steps :
      (s : Shell) (name out : Bytes)
      → Inv s.cwd s.fs
      → Gives Q (Steps Inv s) (redirect_out_to builtins to_lower s name out)
  unfolding redirect_out_to commands
  redirect_out_to-Steps s name out v =
      stored (write_file s.clock s.uid s.gid s.fs (clean s.cwd name) out 0x1a4) refl
    where
      stored :
          (r : Result Fs)
          → write_file s.clock s.uid s.gid s.fs (clean s.cwd name) out 0x1a4 ≡ r
          → Gives Q (Steps Inv s) (elim r [
            | panic ↦ none
            | err e ↦ some (refuse builtins to_lower s name e)
            | ok fs ↦
                if s.hooks.has_upload && not (is_empty out)
                then some (
                    log
                      (record s { fs = fs })
                      (on_upload (clean s.cwd name) out name (codes "shell-redirect")))
                else some (record s { fs = fs })
          ])
      stored panic q =
          panics
            (storing.write_panics s.clock s.uid s.gid 0x1a4 s.cwd (clean s.cwd name) out s.fs q v)
      stored (err e) q =
          gives (Keeps-Steps Inv s (refuse builtins to_lower s name e) (refuse-Keeps s name e))
      stored (ok fs) q =
          let kept_by =
            storing.stored s.clock s.uid s.gid 0x1a4 s.cwd (clean s.cwd name) out s.fs fs q in
          Gives-if (s.hooks.has_upload && not (is_empty out))
            (gives (record {
              counted =
                  ap (λ k. (k.0, k.1, k.2, k.3))
                    (log-Keeps (record s { fs = fs })
                      (on_upload (clean s.cwd name) out name (codes "shell-redirect")) refl);
              holds = kept_by;
            }))
            (gives (record { counted = refl; holds = kept_by }))

  append_out_to-Steps :
      (s : Shell) (name out : Bytes)
      → Inv s.cwd s.fs
      → Gives Q (Steps Inv s) (append_out_to builtins to_lower s name out)
  unfolding append_out_to
  append_out_to-Steps s name out v =
      stored (append_file s.clock s.uid s.gid s.fs (clean s.cwd name) out) refl
    where
      stored :
          (r : Result Fs)
          → append_file s.clock s.uid s.gid s.fs (clean s.cwd name) out ≡ r
          → Gives Q (Steps Inv s) (elim r [
            | panic ↦ none
            | err e ↦ some (refuse builtins to_lower s name e)
            | ok fs ↦ some (record s { fs = fs })
          ])
      stored panic q =
          panics (storing.append_panics s.clock s.uid s.gid s.cwd (clean s.cwd name) out s.fs q v)
      stored (err e) q =
          gives (Keeps-Steps Inv s (refuse builtins to_lower s name e) (refuse-Keeps s name e))
      stored (ok fs) q = gives (record {
        counted = refl;
        holds = storing.appended s.clock s.uid s.gid s.cwd (clean s.cwd name) out s.fs fs q;
      })

  deliver-Steps :
      (s : Shell) (st : Stage) (last : Bool) (out : Bytes)
      → Inv s.cwd s.fs
      → Gives Q (λ r. Steps Inv s r.1) (deliver builtins to_lower s st last out)
  unfolding deliver
  deliver-Steps s st last out v =
      Gives-if (not (is_empty st.redirect_out))
        (Gives-bind _ (redirect_out_to-Steps s st.redirect_out out v) λ t h. gives h)
        (Gives-if (not (is_empty st.redirect_append))
          (Gives-bind _ (append_out_to-Steps s st.redirect_append out v) λ t h. gives h)
          (Gives-if last (gives (Keeps-Steps Inv s (write s out) (write-Keeps s out)))
            (gives (record { counted = refl; holds = λ x. x }))))

  run_stages-Steps :
      (s : Shell) (carry : Bytes) (sts : List Stage)
      → Inv s.cwd s.fs
      → Gives Q (Steps Inv s) (run_stages builtins to_lower s carry sts)
  unfolding run_stages
  run_stages-Steps s carry [] v = gives (record { counted = refl; holds = λ x. x })
  run_stages-Steps s carry (st ∷ sts) v = elim (Bool-cases (is_empty_argv st.argv)) [
    | inl nothing ↦ rw (nothing, run_stages) (run_stages-Steps s carry sts v)
    | inr command ↦
        rw (command, run_stages)
          (Gives-bind _ (run_stage-Steps s st carry v) λ r h.
            let coded : Steps Inv s (record r.2 { exit_code = r.1 }) = record {
              counted = h.counted;
              holds = h.holds;
            } in
            Gives-bind _
              (deliver-Steps (record r.2 { exit_code = r.1 }) st (is_last sts) r.0 (h.holds v))
              λ d g.
                Gives-weaken (λ t k. Steps-trans Inv coded (Steps-trans Inv g k))
                  (run_stages-Steps d.1 d.0 sts (g.holds (h.holds v))))
  ]

  exec_pipelines-Steps :
      (s : Shell) (pls : List Pipeline)
      → Inv s.cwd s.fs
      → Gives Q (Steps Inv s) (exec_pipelines builtins to_lower s pls)
  unfolding exec_pipelines run_pipeline
  exec_pipelines-Steps s [] v = gives (record { counted = refl; holds = λ x. x })
  exec_pipelines-Steps s (pl ∷ pls) v = Gives-bind _ (run_stages-Steps s [] pl.stages v) λ t h.
      elim (Bool-cases (stops pl.next t)) [
        | inl stop ↦ rw stop (gives h)
        | inr further ↦
            rw further
              (Gives-weaken (λ u g. Steps-trans Inv h g) (exec_pipelines-Steps t pls (h.holds v)))
      ]

  pub exec_line-Steps :
      (s : Shell) (line : Bytes)
      → Inv s.cwd s.fs
      → Gives Q (Steps Inv s) (exec_line builtins to_lower s line)
  unfolding exec_line
  exec_line-Steps s line v = exec_pipelines-Steps s (parse line) v
