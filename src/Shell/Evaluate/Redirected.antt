-- ===== src/Shell/Evaluate/Redirected.antt =====
-- A single stage whose output goes to a file.
use honeynet.Base.{ℕ, ◌≡◌, refl, Bool, true, false, Option, some, [], ◌∷◌, Bytes, codes, is_empty}
use honeynet.Vfs.{Fs, ok}
use honeynet.Vfs.Paths.{clean}
use honeynet.Vfs.Writes.{write_file}
use honeynet.Shell.Parser.{Stage, Pipeline, parse}
use honeynet.Shell.Session.{on_upload, Shell}
use honeynet.Shell.Evaluate.{
  Handler, is_empty_argv, log, stops, exec_pipelines, exec_line, run_stage, redirect_out_to,
  deliver, run_stages, run_pipeline,
}

-- The session behind it.
abbrev pub stored : Shell → ℕ → Fs → Bytes → Bytes → Bytes → Shell
stored s code fs path out name =
    log (record s { exit_code = code; fs = fs }) (on_upload path out name (codes "shell-redirect"))

module _ (builtins : Bytes → Option Handler) (to_lower : Bytes → Bytes) where
  redirect_out_to-stored :
      (s : Shell) (name out : Bytes) (fs : Fs)
      → write_file s.clock s.uid s.gid s.fs (clean s.cwd name) out 0x1a4 ≡ ok fs
      → s.hooks.has_upload ≡ true
      → is_empty out ≡ false
      → redirect_out_to builtins to_lower s name out
        ≡ some (
            log
              (record s { fs = fs })
              (on_upload (clean s.cwd name) out name (codes "shell-redirect")))
  unfolding redirect_out_to
  redirect_out_to-stored s name out fs written hook filled =
      rw (written, redirect_out_to) (rw (hook, filled) refl)

  run_stages-stored :
      (s : Shell) (st : Stage) (carry out : Bytes) (code : ℕ) (t : Shell) (fs : Fs)
      → is_empty_argv st.argv ≡ false
      → run_stage builtins to_lower s st carry ≡ some (out, code, t)
      → is_empty st.redirect_out ≡ false
      → write_file t.clock t.uid t.gid t.fs (clean t.cwd st.redirect_out) out 0x1a4 ≡ ok fs
      → t.hooks.has_upload ≡ true
      → is_empty out ≡ false
      → run_stages builtins to_lower s carry (st ∷ [])
        ≡ some (stored t code fs (clean t.cwd st.redirect_out) out st.redirect_out)
  unfolding run_stages deliver
  run_stages-stored s st carry out code t fs command ran redirected written hook filled =
      let target =
        redirect_out_to-stored (record t { exit_code = code }) st.redirect_out out fs written hook
          filled in
      rw (command, run_stages) (rw ran (rw redirected (rw target refl)))

  pub run_pipeline-stored :
      (s : Shell) (st : Stage) (next out : Bytes) (background : Bool) (code : ℕ) (t : Shell)
      (fs : Fs)
      → is_empty_argv st.argv ≡ false
      → run_stage builtins to_lower s st [] ≡ some (out, code, t)
      → is_empty st.redirect_out ≡ false
      → write_file t.clock t.uid t.gid t.fs (clean t.cwd st.redirect_out) out 0x1a4 ≡ ok fs
      → t.hooks.has_upload ≡ true
      → is_empty out ≡ false
      → run_pipeline builtins to_lower s
          (record { stages = st ∷ []; next = next; background = background })
        ≡ some (stored t code fs (clean t.cwd st.redirect_out) out st.redirect_out)
  unfolding run_pipeline
  run_pipeline-stored s st next out background code t fs command ran redirected written hook
        filled =
      run_stages-stored s st [] out code t fs command ran redirected written hook filled

  stopped :
      (stop : Bool) (t : Shell)
      → elim stop [ true ↦ some t | false ↦ exec_pipelines builtins to_lower t [] ] ≡ some t
  unfolding exec_pipelines
  stopped true t = refl
  stopped false t = refl

  -- A line of one pipeline.
  pub exec_line-parse :
      (s : Shell) (line : Bytes) (pl : Pipeline) (t : Shell)
      → parse line ≡ pl ∷ []
      → run_pipeline builtins to_lower s pl ≡ some t
      → exec_line builtins to_lower s line ≡ some t
  unfolding exec_line exec_pipelines
  exec_line-parse s line pl t parsed ran =
      rw (parsed, exec_line) (rw (ran, exec_pipelines) (stopped (stops pl.next t) t))
