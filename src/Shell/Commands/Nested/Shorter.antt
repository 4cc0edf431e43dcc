-- ===== src/Shell/Commands/Nested/Shorter.antt =====
-- A command that runs another one gives it fewer words than it has itself, those on its standard
-- input counted.
use honeynet.Base.{
  ℕ, suc, ◌+◌, ◌≤◌, ◌<◌, ◌≡◌, refl, Option, none, some, List, [], ◌∷◌, ◌++◌, arith, length,
  length-append, Bytes,
}
use honeynet.Shell.Session.{Shell}
use honeynet.Shell.Evaluate.{Handler}
use honeynet.Shell.Evaluate.Argv.{call}
use honeynet.Shell.Commands.{operands}
use honeynet.Shell.Commands.Sound.{length-operands}
use honeynet.Shell.Commands.Nested.{
  Runner, fields, fields_from, cmd_sudo, cmd_xargs, run_sudo, run_xargs, run_nohup,
  without_duration, cmd_nohup, run_applet, cmd_busybox,
}

-- The words in sight.
abbrev pub words : List Bytes → Bytes → ℕ
words args stdin = length args + length (fields stdin)

pub fields-nil : fields [] ≡ []
unfolding fields fields_from
fields-nil = refl

length-without_duration :
    (name : Bytes) (ops : List Bytes) → length (without_duration name ops) ≤ length ops
unfolding without_duration
length-without_duration name [] = omega arith
length-without_duration name (a ∷ []) = omega arith
length-without_duration name (a ∷ b ∷ ops) = ground arith

module _ (run other : Runner) (depth : ℕ) (s : Shell) (stdin : Bytes)
    (same : (argv : List Bytes) (input : Bytes)
      → words argv input < depth
      → run s argv input ≡ other s argv input) where
  run_sudo_shorter :
      (ops : List Bytes)
      → words ops stdin < depth
      → run_sudo run s ops stdin ≡ run_sudo other s ops stdin
  run_sudo_shorter [] h = refl
  run_sudo_shorter (op ∷ ops) h = let e = same (op ∷ ops) stdin h in rw e refl

  run_xargs_shorter :
      (ops : List Bytes)
      → words ops stdin < depth
      → run_xargs run s ops stdin ≡ run_xargs other s ops stdin
  run_xargs_shorter [] h = refl
  run_xargs_shorter (op ∷ ops) h =
      same (op ∷ ops ++ fields stdin) []
        (rw fields-nil (omega (arith, h, length-append ops (fields stdin))))

  run_nohup_shorter :
      (name : Bytes) (ops : List Bytes)
      → words ops stdin < depth
      → run_nohup run s name ops stdin ≡ run_nohup other s name ops stdin
  run_nohup_shorter name [] h = refl
  run_nohup_shorter name (op ∷ ops) h = let e = same (op ∷ ops) stdin h in rw e refl

  module _ (name : Bytes) (args : List Bytes) (enough : words args stdin < depth) where
    pub cmd_sudo_shorter : cmd_sudo run s name args stdin ≡ cmd_sudo other s name args stdin
    unfolding cmd_sudo
    cmd_sudo_shorter =
        run_sudo_shorter (operands args) (omega (arith, enough, length-operands args))

    pub cmd_xargs_shorter : cmd_xargs run s name args stdin ≡ cmd_xargs other s name args stdin
    unfolding cmd_xargs
    cmd_xargs_shorter =
        run_xargs_shorter (operands args) (omega (arith, enough, length-operands args))

    pub cmd_nohup_shorter : cmd_nohup run s name args stdin ≡ cmd_nohup other s name args stdin
    unfolding cmd_nohup
    cmd_nohup_shorter =
        run_nohup_shorter name (without_duration name (operands args)) (
          omega (arith, enough, length-operands args, length-without_duration name (operands args)))

module _ (builtins others : Bytes → Option Handler) (depth : ℕ) (s : Shell) (stdin : Bytes)
    (same : (name : Bytes) (args : List Bytes)
      → words args stdin < depth
      → call (builtins name) s name args stdin ≡ call (others name) s name args stdin) where
  on_applet :
      (f g : Option Handler) (name : Bytes) (args : List Bytes)
      → call f s name args stdin ≡ call g s name args stdin
      → run_applet f s name args stdin ≡ run_applet g s name args stdin
  on_applet none none name args e = refl
  on_applet none (some g) name args e = absurd (ground arith)
  on_applet (some f) none name args e = absurd (ground arith)
  on_applet (some f) (some g) name args e = cc

  pub cmd_busybox_shorter :
      (name : Bytes) (args : List Bytes)
      → words args stdin < suc depth
      → cmd_busybox builtins s name args stdin ≡ cmd_busybox others s name args stdin
  unfolding cmd_busybox
  cmd_busybox_shorter name [] h = refl
  cmd_busybox_shorter name (applet ∷ args) h =
      let e =
        on_applet (builtins applet) (others applet) applet args (same applet args (omega arith)) in
      rw e refl
