-- ===== src/Shell/Evaluate/Stored.antt =====
-- A valid file system outlasts redirected output, and neither a write nor a lookup panics on it.
use mathlib.Core.Path.{subst}
use honeynet.Base.{◌≡◌, inl, Bytes}
use honeynet.Vfs.{Fs, Result, ok, panic}
use honeynet.Vfs.Ends.{Ends, Ends-ok, Ends-panic}
use honeynet.Vfs.Valid.{IsValid, path_exists_lem}
use honeynet.Vfs.Writes.Calls.{writes, appends, run-Ends}
use honeynet.Shell.Evaluate.Kept.{IsStoring}

pub IsValid-IsStoring :
    (Q : Type 0) (C : Bytes → Type 0) → IsStoring Q (λ cwd fs. C cwd × IsValid fs)
IsValid-IsStoring Q C = record {
  stored = λ now uid gid mode cwd p content fs fs' e h.
      (h.0, Ends-written e (run-Ends now uid gid (writes p content mode) fs h.1));
  appended = λ now uid gid cwd p content fs fs' e h.
      (h.0, Ends-written e (run-Ends now uid gid (appends p content) fs h.1));
  write_panics = λ now uid gid mode cwd p content fs e h.
      absurd (Ends-broken e (run-Ends now uid gid (writes p content mode) fs h.1));
  append_panics = λ now uid gid cwd p content fs e h.
      absurd (Ends-broken e (run-Ends now uid gid (appends p content) fs h.1));
  looked_up = λ cwd p fs h. inl (path_exists_lem fs p h.1);
}
  where
    Ends-written :
        {R : Type 0} {r : Result Fs} {fs : Fs} → r ≡ ok fs → Ends R IsValid r → IsValid fs
    Ends-written {R} e h = Ends-ok (subst (Ends R IsValid) e h)

    Ends-broken : {R : Type 0} {r : Result Fs} → r ≡ panic → Ends R IsValid r → R
    Ends-broken {R} e h = Ends-panic (subst (Ends R IsValid) e h)
