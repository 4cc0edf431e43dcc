-- ===== src/Shell/Commands/State/Tests.antt =====
-- A run of the flags of id.
use honeynet.Base.{◌≡◌, refl, true, [], ◌∷◌, codes, equal, has_prefix}
use honeynet.Shell.Evaluate.{contains}
use honeynet.Shell.Commands.{has_flag, holds_any}

-- `id -un` holds the flag of `id -u`, which is tried first.
id_un : has_flag (codes "-un" ∷ []) (codes "-u" ∷ []) ≡ true
unfolding has_flag holds_any contains equal has_prefix
id_un = refl
