-- ===== src/Shell/Login/Tests.antt =====
-- The theorem on a session's start, for an account whose home is not there.
use honeynet.Base.{true, List, [], ◌∷◌, codes}
use honeynet.Shell.Session.{Hooks, Shell}
use honeynet.Shell.Login.{User}

abbrev accounts : List User
accounts =
    record { name = codes "toor"; uid = 0; gid = 0; home = codes "/root" }
    ∷ record { name = codes "bob"; uid = 1000; gid = 1000; home = codes "/home/bob" }
    ∷ []

abbrev all_hooks : Hooks
all_hooks = record { has_command = true; has_artifact = true; has_upload = true }
