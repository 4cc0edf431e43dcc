-- ===== src/Shell/Commands/Echo/Kept.antt =====
-- `echo` leaves the session as it is.
use honeynet.Shell.Session.Kept.{gives}
use honeynet.Shell.Commands.Sound.{IsKept, none-Steps}
use honeynet.Shell.Commands.Echo.{cmd_echo}

pub cmd_echo-IsKept : IsKept cmd_echo
unfolding cmd_echo
cmd_echo-IsKept s name args stdin v = gives none-Steps
