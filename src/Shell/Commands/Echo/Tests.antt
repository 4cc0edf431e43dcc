-- ===== src/Shell/Commands/Echo/Tests.antt =====
-- Runs of echo, and the theorem on payloads at one of two bytes.
use honeynet.Base.{◌≡◌, refl, some, [], ◌∷◌, arith, codes, find}
use honeynet.Shell.Session.{lookup_env}
use honeynet.Shell.Evaluate.{contains}
use honeynet.Shell.Evaluate.Tests.{calm}
use honeynet.Shell.Commands.Echo.{
  is_name_char, name_length, reference, expand_from, expand, cmd_echo, hex_escape, escape,
  unescape_from, unescape,
}
use honeynet.Shell.Commands.Echo.Captured.{hex_text, cmd_echo-hex_text}

-- A dollar in front of anything but a name, a brace or a question mark is lost.
lone_dollar : expand calm (codes "5$ off") ≡ codes "5 off"
unfolding expand expand_from contains reference name_length is_name_char lookup_env find
lone_dollar = refl

-- An escape that is cut short stays as it is.
cut_short : unescape (codes "a\\x4") ≡ codes "a\\x4"
unfolding unescape unescape_from escape hex_escape
cut_short = refl

cmd_echo-hex_text_example :
    cmd_echo calm (codes "echo") (codes "-ne" ∷ hex_text (0x7f ∷ 0x45 ∷ []) ∷ []) []
    ≡ some (0x7f ∷ 0x45 ∷ [], 0, calm)
cmd_echo-hex_text_example =
    cmd_echo-hex_text calm (0x7f ∷ 0x45 ∷ []) [] (omega arith, (omega arith, tt))
