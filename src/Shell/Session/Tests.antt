-- ===== src/Shell/Session/Tests.antt =====
-- Runs of the terminal, and the theorems on it.
use honeynet.Base.{
  ℕ, ◌+◌, ◌≤◌, ◌≡◌, refl, true, false, ◌||◌, Option, none, some, List, [], ◌∷◌, ◌++◌, arith, ltb,
  length, Bytes, codes, encode, encode_rune, runes, has_prefix, equal, split_on, cons_head, find,
  trim_prefix, decode_rune,
}
use honeynet.Shell.Session.{
  default_limits, Shell, to_lf, write, new_line, press, type_bytes, escape, arrow, replace_line,
  Input, arrives, ends, eof, count_printable, note_read, add_delta, ReadLine, read_line, prompt,
  displayed, drop_last,
}
use honeynet.Shell.Session.Output.{IsCrlf, write-IsCrlf}
use honeynet.Shell.Session.Typed.{type_pieces, text_of, is_pasted, read_line-typed}

abbrev pub test_shell : Shell
test_shell = record {
  hostname = codes "web01.example.org";
  fs = record { nodes = []; written = 0 };
  hooks = record { has_command = true; has_artifact = true; has_upload = true };
  lim = default_limits;
  pty = true;
  user = codes "bob";
  uid = 1000;
  gid = 1000;
  cwd = codes "/home/bob/src";
  env = (codes "HOME", codes "/home/bob") ∷ [];
  history = codes "ls" ∷ [];
  cmd_index = 0;
  exit_code = 0;
  started = 0;
  last_cmd = 0;
  in_bytes = 0;
  exit_flag = false;
  clock = 0;
  output = [];
  events = [];
}

prompt_of_bob : prompt test_shell ≡ codes "bob@web01:~/src$ "
unfolding prompt displayed split_on cons_head find equal has_prefix trim_prefix
prompt_of_bob = refl

abbrev line_of : Option ReadLine → Bytes × Input
line_of none = ([], ends eof)
line_of (some r) = (r.line, r.rest)

abbrev reading : Bytes → Option ReadLine
reading bs = read_line test_shell (new_line test_shell) (arrives bs 1000000 (ends eof))

edited : line_of (reading (codes "lx\u{8}s -l\r")) ≡ (codes "ls -l", ends eof)
unfolding read_line note_read type_bytes press drop_last add_delta encode encode_rune
    count_printable
edited = refl

from_the_history : line_of (reading (codes "x\u{1b}[A\r")) ≡ (codes "ls", ends eof)
unfolding read_line note_read type_bytes press escape arrow replace_line runes decode_rune add_delta
    encode encode_rune count_printable
from_the_history = refl

-- What a client sends behind the first line, in the same read, is lost.
second_line_lost : line_of (reading (codes "cd /tmp\nls\n")) ≡ (codes "cd /tmp", ends eof)
unfolding read_line note_read type_bytes press add_delta encode encode_rune count_printable
second_line_lost = refl

-- The two bytes of a letter with an accent are taken as two runes, and encoded once more.
encoded_twice :
    line_of (reading (0xc3 ∷ 0xa9 ∷ b'\r' ∷ [])) ≡ (0xc3 ∷ 0x83 ∷ 0xc2 ∷ 0xa9 ∷ [], ends eof)
unfolding read_line note_read type_bytes press add_delta encode encode_rune count_printable
encoded_twice = refl

write-IsCrlf_example :
    (new : Bytes) × ((write test_shell (codes "a\nb\r\n")).output ≡ [] ++ new)
    × IsCrlf 0 new
    × (to_lf new ≡ to_lf (codes "a\nb\r\n"))
write-IsCrlf_example = write-IsCrlf test_shell (codes "a\nb\r\n") refl

abbrev pieces : List (Bytes × ℕ)
pieces = (codes "l", 90000000) ∷ (codes "s ", 120000000) ∷ []

read_line-typed_example :
    (r : ReadLine) × (read_line test_shell
        (new_line test_shell)
        (type_pieces pieces (arrives (codes "-l\rpwd\r") 5 (ends eof)))
      ≡ some r)
    × (r.line ≡ text_of pieces ++ codes "-l")
    × (r.bulk ≡ (is_pasted pieces || ltb 2 (count_printable (codes "-l\rpwd\r"))))
    × (r.error ≡ none)
    × (r.rest ≡ ends eof)
    × (r.shell.output ≡ [] ++ (text_of pieces ++ codes "-l") ++ codes "\r\n")
read_line-typed_example =
    read_line-typed test_shell pieces (codes "-l") (codes "pwd\r") 5 (ends eof)
      (
        (refl, ((omega arith, omega arith), tt)),
        ((refl, ((omega arith, omega arith), ((omega arith, omega arith), tt))), tt),
      )
      ((omega arith, omega arith), ((omega arith, omega arith), tt)) small
  where
    small : 0 + length (text_of pieces) + length (codes "-lxpwd\r") ≤ default_limits.max_input_bytes
    small = unfold text_of in omega arith
