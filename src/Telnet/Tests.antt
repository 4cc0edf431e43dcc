-- ===== src/Telnet/Tests.antt =====
-- Runs of the telnet listener, and the theorems at concrete inputs.
use honeynet.Base.{
  ◌≤◌, ◌≡◌, refl, Bool, true, false, ◌&&◌, List, [], ◌∷◌, ◌++◌, length, Bytes, codes, equal, arith,
}
use honeynet.Telnet.{
  iac, will, sb, se, Arrival, payload, step, step_payload, step_command, is_full, read_loop, read,
  Conn, line, edit_byte, first_byte, after_edit, after_read, round, read_line,
}
use honeynet.Telnet.Strip.{strip, read_lem}
use honeynet.Telnet.Lines.{IsResult, read_line-IsResult}
use honeynet.Telnet.Login.{authenticate, IsTrail, authenticate-IsTrail}
use honeynet.Telnet.Sessions.{
  Server, get, put, acquire, Reach, start, opened, IsCounted, Reach-IsCounted,
}

-- Every byte but the last one has more behind it in the buffer.
abbrev packet : Bytes → List Arrival
packet [] = []
packet (b ∷ []) = record { byte = b; drained = true } ∷ []
packet (b ∷ c ∷ s) = record { byte = b; drained = false } ∷ packet (c ∷ s)

abbrev negotiated : List Arrival
negotiated =
    packet (iac ∷ will ∷ 1 ∷ b'r' ∷ iac ∷ sb ∷ 24 ∷ 0 ∷ iac ∷ se ∷ b'o' ∷ b'o' ∷ iac ∷ iac ∷ [])
    ++ packet (codes "t\r")

read-negotiated :
    read 80 negotiated
    ≡ record { bytes = codes "roo" ++ iac ∷ codes "t\r"; failed = false; rest = [] }
unfolding read read_loop is_full step step_payload step_command
read-negotiated = refl

read_lem_example :
    ((read 2 negotiated).bytes ++ strip payload (read 2 negotiated).rest ≡ strip payload negotiated)
    × (length (read 2 negotiated).bytes ≤ 2)
read_lem_example = read_lem 2 negotiated

abbrev typed : Conn
typed = record { input = packet (codes "ab" ++ 0x08 ∷ codes "c\r"); sent = [] }

read_line-typed : read_line 9 true [] typed ≡ (
  line (codes "ac"),
  record { input = []; sent = codes "ab" ++ 0x08 ∷ b' ' ∷ 0x08 ∷ codes "c\r\n" },
)
unfolding read_line round read read_loop is_full step step_payload first_byte after_read after_edit
    edit_byte
read_line-typed = refl

read_line-IsResult_example : IsResult (read_line 9 true [] typed).0
read_line-IsResult_example = read_line-IsResult 9 true typed (omega arith)

abbrev only_toor : Bytes → Bytes → Bool
only_toor user pass = equal user (codes "root") && equal pass (codes "toor")

abbrev dialogue : Conn
dialogue = record { input = packet (codes "root\nx\nroot\ntoor\n"); sent = [] }

authenticate-IsTrail_example :
    IsTrail only_toor
      (codes "host")
      (codes "3")
      3
      (authenticate only_toor (codes "host") (codes "3") 3 dialogue).outcome
      (authenticate only_toor (codes "host") (codes "3") 3 dialogue).attempts
    × (length (authenticate only_toor (codes "host") (codes "3") 3 dialogue).attempts ≤ 3)
authenticate-IsTrail_example =
    authenticate-IsTrail only_toor (codes "host") (codes "3") 3 dialogue (omega arith)

abbrev fresh : Server
fresh = record { max_sessions = 2; max_sessions_per_ip = 1; total = 0; per_ip = [] }

abbrev busy : Server
busy = record fresh { total = 1; per_ip = (codes "10.1.2.3", 1) ∷ [] }

acquire-fresh : acquire (codes "10.1.2.3") fresh ≡ (true, busy)
unfolding acquire get put equal
acquire-fresh = refl

busy-Reach : Reach 2 1 busy (codes "10.1.2.3" ∷ [])
busy-Reach = opened (codes "10.1.2.3") (start refl) acquire-fresh

Reach-IsCounted_example : IsCounted 2 1 busy (codes "10.1.2.3" ∷ [])
Reach-IsCounted_example = Reach-IsCounted busy-Reach
