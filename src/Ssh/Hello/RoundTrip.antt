-- ===== src/Ssh/Hello/RoundTrip.antt =====
-- A well-formed client's first bytes (RFC 4253) are read back: comment lines, the version, and an
-- SSH_MSG_KEXINIT packet.
use honeynet.Base.{
  is_empty, ℕ, zero, suc, ◌+◌, ◌^◌, ◌<◌, ◌≡◌, ◌≢◌, refl, ◌∙◌, false, some, List, [], ◌∷◌, ◌++◌,
  arith, length, length-append, All, Bytes, codes, has_prefix,
}
use honeynet.Ssh.Hello.{cut_crlf, find_banner, parse_rest, parse_hello}
use honeynet.Ssh.Hello.Names.{IsName}
use honeynet.Ssh.Hello.Total.{IsVersion}
use honeynet.Ssh.Hello.Packet.{
  KexLists, all_lists, hello_of, kex_init, packet, parse_packet-packet, parse_payload-kex_init,
}

-- A line without a carriage return.
abbrev pub IsLine : Bytes → Type 0
IsLine = All (λ c. c ≢ b'\r')

cut_crlf-line :
    (line rest : Bytes)
    → IsLine line
    → cut_crlf (line ++ (b'\r' ∷ b'\n' ∷ rest)) ≡ some (line, rest)
unfolding cut_crlf
cut_crlf-line [] rest h = refl
cut_crlf-line (c ∷ []) rest h = ground (arith, h.0)
cut_crlf-line (c ∷ d ∷ line) rest h = ground (arith, h.0, cut_crlf-line (d ∷ line) rest h.1)

-- Lines, each with its CRLF, in front of a text.
abbrev pub lines : List Bytes → Bytes → Bytes
lines [] text = text
lines (line ∷ more) text = line ++ (b'\r' ∷ b'\n' ∷ lines more text)

abbrev pub IsComment : Bytes → Type 0
IsComment line = IsLine line × (has_prefix (codes "SSH-") line ≡ false)

not_empty : (xs ys : Bytes) (c : ℕ) → is_empty (xs ++ c ∷ ys) ≡ false
not_empty [] ys c = refl
not_empty (x ∷ xs) ys c = refl

lines-not_empty :
    (comments : List Bytes) (banner rest : Bytes)
    → is_empty (lines (comments ++ banner ∷ []) rest) ≡ false
lines-not_empty [] banner rest = not_empty banner (b'\n' ∷ rest) b'\r'
lines-not_empty (line ∷ comments) banner rest =
    not_empty line (b'\n' ∷ lines (comments ++ banner ∷ []) rest) b'\r'

find_banner-lines :
    (fuel : ℕ) (comments : List Bytes) (banner rest : Bytes)
    → length (lines (comments ++ banner ∷ []) rest) < fuel
    → All IsComment comments
    → IsLine banner
    → IsVersion banner
    → find_banner fuel (lines (comments ++ banner ∷ []) rest) ≡ some (some (banner, rest))
unfolding find_banner
find_banner-lines zero comments banner rest enough h one_line version = absurd (omega arith)
find_banner-lines (suc fuel) [] banner rest enough h one_line version =
    rw (cut_crlf-line banner rest one_line, find_banner) (rw version refl)
find_banner-lines (suc fuel) (line ∷ comments) banner rest enough h one_line version =
    let text = lines (comments ++ banner ∷ []) rest in
    rw (cut_crlf-line line text h.0.0, find_banner)
      (rw (h.0.1) (
        rw (lines-not_empty comments banner rest) (
          find_banner-lines fuel comments banner rest
            (omega (arith, length-append line (b'\r' ∷ b'\n' ∷ text))) h.1 one_line version)))

-- The first bytes of a client: comment lines, its version, and its key exchange message.
abbrev pub hello_bytes : List Bytes → Bytes → Bytes → KexLists → Bytes → Bytes → Bytes → Bytes
hello_bytes comments banner cookie k flag padding behind =
    lines (comments ++ banner ∷ []) (packet (kex_init cookie k flag) padding behind)

-- A client that sends comment lines without CR that do not begin with "SSH-", a version without CR
-- that does, and a KEXINIT whose names are not empty and have no comma, fewer than 2^32 bytes in
-- all, is recovered: its version and the lists from the client to the server.
pub parse_hello-hello_bytes :
    (comments : List Bytes) (banner cookie : Bytes) (k : KexLists) (flag padding behind : Bytes)
    → All IsComment comments
    → IsLine banner
    → IsVersion banner
    → length cookie ≡ 16
    → All (All IsName) (all_lists k)
    → length (packet (kex_init cookie k flag) padding behind) < 2 ^ 32
    → parse_hello (hello_bytes comments banner cookie k flag padding behind)
      ≡ some (hello_of banner k)
unfolding parse_hello parse_rest
parse_hello-hello_bytes comments banner cookie k flag padding behind h one_line version full names
      short =
    let rest = packet (kex_init cookie k flag) padding behind in
    rw
      (find_banner-lines (length (lines (comments ++ banner ∷ []) rest) + 1) comments banner rest
        (omega arith) h one_line version)
      (parse_packet-packet banner (kex_init cookie k flag) padding behind (omega arith) short
        ∙ parse_payload-kex_init banner cookie k flag full names
            (omega (arith, length-append (kex_init cookie k flag) (padding ++ behind))))
