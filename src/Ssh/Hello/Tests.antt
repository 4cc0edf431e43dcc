-- ===== src/Ssh/Hello/Tests.antt =====
-- Runs of the SSH hello parser, and the theorems at concrete inputs.
use honeynet.Base.{
  split_on, cons_head, ◌≡◌, refl, false, some, List, [], ◌∷◌, ◌++◌, arith, All, Bytes, codes,
  has_prefix, slice, big_uint32,
}
use honeynet.Ssh.Hello.{
  ClientHello, new_sniff, cut_crlf, find_banner, items, read_lists, fill, parse_payload,
  parse_packet, parse_rest, parse_hello, only_banner,
}
use honeynet.Ssh.Hello.Names.{IsName}
use honeynet.Ssh.Hello.Total.{IsVersion, IsHello, parse_hello-Returns}
use honeynet.Ssh.Hello.Packet.{KexLists, all_lists, hello_of}
use honeynet.Ssh.Hello.RoundTrip.{hello_bytes, parse_hello-hello_bytes}
use honeynet.Ssh.Hello.Capture.{IsPrefix, IsSniff, capture_all, stream, capture_all-new_sniff}

abbrev version : Bytes
version = codes "SSH-2.0-Go"

version-IsVersion : IsVersion version
unfolding has_prefix
version-IsVersion = refl

greeting-not_version : has_prefix (codes "SSH-") (codes "hi") ≡ false
unfolding has_prefix
greeting-not_version = refl

abbrev two_macs : List Bytes
two_macs = codes "hmac-a" ∷ codes "hmac-b" ∷ []

abbrev sample_lists : KexLists
sample_lists = record {
  kex = codes "curve" ∷ [];
  host_keys = [];
  ciphers_in = [];
  ciphers_out = [];
  macs_in = two_macs;
  macs_out = [];
  compression_in = codes "none" ∷ [];
  compression_out = [];
  languages_in = [];
  languages_out = [];
}

abbrev cookie : Bytes
cookie = codes "0123456789abcdef"

abbrev sample : Bytes
sample =
    hello_bytes (codes "hi" ∷ []) version cookie sample_lists (0 ∷ 0 ∷ 0 ∷ 0 ∷ 0 ∷ [])
      (codes "pad!") (codes "more")

parse_sample : parse_hello sample ≡ some (hello_of version sample_lists)
unfolding parse_hello parse_rest parse_packet parse_payload read_lists fill items split_on cons_head
    find_banner cut_crlf has_prefix slice big_uint32
parse_sample = refl

-- A packet that is cut off leaves the banner.
parse_cut_off :
    parse_hello (codes "SSH-2.0-Go\r\n" ++ 0 ∷ 0 ∷ 1 ∷ 0 ∷ 4 ∷ 20 ∷ []) ≡ some (only_banner version)
unfolding parse_hello parse_rest parse_packet find_banner cut_crlf has_prefix slice big_uint32
parse_cut_off = refl

names-IsName : All (All IsName) (all_lists sample_lists)
names-IsName =
    let a : All IsName (codes "curve" ∷ []) = ((cc, omega arith), tt) in
    let b : All IsName two_macs = ((cc, omega arith), ((cc, omega arith), tt)) in
    let c : All IsName (codes "none" ∷ []) = ((cc, omega arith), tt) in
    (a, (tt, (tt, (tt, (b, (tt, (c, (tt, (tt, (tt, tt))))))))))

parse_hello-hello_bytes_example : parse_hello sample ≡ some (hello_of version sample_lists)
parse_hello-hello_bytes_example =
    parse_hello-hello_bytes (codes "hi" ∷ []) version cookie sample_lists (0 ∷ 0 ∷ 0 ∷ 0 ∷ 0 ∷ [])
      (codes "pad!") (codes "more") ((omega arith, greeting-not_version), tt) (omega arith)
      version-IsVersion refl names-IsName (omega arith)

parse_hello-Returns_example : (h : ClientHello) × (parse_hello sample ≡ some h) × IsHello h
parse_hello-Returns_example = parse_hello-Returns sample (omega arith) (omega arith)

abbrev two_reads : List Bytes
two_reads = codes "SSH-2.0" ∷ [] ∷ codes "-Go\r\n" ∷ []

capture_all-new_sniff_example :
    IsPrefix (stream two_reads) (capture_all new_sniff two_reads)
    × IsSniff 8 (capture_all new_sniff two_reads)
capture_all-new_sniff_example =
    capture_all-new_sniff 8 two_reads (omega arith, (omega arith, (omega arith, tt)))
