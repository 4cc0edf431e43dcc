-- ===== src/Shell/Urls/Tests.antt =====
-- Runs of ExtractURLs, and the theorem at a concrete input.
use honeynet.Base.{
  ◌≡◌, refl, none, some, List, [], ◌∷◌, arith, All, Bytes, codes, has_prefix, equal, slice, ◌==◌,
  if◌then◌else◌, ◌&&◌,
}
use honeynet.Shell.Urls.{
  index, is_scheme_char, is_url_terminator, run, url_end, is_preceded, scan_scheme, schemes,
  scan_schemes, was_seen, add_new, url_candidates, extract_loop, extract_urls,
}
use honeynet.Shell.Urls.Found.{lowered}
use honeynet.Shell.Urls.Extract.{IsLink, AreDistinct, extract_urls-Returns}

abbrev command : List Bytes
command = codes "-O" ∷ codes "TFTP://h/a;x" ∷ codes "http://b" ∷ codes "http://b" ∷ []

extract_command : extract_urls lowered command ≡ some (codes "TFTP://h/a" ∷ codes "http://b" ∷ [])
unfolding extract_urls extract_loop url_candidates scan_schemes scan_scheme is_preceded url_end run
    is_url_terminator is_scheme_char index was_seen add_new has_prefix equal slice
extract_command = refl

extract_urls-Returns_example :
    (urls : List Bytes) × (extract_urls lowered command ≡ some urls)
    × (All (IsLink schemes) urls × AreDistinct urls)
extract_urls-Returns_example = extract_urls-Returns lowered (λ s _. refl) command (omega arith)

-- Lower case as Go has it for the runes of the next test: U+023A is U+2C65, which has three bytes.
longer : Bytes → Bytes
longer (c ∷ d ∷ s) =
    let rest = longer s in
    let next = longer (d ∷ s) in
    if c == 0xc8 && d == 0xba then 0xe2 ∷ 0xb1 ∷ 0xa5 ∷ rest else c ∷ next
longer s = s

abbrev eight : Bytes → Bytes
eight s =
    0xc8 ∷ 0xba ∷ 0xc8 ∷ 0xba ∷ 0xc8 ∷ 0xba ∷ 0xc8 ∷ 0xba ∷ 0xc8 ∷ 0xba ∷ 0xc8 ∷ 0xba ∷ 0xc8 ∷ 0xba
    ∷ 0xc8 ∷ 0xba ∷ s

-- Eight of these runes and a scheme: the slice of the argument is out of range.
extract_panics : extract_urls longer (eight (codes "ftp://") ∷ []) ≡ none
unfolding extract_urls extract_loop url_candidates scan_schemes scan_scheme is_preceded url_end run
    is_url_terminator is_scheme_char index was_seen add_new has_prefix equal slice longer
extract_panics = refl
