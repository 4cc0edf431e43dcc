-- ===== src/Shell/Commands/Fetch.antt =====
-- node/internal/shell/commands.go: the commands that would fetch a file. None opens a connection:
-- what they leave is a file of 64 zeros.
pub mod Kept
use honeynet.Base.{
  ℕ, zero, suc, ◌+◌, ◌-◌, Bool, true, false, not, ◌&&◌, ◌||◌, Option, none, some, ◌>>=◌, List, [],
  ◌∷◌, ◌++◌, ◌==◌, if◌then◌else◌, take, drop, Bytes, codes, equal, is_empty, trim_prefix,
}
use honeynet.Vfs.{Result, ok, err, panic}
use honeynet.Vfs.Paths.{clean, path_base}
use honeynet.Vfs.Writes.{write_file}
use honeynet.Shell.Urls.{extract_urls}
use honeynet.Shell.Session.{Shell}
use honeynet.Shell.Evaluate.{Handler}
use honeynet.Shell.Commands.{Answer, Step, attempt}
use honeynet.Shell.Commands.Echo.{index_byte}
use honeynet.Shell.Commands.Files.{answer}

pub zeros : ℕ → Bytes
zeros zero = []
zeros (suc n) = 0 ∷ zeros n

-- The file that stands for what was fetched.
pub leave_file : Shell → Bytes → Step
leave_file s path = attempt s (write_file s.clock s.uid s.gid s.fs path (zeros 64) 0x1a4) λ e. none

abbrev before_colon : Bytes → Bytes
before_colon host = elim (index_byte b':' host) [ some i ↦ take i host | none ↦ host ]

abbrev or_index : Bytes → Bytes
or_index file =
    if is_empty file || equal file (codes "/") || equal file (codes ".")
    then codes "index.html"
    else file

abbrev without_scheme : Bytes → Bytes
without_scheme u = trim_prefix (codes "tftp://") (
    trim_prefix (codes "ftp://") (trim_prefix (codes "https://") (trim_prefix (codes "http://") u)))

-- The host and the file of a URL.
pub url_parts : Bytes → Bytes × Bytes
url_parts u = elim (index_byte b'/' (without_scheme u)) [
  | none ↦ (without_scheme u, codes "index.html")
  | some slash ↦ (
    before_colon (take slash (without_scheme u)),
    or_index (path_base (drop slash (without_scheme u))),
  )
]

-- The output file that the arguments of curl name; the last one counts.
pub curl_output : Bytes → Bytes → List Bytes → Bytes
curl_output url out [] = out
curl_output url out (a ∷ []) =
    if equal a (codes "-O") || equal a (codes "--remote-name") then (url_parts url).1 else out
curl_output url out (a ∷ b ∷ args) =
    curl_output url
      (if equal a (codes "-o") || equal a (codes "--output")
        then b
        else if equal a (codes "-O") || equal a (codes "--remote-name")
        then (url_parts url).1
        else out)
      (b ∷ args)

abbrev pub silent : Step → Answer
silent none = none
silent (some (out, failed, s)) = some ([], 0, s)

module _ (to_lower : Bytes → Bytes) where
  pub fetch : Shell → List Bytes → List Bytes → Answer
  fetch s args [] =
      some (codes "curl: try 'curl --help' or 'curl --manual' for more information\n", 2, s)
  fetch s args (url ∷ urls) =
      let out = curl_output url [] args in
      if is_empty out then some ([], 0, s) else silent (leave_file s (clean s.cwd out))

  pub cmd_curl : Handler
  cmd_curl s name args stdin = do urls ← extract_urls to_lower args; fetch s args urls

-- `tftp` writes a file for each of its flags that has one.
pub tftp_files : Shell → List Bytes → Answer
tftp_files s (a ∷ b ∷ args) = do
  (out, failed, t) ←
      if equal a (codes "-g") || equal a (codes "-r") || equal a (codes "-c")
      then leave_file s (clean s.cwd (path_base b))
      else some ([], false, s)
  tftp_files t (b ∷ args)
tftp_files s _ = some ([], 0, s)

pub cmd_tftp : Handler
cmd_tftp s name args stdin = tftp_files s args
