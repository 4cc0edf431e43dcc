-- ===== src/Shell/Commands/Fetch/Kept.antt =====
-- What is fetched leaves the file system valid.
use honeynet.Base.{◌||◌, none, some, List, [], ◌∷◌, Bytes, codes, equal, is_empty}
use honeynet.Vfs.Paths.{clean, path_base}
use honeynet.Vfs.Writes.Calls.{writes}
use honeynet.Shell.Urls.{extract_urls}
use honeynet.Shell.Session.{Shell}
use honeynet.Shell.Session.Kept.{panics, gives, Gives-if, Gives-bind, Gives-weaken}
use honeynet.Shell.Evaluate.Kept.{Steps-trans}
use honeynet.Shell.Commands.{Step}
use honeynet.Shell.Commands.Sound.{IsSound, IsKept, Answers, Adds, none-Steps}
use honeynet.Shell.Commands.Files.Kept.{tried, anywhere}
use honeynet.Shell.Commands.Fetch.{
  zeros, leave_file, curl_output, silent, fetch, cmd_curl, tftp_files, cmd_tftp,
}

leave_file-Steps : (s : Shell) (path : Bytes) → Adds s (leave_file s path)
unfolding leave_file
leave_file-Steps s path = tried s s.clock s.uid s.gid (writes path (zeros 64) 0x1a4) _

silent-Steps : (s : Shell) (m : Step) → Adds s m → Answers s (silent m)
silent-Steps s none h = panics tt
silent-Steps s (some r) (gives h) = gives h

module _ (to_lower : Bytes → Bytes) where
  fetch-Steps : (s : Shell) (args urls : List Bytes) → Answers s (fetch to_lower s args urls)
  unfolding fetch
  fetch-Steps s args [] = gives none-Steps
  fetch-Steps s args (url ∷ urls) =
      Gives-if (is_empty (curl_output url [] args)) (gives none-Steps)
        (silent-Steps s _ (leave_file-Steps s (clean s.cwd (curl_output url [] args))))

  pub cmd_curl-IsKept : IsKept (cmd_curl to_lower)
  unfolding cmd_curl
  cmd_curl-IsKept s name args stdin v =
      Gives-bind _ (anywhere (extract_urls to_lower args)) λ urls h. fetch-Steps s args urls

tftp_files-Steps : (args : List Bytes) (s : Shell) → Answers s (tftp_files s args)
unfolding tftp_files
tftp_files-Steps [] s = gives none-Steps
tftp_files-Steps (a ∷ []) s = gives none-Steps
tftp_files-Steps (a ∷ b ∷ args) s =
    Gives-bind _
      (Gives-if (equal a (codes "-g") || equal a (codes "-r") || equal a (codes "-c"))
        (leave_file-Steps s (clean s.cwd (path_base b))) (gives none-Steps))
      λ r h. Gives-weaken (λ u g. Steps-trans IsSound h g) (tftp_files-Steps (b ∷ args) r.2)

pub cmd_tftp-IsKept : IsKept cmd_tftp
unfolding cmd_tftp
cmd_tftp-IsKept s name args stdin v = tftp_files-Steps args s
