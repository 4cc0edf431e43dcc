-- ===== src/Shell/Commands/Table/Dropped.antt =====
-- A payload that an intruder writes to a file in hexadecimal.
use mathlib.Core.Path.{subst}
use honeynet.Base.{
  Bool, ℕ, suc, ◌≡◌, ◌∙◌, refl, true, false, Option, some, List, [], ◌∷◌, ◌++◌, All, IsByte, Bytes,
  codes, equal, is_empty, find, get_elem?, split_on, cons_head,
}
use honeynet.Vfs.{Node, Fs, ok, is_kind_dir, root, read_file}
use honeynet.Vfs.Paths.{render, path_base, last_filled, clean}
use honeynet.Vfs.Paths.Canonical.{IsElement, clean-render}
use honeynet.Vfs.Valid.{IsValid}
use honeynet.Vfs.Descend.{descend}
use honeynet.Vfs.Writes.{exceeds, write_file}
use honeynet.Vfs.Writes.ReadBack.{IsFree, write_file-read_file}
use honeynet.Shell.Parser.Redirected.{IsWordChar, echo_line, echo_stage, parse-echo_line}
use honeynet.Shell.Session.{Shell}
use honeynet.Shell.Evaluate.{Handler, contains, is_assignment, run_stage, run_pipeline, exec_line}
use honeynet.Shell.Evaluate.Redirected.{stored, run_pipeline-stored, exec_line-parse}
use honeynet.Shell.Evaluate.Argv.{run_stage-found}
use honeynet.Shell.Commands.Echo.{cmd_echo}
use honeynet.Shell.Commands.Echo.Captured.{hex_text, hex_text-IsQuotable, cmd_echo-hex_text}
use honeynet.Shell.Commands.Table.{builtins}

module _ (rest : Bytes → Option Handler) (to_lower : Bytes → Bytes) (stuck : Handler) (depth : ℕ)
    (s : Shell) (v : IsValid s.fs) (hook : s.hooks.has_upload ≡ true) (byte : ℕ) (bytes : Bytes)
    (are_bytes : All IsByte (byte ∷ bytes)) where
  abbrev table : Bytes → Option Handler
  table = builtins rest to_lower stuck (suc depth)

  abbrev payload : Bytes
  payload = byte ∷ bytes

  echo_found : table (codes "echo") ≡ some cmd_echo
  unfolding builtins find equal
  echo_found = refl

  echo_ran :
      (path : Bytes)
      → run_stage table to_lower s (echo_stage (hex_text payload) path) [] ≡ some (payload, 0, s)
  unfolding path_base last_filled split_on cons_head contains is_assignment
  echo_ran path =
      run_stage-found table to_lower s (echo_stage (hex_text payload) path) [] (codes "echo")
        (codes "-ne" ∷ hex_text payload ∷ []) cmd_echo refl refl echo_found
      ∙ cmd_echo-hex_text s payload [] are_bytes

  module _ (name : Bytes) (parent : ℕ) (pn : Node)
      (at_parent : get_elem? s.fs.nodes parent ≡ some pn) (is_dir : is_kind_dir pn.kind ≡ true)
      (free : IsFree s.fs pn name) (parts : List Bytes) (good : All IsElement (parts ++ name ∷ []))
      (leads : descend s.fs parts root ≡ some parent) (fits : exceeds s.fs payload ≡ false) where
    abbrev path : Bytes
    path = render (parts ++ name ∷ [])

    rooted : is_empty path ≡ false
    rooted = refl

    -- The pipeline of such a line.
    run_pipeline-drops :
        (next : Bytes) (background : Bool) (now : ℕ)
        → (fs : Fs) × (run_pipeline table to_lower s (record {
          stages = echo_stage (hex_text payload) path ∷ [];
          next = next;
          background = background;
        })
            ≡ some (stored s 0 fs path payload path))
          × (read_file fs now path ≡ ok payload)
    run_pipeline-drops next background now =
        let (fs, written, back) =
          write_file-read_file s.clock s.uid s.gid 0x1a4 s.fs v name payload parent pn at_parent
            is_dir free parts good leads now fits in
        let place : clean s.cwd path ≡ path = clean-render s.cwd (parts ++ name ∷ []) good in
        let there : write_file s.clock s.uid s.gid s.fs (clean s.cwd path) payload 0x1a4 ≡ ok fs =
          rw place written in
        let done =
          run_pipeline-stored table to_lower s (echo_stage (hex_text payload) path) next payload
            background 0 s fs refl (echo_ran path) rooted there hook refl in
        (
          fs,
          subst
              (λ q.
                run_pipeline table to_lower s (record {
                  stages = echo_stage (hex_text payload) path ∷ [];
                  next = next;
                  background = background;
                })
                ≡ some (stored s 0 fs q payload path))
              place done,
          back,
        )

    -- The line `echo -ne '\xNN…' > path`, with \xNN for each byte of a payload of at least one byte,
    -- and an absolute path in canonical form of printable ASCII without a blank, a quote, a backslash
    -- or an operator: in a session with OnUpload set, on a valid file system with room for the payload
    -- in its quota, where the path leads by directories to a directory in which its last name is free
    -- or that of a file, it runs to its end: the file reads back as the payload, the upload is reported
    -- with the decoded bytes, the exit code is 0, and nothing else of the session changes.
    pub exec_line-drops :
        All IsWordChar path
        → (now : ℕ)
        → (fs : Fs) × (exec_line table to_lower s (echo_line (hex_text payload) path)
            ≡ some (stored s 0 fs path payload path))
          × (read_file fs now path ≡ ok payload)
    exec_line-drops written now =
        let (fs, ran, back) = run_pipeline-drops [] false now in
        let parsed =
          parse-echo_line (hex_text payload) path (hex_text-IsQuotable payload are_bytes) written
            rooted in
        (
          fs,
          exec_line-parse table to_lower s (echo_line (hex_text payload) path)
              (record {
                stages = echo_stage (hex_text payload) path ∷ [];
                next = [];
                background = false;
              })
              (stored s 0 fs path payload path) parsed ran,
          back,
        )
