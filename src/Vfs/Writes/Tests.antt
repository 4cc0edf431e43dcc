-- ===== src/Vfs/Writes/Tests.antt =====
-- Runs of the operations on the small file system, and the theorems on it.
use honeynet.Base.{
  ◌≡◌, refl, ◌≢◌, inl, true, false, none, some, [], ◌∷◌, arith, codes, find, delete, equal,
  split_on, cons_head, has_prefix, trim_prefix,
}
use honeynet.Vfs.{
  link_loop, not_empty, Node, Fs, ok, err, panic, root, at, through, child, walk, lookup_depth,
  lookup, read_node, read_file, link, add, unlink, children_of, new_dir, new_file,
}
use honeynet.Vfs.Writes.{write_file, mkdir_loop, mkdir_all, remove, rename}
use honeynet.Vfs.Paths.{
  clean_element, clean_elements, path_clean, path_join, init, path_dir, last_filled, path_base,
  clean, split,
}
use honeynet.Vfs.Paths.Proper.{lacks, are_proper, are_proper-IsElement}
use honeynet.Vfs.Small.{small, small-IsValid}
use honeynet.Vfs.Ends.{Ends}
use honeynet.Vfs.Valid.{IsValid}
use honeynet.Vfs.Descend.{descend, lookup-descend}
use honeynet.Vfs.Writes.Calls.{renames, run, MayPanic, run-Ends}
use honeynet.Vfs.Writes.Moved.{rename-panic}
use honeynet.Vfs.Writes.ReadBack.{write_file-read_file, write_file-frame}

through_a_link : read_file small 9 (codes "/bin/sh") ≡ ok (codes "ELF")
unfolding lookup lookup_depth walk through child at read_node read_file split clean path_clean
    path_join path_dir init clean_elements clean_element split_on equal has_prefix trim_prefix
    cons_head find
through_a_link = refl

-- A relative link in the middle of a path is taken against the whole path's directory.
link_in_the_middle : lookup small (codes "/bin/sh/x") true ≡ err link_loop
unfolding lookup lookup_depth walk through child at read_node read_file split clean path_clean
    path_join path_dir init clean_elements clean_element split_on equal has_prefix trim_prefix
    cons_head find
link_in_the_middle = refl

mkdir_under_a_file : mkdir_all 9 0 0 small (codes "/etc/passwd/x") 0x1ed ≡ panic
unfolding mkdir_all mkdir_loop link add lookup lookup_depth walk through child at split clean
    path_clean path_join path_dir init clean_elements clean_element split_on equal has_prefix
    trim_prefix cons_head find
mkdir_under_a_file = refl

rename_under_a_file : rename small (codes "/tmp/x") (codes "/etc/passwd/y") ≡ panic
unfolding rename unlink delete last_filled path_base link add lookup lookup_depth walk through child
    at split clean path_clean path_join path_dir init clean_elements clean_element split_on equal
    has_prefix trim_prefix cons_head find
rename_under_a_file = refl

not_recursive : remove small (codes "/tmp") false ≡ err not_empty
unfolding remove unlink delete last_filled path_base link add lookup lookup_depth walk through child
    at split clean path_clean path_join path_dir init clean_elements clean_element split_on equal
    has_prefix trim_prefix cons_head find
not_recursive = refl

run-Ends_example :
    Ends
      (MayPanic 9 0 0 (renames (codes "/tmp/x") (codes "/etc/y")) small)
      IsValid
      (run 9 0 0 (renames (codes "/tmp/x") (codes "/etc/y")) small)
run-Ends_example = run-Ends 9 0 0 (renames (codes "/tmp/x") (codes "/etc/y")) small small-IsValid

-- The parents that the theorems below speak of.
abbrev tmp_node : Node
tmp_node = record (new_dir (codes "tmp") 0x3ff 0 0 7) { children = some ((codes "x", 4) ∷ []) }

abbrev passwd_node : Node
passwd_node = new_file (codes "passwd") 0x1a4 0 0 7 (codes "root:x")

tmp_found : lookup small (path_dir (codes "/tmp/x")) true ≡ ok 1
unfolding lookup lookup_depth walk through child at split clean path_clean path_join path_dir init
    clean_elements clean_element split_on equal has_prefix trim_prefix cons_head find
tmp_found = refl

passwd_found : lookup small (path_dir (codes "/etc/passwd/y")) true ≡ ok 3
unfolding lookup lookup_depth walk through child at split clean path_clean path_join path_dir init
    clean_elements clean_element split_on equal has_prefix trim_prefix cons_head find
passwd_found = refl

x_found : find (path_base (codes "/tmp/x")) (children_of tmp_node) ≡ some 4
unfolding path_base last_filled split_on cons_head find equal
x_found = refl

note_free : find (codes "note") (children_of tmp_node) ≡ none
unfolding find equal
note_free = refl

note_proper : are_proper (codes "tmp" ∷ codes "note" ∷ []) ≡ true
unfolding are_proper lacks equal
note_proper = refl

tmp_leads : descend small (codes "tmp" ∷ []) root ≡ some 1
unfolding descend find equal
tmp_leads = refl

passwd_proper : are_proper (codes "etc" ∷ codes "passwd" ∷ []) ≡ true
unfolding are_proper lacks equal
passwd_proper = refl

passwd_leads : descend small (codes "etc" ∷ codes "passwd" ∷ []) root ≡ some 3
unfolding descend find equal
passwd_leads = refl

rename-panic_example : rename small (codes "/tmp/x") (codes "/etc/passwd/y") ≡ panic
rename-panic_example =
    rename-panic small small-IsValid (codes "/tmp/x") (codes "/etc/passwd/y") 1 4 tmp_node tmp_found
      refl x_found (3, passwd_found, (passwd_node, refl, refl))

lookup-descend_example : lookup small (codes "/etc/passwd") true ≡ ok 3
lookup-descend_example =
    lookup-descend small (codes "etc" ∷ codes "passwd" ∷ []) true 3 passwd_node
      (are_proper-IsElement (codes "etc" ∷ codes "passwd" ∷ []) passwd_proper) passwd_leads refl
      refl

write_file-read_file_example :
    (fs' : Fs) × (write_file 9 0 0 small (codes "/tmp/note") (codes "abc") 0x1a4 ≡ ok fs')
    × (read_file fs' 10 (codes "/tmp/note") ≡ ok (codes "abc"))
write_file-read_file_example =
    write_file-read_file 9 0 0 0x1a4 small small-IsValid (codes "note") (codes "abc") 1 tmp_node
      refl refl (inl note_free) (codes "tmp" ∷ [])
      (are_proper-IsElement (codes "tmp" ∷ codes "note" ∷ []) note_proper) tmp_leads 10 refl

write_file-frame_example :
    (fs' : Fs) × (write_file 9 0 0 small (codes "/tmp/note") (codes "abc") 0x1a4 ≡ ok fs')
    × (read_file fs' 10 (codes "/etc/passwd") ≡ read_file small 10 (codes "/etc/passwd"))
write_file-frame_example =
    write_file-frame 9 0 0 0x1a4 small small-IsValid (codes "note") (codes "abc") 1 tmp_node refl
      refl (inl note_free) (codes "tmp" ∷ [])
      (are_proper-IsElement (codes "tmp" ∷ codes "note" ∷ []) note_proper) tmp_leads 10 3
      (codes "etc" ∷ codes "passwd" ∷ []) passwd_node refl
      (are_proper-IsElement (codes "etc" ∷ codes "passwd" ∷ []) passwd_proper) passwd_leads refl
      refl no_passwd
  where
    no_passwd : find (codes "note") (children_of tmp_node) ≢ some 3
    no_passwd e = let h = note_free in absurd (ground arith)
