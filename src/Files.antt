-- ===== src/Files.antt =====
-- The file interface by paths, src/file.c and src/file.h. `raw` is what uninitialised entries hold.
pub mod Root
pub mod Created
use ase_plus_plus.Prelude.{
  ℕ, zero, suc, ◌+◌, List, [], ◌∷◌, ◌++◌, true, false, not, ◌==◌, if◌then◌else◌, set, Option, none,
  some,
}
use ase_plus_plus.Words.{Bytes}
use ase_plus_plus.System.{Cmd, undefined, pure, halt, ◌>>=◌, ◌>>◌}
use ase_plus_plus.Inode.{file_directory, read_inode}
use ase_plus_plus.Format.{create_ifile}
use ase_plus_plus.Ifile.{
  FileDesc, read_eof, return_failure, open_ifile, close_ifile, flush_ifile, seek_ifile, readc_ifile,
  writec_ifile, read_ifile, write_ifile,
}
use ase_plus_plus.Commons.{slash}
use ase_plus_plus.Directory.{
  Entry, entry_size, entry_of_bytes, add_entry, del_entry, inumber_of_path, dinumber_of_path,
}

unfoldable pub create_file : (raw : Bytes) → (pathname : Bytes) → (type : ℕ) → Cmd ℕ
create_file raw pathname type = do
  d ← dinumber_of_path raw pathname
  if d.0 == 0 then pure return_failure else (do
    there ← inumber_of_path raw pathname
    if not (there == 0) then pure return_failure else (do
      inumber ← create_ifile type
      if inumber == 0 then pure return_failure else (do
        status ← add_entry raw d.0 inumber d.1
        if not (status == 0) then pure return_failure else pure inumber)))

unfoldable pub delete_file : (raw : Bytes) → (pathname : Bytes) → Cmd ℕ
delete_file raw pathname = do
  d ← dinumber_of_path raw pathname
  if d.0 == 0 then pure return_failure else del_entry raw d.0 d.1

-- The status, and the file where it was opened: else the descriptor is not filled.
unfoldable pub open_file : (raw : Bytes) → (pathname : Bytes) → Cmd (ℕ × Option FileDesc)
open_file raw pathname = do
  inumber ← inumber_of_path raw pathname
  if inumber == 0
      then pure (return_failure, none)
      else (do fd ← open_ifile inumber; pure (0, some fd))

-- The characters before the NUL. `none` is a read past the end.
abbrev pub c_string : Bytes → Option Bytes
c_string [] = none
c_string (c ∷ s) = elim (c == 0) [
  | true ↦ some []
  | false ↦ elim (c_string s) [ some r ↦ some (c ∷ r) | none ↦ none ]
]

-- What `list_directory` shows of an entry.
unfoldable pub shown_name : Entry → Cmd Bytes
shown_name e = do
  inode ← read_inode e.ent_inumber
  elim (c_string e.ent_basename) [
    | some name ↦ pure (if inode.type == file_directory then name ++ (slash ∷ []) else name)
    | none ↦ halt undefined
  ]

-- The loop of `list_directory`; `n` of the places are left, and `counter` are filled.
unfoldable pub list_entries :
    (n counter : ℕ) → FileDesc → Bytes → List Bytes → Cmd (ℕ × FileDesc × List Bytes)
unfolding shown_name
list_entries zero counter fd entry subentries = pure (counter, fd, subentries)
list_entries (suc n) counter fd entry subentries = do
  r ← read_ifile fd entry entry_size
  if r.0 == read_eof then pure (counter, r.1, subentries) else (do
    name ← shown_name (entry_of_bytes r.2)
    list_entries n (counter + 1) r.1 r.2 (set subentries counter name))

unfoldable pub close_file : FileDesc → Cmd FileDesc
close_file fd = close_ifile fd

-- The status of `open_file` is not tested: a descriptor that is not filled is read.
unfoldable pub list_directory :
    (raw : Bytes) → List Bytes → (size : ℕ) → (pathname : Bytes) → Cmd (ℕ × List Bytes)
unfolding open_file list_entries close_file
list_directory raw subentries size pathname = do
  o ← open_file raw pathname
  elim o.1 [
    | none ↦ halt undefined
    | some fd ↦ (do
      let cleared = if size == 0 then subentries else set subentries 0 []
      r ← list_entries size 0 fd raw cleared
      close_file r.1
      pure (r.0, r.2))
  ]

unfoldable pub flush_file : FileDesc → Cmd FileDesc
flush_file fd = flush_ifile fd

unfoldable pub seek_file : FileDesc → (offset : ℕ) → Cmd FileDesc
seek_file fd offset = seek_ifile fd offset

unfoldable pub readc_file : FileDesc → Cmd (ℕ × FileDesc)
readc_file fd = readc_ifile fd

unfoldable pub writec_file : FileDesc → (c : ℕ) → Cmd (ℕ × FileDesc)
writec_file fd c = writec_ifile fd c

unfoldable pub read_file : FileDesc → Bytes → (nbyte : ℕ) → Cmd (ℕ × FileDesc × Bytes)
read_file fd buf nbyte = read_ifile fd buf nbyte

unfoldable pub write_file : FileDesc → Bytes → (nbyte : ℕ) → Cmd (ℕ × FileDesc)
write_file fd buf nbyte = write_ifile fd buf nbyte
