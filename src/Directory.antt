-- ===== src/Directory.antt =====
-- Directories and the lookup of paths, src/dir.c and src/dir.h. A string is the bytes before its NUL.
-- `raw` stands for what an `entry` that is not yet filled holds on the stack. The loops over a directory
-- take fuel.
pub mod Progress
pub mod Loops
pub mod Lookup
pub mod Reading
pub mod Finding
pub mod Names
pub mod Splicing
pub mod Adding
pub mod Writing
pub mod Added
pub mod Closing
pub mod Insert
pub mod Erase
pub mod Kept
use ase_plus_plus.Prelude.{
  ℕ, zero, suc, ◌+◌, ◌-◌, ◌*◌, ◌%◌, List, [], ◌∷◌, ◌++◌, Bool, true, false, not, ◌&&◌, ◌==◌, ltb,
  if◌then◌else◌, take, drop, replicate, length, Option, none, some,
}
use ase_plus_plus.Words.{Bytes, word_at, unwords}
use ase_plus_plus.System.{Cmd, undefined, pure, halt, ◌>>=◌, ◌>>◌, gets}
use ase_plus_plus.Inode.{file_directory, read_inode}
use ase_plus_plus.Ifile.{
  FileDesc, read_eof, return_failure, open_ifile, close_ifile, seek2_ifile, read_ifile, write_ifile,
}
use ase_plus_plus.Commons.{slash, before_last}

abbrev pub entrymaxlength : ℕ
entrymaxlength = 16

-- `sizeof(struct entry_s)`
abbrev pub entry_size : ℕ
entry_size = 20

-- `struct entry_s`: a word and the 16 characters of the name.
pub record Entry : Type 0 where
  pub ent_inumber : ℕ
  pub ent_basename : Bytes

unfoldable pub entry_bytes : Entry → Bytes
entry_bytes e = unwords (e.ent_inumber ∷ []) ++ e.ent_basename

unfoldable pub entry_of_bytes : Bytes → Entry
entry_of_bytes b = record {
  ent_inumber = word_at b 0;
  ent_basename = take entrymaxlength (drop 4 b);
}

-- `strncpy` of a name into an entry, whose last character is then set to NUL.
abbrev pub entry_name : Bytes → Bytes
entry_name basename = take 15 (basename ++ replicate 15 0) ++ (0 ∷ [])

-- `! strcmp`, of the characters in an entry and a string. `none` is a read past the entry.
abbrev pub same_name : Bytes → Bytes → Option Bool
same_name [] s = none
same_name (c ∷ a) [] = some (c == 0)
same_name (c ∷ a) (d ∷ s) = elim (c == d) [ true ↦ same_name a s | false ↦ some false ]

-- The loop of `new_entry` from the cursor on; `ientry` entries were passed.
unfoldable pub new_entry_from : (fuel : ℕ) → FileDesc → Bytes → (ientry : ℕ) → Cmd (ℕ × FileDesc)
new_entry_from zero fd entry ientry = halt undefined
new_entry_from (suc n) fd entry ientry = do
  r ← read_ifile fd entry entry_size
  if r.0 == read_eof
      then pure (ientry, r.1)
      else if (entry_of_bytes r.2).ent_inumber == 0
      then pure (ientry, r.1)
      else new_entry_from n r.1 r.2 (ientry + 1)

-- The test of `find_entry`
unfoldable pub is_entry : Entry → (basename : Bytes) → Cmd Bool
is_entry e basename =
    if e.ent_inumber == 0
    then pure false
    else elim (same_name e.ent_basename basename) [ some b ↦ pure b | none ↦ halt undefined ]

unfoldable pub find_entry_from :
    (fuel : ℕ) → FileDesc → Bytes → (ientry : ℕ) → (basename : Bytes) → Cmd (ℕ × FileDesc)
find_entry_from zero fd entry ientry basename = halt undefined
find_entry_from (suc n) fd entry ientry basename = do
  r ← read_ifile fd entry entry_size
  if r.0 == read_eof then pure (return_failure, r.1) else (do
    found ← is_entry (entry_of_bytes r.2) basename
    if found then pure (ientry, r.1) else find_entry_from n r.1 r.2 (ientry + 1) basename)

-- The fuel of a loop over the rest of a file: a round for each byte from the cursor to the end, and one
-- more.
abbrev pub rounds : FileDesc → ℕ
rounds fd = suc (suc fd.fds_size - fd.fds_pos)

unfoldable pub new_entry : (raw : Bytes) → FileDesc → Cmd (ℕ × FileDesc)
unfolding new_entry_from
new_entry raw fd = do fd' ← seek2_ifile fd 0; new_entry_from (rounds fd') fd' raw 0

unfoldable pub find_entry : (raw : Bytes) → FileDesc → (basename : Bytes) → Cmd (ℕ × FileDesc)
unfolding find_entry_from
find_entry raw fd basename = do
  fd' ← seek2_ifile fd 0
  find_entry_from (rounds fd') fd' raw 0 basename

-- `ientry * sizeof(struct entry_s)` as an offset
abbrev pub entry_pos : ℕ → ℕ
entry_pos ientry = ientry * entry_size % 0x1_0000_0000

unfoldable pub add_entry : (raw : Bytes) → (idir inumber : ℕ) → (basename : Bytes) → Cmd ℕ
unfolding new_entry
add_entry raw idir inumber basename = do
  inode ← read_inode idir
  if not (inode.type == file_directory) then pure return_failure else (do
    fd ← open_ifile idir
    r ← new_entry raw fd
    fd' ← seek2_ifile r.1 (entry_pos r.0)
    let entry = entry_bytes (record { ent_inumber = inumber; ent_basename = entry_name basename })
    s ← write_ifile fd' entry entry_size
    close_ifile s.1
    if s.0 == entry_size then pure 0 else pure return_failure)

-- The result is the number of bytes written where the entry is found.
unfoldable pub del_entry : (raw : Bytes) → (idir : ℕ) → (basename : Bytes) → Cmd ℕ
unfolding find_entry
del_entry raw idir basename = do
  inode ← read_inode idir
  if not (inode.type == file_directory) then pure return_failure else (do
    fd ← open_ifile idir
    r ← find_entry raw fd basename
    if r.0 == return_failure then close_ifile r.1 >> pure return_failure else (do
      fd' ← seek2_ifile r.1 (entry_pos r.0)
      s ← write_ifile fd' (replicate entry_size 0) entry_size
      close_ifile s.1
      pure s.0))

-- A directory without the name is not closed.
unfoldable pub inumber_of_basename : (raw : Bytes) → (idir : ℕ) → (basename : Bytes) → Cmd ℕ
unfolding find_entry
inumber_of_basename raw idir basename = do
  inode ← read_inode idir
  if not (inode.type == file_directory) then pure 0 else (do
    fd ← open_ifile idir
    r ← find_entry raw fd basename
    if r.0 == return_failure then pure 0 else (do
      fd' ← seek2_ifile r.1 (entry_pos r.0)
      s ← read_ifile fd' raw entry_size
      close_ifile s.1
      pure (entry_of_bytes s.2).ent_inumber))

-- The characters before the first slash, and those from it on.
abbrev pub leading : Bytes → Bytes
leading [] = []
leading (c ∷ s) = if c == slash then [] else c ∷ leading s

abbrev pub behind : Bytes → Bytes
behind [] = []
behind (c ∷ s) = if c == slash then c ∷ s else behind s

-- A step of `inumber_of_path`. The NUL behind a name of 16 characters or more is written past the end
-- of `basename`.
unfoldable pub enter : (raw : Bytes) → (icurrent : ℕ) → (basename : Bytes) → Cmd ℕ
unfolding inumber_of_basename
enter raw icurrent basename =
    if ltb (length basename) entrymaxlength
    then inumber_of_basename raw icurrent basename
    else halt undefined

-- Behind a name: the end of the path, or a slash that is skipped.
abbrev pub may_end : (icurrent : ℕ) → (Bytes → Cmd ℕ) → Bytes → Cmd ℕ
may_end icurrent continue [] = pure icurrent
may_end icurrent continue (d ∷ rest) = continue rest

-- The loop of `inumber_of_path`.
unfoldable pub walk : (fuel : ℕ) → (raw : Bytes) → (icurrent : ℕ) → (pathname : Bytes) → Cmd ℕ
unfolding enter
walk zero raw icurrent pathname = halt undefined
walk (suc n) raw icurrent [] = pure icurrent
walk (suc n) raw icurrent (c ∷ s) = if c == slash then walk n raw icurrent s else (do
  i ← enter raw icurrent (leading (c ∷ s))
  if i == 0 then pure 0 else may_end i (walk n raw i) (behind (c ∷ s)))

unfoldable pub inumber_of_path : (raw : Bytes) → (pathname : Bytes) → Cmd ℕ
unfolding walk
inumber_of_path raw [] = pure 0
inumber_of_path raw (c ∷ s) =
    if not (c == slash)
    then pure 0
    else (do root ← gets (λ w. w.super.root_inumber); walk (suc (length (c ∷ s))) raw root (c ∷ s))

-- The part of a path with its last slash, and the name behind it.
abbrev pub dirname : Bytes → Bytes
dirname pathname = elim (before_last pathname) [ some p ↦ p ++ (slash ∷ []) | none ↦ [] ]

abbrev pub last_name : Bytes → Bytes
last_name pathname = drop (length (dirname pathname)) pathname

-- The result is the inumber of the directory and the name in it.
unfoldable pub dinumber_of_path : (raw : Bytes) → (pathname : Bytes) → Cmd (ℕ × Bytes)
unfolding inumber_of_path
dinumber_of_path raw [] = pure (0, [])
dinumber_of_path raw (c ∷ s) = if not (c == slash) then pure (0, []) else (do
  let basename = last_name (c ∷ s)
  idirname ← inumber_of_path raw (dirname (c ∷ s))
  if idirname == 0 then pure (0, basename) else (do
    inode ← read_inode idirname
    if not (inode.type == file_directory) then pure (0, basename) else pure (idirname, basename)))
