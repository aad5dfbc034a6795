-- ===== src/Builtins.antt =====
-- The commands of the shell that work on files, src/builtins.c. The current directory, a global of
-- src/commons.c, is an argument; the result of a command has what it prints, without its messages. What
-- `sscanf` reads from the arguments is an argument. `raw` is what uninitialised entries hold.
pub mod Directories
pub mod Copies
pub mod Computed
use ase_plus_plus.Prelude.{
  ℕ, zero, suc, ◌+◌, ◌-◌, ◌%◌, List, [], ◌∷◌, ◌++◌, Bool, true, false, not, ◌==◌, ltb,
  if◌then◌else◌, length, take, replicate, Option, none, some,
}
use ase_plus_plus.Words.{Bytes}
use ase_plus_plus.System.{Cmd, Void, exit, undefined, pure, halt, ◌>>=◌, ◌>>◌}
use ase_plus_plus.Inode.{file_file, file_directory}
use ase_plus_plus.Ifile.{FileDesc, read_eof, return_failure, open_ifile, readc_ifile, writec_ifile}
use ase_plus_plus.Commons.{slash, maxprompt, canonical_path}
use ase_plus_plus.Directory.{rounds, inumber_of_path}
use ase_plus_plus.Files.{
  create_file, delete_file, open_file, close_file, readc_file, writec_file, list_directory,
}

abbrev pub or_undefined : Option Bytes → Cmd Bytes
or_undefined none = halt undefined
or_undefined (some c) = pure c

-- `canonical_path`, whose buffers the path may not fit.
abbrev pub canonical : (cwd path : Bytes) → Cmd Bytes
canonical cwd path = or_undefined (canonical_path cwd path)

-- The loop of `do_cat`: the characters printed.
unfoldable pub print_chars : (fuel : ℕ) → FileDesc → Cmd (Bytes × FileDesc)
print_chars zero fd = halt undefined
print_chars (suc n) fd = do
  r ← readc_file fd
  if r.0 == read_eof
      then pure ([], r.1)
      else (do p ← print_chars n r.1; pure (r.0 % 256 ∷ p.0, p.1))

-- The status, and what is printed: the file and a newline.
unfoldable pub do_cat : (raw cwd arguments : Bytes) → Cmd (ℕ × Bytes)
unfolding print_chars
do_cat raw cwd arguments = do
  target ← canonical cwd arguments
  o ← open_file raw target
  elim o.1 [
    | none ↦ pure (1, [])
    | some fd ↦ (do p ← print_chars (rounds fd) fd; close_file p.1; pure (0, p.0 ++ (10 ∷ [])))
  ]

-- `target[strlen(target)-1] == '/'`
abbrev pub ends_with_slash : Bytes → Bool
ends_with_slash [] = false
ends_with_slash (c ∷ []) = c == slash
ends_with_slash (c ∷ d ∷ s) = ends_with_slash (d ∷ s)

abbrev pub with_slash : Bytes → Bytes
with_slash target = if ends_with_slash target then target else target ++ (slash ∷ [])

-- The result is the current directory then.
unfoldable pub do_cd : (raw cwd arguments : Bytes) → Cmd Bytes
do_cd raw cwd arguments = do
  target ← canonical cwd arguments
  if ltb (length (with_slash target)) maxprompt
      then (do
        inumber ← inumber_of_path raw (with_slash target)
        if inumber == 0 then pure cwd else pure (with_slash target))
      else halt undefined

-- The loop of `do_cp`.
unfoldable pub copy_chars : (fuel : ℕ) → (sfd dfd : FileDesc) → Cmd (FileDesc × FileDesc)
copy_chars zero sfd dfd = halt undefined
copy_chars (suc n) sfd dfd = do
  r ← readc_file sfd
  if r.0 == read_eof
      then pure (r.1, dfd)
      else (do s ← writec_file dfd (r.0 % 256); copy_chars n r.1 s.1)

unfoldable pub copy_file : (raw cwd source dest : Bytes) → Cmd ℕ
unfolding copy_chars
copy_file raw cwd source dest = do
  canonical_source ← canonical cwd source
  canonical_dest ← canonical cwd dest
  inumber ← create_file raw canonical_dest file_file
  if inumber == return_failure then pure 1 else (do
    dfd ← open_ifile inumber
    o ← open_file raw canonical_source
    elim o.1 [
      | none ↦ pure 1
      | some sfd ↦ (do r ← copy_chars (rounds sfd) sfd dfd; close_file r.1; close_file r.0; pure 0)
    ])

-- `words` is what `sscanf` reads. The test for errors lets one word pass, where the destination is then
-- not initialised.
unfoldable pub do_cp : (raw cwd : Bytes) → (words : List Bytes) → Cmd ℕ
unfolding copy_file
do_cp raw cwd [] = pure 1
do_cp raw cwd (source ∷ []) = halt undefined
do_cp raw cwd (source ∷ dest ∷ more) = copy_file raw cwd source dest

-- The loop of `do_ed`, over the characters typed.
unfoldable pub type_chars : FileDesc → (typed : Bytes) → Cmd FileDesc
type_chars fd [] = pure fd
type_chars fd (c ∷ cs) = do r ← writec_ifile fd c; type_chars r.1 cs

unfoldable pub do_ed : (raw cwd arguments typed : Bytes) → Cmd ℕ
unfolding type_chars
do_ed raw cwd arguments typed = do
  target ← canonical cwd arguments
  inumber ← create_file raw target file_file
  if inumber == return_failure
      then pure 1
      else (do fd ← open_ifile inumber; fd' ← type_chars fd typed; close_file fd'; pure 0)

unfoldable pub do_exit : Cmd ℕ
do_exit = halt (exit 0)

-- The names printed. There is place for 16.
unfoldable pub do_ls : (raw cwd arguments : Bytes) → Cmd (List Bytes)
do_ls raw cwd arguments = do
  target ← canonical cwd arguments
  r ← list_directory raw (replicate 16 []) 16 target
  pure (take r.0 r.1)

unfoldable pub do_mkdir : (raw cwd arguments : Bytes) → Cmd ℕ
do_mkdir raw cwd arguments = do
  target ← canonical cwd arguments
  create_file raw target file_directory
  pure 0

unfoldable pub do_rm : (raw cwd arguments : Bytes) → Cmd ℕ
do_rm raw cwd arguments = do target ← canonical cwd arguments; delete_file raw target; pure 0

-- The inner loop of `do_compute`: `n` dots.
unfoldable pub write_dots : (n : ℕ) → FileDesc → Cmd FileDesc
write_dots zero fd = pure fd
write_dots (suc n) fd = do r ← writec_ifile fd 46; write_dots n r.1

-- The outer one, `n` rounds from `i` on; what it waits for is left out.
unfoldable pub write_lines : (n i : ℕ) → FileDesc → Cmd FileDesc
unfolding write_dots
write_lines zero i fd = pure fd
write_lines (suc n) i fd = do
  fd' ← write_dots i fd
  r ← writec_ifile fd' 10
  write_lines n (i + 1) r.1

-- The rounds for a maximum, which may be negative.
abbrev pub rounds_to : (negative : Bool) → (max : ℕ) → ℕ
rounds_to true max = 0
rounds_to false max = max + 1

-- `words` is what `sscanf` reads of the arguments: none, where `max` is not initialised, the maximum with its
-- sign, and a path behind it. What `create_file` returns is not looked at.
unfoldable pub do_compute : (raw cwd : Bytes) → (words : Option ((Bool × ℕ) × Option Bytes)) → Cmd ℕ
do_compute raw cwd none = halt undefined
do_compute raw cwd (some (max, none)) = pure 0
do_compute raw cwd (some (max, some path)) = do
  target ← canonical cwd path
  inumber ← create_file raw target file_file
  fd ← open_ifile inumber
  fd' ← write_lines (rounds_to max.0 max.1) 0 fd
  close_file fd'
  pure 0

-- What `do_sleep` reads of its arguments is the time; the waiting is left out.
unfoldable pub do_sleep : Option ℕ → Cmd ℕ
do_sleep none = halt undefined
do_sleep (some time) = pure 0
