-- ===== src/FileTools.antt =====
-- The programs on files given by their inode numbers or paths: src/if_cfile.c, src/if_dfile.c, src/if_pfile.c
-- and src/if_nfile.c. What `strtol`, `scanf` and `getchar` read, the result of the hardware's start and the
-- environment are arguments; a program returns what it prints, where it comes to an end, before its exit.
pub mod Refused
use ase_plus_plus.Prelude.{
  ℕ, zero, suc, ◌+◌, ◌%◌, List, [], ◌∷◌, ◌++◌, Bool, true, false, not, ◌==◌, ltb, if◌then◌else◌,
  length, Option, none, some,
}
use ase_plus_plus.Words.{Bytes}
use ase_plus_plus.System.{Cmd, Void, exit, undefined, pure, halt, ◌>>=◌, ◌>>◌}
use ase_plus_plus.Inode.{file_file}
use ase_plus_plus.Format.{create_ifile}
use ase_plus_plus.Ifile.{
  FileDesc, read_eof, delete_ifile, open_ifile, close_ifile, readc_ifile, writec_ifile,
}
use ase_plus_plus.Directory.{rounds}
use ase_plus_plus.Files.{create_file, open_file, close_file}
use ase_plus_plus.Builtins.{print_chars, type_chars}
use ase_plus_plus.Mount.{ffatal, mount, umount}

-- The loop of `cfile`.
unfoldable pub copy_bytes : (fuel : ℕ) → (sfd dfd : FileDesc) → Cmd (FileDesc × FileDesc)
copy_bytes zero sfd dfd = halt undefined
copy_bytes (suc n) sfd dfd = do
  r ← readc_ifile sfd
  if r.0 == read_eof
      then pure (r.1, dfd)
      else (do s ← writec_ifile dfd (r.0 % 256); copy_bytes n r.1 s.1)

-- The result is the number printed.
unfoldable pub cfile : (sinumber : ℕ) → Cmd ℕ
unfolding copy_bytes
cfile sinumber = do
  dinumber ← create_ifile file_file
  ffatal (not (dinumber == 0))
  dfd ← open_ifile dinumber
  sfd ← open_ifile sinumber
  r ← copy_bytes (rounds sfd) sfd dfd
  close_ifile r.1
  close_ifile r.0
  pure dinumber

unfoldable pub dfile : (inumber : ℕ) → Cmd Void
dfile inumber = do status ← delete_ifile inumber; ffatal (status == 0)

unfoldable pub pfile : (raw pathname : Bytes) → Cmd Bytes
pfile raw pathname = do
  o ← open_file raw pathname
  elim o.1 [
    | none ↦ halt (exit 1)
    | some fd ↦ (do p ← print_chars (rounds fd) fd; close_file p.1; pure p.0)
  ]

-- The name has place for 15 characters. The result RETURN_FAILURE of `create_file` is not 0, and passes
-- for an inode number.
unfoldable pub nfile : (raw nom typed : Bytes) → Cmd ℕ
nfile raw nom typed =
    if ltb (length nom) 16
    then (do
      inumber ← create_file raw nom file_file
      ffatal (not (inumber == 0))
      fd ← open_ifile inumber
      fd' ← type_chars fd typed
      close_file fd'
      pure inumber)
    else halt undefined

-- The frame of the four `main`s, round what the program does.
unfoldable pub mounted_run :
    {A : Type 0} → (status : ℕ) → (current_volume_str : Option (ℕ × Bool)) → Cmd A → Cmd Void
mounted_run status current_volume_str action = do
  mount status current_volume_str
  action
  umount
  halt (exit 0)

-- The argument of the program as `strtol` reads it: `none` for a wrong number of arguments or an error.
unfoldable pub with_inumber : Option ℕ → (ℕ → Cmd Void) → Cmd Void
with_inumber none run = halt (exit 1)
with_inumber (some inumber) run = if inumber == 0 then halt (exit 1) else run inumber

unfoldable pub cfile_main :
    (status : ℕ) → (current_volume_str : Option (ℕ × Bool)) → Option ℕ → Cmd Void
unfolding cfile mounted_run with_inumber
cfile_main status current_volume_str argument =
    with_inumber argument (λ inumber. mounted_run status current_volume_str (cfile inumber))

unfoldable pub dfile_main :
    (status : ℕ) → (current_volume_str : Option (ℕ × Bool)) → Option ℕ → Cmd Void
unfolding dfile mounted_run with_inumber
dfile_main status current_volume_str argument =
    with_inumber argument (λ inumber. mounted_run status current_volume_str (dfile inumber))

unfoldable pub pfile_main :
    (status : ℕ)
    → (current_volume_str : Option (ℕ × Bool)) → (raw : Bytes) → Option Bytes
    → Cmd Void
unfolding pfile mounted_run
pfile_main status current_volume_str raw none = halt (exit 1)
pfile_main status current_volume_str raw (some pathname) =
    mounted_run status current_volume_str (pfile raw pathname)

-- `arguments` tells whether there are any.
unfoldable pub nfile_main :
    (status : ℕ)
    → (current_volume_str : Option (ℕ × Bool)) → (arguments : Bool) → (raw nom typed : Bytes)
    → Cmd Void
unfolding nfile mounted_run
nfile_main status current_volume_str arguments raw nom typed =
    if arguments then halt (exit 1) else mounted_run status current_volume_str (nfile raw nom typed)
