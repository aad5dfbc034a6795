-- ===== src/Format.antt =====
-- Making a file system on a volume: `init_super` of src/superbloc.c, with `create_ifile` of src/ifile.c,
-- which it calls.
pub mod Blocs
pub mod Volume
use ase_plus_plus.Prelude.{
  ℕ, zero, suc, ◌+◌, ◌-◌, List, [], ◌∷◌, ◌++◌, not, ◌==◌, ltb, if◌then◌else◌, take, replicate,
  length,
}
use ase_plus_plus.Words.{Bytes}
use ase_plus_plus.System.{
  Superbloc, World, Cmd, Void, exit, pure, halt, ◌>>=◌, ◌>>◌, gets, modify, assert_that,
}
use ase_plus_plus.Mbr.{add32, volume_at, read_mbr, write_nbloc}
use ase_plus_plus.Superbloc.{super_magic, bloc_magic, bloc_null, free_bloc_bytes, save_super}
use ase_plus_plus.Inode.{current, file_directory, create_inode}

-- `strncpy` of a C string, the bytes before its NUL.
abbrev pub strncpy : (n : ℕ) → Bytes → Bytes
strncpy n s = take n s ++ replicate (n - length s) 0

-- `ffatal(inumber, …)` exits with EXIT_FAILURE.
unfoldable pub create_ifile : (type : ℕ) → Cmd ℕ
create_ifile type = do
  inumber ← create_inode type
  if not (inumber == 0) then pure inumber else halt (exit 1)

-- One round of the loop that links the blocs: bloc `i` is free, and leads to the next one.
unfoldable pub chain_bloc : (i : ℕ) → Cmd Void
chain_bloc i = do
  vol ← current
  v ← gets (λ w. volume_at w vol)
  let next = if ltb i (v.vol_nsectors - 1) then i + 1 else bloc_null
  write_nbloc vol i (free_bloc_bytes bloc_magic next)
  modify
      (λ w. record w { super = record (w.super) { nb_bloc_libre = add32 w.super.nb_bloc_libre 1 } })

-- `for (i = 1; i < vol_nsectors; i++)`, `n` rounds from `i` on.
unfoldable pub chain_blocs : (n i : ℕ) → Cmd Void
chain_blocs zero i = pure tt
chain_blocs (suc n) i = do chain_bloc i; chain_blocs n (i + 1)

-- A superbloc that counts no bloc; there is no root yet.
abbrev pub first_super : (num_serie : ℕ) (nom : Bytes) → Superbloc
first_super num_serie nom = record {
  magic = super_magic;
  numero = num_serie;
  nom = strncpy 32 nom;
  id = 0;
  premier_libre = 1;
  nb_bloc_libre = 0;
  root_inumber = 0xFFFF_FFFF;
}

unfoldable pub init_super : (vol num_serie : ℕ) → Bytes → Cmd Void
init_super vol num_serie nom = do
  read_mbr
  modify (λ w. record w { super = first_super num_serie nom; current_volume = vol })
  v ← gets (λ w. volume_at w vol)
  chain_blocs (v.vol_nsectors - 1) 1
  save_super
  root ← create_ifile file_directory
  modify (λ w. record w { super = record (w.super) { root_inumber = root } })
  save_super
  s ← gets (λ w. w.super)
  assert_that (s.magic == super_magic)
