-- ===== src/Inode.antt =====
-- Inodes and the blocs of a file, src/inode.c.
pub mod Codec
pub mod Create
pub mod Direct
pub mod Limits
pub mod Full
use ase_plus_plus.Prelude.{
  ℕ, zero, suc, ◌+◌, ◌-◌, ◌*◌, ◌/◌, ◌%◌, List, [], ◌∷◌, ◌++◌, Bool, true, false, not, ◌==◌, ltb,
  if◌then◌else◌, get_or, set, take, drop, replicate, Option, none, some,
}
use ase_plus_plus.Words.{Bytes, words, word_at, unwords}
use ase_plus_plus.Storage.{sector_size}
use ase_plus_plus.System.{
  World, Cmd, Void, undefined, pure, halt, ◌>>=◌, ◌>>◌, gets, modify, assert_that,
}
use ase_plus_plus.Mbr.{read_bloc, write_bloc}
use ase_plus_plus.Superbloc.{bloc_null, new_bloc, free_bloc}

-- `enum file_type_e` as the integer in memory, which may hold anything.
abbrev pub file_file : ℕ
file_file = 0

abbrev pub file_directory : ℕ
file_directory = 1

abbrev pub file_special : ℕ
file_special = 2

-- `(HDA_SECTORSIZE/4)-4`
abbrev pub nb_directs : ℕ
nb_directs = 124

-- `NB_DIRECTS+4`
abbrev pub nb_blocs_by_bloc : ℕ
nb_blocs_by_bloc = 128

-- `NB_BLOCS_BY_BLOC*NB_BLOCS_BY_BLOC`. The macros have no parentheses, so that this expands to
-- `(512/4)-4+4*(512/4)-4+4`.
abbrev pub nb_double : ℕ
nb_double = 512 / 4 - 4 + 4 * (512 / 4) - 4 + 4

pub record Inode : Type 0 where
  pub type : ℕ
  pub size : ℕ
  pub blocs_directs : List ℕ
  pub blocs_indirect : ℕ
  pub blocs_double_indirect : ℕ

-- `struct inode_s` in memory: 128 words, a whole bloc.
unfoldable pub inode_words : Inode → List ℕ
inode_words i =
    i.type ∷ i.size ∷ (i.blocs_directs ++ (i.blocs_indirect ∷ i.blocs_double_indirect ∷ []))

unfoldable pub inode_of_words : List ℕ → Inode
inode_of_words ws = record {
  type = get_or ws 0 0;
  size = get_or ws 1 0;
  blocs_directs = take nb_directs (drop 2 ws);
  blocs_indirect = get_or ws 126 0;
  blocs_double_indirect = get_or ws 127 0;
}

abbrev pub current : Cmd ℕ
current = gets (λ w. w.current_volume)

unfoldable pub read_inode : (inumber : ℕ) → Cmd Inode
read_inode inumber = do vol ← current; b ← read_bloc vol inumber; pure (inode_of_words (words b))

unfoldable pub write_inode : (inumber : ℕ) → Inode → Cmd Void
write_inode inumber inode = do vol ← current; write_bloc vol inumber (unwords (inode_words inode))

-- An inode of a file without blocs.
abbrev pub new_inode : ℕ → Inode
new_inode type = record {
  type = type;
  size = 0;
  blocs_directs = replicate nb_directs 0;
  blocs_indirect = 0;
  blocs_double_indirect = 0;
}

unfoldable pub create_inode : (type : ℕ) → Cmd ℕ
unfolding write_inode
create_inode type = do
  inumber ← new_bloc
  if inumber == 0 then pure bloc_null else (do write_inode inumber (new_inode type); pure inumber)

unfoldable pub free_blocs : List ℕ → Cmd Void
free_blocs [] = pure tt
free_blocs (b ∷ bs) = do if not (b == 0) then free_bloc b else pure tt; free_blocs bs

-- The tables of the indirect blocs are read to the address that the bloc's number makes.
unfoldable pub delete_inode : (inumber : ℕ) → Cmd ℕ
unfolding read_inode free_blocs
delete_inode inumber = do
  inode ← read_inode inumber
  free_blocs inode.blocs_directs
  if not (inode.blocs_indirect == 0) then halt undefined else pure tt
  if not (inode.blocs_double_indirect == 0) then halt undefined else pure tt
  free_bloc inode.blocs_double_indirect
  free_bloc inumber
  pure inumber

-- `initialize_bloc` fills a bloc with zeros.
unfoldable pub initialize_bloc : (adress : ℕ) → Cmd ℕ
initialize_bloc adress = do
  vol ← current
  b ← read_bloc vol adress
  write_bloc vol adress (unwords (replicate nb_blocs_by_bloc 0))
  pure adress

-- `initialize_bloc(new_bloc())`
unfoldable pub allocate : Cmd ℕ
unfolding initialize_bloc
allocate = do b ← new_bloc; initialize_bloc b

-- The entry at an index of the table in a bloc; an entry that is 0 is allocated, or gives `none` where
-- nothing is to be allocated.
unfoldable pub table_entry : (table index : ℕ) → (do_allocate : Bool) → Cmd (Option ℕ)
table_entry table index do_allocate = do
  vol ← current
  b ← read_bloc vol table
  let ws = words b
  if not (get_or ws index 0 == 0)
      then pure (some (get_or ws index 0))
      else if do_allocate
      then (do n ← allocate; write_bloc vol table (unwords (set ws index n)); pure (some n))
      else pure none

abbrev pub or_null : Option ℕ → ℕ
or_null none = bloc_null
or_null (some b) = b

unfoldable pub direct_bloc : (inumber : ℕ) → Inode → (index : ℕ) → (do_allocate : Bool) → Cmd ℕ
direct_bloc inumber inode index do_allocate =
    if get_or inode.blocs_directs index 0 == 0
    then (if do_allocate
        then (do
          n ← allocate
          write_inode inumber (record inode { blocs_directs = set inode.blocs_directs index n })
          pure n)
        else pure bloc_null)
    else pure (get_or inode.blocs_directs index 0)

-- The test `inode.blocs_directs == 0` of the source compares the address of the array and never holds:
-- the table of the single indirect blocs is never allocated.
unfoldable pub indirect_bloc : Inode → (index : ℕ) → (do_allocate : Bool) → Cmd ℕ
indirect_bloc inode index do_allocate = do
  e ← table_entry inode.blocs_indirect index do_allocate
  pure (or_null e)

-- The two tables of a double indirect bloc.
unfoldable pub double_entry : (table index : ℕ) → (do_allocate : Bool) → Cmd ℕ
double_entry table index do_allocate = do
  e ← table_entry table (index / nb_blocs_by_bloc) do_allocate
  elim e [
    | none ↦ pure bloc_null
    | some t ↦ do f ← table_entry t (index % nb_blocs_by_bloc) do_allocate; pure (or_null f)
  ]

unfoldable pub double_bloc : (inumber : ℕ) → Inode → (index : ℕ) → (do_allocate : Bool) → Cmd ℕ
double_bloc inumber inode index do_allocate =
    if inode.blocs_double_indirect == 0
    then (if do_allocate
        then (do
          n ← allocate
          write_inode inumber (record inode { blocs_double_indirect = n })
          double_entry n index do_allocate)
        else pure bloc_null)
    else double_entry inode.blocs_double_indirect index do_allocate

-- `return -1;`
abbrev pub too_big : ℕ
too_big = 0xFFFF_FFFF

unfoldable pub vbloc_of_fbloc : (inumber fbloc : ℕ) → (do_allocate : Bool) → Cmd ℕ
vbloc_of_fbloc inumber fbloc do_allocate = do
  inode ← read_inode inumber
  if ltb fbloc nb_directs
      then direct_bloc inumber inode fbloc do_allocate
      else if ltb (fbloc - nb_directs) nb_blocs_by_bloc
      then indirect_bloc inode (fbloc - nb_directs) do_allocate
      else if ltb (fbloc - nb_directs - nb_blocs_by_bloc) nb_double
      then double_bloc inumber inode (fbloc - nb_directs - nb_blocs_by_bloc) do_allocate
      else pure too_big
