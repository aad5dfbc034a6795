-- ===== src/Superbloc.antt =====
-- The superbloc and the list of free blocs of the current volume, src/superbloc.c. `init_super`, which
-- also makes the root directory, is in Format; `taux_occupation`, a float, and `display` are left out.
pub mod Alloc
pub mod Codec
pub mod FreeList
pub mod Kept
pub mod Release
pub mod Root
use ase_plus_plus.Prelude.{
  ℕ, ◌+◌, ◌-◌, ◌%◌, List, [], ◌∷◌, ◌++◌, Bool, not, ◌==◌, if◌then◌else◌, take, drop, replicate,
  length,
}
use ase_plus_plus.Words.{Bytes, word_at, unwords}
use ase_plus_plus.Storage.{sector_size}
use ase_plus_plus.System.{
  Superbloc, World, Cmd, Void, exit, pure, halt, ◌>>=◌, ◌>>◌, gets, modify, assert_that,
}
use ase_plus_plus.Mbr.{add32, read_bloc, read_nbloc, write_bloc, write_nbloc}

abbrev pub super_magic : ℕ
super_magic = 0xACCD1001

abbrev pub bloc_magic : ℕ
bloc_magic = 0xAC1DAC1D

-- The bloc of the superbloc, `SUPER`.
abbrev pub super_bloc : ℕ
super_bloc = 0

abbrev pub bloc_null : ℕ
bloc_null = 0

-- `unsigned` decrement
abbrev pub dec32 : ℕ → ℕ
dec32 n = (n + 0xFFFF_FFFF) % 0x1_0000_0000

-- `struct superbloc_s` in memory: two words, 32 characters, four words.
unfoldable pub super_bytes : Superbloc → Bytes
super_bytes s =
    unwords (s.magic ∷ s.numero ∷ [])
    ++ (s.nom ++ unwords (s.id ∷ s.premier_libre ∷ s.nb_bloc_libre ∷ s.root_inumber ∷ []))

abbrev pub super_size : ℕ
super_size = 56

unfoldable pub super_of_bytes : Bytes → Superbloc
super_of_bytes b = record {
  magic = word_at b 0;
  numero = word_at b 1;
  nom = take 32 (drop 8 b);
  id = word_at (drop 40 b) 0;
  premier_libre = word_at (drop 40 b) 1;
  nb_bloc_libre = word_at (drop 40 b) 2;
  root_inumber = word_at (drop 40 b) 3;
}

-- `struct free_bloc_s` in memory.
abbrev pub free_bloc_size : ℕ
free_bloc_size = 8

abbrev pub free_bloc_bytes : (magic next_free : ℕ) → Bytes
free_bloc_bytes magic next_free = unwords (magic ∷ next_free ∷ [])

-- `fb->next_free = x;` in a buffer
abbrev pub set_next_free : ℕ → Bytes → Bytes
set_next_free x buf = take 4 buf ++ (unwords (x ∷ []) ++ drop 8 buf)

unfoldable pub load_super : (vol : ℕ) → Cmd ℕ
load_super vol = do
  modify (λ w. record w { current_volume = vol })
  buf ← read_bloc vol super_bloc
  modify (λ w. record w { super = super_of_bytes (take super_size buf) })
  s ← gets (λ w. w.super)
  if not (s.magic == super_magic) then halt (exit 2) else pure 0

unfoldable pub save_super : Cmd Void
save_super = do
  s ← gets (λ w. w.super)
  assert_that (s.magic == super_magic)
  vol ← gets (λ w. w.current_volume)
  write_nbloc vol 0 (super_bytes s)

-- What `new_bloc` does with the head of the free list.
unfoldable pub unlink_first : (premier_libre : ℕ) → Cmd ℕ
unfolding save_super
unlink_first premier_libre = do
  vol ← gets (λ w. w.current_volume)
  fb ← read_nbloc vol premier_libre free_bloc_size
  assert_that (word_at fb 0 == bloc_magic)
  let next = if not (word_at fb 1 == bloc_null) then word_at fb 1 else bloc_null
  modify (λ w. record w {
    super = record (w.super) { premier_libre = next; nb_bloc_libre = dec32 w.super.nb_bloc_libre };
  })
  save_super
  pure premier_libre

unfoldable pub new_bloc : Cmd ℕ
unfolding unlink_first
new_bloc = do
  s ← gets (λ w. w.super)
  if s.premier_libre == bloc_null then pure 0 else unlink_first s.premier_libre

-- What `free_bloc` does with a bloc that is not the first.
unfoldable pub link_first : (bloc : ℕ) → Cmd Void
unfolding save_super
link_first bloc = do
  vol ← gets (λ w. w.current_volume)
  buf ← read_bloc vol bloc
  s ← gets (λ w. w.super)
  write_bloc vol s.premier_libre (set_next_free s.premier_libre buf)
  modify (λ w. record w {
    super = record (w.super) {
      premier_libre = bloc;
      nb_bloc_libre = add32 w.super.nb_bloc_libre 1;
    };
  })
  save_super

unfoldable pub free_bloc : (bloc : ℕ) → Cmd Void
unfolding link_first
free_bloc bloc = if bloc == 0 then pure tt else link_first bloc
