-- ===== src/Mbr.antt =====
-- The master boot record and the blocs of the volumes, src/mbr.c. `list_volumes` and
-- `display_type_vol`, which print, are left out, and so is `format_vol`,
-- which formats through the driver alone.
pub mod Layout
pub mod Blocs
pub mod Address
pub mod Frame
use ase_plus_plus.Prelude.{
  ℕ, zero, suc, ◌+◌, ◌-◌, ◌/◌, ◌%◌, ◌^◌, List, [], ◌∷◌, ◌++◌, Bool, not, ◌||◌, ◌==◌, ltb, leb,
  if◌then◌else◌, length, get_or, set, take, drop, replicate,
}
use ase_plus_plus.Words.{Bytes, words, unwords}
use ase_plus_plus.Storage
use ase_plus_plus.Mutex.{sem_init, sem_down, sem_up}
use ase_plus_plus.Storage.{sector_size}
use ase_plus_plus.System.{
  Volume, Mbr, Mutex, World, Cmd, Void, ok, stop, undefined, blocked, pure, halt, ◌>>=◌, ◌>>◌, gets,
  modify, assert_that,
}

abbrev pub maxvol : ℕ
maxvol = 8

abbrev pub max_sector : ℕ
max_sector = 32

abbrev pub mbr_magic : ℕ
mbr_magic = 0xD0CABEEF

-- `unsigned` addition
abbrev pub add32 : ℕ → ℕ → ℕ
add32 a b = (a + b) % 0x1_0000_0000

abbrev pub no_volume : Volume
no_volume = record { vol_cylinder = 0; vol_sector = 0; vol_nsectors = 0; vol_type = 0; valide = 0 }

-- A volume in memory, five words.
abbrev pub volume_words : Volume → List ℕ
volume_words v = v.vol_cylinder ∷ v.vol_sector ∷ v.vol_nsectors ∷ v.vol_type ∷ v.valide ∷ []

abbrev pub volume_of_words : List ℕ → Volume
volume_of_words ws = record {
  vol_cylinder = get_or ws 0 0;
  vol_sector = get_or ws 1 0;
  vol_nsectors = get_or ws 2 0;
  vol_type = get_or ws 3 0;
  valide = get_or ws 4 0;
}

unfoldable pub volumes_words : List Volume → List ℕ
volumes_words [] = []
volumes_words (v ∷ vs) = volume_words v ++ volumes_words vs

unfoldable pub volumes_of_words : ℕ → List ℕ → List Volume
volumes_of_words zero ws = []
volumes_of_words (suc n) ws = volume_of_words ws ∷ volumes_of_words n (drop 5 ws)

-- `struct mbr_s` in memory: eight volumes and two words, 168 bytes.
unfoldable pub mbr_words : Mbr → List ℕ
mbr_words m = volumes_words m.mbr_vol ++ (m.nbvols ∷ m.magic_number ∷ [])

abbrev pub mbr_size : ℕ
mbr_size = 168

unfoldable pub mbr_of_bytes : Bytes → Mbr
mbr_of_bytes b =
    let ws = words b in
    record {
      mbr_vol = volumes_of_words maxvol ws;
      nbvols = get_or ws 40 0;
      magic_number = get_or ws 41 0;
    }

-- The table of a disk that has none.
abbrev pub empty_mbr : Mbr
empty_mbr = record { mbr_vol = replicate maxvol no_volume; nbvols = 0; magic_number = mbr_magic }

unfoldable pub read_sector : (cylinder sector : ℕ) → Cmd Bytes
read_sector c s w =
    let (b, d) = Storage.read_nsector c s sector_size w.storage in ok b (record w { storage = d })

unfoldable pub read_nsector : (cylinder sector size : ℕ) → Cmd Bytes
read_nsector c s size = do
  assert_that (not (size == 0))
  λ w. let (b, d) = Storage.read_nsector c s size w.storage in ok b (record w { storage = d })

unfoldable pub write_nsector : (cylinder sector : ℕ) → Bytes → Cmd Void
write_nsector c s b = do
  assert_that (not (length b == 0))
  modify (λ w. record w { storage = Storage.write_nsector c s b w.storage })

unfoldable pub read_mbr : Cmd Void
unfolding read_sector
read_mbr = do
  buff ← read_sector 0 0
  let m = mbr_of_bytes (take mbr_size buff)
  modify (λ w. record w { mbr = m; mbr_mutex = sem_init 1 })
  if not (m.magic_number == mbr_magic) then modify (λ w. record w { mbr = empty_mbr }) else pure tt

unfoldable pub write_mbr : Cmd Void
unfolding write_nsector
write_mbr = do
  m ← gets (λ w. w.mbr)
  assert_that (m.magic_number == mbr_magic)
  write_nsector 0 0 (unwords (mbr_words m) ++ replicate (sector_size - mbr_size) 0)

-- An element of `mbr.mbr_vol`, which has eight.
abbrev pub volume_at : World → ℕ → Volume
volume_at w n = get_or w.mbr.mbr_vol n no_volume

unfoldable pub check_volume : ℕ → Cmd Void
check_volume nvol = do
  m ← gets (λ w. w.mbr)
  assert_that (m.magic_number == mbr_magic)
  assert_that (ltb nvol maxvol)

unfoldable pub nsec_of_nbloc : (nvol nbloc : ℕ) → Cmd ℕ
unfolding check_volume
nsec_of_nbloc nvol nbloc = do
  check_volume nvol
  v ← gets (λ w. volume_at w nvol)
  pure (add32 v.vol_sector nbloc % max_sector)

unfoldable pub ncyl_of_nbloc : (nvol nbloc : ℕ) → Cmd ℕ
unfolding check_volume
ncyl_of_nbloc nvol nbloc = do
  check_volume nvol
  v ← gets (λ w. volume_at w nvol)
  pure (add32 v.vol_cylinder (add32 v.vol_sector nbloc / max_sector))

unfoldable pub read_bloc : (vol nbloc : ℕ) → Cmd Bytes
unfolding ncyl_of_nbloc nsec_of_nbloc sem_down sem_up read_sector
read_bloc vol nbloc = do
  cylinder ← ncyl_of_nbloc vol nbloc
  sector ← nsec_of_nbloc vol nbloc
  sem_down
  buffer ← read_sector cylinder sector
  sem_up
  pure buffer

unfoldable pub read_nbloc : (vol nbloc size : ℕ) → Cmd Bytes
unfolding ncyl_of_nbloc nsec_of_nbloc sem_down sem_up read_nsector
read_nbloc vol nbloc size = do
  cylinder ← ncyl_of_nbloc vol nbloc
  sector ← nsec_of_nbloc vol nbloc
  sem_down
  buffer ← read_nsector cylinder sector size
  sem_up
  pure buffer

-- `write_nbloc`, and `write_bloc` where the buffer is a whole sector.
unfoldable pub write_nbloc : (vol nbloc : ℕ) → Bytes → Cmd Void
unfolding ncyl_of_nbloc nsec_of_nbloc sem_down sem_up write_nsector
write_nbloc vol nbloc buffer = do
  cylinder ← ncyl_of_nbloc vol nbloc
  sector ← nsec_of_nbloc vol nbloc
  sem_down
  write_nsector cylinder sector buffer
  sem_up

unfoldable pub write_bloc : (vol nbloc : ℕ) → Bytes → Cmd Void
unfolding write_nbloc
write_bloc vol nbloc buffer = write_nbloc vol nbloc buffer
