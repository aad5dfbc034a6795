-- ===== src/Mbr/Blocs.antt =====
-- The blocs of a volume as the functions of src/mbr.c read and write them.
use ase_plus_plus.Prelude.{ap₂, ℕ, ◌/◌, ◌%◌, ◌<◌, ◌≡◌, ◌≢◌, arith, length, take}
use ase_plus_plus.Words.{Bytes}
use ase_plus_plus.Storage
use ase_plus_plus.Storage.{sector_size}
use ase_plus_plus.Mutex.{sem_magic_number}
use ase_plus_plus.System.{World, ok}
use ase_plus_plus.Mbr.{
  mbr_magic, maxvol, add32, max_sector, volume_at, read_bloc, read_nbloc, write_nbloc,
}

-- The address of a bloc.
abbrev pub sector_of : World → ℕ → ℕ → ℕ
sector_of w vol n = add32 (volume_at w vol).vol_sector n % max_sector

abbrev pub cylinder_of : World → ℕ → ℕ → ℕ
cylinder_of w vol n =
    let v = volume_at w vol in add32 v.vol_cylinder (add32 v.vol_sector n / max_sector)

-- The 512 bytes of a bloc.
unfoldable pub bloc : World → ℕ → ℕ → Bytes
bloc w vol n = w.storage.cells (cylinder_of w vol n) (sector_of w vol n)

-- The state after a bloc has gone through the transfer buffer.
unfoldable pub loaded : ℕ → ℕ → World → World
unfolding bloc
loaded vol n w = record w { storage = record (w.storage) { master = bloc w vol n } }

-- The state after the first bytes of a bloc have been written.
unfoldable pub stored : ℕ → ℕ → Bytes → World → World
stored vol n b w = record w {
  storage = Storage.write_nsector (cylinder_of w vol n) (sector_of w vol n) b w.storage;
}

-- The MBR is in memory and the semaphore is free.
pub record IsReady (w : World) : Type 0 where
  pub formatted : w.mbr.magic_number ≡ mbr_magic
  pub mutex : w.mbr_mutex.magic ≡ sem_magic_number
  pub free : 0 < w.mbr_mutex.compteur

module _ {w : World} (vol n : ℕ) (r : IsReady w) (v : vol < maxvol) where
  -- reading a bloc gives its bytes; the semaphore is as before
  pub read_bloc-ok : read_bloc vol n w ≡ ok (take sector_size (bloc w vol n)) (loaded vol n w)
  unfolding read_bloc bloc loaded Storage.read_nsector
  read_bloc-ok = ground arith

  pub read_nbloc-ok :
      (size : ℕ)
      → size ≢ 0
      → read_nbloc vol n size w ≡ ok (take size (bloc w vol n)) (loaded vol n w)
  unfolding read_nbloc bloc loaded Storage.read_nsector
  read_nbloc-ok size h = ground arith

  pub write_nbloc-ok : (b : Bytes) → length b ≢ 0 → write_nbloc vol n b w ≡ ok tt (stored vol n b w)
  unfolding write_nbloc stored
  write_nbloc-ok b h = ground arith

-- A bloc depends on the disk and the volume table alone.
pub bloc-eq :
    (u w : World) (vol n : ℕ) → u.storage ≡ w.storage → u.mbr ≡ w.mbr → bloc u vol n ≡ bloc w vol n
unfolding bloc
bloc-eq u w vol n es em = ap₂ (λ d t. bloc (record w { storage = d; mbr = t }) vol n) es em
