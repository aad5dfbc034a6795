-- ===== src/Mbr/Frame.antt =====
-- What reading and writing a bloc (src/mbr.c) does to the blocs of a mounted volume.
use ase_plus_plus.Prelude.{
  ℕ, ◌≤◌, ◌<◌, ◌≡◌, ◌≢◌, refl, arith, ◌++◌, ◌==◌, if◌then◌else◌, length, take, drop, length-append,
  length-drop, take-append, ap, ◌∙◌, drop_all, append-nil,
}
use ase_plus_plus.Words.{Bytes}
use ase_plus_plus.Storage
use ase_plus_plus.Storage.{Storage, sector_size}
use ase_plus_plus.System.{World, ok}
use ase_plus_plus.Mbr.{maxvol, write_nbloc, read_nbloc}
use ase_plus_plus.Mbr.Blocs.{bloc, loaded, stored, IsReady, write_nbloc-ok, read_nbloc-ok}
use ase_plus_plus.Mbr.Blocs.{read_bloc-ok}
use ase_plus_plus.Mbr.{read_bloc}
use ase_plus_plus.Prelude.{take_all}
use ase_plus_plus.Mbr.Address.{Fits, nsectors, address-injective}

-- Sectors are 512 bytes long, and so is the transfer buffer.
pub record IsDisk (w : World) : Type 0 where
  pub master : length w.storage.master ≡ sector_size
  pub cells : (c s : ℕ) → length (w.storage.cells c s) ≡ sector_size

-- A volume that the functions of mbr.c can work on.
pub record IsMounted (w : World) (vol : ℕ) : Type 0 where
  pub ready : IsReady w
  pub volume : vol < maxvol
  pub fits : Fits w vol
  pub disk : IsDisk w

-- A change of the disk's contents alone.
abbrev pub with_storage : World → Storage → World
with_storage w d = record w { storage = d }

pub IsMounted-with_storage :
    {w : World} {vol : ℕ} (d : Storage)
    → IsMounted w vol
    → length d.master ≡ sector_size
    → ((c s : ℕ) → length (d.cells c s) ≡ sector_size)
    → IsMounted (with_storage w d) vol
IsMounted-with_storage d m hm hc = record {
  ready = record { formatted = m.ready.formatted; mutex = m.ready.mutex; free = m.ready.free };
  volume = m.volume;
  fits = record { sectors = m.fits.sectors; cylinders = m.fits.cylinders };
  disk = record { master = hm; cells = hc };
}

module _ {w : World} {vol : ℕ} (m : IsMounted w vol) where
  pub loaded-IsMounted : (n : ℕ) → IsMounted (loaded vol n w) vol
  unfolding loaded
  loaded-IsMounted n = IsMounted-with_storage _ m (m.disk.cells _ _) m.disk.cells

  pub stored-IsMounted :
      (n : ℕ) (b : Bytes) → length b ≤ sector_size → IsMounted (stored vol n b w) vol
  unfolding stored Storage.write_nsector
  stored-IsMounted n b h =
      IsMounted-with_storage _ m full λ c s. ground (arith, full, m.disk.cells c s)
    where
      full : length (b ++ drop (length b) w.storage.master) ≡ sector_size
      full = omega (
        arith,
        length-append b (drop (length b) w.storage.master),
        length-drop (length b) w.storage.master,
        m.disk.master,
      )

  pub length-bloc : (n : ℕ) → length (bloc w vol n) ≡ sector_size
  unfolding bloc
  length-bloc n = m.disk.cells _ _

  -- The buffer that `read_bloc` fills is the whole bloc.
  pub read_bloc_whole : (n : ℕ) → read_bloc vol n w ≡ ok (bloc w vol n) (loaded vol n w)
  read_bloc_whole n =
      read_bloc-ok vol n m.ready m.volume
      ∙ ap (λ b. ok b (loaded vol n w))
          (take_all sector_size (bloc w vol n) (omega (arith, length-bloc n)))

  pub bloc-loaded : (n k : ℕ) → bloc (loaded vol n w) vol k ≡ bloc w vol k
  unfolding bloc loaded
  bloc-loaded n k = refl

  -- The written bloc starts with the bytes written; the others are as before.
  pub bloc-stored :
      (n k : ℕ) (b : Bytes)
      → n < nsectors w vol
      → k < nsectors w vol
      → bloc (stored vol n b w) vol k
        ≡ (if k == n then b ++ drop (length b) w.storage.master else bloc w vol k)
  unfolding bloc stored Storage.write_nsector
  bloc-stored n k b hn hk = ground (arith, address-injective m.fits k n hk hn)

  pub bloc-stored_self :
      (n : ℕ) (b : Bytes)
      → n < nsectors w vol
      → bloc (stored vol n b w) vol n ≡ b ++ drop (length b) w.storage.master
  bloc-stored_self n b h = ground (arith, bloc-stored n n b h h)

  pub bloc-stored_ne :
      (n k : ℕ) (b : Bytes)
      → n < nsectors w vol
      → k < nsectors w vol
      → k ≢ n
      → bloc (stored vol n b w) vol k ≡ bloc w vol k
  bloc-stored_ne n k b hn hk ne = ground (arith, bloc-stored n k b hn hk)

  -- A whole bloc that is written replaces the bloc.
  pub bloc-stored_whole :
      (n : ℕ) (b : Bytes)
      → n < nsectors w vol
      → length b ≡ sector_size
      → bloc (stored vol n b w) vol n ≡ b
  bloc-stored_whole n b h e =
      bloc-stored_self n b h
      ∙ ap (λ r. b ++ r) (drop_all (length b) w.storage.master (omega (arith, m.disk.master)))
      ∙ append-nil b

  -- Bytes written to a bloc of the volume are read back from it, and a read of any other bloc of the
  -- volume gives what it gave before.
  pub read_nbloc-write_nbloc :
      (n k size : ℕ) (b : Bytes)
      → n < nsectors w vol
      → k < nsectors w vol
      → size ≢ 0
      → length b ≢ 0
      → length b ≤ sector_size
      → k ≢ n
      → (w' : World) × (write_nbloc vol n b w ≡ ok tt w')
        × (read_nbloc vol n (length b) w' ≡ ok b (loaded vol n w'))
        × (read_nbloc vol k size w' ≡ ok (take size (bloc w vol k)) (loaded vol k w'))
  read_nbloc-write_nbloc n k size b hn hk hs h0 h1 ne =
      let w' = stored vol n b w in
      let m' = stored-IsMounted n b h1 in
      (
        w',
        write_nbloc-ok vol n m.ready m.volume b h0,
        read_nbloc-ok vol n m'.ready m.volume (length b) h0
            ∙ ap (λ x. ok x (loaded vol n w'))
                (ap (take (length b)) (bloc-stored_self n b hn) ∙ take-append (length b) b _ refl),
        read_nbloc-ok vol k m'.ready m.volume size hs
            ∙ ap (λ x. ok (take size x) (loaded vol k w')) (bloc-stored_ne n k b hn hk ne),
      )
