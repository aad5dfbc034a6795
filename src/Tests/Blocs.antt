-- ===== src/Tests/Blocs.antt =====
-- The theorems on volumes, blocs and the superbloc at concrete disks.
use ase_plus_plus.Prelude.{ℕ, ◌+◌, ◌<◌, ◌≤◌, ◌≡◌, refl, arith, [], ◌∷◌, take, replicate, get_or}
use ase_plus_plus.System.{World, ok}
use ase_plus_plus.Mutex.{sem_init}
use ase_plus_plus.Mbr.{
  no_volume, mbr_magic, ncyl_of_nbloc, nsec_of_nbloc, read_mbr, write_mbr, read_nbloc, write_nbloc,
}
use ase_plus_plus.Mbr.Blocs.{IsReady, bloc, loaded, stored}
use ase_plus_plus.Mbr.Address.{nbloc_address, nsectors, Fits, linear, start_of}
use ase_plus_plus.Mbr.Frame.{read_nbloc-write_nbloc}
use ase_plus_plus.Mbr.Layout.{saved, read_mbr-write_mbr}
use ase_plus_plus.Volumes.{delete_volume}
use ase_plus_plus.Volumes.Table.{HasPlaces, delete_volume_removes}
use ase_plus_plus.Superbloc.{save_super, load_super, new_bloc}
use ase_plus_plus.Superbloc.Codec.{
  HasSuper, super_saved-IsMounted, super_saved, load_super-save_super,
}
use ase_plus_plus.Superbloc.FreeList.{IsFree, SameBlocs}
use ase_plus_plus.Superbloc.Alloc.{new_bloc-cons}
use ase_plus_plus.Tests.Disk.{
  table, blank, table-IsTable, formatted, formatted-IsFree, formatted-size,
}

four_places : HasPlaces blank
four_places = record { places = refl; taken = omega arith }

delete_volume_removes_example :
    (w : World) × (delete_volume 0 blank ≡ ok tt w)
    × HasPlaces w
    × (w.mbr.nbvols + 1 ≡ 1)
    × ((k : ℕ) → k < 0 → get_or w.mbr.mbr_vol k no_volume ≡ get_or blank.mbr.mbr_vol k no_volume)
    × ((k : ℕ)
        → 0 ≤ k
        → k < w.mbr.nbvols
        → get_or w.mbr.mbr_vol k no_volume ≡ get_or blank.mbr.mbr_vol (k + 1) no_volume)
delete_volume_removes_example =
    delete_volume_removes 0 blank four_places (omega arith) (omega arith)

abbrev full : World
full = record blank {
  mbr = record { mbr_vol = replicate 8 no_volume; nbvols = 8; magic_number = mbr_magic };
}

read_mbr-write_mbr_example :
    (write_mbr blank ≡ ok tt (saved blank))
    × (u : World) × (read_mbr (saved blank) ≡ ok tt u)
    × (u.mbr ≡ table)
    × (u.mbr_mutex ≡ sem_init 1)
read_mbr-write_mbr_example = read_mbr-write_mbr blank (saved blank) table-IsTable refl refl

abbrev ready : World
ready = record blank { mbr_mutex = record { compteur = 1; magic = 0x69 } }

ready-IsReady : IsReady ready
ready-IsReady = record { formatted = refl; mutex = refl; free = omega arith }

ready-Fits : Fits ready 0
ready-Fits = record { sectors = omega arith; cylinders = omega arith }

nbloc_address_example :
    (c s : ℕ) × (ncyl_of_nbloc 0 4 ready ≡ ok c ready)
    × (nsec_of_nbloc 0 4 ready ≡ ok s ready)
    × (linear c s ≡ start_of ready 0 + 4)
    × (s < 32)
nbloc_address_example = nbloc_address 4 ready-IsReady (omega arith) ready-Fits (omega arith)

-- a bloc number of the volume
inside : (n : ℕ) → n < 5 → n < nsectors formatted formatted.current_volume
inside n h = omega (arith, formatted-size)

read_nbloc-write_nbloc_example :
    (w : World) × (write_nbloc formatted.current_volume 3 (1 ∷ 2 ∷ 3 ∷ []) formatted ≡ ok tt w)
    × (read_nbloc formatted.current_volume 3 3 w
        ≡ ok (1 ∷ 2 ∷ 3 ∷ []) (loaded formatted.current_volume 3 w))
    × (read_nbloc formatted.current_volume 4 8 w
        ≡ ok
            (take 8 (bloc formatted formatted.current_volume 4))
            (loaded formatted.current_volume 4 w))
read_nbloc-write_nbloc_example =
    read_nbloc-write_nbloc formatted-IsFree.mounted 3 4 8 (1 ∷ 2 ∷ 3 ∷ []) (inside 3 (omega arith))
      (inside 4 (omega arith)) (omega arith) (omega arith) (omega arith) (omega arith)

load_super-save_super_example :
    (save_super formatted ≡ ok tt (super_saved formatted))
    × (w : World) × (load_super formatted.current_volume (super_saved formatted) ≡ ok 0 w)
    × (w.super ≡ formatted.super)
    × (w.current_volume ≡ formatted.current_volume)
    × (w.storage.cells ≡ (super_saved formatted).storage.cells)
unfolding stored
load_super-save_super_example =
    load_super-save_super formatted-IsFree.mounted formatted-IsFree.super formatted-IsFree.room
      (super_saved-IsMounted formatted-IsFree.mounted formatted-IsFree.super) refl refl

new_bloc-cons_example :
    (w : World) × (new_bloc formatted ≡ ok 2 w)
    × (0 < 2)
    × IsFree w (3 ∷ 4 ∷ [])
    × SameBlocs formatted w formatted.current_volume
    × HasSuper w formatted.current_volume w.super
    × (w.mbr ≡ formatted.mbr)
    × (w.current_volume ≡ formatted.current_volume)
new_bloc-cons_example = new_bloc-cons formatted-IsFree
