-- ===== src/Tests/Programs.antt =====
-- The programs on volumes, run on a disk with a table of one volume.
use ase_plus_plus.Prelude.{
  ℕ, ◌-◌, ◌≡◌, refl, sym, ap, subst, arith, List, [], ◌∷◌, ◌++◌, true, some, Option, inl,
}
use ase_plus_plus.Words.{Bytes}
use ase_plus_plus.System.{World, ok, stop, exit}
use ase_plus_plus.Mbr.Layout.{table_on}
use ase_plus_plus.Volumes.Table.{HasPlaces}
use ase_plus_plus.Manager.Dialogue.{IsKept}
use ase_plus_plus.Format.Volume.{IsMade}
use ase_plus_plus.DiskTools.{
  ℤ, pos, negsuc, Libc, row, VolumeArgs, no_volume_args, volume_options, mkvol_main, dvol_main,
  FileSystemArgs, no_file_system_args, file_system_options, mknfs_main,
}
use ase_plus_plus.DiskTools.Listing.{numbered, volumes_of}
use ase_plus_plus.DiskTools.Making.{opened, asked, dvol-mkvol}
use ase_plus_plus.DiskTools.Asking.{typed_numbers, mknfs-IsMade}
use ase_plus_plus.Tests.Disk.{table-IsTable, fresh, fresh-IsFormattable, found, five}

-- A library that reads one digit.
abbrev digit : Bytes → ℤ
digit [] = pos 0
digit (c ∷ s) = pos (c - 48)

abbrev libc : Libc
libc = record { scans = λ s. true; atoi = digit }

-- -c 2 -S 4, and the sector and the type are typed
abbrev options : List (ℕ × Bytes)
options = (b'c', (50 ∷ [])) ∷ (b'S', (52 ∷ [])) ∷ []

abbrev typed : List (Option ℤ)
typed = some (pos 0) ∷ some (pos 1) ∷ []

abbrev args : VolumeArgs
args = record { vol_type = negsuc 0; sector = negsuc 0; cylinder = pos 2; size = pos 4 }

options_read : volume_options libc options no_volume_args fresh ≡ ok args fresh
unfolding volume_options
options_read = refl

kept : IsKept (table_on fresh.storage)
kept =
    subst IsKept (sym found) (record { table = table-IsTable; magic = refl; taken = omega arith })

dvol-mkvol_example :
    (w : World) × (mkvol_main libc 1 options typed fresh ≡ stop (exit 0) w)
    × ((u : World)
        → u.storage ≡ w.storage
        → (u2 : World) × (dvol_main 1 u
            ≡ ok
                (numbered 0 (volumes_of (table_on fresh.storage))
                  ++ (row (table_on fresh.storage).nbvols (asked args typed) ∷ []))
                u2))
dvol-mkvol_example =
    dvol-mkvol libc 1 1 options typed args fresh (λ e. absurd (omega arith))
      (λ e. absurd (omega arith)) options_read kept (omega (arith, ap (λ t. t.nbvols) found))

-- -n a, and the volume and the serial number are typed
abbrev name_options : List (ℕ × Bytes)
name_options = (b'n', (97 ∷ [])) ∷ []

abbrev name_args : FileSystemArgs
name_args = record no_file_system_args { name = 97 ∷ [] }

name_read : file_system_options libc name_options no_file_system_args fresh ≡ ok name_args fresh
unfolding file_system_options
name_read = refl

places : HasPlaces (opened fresh)
places = record { places = kept.table.size; taken = kept.taken }

mknfs-IsMade_example :
    (w : World) × (mknfs_main libc 1 name_options
        (typed_numbers (9 ∷ []) ++ (some (pos 0) ∷ some (pos 42) ∷ []))
        fresh
      ≡ stop (exit 0) w)
    × IsMade 0 3 w
    × (w.mbr ≡ table_on fresh.storage)
    × (w.super.numero ≡ 42)
mknfs-IsMade_example =
    mknfs-IsMade libc 1 name_options (9 ∷ []) 0 3 (some (pos 42) ∷ []) name_args fresh
      (λ e. absurd (omega arith)) name_read refl places (inl (omega arith), tt) fresh-IsFormattable
      five
