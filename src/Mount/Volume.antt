-- ===== src/Mount/Volume.antt =====
-- What mounting a volume finds (src/mount.c).
use ase_plus_plus.Prelude.{ℕ, ◌≡◌, arith, ◌==◌, if◌then◌else◌, Bool-cases, inl, inr}
use ase_plus_plus.System.{World, ok, stop, exit}
use ase_plus_plus.Mbr.{mbr_magic}
use ase_plus_plus.Mbr.Layout.{table_on, with_table, read_mbr_found}
use ase_plus_plus.Mbr.Frame.{IsMounted}
use ase_plus_plus.Superbloc.{super_magic}
use ase_plus_plus.Superbloc.Codec.{super_on, super_loaded, load_super-cases}
use ase_plus_plus.Mount.{load_this_volume, mount_volume}

-- The state with the table of the disk in memory, and the volume to mount.
abbrev pub ready_for : (volume : ℕ) → World → World
ready_for volume w = record (with_table w (table_on w.storage)) { current_volume = volume }

-- A volume of the disk's table is mounted exactly when its first bloc has the superbloc's magic number; its
-- superbloc, the table of the disk and its number are then in memory, whatever was there before. Else the
-- program exits with status 2.
pub mount_volume-cases :
    (volume : ℕ) (w : World)
    → (table_on w.storage).magic_number ≡ mbr_magic
    → IsMounted (ready_for volume w) volume
    → mount_volume volume w ≡ (
        if (super_on (ready_for volume w) volume).magic == super_magic
        then ok tt (super_loaded volume (ready_for volume w))
        else stop (exit 2) (super_loaded volume (ready_for volume w)))
unfolding mount_volume load_this_volume
mount_volume-cases volume w magic m =
    let read = read_mbr_found w magic in
    let load = load_super-cases volume m in
    elim (Bool-cases ((super_on (ready_for volume w) volume).magic == super_magic)) [
      | inl t ↦ ground (arith, read, load, t)
      | inr f ↦ ground (arith, read, load, f)
    ]
