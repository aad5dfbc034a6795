-- ===== src/DiskTools/Asking.antt =====
-- The volume that mknfs asks for, and the file system that it makes there (src/mknfs.c).
use ase_plus_plus.Prelude.{
  ℕ, suc, ◌≤◌, ◌<◌, ◌≡◌, ◌≢◌, refl, ◌∙◌, arith, List, [], ◌∷◌, ◌++◌, map, All, true, ltb,
  if◌then◌else◌, Option, some, ◌⊎◌, inl, inr,
}
use ase_plus_plus.Words.{Bytes}
use ase_plus_plus.System.{World, ok, stop, exit, undefined}
use ase_plus_plus.Mbr.{maxvol, volume_at}
use ase_plus_plus.Mbr.Layout.{table_on}
use ase_plus_plus.Mbr.Address.{nsectors}
use ase_plus_plus.Volumes.Table.{HasPlaces}
use ase_plus_plus.Format.{init_super}
use ase_plus_plus.Format.Volume.{IsFormattable, IsMade, init_super-IsFree}
use ase_plus_plus.DiskTools.{
  ℤ, pos, is_negative, to_unsigned, Libc, FileSystemArgs, no_file_system_args, file_system_options,
  ask, volume_loop, chosen_volume, init_mbr, make_file_system, mknfs_main,
}
use ase_plus_plus.DiskTools.Listing.{list_volumes-numbered}
use ase_plus_plus.DiskTools.Making.{opened, init_mbr-opened, to_unsigned-IsWord}

-- A number that the loop asks again for: one above 8, or that of a place without sectors.
abbrev pub IsRefused : World → ℕ → Type 0
IsRefused w k = (maxvol < k) ⊎ ((k < maxvol) × ((volume_at w k).vol_nsectors ≡ 0))

abbrev pub typed_numbers : List ℕ → List (Option ℤ)
typed_numbers = map (λ k. some (pos k))

-- The loop passes the numbers of no volume, and ends with the first one of a volume; but the number 8, that of
-- no place of the table, ends in a read outside of it.
pub volume_loop-first :
    (skipped : List ℕ) (n : ℕ) (more : List (Option ℤ)) (w : World)
    → All (IsRefused w) skipped
    → n ≤ maxvol
    → (volume_at w n).vol_nsectors ≢ 0 ⊎ (n ≡ maxvol)
    → volume_loop (typed_numbers skipped ++ (some (pos n) ∷ more)) w
      ≡ (if ltb n maxvol then ok (n, more) w else stop undefined w)
unfolding volume_loop
volume_loop-first [] n more w r h (inl used) = ground arith
volume_loop-first [] n more w r h (inr last) = ground arith
volume_loop-first (k ∷ ks) n more w (inl big, r) h u =
    ground (arith, volume_loop-first ks n more w r h u)
volume_loop-first (k ∷ ks) n more w (inr (small, unused), r) h u =
    ground (arith, volume_loop-first ks n more w r h u)

opened-IsFormattable : (w : World) (n : ℕ) → IsFormattable w n → IsFormattable (opened w) n
opened-IsFormattable w n f = record {
  magic = f.magic;
  disk = record { master = f.disk.cells 0 0; cells = f.disk.cells };
  volume = f.volume;
  fits = record { sectors = f.fits.sectors; cylinders = f.fits.cylinders };
  two = f.two;
}

-- `main` behind the options, where the loop asks for the volume.
make_file_system-made :
    (status : ℕ) (a : FileSystemArgs) (typed more : List (Option ℤ)) (n : ℕ) (w w1 : World)
    → init_mbr status w ≡ ok tt (opened w)
    → HasPlaces (opened w)
    → is_negative a.vol ≡ true
    → volume_loop typed (opened w) ≡ ok (n, more) (opened w)
    → init_super n (to_unsigned (ask a.serial more).0) a.name (opened w) ≡ ok tt w1
    → make_file_system status a typed w ≡ stop (exit 0) w1
unfolding make_file_system chosen_volume
make_file_system-made status a typed more n w w1 e1 t neg e3 e4 =
    rw (e1, neg, list_volumes-numbered (opened w) t, e3, e4)

lt-ltb : (n : ℕ) → n < maxvol → ltb n maxvol ≡ true
lt-ltb n h = ground arith

-- When the options can be read and name no volume, and the first volume of the table whose number is typed has at
-- least two blocs, mknfs on a disk with a table makes a file system there and ends with status 0: the free list
-- has all blocs of the volume but the first two, the superbloc, which is on the disk, has the serial number of
-- the options, or the next number typed where it is missing or negative, and bloc 1 is the inode of an empty
-- root directory.
pub mknfs-IsMade :
    (libc : Libc) (status : ℕ) (options : List (ℕ × Bytes)) (skipped : List ℕ) (n m : ℕ)
    (more : List (Option ℤ)) (a : FileSystemArgs) (w : World)
    → status ≢ 0
    → file_system_options libc options no_file_system_args w ≡ ok a w
    → is_negative a.vol ≡ true
    → HasPlaces (opened w)
    → All (IsRefused (opened w)) skipped
    → IsFormattable w n
    → nsectors (opened w) n ≡ suc (suc m)
    → (w1 : World) × (mknfs_main libc status options
          (typed_numbers skipped ++ (some (pos n) ∷ more))
          w
        ≡ stop (exit 0) w1)
      × IsMade n m w1
      × (w1.mbr ≡ table_on w.storage)
      × (w1.super.numero ≡ to_unsigned (ask a.serial more).0)
unfolding mknfs_main
mknfs-IsMade libc status options skipped n m more a w up read neg t r f e =
    let f' = opened-IsFormattable w n f in
    let first =
      volume_loop-first skipped n more (opened w) r (omega (arith, f.volume))
        (inl (λ z. absurd (omega (arith, z, e)))) in
    let inside : ltb n maxvol ≡ true = lt-ltb n f.volume in
    let (w1, run, made, table, number) =
      init_super-IsFree (opened w) n (to_unsigned (ask a.serial more).0) m a.name f'
        (to_unsigned-IsWord (ask a.serial more).0) e in
    (
      w1,
      rw read (
          make_file_system-made status a _ more n w w1 (init_mbr-opened status w up f.magic) t neg
            (first ∙ rw inside refl) run),
      made,
      table,
      number,
    )
