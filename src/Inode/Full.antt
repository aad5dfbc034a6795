-- ===== src/Inode/Full.antt =====
-- Allocating a bloc of a file on a full volume (src/inode.c): the bloc number 0 that `new_bloc` gives is
-- filled with zeros like any other.
use ase_plus_plus.Prelude.{ℕ, ◌<◌, ◌≡◌, ◌∙◌, arith, [], length, true, replicate}
use ase_plus_plus.Words.{length-unwords}
use ase_plus_plus.Storage.{sector_size}
use ase_plus_plus.System.{World, ok}
use ase_plus_plus.Mbr.{write_bloc}
use ase_plus_plus.Mbr.Blocs.{bloc, loaded, stored, write_nbloc-ok}
use ase_plus_plus.Mbr.Address.{nsectors}
use ase_plus_plus.Mbr.Frame.{
  loaded-IsMounted, stored-IsMounted, bloc-stored_whole, bloc-stored_ne, read_bloc_whole,
}
use ase_plus_plus.Superbloc.FreeList.{IsFree}
use ase_plus_plus.Superbloc.Alloc.{new_bloc-nil}
use ase_plus_plus.Superbloc.Kept.{loaded-IsFree}
use ase_plus_plus.Inode.{nb_directs, nb_blocs_by_bloc, allocate, direct_bloc, vbloc_of_fbloc}
use ase_plus_plus.Inode.Codec.{IsInode, inode_at, inode_bytes, read_inode-ok, write_inode-ok}
use ase_plus_plus.Inode.Create.{zero_bytes}
use ase_plus_plus.Inode.Direct.{direct, entered, entered-IsInode}

length-zeros : length zero_bytes ≡ sector_size
length-zeros = length-unwords (replicate nb_blocs_by_bloc 0)

-- The state after zeros were written to bloc 0.
abbrev wiped : World → World
wiped w = stored w.current_volume 0 zero_bytes (loaded w.current_volume 0 w)

allocate-wiped : {w : World} → IsFree w [] → allocate w ≡ ok 0 (wiped w)
unfolding allocate write_bloc loaded
allocate-wiped {w} v =
    let m' = loaded-IsMounted v.mounted 0 in
    let write =
      write_nbloc-ok {w = loaded w.current_volume 0 w} w.current_volume 0 m'.ready v.mounted.volume
        zero_bytes (omega (arith, length-zeros)) in
    ground (arith, new_bloc-nil v, read_bloc_whole v.mounted 0, write)

-- On a full volume, a file lacks one of its first 124 blocs. With allocation, the call returns 0, but
-- bloc 0 of the disk, where the superbloc was, holds zeros afterwards.
pub vbloc_of_fbloc_full :
    {w : World} (n fbloc : ℕ)
    → IsFree w []
    → 0 < n
    → n < nsectors w w.current_volume
    → IsInode (inode_at w n)
    → fbloc < nb_directs
    → direct w n fbloc ≡ 0
    → (w' : World) × (vbloc_of_fbloc n fbloc true w ≡ ok 0 w')
      × (bloc w' w.current_volume 0 ≡ zero_bytes)
unfolding vbloc_of_fbloc direct_bloc loaded stored
vbloc_of_fbloc_full {w} n fbloc v pos inside inode small hole =
    let vol = w.current_volume in
    let v1 = loaded-IsFree v n in
    let m1 = loaded-IsMounted v1.mounted 0 in
    let w2 = wiped (loaded vol n w) in
    let i = entered (inode_at w n) fbloc 0 in
    let good = entered-IsInode (inode_at w n) fbloc 0 inode (omega arith) in
    let m2 = stored-IsMounted m1 0 zero_bytes (omega (arith, length-zeros)) in
    let write = write_inode-ok {w = w2} m2 n good in
    (
      stored vol n (inode_bytes i) w2,
      ground (arith, read_inode-ok v.mounted n, hole, small, allocate-wiped v1, write),
      bloc-stored_ne m2 n 0 (inode_bytes i) inside v.room (omega arith)
          ∙ bloc-stored_whole m1 0 zero_bytes v.room length-zeros,
    )
