-- ===== src/Inode/Create.antt =====
-- New inodes and new blocs of a file (src/inode.c), taken from the free list.
use ase_plus_plus.Prelude.{
  ℕ, ◌<◌, ◌≡◌, ◌≢◌, refl, arith, List, [], ◌∷◌, length, All, All-append, ◌∙◌, replicate,
  All-replicate, length-replicate,
}
use ase_plus_plus.Words.{Bytes, IsWord, unwords, length-unwords}
use ase_plus_plus.Storage.{sector_size}
use ase_plus_plus.System.{World, ok}
use ase_plus_plus.Mbr.{write_bloc}
use ase_plus_plus.Mbr.Blocs.{bloc, loaded, stored, write_nbloc-ok}
use ase_plus_plus.Mbr.Address.{nsectors}
use ase_plus_plus.Mbr.Frame.{
  bloc-loaded, loaded-IsMounted, bloc-stored_whole, bloc-stored_ne, read_bloc_whole,
}
use ase_plus_plus.Superbloc.FreeList.{IsFree}
use ase_plus_plus.Superbloc.Alloc.{
  taken, new_bloc-taken, taken-IsFree, taken-SameBlocs, new_bloc_fresh,
}
use ase_plus_plus.Superbloc.Kept.{loaded-IsFree, stored-IsFree}
use ase_plus_plus.Inode.{
  nb_directs, nb_blocs_by_bloc, new_inode, inode_words, create_inode, allocate,
}
use ase_plus_plus.Inode.Codec.{
  IsInode, inode_bytes, length-inode_bytes, inode_at, inode_at-stored, write_inode-ok,
}

pub new_inode-IsInode : (type : ℕ) → IsWord type → IsInode (new_inode type)
unfolding inode_words
new_inode-IsInode type h = record {
  directs = length-replicate {A = ℕ} nb_directs 0;
  words = (
    h,
    (
      omega arith,
      All-append IsWord (replicate nb_directs 0) (0 ∷ 0 ∷ [])
          (All-replicate IsWord nb_directs 0 (omega arith)) (omega arith, (omega arith, tt)),
    ),
  );
}

-- Zeros in a bloc of a table, or of data.
abbrev pub zero_bytes : Bytes
zero_bytes = unwords (replicate nb_blocs_by_bloc 0)

-- The states after `create_inode` and `allocate` have taken bloc `x`.
unfoldable pub created : ℕ → World → ℕ → World
unfolding stored taken
created type w x = stored w.current_volume x (inode_bytes (new_inode type)) (taken w x)

unfoldable pub allocated : World → ℕ → World
unfolding stored loaded taken
allocated w x = stored w.current_volume x zero_bytes (loaded w.current_volume x (taken w x))

module _ {w : World} {x : ℕ} {xs : List ℕ} (v : IsFree w (x ∷ xs)) where
  pub off : All (λ y. y ≢ x) xs
  off = new_bloc_fresh v

  create_inode-created : (type : ℕ) → IsWord type → create_inode type w ≡ ok x (created type w x)
  unfolding create_inode created taken
  create_inode-created type h =
      let pos = v.chain.1 in
      let write = write_inode-ok (taken-IsFree v).mounted x (new_inode-IsInode type h) in
      ground (arith, new_bloc-taken v, write)

  created-IsFree : (type : ℕ) → IsWord type → IsFree (created type w x) xs
  unfolding created taken
  created-IsFree type h =
      stored-IsFree (taken-IsFree v) x (inode_bytes (new_inode type)) v.chain.2
        (omega (arith, length-inode_bytes (new_inode-IsInode type h))) off

  -- With a free bloc, `create_inode` returns the first bloc of the free list, which then holds an inode
  -- of the given type with no bloc; the rest of the list is free, every other bloc of the volume but the
  -- superbloc's is unchanged, and so is the serial number in the superbloc.
  pub create_inode-cons :
      (type : ℕ)
      → IsWord type
      → (w' : World) × (create_inode type w ≡ ok x w')
        × (inode_at w' x ≡ new_inode type)
        × IsFree w' xs
        × ((k : ℕ)
            → 0 < k
            → k < nsectors w w.current_volume
            → k ≢ x
            → bloc w' w.current_volume k ≡ bloc w w.current_volume k)
        × (w'.mbr ≡ w.mbr)
        × (w'.current_volume ≡ w.current_volume)
        × (w'.super.numero ≡ w.super.numero)
  unfolding created taken
  create_inode-cons type h = (
    created type w x,
    create_inode-created type h,
    inode_at-stored x (taken-IsFree v).mounted (new_inode-IsInode type h) v.chain.2,
    created-IsFree type h,
    λ k pos inside ne.
        bloc-stored_ne (taken-IsFree v).mounted x k (inode_bytes (new_inode type)) v.chain.2 inside
          ne
        ∙ taken-SameBlocs v k pos inside,
    refl,
    refl,
    refl,
  )

  pub allocate-allocated : allocate w ≡ ok x (allocated w x)
  unfolding allocate allocated taken write_bloc
  allocate-allocated =
      let m = (taken-IsFree v).mounted in
      let l : length zero_bytes ≡ sector_size = length-unwords (replicate nb_blocs_by_bloc 0) in
      let m' = loaded-IsMounted m x in
      let write =
        write_nbloc-ok {w = loaded w.current_volume x (taken w x)} w.current_volume x m'.ready
          m.volume zero_bytes (omega (arith, l)) in
      ground (arith, new_bloc-taken v, read_bloc_whole m x, write)

  length-zero_bytes : length zero_bytes ≡ sector_size
  length-zero_bytes = length-unwords (replicate nb_blocs_by_bloc 0)

  pub allocated-IsFree : IsFree (allocated w x) xs
  unfolding allocated taken loaded
  allocated-IsFree =
      stored-IsFree (loaded-IsFree (taken-IsFree v) x) x zero_bytes v.chain.2
        (omega (arith, length-zero_bytes)) off

  pub bloc-allocated_self : bloc (allocated w x) w.current_volume x ≡ zero_bytes
  unfolding allocated taken loaded
  bloc-allocated_self =
      bloc-stored_whole (loaded-IsMounted (taken-IsFree v).mounted x) x zero_bytes v.chain.2
        length-zero_bytes

  pub bloc-allocated_ne :
      (k : ℕ)
      → 0 < k
      → k < nsectors w w.current_volume
      → k ≢ x
      → bloc (allocated w x) w.current_volume k ≡ bloc w w.current_volume k
  unfolding allocated taken loaded
  bloc-allocated_ne k pos inside ne =
      bloc-stored_ne (loaded-IsMounted (taken-IsFree v).mounted x) x k zero_bytes v.chain.2 inside
        ne
      ∙ bloc-loaded (taken-IsFree v).mounted x k
      ∙ taken-SameBlocs v k pos inside
