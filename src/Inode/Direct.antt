-- ===== src/Inode/Direct.antt =====
-- The first 124 blocs of a file, whose numbers stand in the inode (src/inode.c).
use ase_plus_plus.Prelude.{
  ℕ, ◌<◌, ◌≡◌, ◌≢◌, arith, List, [], ◌∷◌, All, All-append, ap, ◌∙◌, Bool, true, false, get_or, set,
  length-set, get_or-set_self, All-set, All-split,
}
use ase_plus_plus.Words.{IsWord}
use ase_plus_plus.System.{World, ok}
use ase_plus_plus.Mbr.Blocs.{bloc, loaded, stored}
use ase_plus_plus.Mbr.Address.{nsectors}
use ase_plus_plus.Mbr.Frame.{IsMounted, bloc-stored_ne, bloc-loaded}
use ase_plus_plus.Superbloc.FreeList.{IsFree}
use ase_plus_plus.Superbloc.Kept.{loaded-IsFree, stored-IsFree}
use ase_plus_plus.Inode.{Inode, nb_directs, inode_words, vbloc_of_fbloc, direct_bloc}
use ase_plus_plus.Superbloc.{bloc_null}
use ase_plus_plus.Inode.Codec.{
  IsInode, inode_bytes, length-inode_bytes, inode_at, inode_at-stored, write_inode-ok,
  read_inode-ok,
}
use ase_plus_plus.Inode.Create.{
  zero_bytes, allocated, allocate-allocated, allocated-IsFree, bloc-allocated_self,
  bloc-allocated_ne,
}

abbrev pub direct : World → ℕ → ℕ → ℕ
direct w n fbloc = get_or (inode_at w n).blocs_directs fbloc 0

module _ {w : World} (m : IsMounted w w.current_volume) (n fbloc : ℕ)
    (small : fbloc < nb_directs) where
  -- A bloc number that stands in the inode is the result, whether or not blocs are to be allocated; the
  -- state is the one after reading the inode.
  pub vbloc_of_fbloc_present :
      (do_allocate : Bool)
      → direct w n fbloc ≢ 0
      → vbloc_of_fbloc n fbloc do_allocate w ≡ ok (direct w n fbloc) (loaded w.current_volume n w)
  unfolding vbloc_of_fbloc direct_bloc
  vbloc_of_fbloc_present do_allocate h = ground (arith, read_inode-ok m n)

  -- Without allocation a bloc that the inode lacks is the null bloc.
  pub vbloc_of_fbloc_absent :
      direct w n fbloc ≡ 0
      → vbloc_of_fbloc n fbloc false w ≡ ok bloc_null (loaded w.current_volume n w)
  unfolding vbloc_of_fbloc direct_bloc
  vbloc_of_fbloc_absent h = ground (arith, read_inode-ok m n)

-- The inode with a bloc entered.
abbrev pub entered : Inode → ℕ → ℕ → Inode
entered i fbloc x = record i { blocs_directs = set i.blocs_directs fbloc x }

pub entered-IsInode : (i : Inode) (fbloc x : ℕ) → IsInode i → IsWord x → IsInode (entered i fbloc x)
unfolding inode_words
entered-IsInode i fbloc x v h =
    let tail = i.blocs_indirect ∷ i.blocs_double_indirect ∷ [] in
    let (a, b) = All-split IsWord i.blocs_directs tail v.words.1.1 in
    record {
      directs = length-set i.blocs_directs fbloc x ∙ v.directs;
      words = (
        v.words.0,
        (
          v.words.1.0,
          All-append IsWord (set i.blocs_directs fbloc x) tail
              (All-set IsWord i.blocs_directs fbloc x a h) b,
        ),
      );
    }

-- The state after a bloc of the file has been allocated.
unfoldable pub extended : World → (n fbloc x : ℕ) → World
unfolding stored allocated loaded
extended w n fbloc x =
    stored w.current_volume n (inode_bytes (entered (inode_at w n) fbloc x))
      (allocated (loaded w.current_volume n w) x)

module _ {w : World} {x : ℕ} {xs : List ℕ} (v : IsFree w (x ∷ xs)) (n fbloc : ℕ) (pos : 0 < n)
    (inside : n < nsectors w w.current_volume) (used : All (λ y. y ≢ n) (x ∷ xs))
    (inode : IsInode (inode_at w n)) (small : fbloc < nb_directs)
    (hole : direct w n fbloc ≡ 0) where
  read : IsFree (loaded w.current_volume n w) (x ∷ xs)
  read = loaded-IsFree v n

  word_x : IsWord x
  word_x = let i = v.chain.2 in let f = v.mounted.fits.sectors in omega arith

  inode' : IsInode (entered (inode_at w n) fbloc x)
  inode' = entered-IsInode (inode_at w n) fbloc x inode word_x

  allocated_free : IsFree (allocated (loaded w.current_volume n w) x) xs
  allocated_free = allocated-IsFree read

  pub extended-ok : vbloc_of_fbloc n fbloc true w ≡ ok x (extended w n fbloc x)
  unfolding vbloc_of_fbloc direct_bloc extended
  extended-ok =
      let write = write_inode-ok allocated_free.mounted n inode' in
      ground (arith, read_inode-ok v.mounted n, allocate-allocated read, write)

  pub extended-inode : inode_at (extended w n fbloc x) n ≡ entered (inode_at w n) fbloc x
  unfolding extended
  extended-inode = inode_at-stored n allocated_free.mounted inode' inside

  pub extended-direct : direct (extended w n fbloc x) n fbloc ≡ x
  extended-direct =
      ap (λ (i : Inode). get_or i.blocs_directs fbloc 0) extended-inode
      ∙ get_or-set_self (inode_at w n).blocs_directs fbloc x 0 (omega (arith, inode.directs))

  pub extended-IsFree : IsFree (extended w n fbloc x) xs
  unfolding extended
  extended-IsFree =
      stored-IsFree allocated_free n (inode_bytes (entered (inode_at w n) fbloc x)) inside
        (omega (arith, length-inode_bytes inode')) used.1

  -- The bloc numbers in the inode are 32-bit words, `n` is the inode's bloc and is not on the free list,
  -- and the file lacks the bloc `fbloc`, one of its first 124. With allocation it gets the first bloc of
  -- the free list: that one is the result, holds zeros and stands in the inode; a later call without
  -- allocation finds it; the rest of the free list is free, and every other bloc of the volume but the
  -- superbloc's is unchanged.
  pub vbloc_of_fbloc_allocates :
      (w' : World) × (vbloc_of_fbloc n fbloc true w ≡ ok x w')
      × (inode_at w' n ≡ entered (inode_at w n) fbloc x)
      × (vbloc_of_fbloc n fbloc false w' ≡ ok x (loaded w.current_volume n w'))
      × (bloc w' w.current_volume x ≡ zero_bytes)
      × IsFree w' xs
      × ((k : ℕ)
          → 0 < k
          → k < nsectors w w.current_volume
          → k ≢ x
          → k ≢ n
          → bloc w' w.current_volume k ≡ bloc w w.current_volume k)
  unfolding extended
  vbloc_of_fbloc_allocates =
      let w' = extended w n fbloc x in
      let ne : x ≢ n = used.0 in
      (
        w',
        extended-ok,
        extended-inode,
        vbloc_of_fbloc_present {w = w'} extended-IsFree.mounted n fbloc small false
              (let px = v.chain.1 in omega (arith, extended-direct))
            ∙ ap (λ y. ok y (loaded w.current_volume n w')) extended-direct,
        bloc-stored_ne allocated_free.mounted n x _ inside (v.chain.2) ne
            ∙ bloc-allocated_self read,
        extended-IsFree,
        λ k p i nx nn.
            bloc-stored_ne allocated_free.mounted n k _ inside i nn
            ∙ bloc-allocated_ne read k p i nx
            ∙ bloc-loaded v.mounted n k,
      )
