-- ===== src/Inode/Codec.antt =====
-- Inodes on the disk (src/inode.c): what `write_inode` writes, `read_inode` reads back.
use ase_plus_plus.Prelude.{
  get_or-append, ℕ, ◌<◌, ◌≡◌, ◌≢◌, arith, [], ◌∷◌, length, All, ap, ◌∙◌, length-append, take-append,
}
use ase_plus_plus.Words.{Bytes, IsWord, words, unwords, words-unwords, length-unwords}
use ase_plus_plus.Storage.{sector_size}
use ase_plus_plus.System.{World, ok}
use ase_plus_plus.Mbr.{write_bloc}
use ase_plus_plus.Mbr.Blocs.{bloc, loaded, stored, write_nbloc-ok}
use ase_plus_plus.Mbr.Address.{nsectors}
use ase_plus_plus.Mbr.Frame.{
  IsMounted, bloc-stored_whole, bloc-stored_ne, stored-IsMounted, read_bloc_whole,
}
use ase_plus_plus.Inode.{Inode, nb_directs, inode_words, inode_of_words, read_inode, write_inode}

pub record IsInode (i : Inode) : Type 0 where
  pub directs : length i.blocs_directs ≡ nb_directs
  pub words : All IsWord (inode_words i)

inode_of_words-inode_words :
    (i : Inode) → length i.blocs_directs ≡ nb_directs → inode_of_words (inode_words i) ≡ i
unfolding inode_of_words inode_words
inode_of_words-inode_words i h =
    let tail = i.blocs_indirect ∷ i.blocs_double_indirect ∷ [] in
    λ j. record {
      type = i.type;
      size = i.size;
      blocs_directs = take-append nb_directs i.blocs_directs tail h j;
      blocs_indirect = get_or-append i.blocs_directs tail 0 124 0 (omega arith) j;
      blocs_double_indirect = get_or-append i.blocs_directs tail 1 125 0 (omega arith) j;
    }

-- The memory of an inode.
abbrev pub inode_bytes : Inode → Bytes
inode_bytes i = unwords (inode_words i)

pub inode_of_bytes : {i : Inode} → IsInode i → inode_of_words (words (inode_bytes i)) ≡ i
inode_of_bytes {i} v =
    ap inode_of_words (words-unwords (inode_words i) v.words)
    ∙ inode_of_words-inode_words i v.directs

pub length-inode_bytes : {i : Inode} → IsInode i → length (inode_bytes i) ≡ sector_size
unfolding inode_words
length-inode_bytes {i} v = omega (
  arith,
  length-unwords (inode_words i),
  length-append i.blocs_directs (i.blocs_indirect ∷ i.blocs_double_indirect ∷ []),
  v.directs,
)

-- The inode in a bloc of the current volume.
abbrev pub inode_at : World → ℕ → Inode
inode_at w n = inode_of_words (words (bloc w w.current_volume n))

module _ {w : World} (m : IsMounted w w.current_volume) (n : ℕ) where
  pub read_inode-ok : read_inode n w ≡ ok (inode_at w n) (loaded w.current_volume n w)
  unfolding read_inode
  read_inode-ok = rw (read_bloc_whole m n)

  pub write_inode-ok :
      {i : Inode}
      → IsInode i
      → write_inode n i w ≡ ok tt (stored w.current_volume n (inode_bytes i) w)
  unfolding write_inode write_bloc
  write_inode-ok {i} v =
      write_nbloc-ok w.current_volume n m.ready m.volume (inode_bytes i)
        (omega (arith, length-inode_bytes v))

-- The inode that a whole bloc holds after it was written there.
pub inode_at-stored :
    {w : World} {i : Inode} (n : ℕ)
    → IsMounted w w.current_volume
    → IsInode i
    → n < nsectors w w.current_volume
    → inode_at (stored w.current_volume n (inode_bytes i) w) n ≡ i
unfolding stored
inode_at-stored {w} {i} n m v inside =
    ap (λ b. inode_of_words (words b))
      (bloc-stored_whole m n (inode_bytes i) inside (length-inode_bytes v))
    ∙ inode_of_bytes v

-- An inode written to a bloc of the volume is read back from it, and every other bloc, so every other
-- inode, is as before.
pub read_inode-write_inode :
    {w : World} {i : Inode} (n : ℕ)
    → IsMounted w w.current_volume
    → IsInode i
    → n < nsectors w w.current_volume
    → (w' : World) × (write_inode n i w ≡ ok tt w')
      × (read_inode n w' ≡ ok i (loaded w.current_volume n w'))
      × ((k : ℕ)
          → k < nsectors w w.current_volume
          → k ≢ n
          → bloc w' w.current_volume k ≡ bloc w w.current_volume k)
unfolding stored
read_inode-write_inode {w} {i} n m v inside =
    let vol = w.current_volume in
    let w' = stored vol n (inode_bytes i) w in
    (
      w',
      write_inode-ok m n v,
      read_inode-ok {w = w'}
            (stored-IsMounted m n (inode_bytes i) (omega (arith, length-inode_bytes v))) n
          ∙ ap (λ j. ok j (loaded vol n w')) (inode_at-stored n m v inside),
      λ k hk ne. bloc-stored_ne m n k (inode_bytes i) inside hk ne,
    )
