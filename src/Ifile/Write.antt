-- ===== src/Ifile/Write.antt =====
-- Writing a byte to an open file and flushing it (src/ifile.c).
use ase_plus_plus.Prelude.{
  ℕ, ◌+◌, ◌<◌, ◌≡◌, ◌≢◌, refl, sym, ap, ◌∙◌, arith, List, ◌∷◌, All, true, false, length, set,
  length-set,
}
use ase_plus_plus.Words.{Bytes}
use ase_plus_plus.Storage.{sector_size}
use ase_plus_plus.System.{World, ok}
use ase_plus_plus.Mbr.{write_bloc}
use ase_plus_plus.Mbr.Blocs.{bloc, loaded, stored, write_nbloc-ok}
use ase_plus_plus.Mbr.Address.{nsectors}
use ase_plus_plus.Mbr.Frame.{
  IsMounted, loaded-IsMounted, bloc-stored_whole, bloc-stored_ne, bloc-loaded,
}
use ase_plus_plus.Superbloc.FreeList.{IsFree}
use ase_plus_plus.Superbloc.Kept.{loaded-IsFree, stored-IsFree}
use ase_plus_plus.Superbloc.Alloc.{new_bloc_fresh}
use ase_plus_plus.Inode.{nb_directs, inode_of_words}
use ase_plus_plus.Words.{words}
use ase_plus_plus.Inode.Codec.{IsInode, inode_at}
use ase_plus_plus.Inode.Direct.{
  direct, extended, extended-ok, extended-inode, extended-direct, extended-IsFree, entered,
  vbloc_of_fbloc_present,
}
use ase_plus_plus.Ifile.{
  FileDesc, data_bloc_size, bloc_of_pos, ibloc_of_pos, ensure_bloc, advance, flush_ifile,
  writec_ifile,
}

write_bloc-ok :
    {w : World} (vol n : ℕ) (b : Bytes)
    → IsMounted w vol
    → length b ≡ sector_size
    → write_bloc vol n b w ≡ ok tt (stored vol n b w)
unfolding write_bloc
write_bloc-ok vol n b m h = write_nbloc-ok vol n m.ready m.volume b (omega (arith, h))

-- The state after a buffer has been flushed to bloc `x`, which inode `n` names.
abbrev pub flushed : World → (n x : ℕ) → Bytes → World
flushed w n x b = stored w.current_volume x b (loaded w.current_volume n w)

module _ {w : World} (m : IsMounted w w.current_volume) (fd : FileDesc) (x : ℕ)
    (small : bloc_of_pos fd.fds_pos < nb_directs)
    (there : direct w fd.fds_inumber (bloc_of_pos fd.fds_pos) ≡ x) (pos : x ≢ 0)
    (full : length fd.fds_buf ≡ sector_size) where
  -- A dirty buffer goes to the bloc at the cursor.
  pub flush_ifile-flushed :
      fd.fds_dirty ≡ true
      → flush_ifile fd w
        ≡ ok (record fd { fds_dirty = false }) (flushed w fd.fds_inumber x fd.fds_buf)
  unfolding flush_ifile loaded
  flush_ifile-flushed dirty =
      let n = fd.fds_inumber in
      let found =
        vbloc_of_fbloc_present m n (bloc_of_pos fd.fds_pos) small true (λ e. pos (sym there ∙ e)) in
      let m' = loaded-IsMounted m n in
      let write = write_bloc-ok w.current_volume x fd.fds_buf m' full in
      ground (arith, found, there, write, dirty)

  -- What a flush leaves: the buffer in bloc `x`, and the inode and the free list as they were.
  pub flushed_all :
      {xs : List ℕ}
      → fd.fds_dirty ≡ true
      → IsFree w xs
      → x < nsectors w w.current_volume
      → fd.fds_inumber < nsectors w w.current_volume
      → fd.fds_inumber ≢ x
      → All (λ y. y ≢ x) xs
      → (w' : World) × (flush_ifile fd w ≡ ok (record fd { fds_dirty = false }) w')
        × (bloc w' w.current_volume x ≡ fd.fds_buf)
        × (inode_at w' fd.fds_inumber ≡ inode_at w fd.fds_inumber)
        × IsFree w' xs
        × (w'.current_volume ≡ w.current_volume)
        × (w'.mbr ≡ w.mbr)
        × ((k : ℕ)
            → k < nsectors w w.current_volume
            → k ≢ x
            → bloc w' w.current_volume k ≡ bloc w w.current_volume k)
  unfolding loaded stored
  flushed_all dirty free hx hn ne off =
      let n = fd.fds_inumber in
      let m' = loaded-IsMounted m n in
      (
        flushed w n x fd.fds_buf,
        flush_ifile-flushed dirty,
        bloc-stored_whole m' x fd.fds_buf hx full,
        ap (λ b. inode_of_words (words b))
            (bloc-stored_ne m' x n fd.fds_buf hx hn ne ∙ bloc-loaded m n n),
        stored-IsFree (loaded-IsFree free n) x fd.fds_buf hx (omega (arith, full)) off,
        refl,
        refl,
        λ k hk nk. bloc-stored_ne m' x k fd.fds_buf hx hk nk ∙ bloc-loaded m n k,
      )

-- The file descriptor once byte `c` is in its buffer.
abbrev pub written : FileDesc → ℕ → FileDesc
written fd c =
    advance (record fd { fds_buf = set fd.fds_buf (ibloc_of_pos fd.fds_pos) c; fds_dirty = true })

module _ {w : World} {x : ℕ} {xs : List ℕ} (v : IsFree w (x ∷ xs)) (fd : FileDesc) (c : ℕ)
    (pos : 0 < fd.fds_inumber) (inside : fd.fds_inumber < nsectors w w.current_volume)
    (used : All (λ y. y ≢ fd.fds_inumber) (x ∷ xs)) (inode : IsInode (inode_at w fd.fds_inumber))
    (small : bloc_of_pos fd.fds_pos < nb_directs)
    (hole : direct w fd.fds_inumber (bloc_of_pos fd.fds_pos) ≡ 0) (clean : fd.fds_dirty ≡ false)
    (full : length fd.fds_buf ≡ sector_size)
    (room : ibloc_of_pos fd.fds_pos + 1 < data_bloc_size) where
  -- A byte written to a bloc of the file that is not there yet, before the last place of the bloc, and
  -- flushed: both succeed, and the position of the byte is the result. The file then has the first bloc of
  -- the free list as that bloc, which holds the buffer with the byte at its place; the other blocs of the
  -- inode are as before, the rest of the free list is free, and the volume and its table are the same.
  pub flush_ifile-writec_ifile :
      (w' w'' : World) × (writec_ifile fd c w ≡ ok (fd.fds_pos, written fd c) w')
      × (flush_ifile (written fd c) w' ≡ ok (record (written fd c) { fds_dirty = false }) w'')
      × (bloc w'' w.current_volume x ≡ set fd.fds_buf (ibloc_of_pos fd.fds_pos) c)
      × (inode_at w'' fd.fds_inumber
          ≡ entered (inode_at w fd.fds_inumber) (bloc_of_pos fd.fds_pos) x)
      × IsFree w'' xs
      × (w''.current_volume ≡ w.current_volume)
      × (w''.mbr ≡ w.mbr)
  unfolding writec_ifile ensure_bloc extended
  flush_ifile-writec_ifile =
      let n = fd.fds_inumber in
      let fb = bloc_of_pos fd.fds_pos in
      let buf = set fd.fds_buf (ibloc_of_pos fd.fds_pos) c in
      let long : length buf ≡ sector_size =
        length-set fd.fds_buf (ibloc_of_pos fd.fds_pos) c ∙ full in
      let w' = extended w n fb x in
      let run = extended-ok v n fb pos inside used inode small hole in
      let there = extended-inode v n fb pos inside used inode small hole in
      let free = extended-IsFree v n fb pos inside used inode small hole in
      let got = extended-direct v n fb pos inside used inode small hole in
      let px = v.chain.1 in
      let fd' = written fd c in
      let same : bloc_of_pos fd'.fds_pos ≡ fb = omega arith in
      let (w'', flush, there', node, free', volume, table, _) =
        flushed_all free.mounted fd' x (omega arith) (ap (λ k. direct w' n k) same ∙ got)
          (omega arith) long refl free v.chain.2 inside (λ e. used.0 (sym e)) (new_bloc_fresh v) in
      (w', w'', ground (arith, run, clean), flush, there', node ∙ there, free', volume, table)
