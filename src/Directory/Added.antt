-- ===== src/Directory/Added.antt =====
-- An entry added to a directory of one bloc (src/dir.c): the bloc and the inode that are left.
use ase_plus_plus.Prelude.{
  ℕ, suc, ◌+◌, ◌*◌, ◌<◌, ◌≡◌, ◌≢◌, refl, sym, ap, ◌∙◌, subst, arith, ◌∷◌, true, false, length,
}
use ase_plus_plus.Words.{Bytes, IsWord, words}
use ase_plus_plus.System.{World, ok}
use ase_plus_plus.Mbr.Blocs.{bloc, loaded, stored}
use ase_plus_plus.Mbr.Address.{nsectors}
use ase_plus_plus.Mbr.Frame.{
  IsMounted, loaded-IsMounted, stored-IsMounted, bloc-stored_whole, bloc-stored_ne, bloc-loaded,
}
use ase_plus_plus.Inode.{Inode, inode_of_words}
use ase_plus_plus.Inode.Codec.{IsInode, inode_at}
use ase_plus_plus.Inode.Direct.{direct}
use ase_plus_plus.Ifile.{FileDesc, bloc_of_pos, close_ifile, write_ifile}
use ase_plus_plus.Ifile.Write.{flushed, flush_ifile-flushed}
use ase_plus_plus.Ifile.RoundTrip.{close_sized, sized-IsInode}
use ase_plus_plus.Directory.{new_entry, rounds}
use ase_plus_plus.Directory.Reading.{at_pos, seek2_ifile-within}
use ase_plus_plus.Directory.Finding.{entries}
use ase_plus_plus.Directory.Names.{IsDirectory, buffer, opened, seen, full}
use ase_plus_plus.Directory.Splicing.{splice, first_free}
use ase_plus_plus.Directory.Writing.{
  sized, wrote, write_ifile-within, wrote-splice, wrote-sized, new_entry_from-first_free,
}

-- The inode of a directory and its bloc are two blocs of the volume.
pub record IsApart (w : World) (n : ℕ) : Type 0 where
  pub inode_inside : n < nsectors w w.current_volume
  pub bloc_inside : direct w n 0 < nsectors w w.current_volume
  pub apart : direct w n 0 ≢ n

-- Closing a file whose first bloc is in the buffer, and was written to.
pub close_written :
    {w : World} (fd : FileDesc) (x : ℕ)
    → IsMounted w w.current_volume
    → IsInode (inode_at w fd.fds_inumber)
    → IsWord fd.fds_size
    → fd.fds_pos < 512
    → direct w fd.fds_inumber 0 ≡ x
    → x ≢ 0
    → length fd.fds_buf ≡ 512
    → fd.fds_dirty ≡ true
    → fd.fds_inumber < nsectors w w.current_volume
    → x < nsectors w w.current_volume
    → x ≢ fd.fds_inumber
    → (fd' : FileDesc) × (w' : World) × (close_ifile fd w ≡ ok fd' w')
      × IsMounted w' w'.current_volume
      × (inode_at w' fd.fds_inumber ≡ record (inode_at w fd.fds_inumber) { size = fd.fds_size })
      × (bloc w' w'.current_volume x ≡ fd.fds_buf)
      × (nsectors w' w'.current_volume ≡ nsectors w w.current_volume)
unfolding loaded stored
close_written {w} fd x m inode word small there pos whole dirty hn hx ne =
    let n = fd.fds_inumber in
    let first : bloc_of_pos fd.fds_pos ≡ 0 = omega arith in
    let flush =
      flush_ifile-flushed m fd x (omega arith) (ap (λ k. direct w n k) first ∙ there) pos whole
        dirty in
    let m1 = loaded-IsMounted m n in
    let m2 = stored-IsMounted m1 x fd.fds_buf (omega (arith, whole)) in
    let same : inode_at (flushed w n x fd.fds_buf) n ≡ inode_at w n =
      ap (λ b. inode_of_words (words b))
        (bloc-stored_ne m1 x n fd.fds_buf hx hn (λ e. ne (sym e)) ∙ bloc-loaded m n n) in
    let good =
      subst (λ (i : Inode). IsInode (record i { size = fd.fds_size })) (sym same)
        (sized-IsInode (inode_at w n) fd.fds_size inode word) in
    let (w', close, m', node, held, sectors) =
      close_sized w fd (record fd { fds_dirty = false }) x flush m2 hn hx ne good in
    (
      record fd { fds_dirty = false },
      w',
      close,
      m',
      node ∙ ap (λ (i : Inode). record i { size = fd.fds_size }) same,
      held ∙ bloc-stored_whole m1 x fd.fds_buf hx whole,
      sectors,
    )

module _ {w : World} (n count : ℕ) (d : IsDirectory w n count) where
  abbrev pub place : ℕ
  place = first_free (entries count 0 (buffer n count d))

  -- The state with the directory open has the volume mounted.
  pub seen-IsMounted : IsMounted (seen n count d) w.current_volume
  unfolding loaded
  seen-IsMounted =
      loaded-IsMounted (loaded-IsMounted (loaded-IsMounted d.mounted n) n) (direct w n 0)

  pub new_entry-place :
      (raw : Bytes)
      → length raw ≡ 20
      → (to : ℕ) × (to < 512)
        × (new_entry raw (opened n count d) (seen n count d)
            ≡ ok (place, at_pos (opened n count d) to) (seen n count d))
  unfolding new_entry
  new_entry-place raw long =
      let fd = opened n count d in
      let s = seen n count d in
      let whole = full n count d in
      let start = seek2_ifile-within fd s whole d.chars 0 0 (omega arith) (omega arith) in
      let (to, less, run) =
        new_entry_from-first_free fd s whole d.chars count 0 0 (rounds fd) raw
          (omega (arith, d.small)) (omega (arith, d.low)) (omega (arith, d.high)) long
          (omega (arith, d.high)) in
      (to, less, ground (arith, start, run))

  module _ (k : ℕ) (small : 20 * k + 20 < 512) (c : ℕ) (cs : Bytes) (long : length cs ≡ 19) where
    -- The directory with the cursor at an entry.
    abbrev pub there : FileDesc
    there = at_pos (opened n count d) (20 * k)

    -- The directory once the entry is written.
    abbrev pub done : FileDesc
    done = record {
      fds_inumber = n;
      fds_size = sized (inode_at w n).size (20 * k + 19);
      fds_pos = 20 * k + 20;
      fds_buf = splice (buffer n count d) (20 * k) (c ∷ cs);
      fds_dirty = true;
    }

    wrote-done : wrote there (c ∷ cs) ≡ done
    wrote-done =
        let (inumber, buf, pos) = wrote-splice (c ∷ cs) there (omega (arith, small, long)) in
        let (size, dirty) = wrote-sized cs c there (omega (arith, small, long)) in
        let length_19 = ap (λ l. sized (inode_at w n).size (20 * k + l)) long in
        let pos_20 : 20 * k + suc (length cs) ≡ 20 * k + 20 = omega (arith, long) in
        λ t. record {
          fds_inumber = inumber t;
          fds_size = (size ∙ length_19) t;
          fds_pos = (pos ∙ pos_20) t;
          fds_buf = buf t;
          fds_dirty = dirty t;
        }

    pub write_ifile-done :
        write_ifile there (c ∷ cs) 20 (seen n count d)
        ≡ ok (20, done) (loaded w.current_volume n (seen n count d))
    unfolding loaded bloc
    write_ifile-done =
        let run =
          write_ifile-within {w = seen n count d} there c cs seen-IsMounted d.there refl
            (omega (arith, small, long)) in
        subst
          (λ l.
            write_ifile there (c ∷ cs) (suc l) (seen n count d)
            ≡ ok (suc l, wrote there (c ∷ cs)) (loaded w.current_volume n (seen n count d)))
          long run
        ∙ ap (λ f. ok (20, f) (loaded w.current_volume n (seen n count d))) wrote-done
