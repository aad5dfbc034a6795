-- ===== src/Ifile/RoundTrip.antt =====
-- A byte written to a file, and read after the file was closed and opened again (src/ifile.c).
use ase_plus_plus.Prelude.{
  ℕ, ◌<◌, ◌≡◌, ◌≢◌, refl, sym, ap, ◌∙◌, subst, arith, List, ◌∷◌, All, false, get_or, set,
  get_or-set_self, replicate, length-replicate,
}
use ase_plus_plus.Words.{Bytes, IsWord}
use ase_plus_plus.System.{World, ok}
use ase_plus_plus.Mbr.{no_volume}
use ase_plus_plus.Mbr.Blocs.{bloc, loaded, stored}
use ase_plus_plus.Mbr.Address.{nsectors}
use ase_plus_plus.Mbr.Frame.{
  IsMounted, loaded-IsMounted, stored-IsMounted, bloc-loaded, bloc-stored_ne,
}
use ase_plus_plus.Superbloc.FreeList.{IsFree}
use ase_plus_plus.Superbloc.Kept.{loaded-IsFree}
use ase_plus_plus.Inode.{Inode, inode_words}
use ase_plus_plus.Inode.Codec.{
  IsInode, inode_at, inode_bytes, length-inode_bytes, read_inode-ok, write_inode-ok,
  inode_at-stored,
}
use ase_plus_plus.Inode.Direct.{
  direct, entered-IsInode, vbloc_of_fbloc_present, vbloc_of_fbloc_absent,
}
use ase_plus_plus.Ifile.{
  FileDesc, data_bloc_size, int_of_char, load_buf, open_ifile, flush_ifile, close_ifile, seek_ifile,
  readc_ifile, writec_ifile,
}
use ase_plus_plus.Ifile.Write.{written, flush_ifile-writec_ifile}
use ase_plus_plus.Ifile.Seek.{load_present}

-- A file that is opened, with the bytes of its first bloc.
abbrev pub opened : (n size : ℕ) → Bytes → FileDesc
opened n size b = record {
  fds_inumber = n;
  fds_size = size;
  fds_pos = 0;
  fds_buf = b;
  fds_dirty = false;
}

abbrev zeros : Bytes
zeros = replicate data_bloc_size 0

open_absent :
    {w : World} {xs : List ℕ} (n : ℕ)
    → IsFree w xs
    → direct w n 0 ≡ 0
    → (w' : World) × (open_ifile n w ≡ ok (opened n (inode_at w n).size zeros) w')
      × IsFree w' xs
      × (inode_at w' n ≡ inode_at w n)
      × (w'.current_volume ≡ w.current_volume)
      × (w'.mbr ≡ w.mbr)
unfolding open_ifile load_buf loaded bloc
open_absent {w} n v h =
    let vol = w.current_volume in
    let w1 = loaded vol n w in
    let v1 = loaded-IsFree v n in
    let none = vbloc_of_fbloc_absent {w = w1} v1.mounted n 0 (omega arith) h in
    (
      loaded vol n w1,
      ground (arith, read_inode-ok v.mounted n, none),
      loaded-IsFree v1 n,
      refl,
      refl,
      refl,
    )

open_present :
    {w : World} (n y : ℕ)
    → IsMounted w w.current_volume
    → direct w n 0 ≡ y
    → y ≢ 0
    → (w' : World) × (open_ifile n w
        ≡ ok (opened n (inode_at w n).size (bloc w w.current_volume y)) w')
unfolding open_ifile loaded bloc
open_present {w} n y m there pos =
    let vol = w.current_volume in
    let w1 = loaded vol n w in
    let w2 = loaded vol n w1 in
    let m1 = loaded-IsMounted m n in
    let found =
      vbloc_of_fbloc_present {w = w1} m1 n 0 (omega arith) false (λ e. pos (sym there ∙ e)) in
    let load = load_present {w = w2} y (loaded-IsMounted m1 n) pos in
    (loaded vol y w2, ground (arith, read_inode-ok m n, found, there, load))

-- Closing a file writes its size to the inode.
pub close_sized :
    {w : World} (u : World) (fd fd' : FileDesc) (y : ℕ)
    → flush_ifile fd u ≡ ok fd' w
    → IsMounted w w.current_volume
    → fd'.fds_inumber < nsectors w w.current_volume
    → y < nsectors w w.current_volume
    → y ≢ fd'.fds_inumber
    → IsInode (record (inode_at w fd'.fds_inumber) { size = fd'.fds_size })
    → (w' : World) × (close_ifile fd u ≡ ok fd' w')
      × IsMounted w' w'.current_volume
      × (inode_at w' fd'.fds_inumber ≡ record (inode_at w fd'.fds_inumber) { size = fd'.fds_size })
      × (bloc w' w'.current_volume y ≡ bloc w w.current_volume y)
      × (nsectors w' w'.current_volume ≡ nsectors w w.current_volume)
unfolding close_ifile loaded stored
close_sized {w} u fd fd' y flush m hn hy ne good =
    let n = fd'.fds_inumber in
    let vol = w.current_volume in
    let w1 = loaded vol n w in
    let m1 = loaded-IsMounted m n in
    let i = record (inode_at w n) { size = fd'.fds_size } in
    let write = write_inode-ok {w = w1} m1 n good in
    (
      stored vol n (inode_bytes i) w1,
      ground (arith, flush, read_inode-ok m n, write),
      stored-IsMounted m1 n (inode_bytes i) (omega (arith, length-inode_bytes good)),
      inode_at-stored {w = w1} n m1 good hn,
      bloc-stored_ne m1 n y (inode_bytes i) hn hy ne ∙ bloc-loaded m n y,
      refl,
    )

-- The first byte of an open file.
readc_first :
    (fd : FileDesc) (w : World)
    → fd.fds_pos ≡ 0
    → readc_ifile fd w ≡ ok (int_of_char (get_or fd.fds_buf 0 0), record fd { fds_pos = 1 }) w
unfolding readc_ifile seek_ifile
readc_first fd w h = ground (arith, h)

pub sized-IsInode : (i : Inode) (s : ℕ) → IsInode i → IsWord s → IsInode (record i { size = s })
unfolding inode_words
sized-IsInode i s v h = record { directs = v.directs; words = (v.words.0, (h, v.words.1.1)) }

-- Closing a file, opening it again and reading the first byte of its first bloc, which is on bloc `x`.
close_reread :
    {w : World} (u : World) (fd fd' : FileDesc) (n x : ℕ)
    → flush_ifile fd u ≡ ok fd' w
    → fd'.fds_inumber ≡ n
    → IsMounted w w.current_volume
    → n < nsectors w w.current_volume
    → x < nsectors w w.current_volume
    → x ≢ n
    → x ≢ 0
    → IsInode (inode_at w n)
    → IsWord fd'.fds_size
    → direct w n 0 ≡ x
    → (fd2 fd3 : FileDesc) × (w3 w4 : World) × (close_ifile fd u ≡ ok fd' w3)
      × (open_ifile n w3 ≡ ok fd2 w4)
      × (readc_ifile fd2 w4 ≡ ok (int_of_char (get_or (bloc w w.current_volume x) 0 0), fd3) w4)
close_reread {w} u fd fd' n x flush same m hn hx ne pos inode word there =
    let good =
      subst (λ k. IsInode (record (inode_at w k) { size = fd'.fds_size })) (sym same)
        (sized-IsInode (inode_at w n) fd'.fds_size inode word) in
    let (w3, close, m3, node, held, _) =
      close_sized u fd fd' x flush m (omega (arith, same)) hx (λ e. ne (e ∙ same)) good in
    let there3 : direct w3 n 0 ≡ x =
      ap (λ (i : Inode). get_or i.blocs_directs 0 0)
        (subst (λ k. inode_at w3 k ≡ record (inode_at w k) { size = fd'.fds_size }) same node)
      ∙ there in
    let (w4, open2) = open_present n x m3 there3 pos in
    let fd2 = opened n (inode_at w3 n).size (bloc w3 w3.current_volume x) in
    (
      fd2,
      record fd2 { fds_pos = 1 },
      w3,
      w4,
      close,
      open2,
      readc_first fd2 w4 refl
          ∙ ap (λ b. ok (int_of_char (get_or b 0 0), record fd2 { fds_pos = 1 }) w4) held,
    )

module _ {w : World} {x : ℕ} {xs : List ℕ} (v : IsFree w (x ∷ xs)) (n c : ℕ) (pos : 0 < n)
    (inside : n < nsectors w w.current_volume) (used : All (λ y. y ≢ n) (x ∷ xs))
    (inode : IsInode (inode_at w n)) (hole : direct w n 0 ≡ 0) where
  -- A file has no first bloc yet and the volume has a free bloc; `n` is the bloc of the file's inode.
  -- Opening the file, writing a byte, closing the file, opening it again and reading a byte all succeed.
  -- The byte is written at position 0, and the one read is the one written, as a C `char`.
  pub readc_ifile-writec_ifile :
      (fd0 fd1 fd2 fd3 fd4 : FileDesc) × (w1 w2 w3 w4 w5 : World) × (open_ifile n w ≡ ok fd0 w1)
      × (writec_ifile fd0 c w1 ≡ ok (0, fd1) w2)
      × (close_ifile fd1 w2 ≡ ok fd2 w3)
      × (open_ifile n w3 ≡ ok fd3 w4)
      × (readc_ifile fd3 w4 ≡ ok (int_of_char c, fd4) w5)
  unfolding inode_words
  readc_ifile-writec_ifile =
      let fd0 = opened n (inode_at w n).size zeros in
      let (w1, open1, v1, node1, volume1, table1) = open_absent n v hole in
      let same : nsectors w1 w1.current_volume ≡ nsectors w w.current_volume =
        λ i. (get_or (table1 i).mbr_vol (volume1 i) no_volume).vol_nsectors in
      let inode1 : IsInode (inode_at w1 n) = subst IsInode (sym node1) inode in
      let hole1 : direct w1 n 0 ≡ 0 = ap (λ (i : Inode). get_or i.blocs_directs 0 0) node1 ∙ hole in
      let (w2, w3, write, flush, held, node3, v3, volume3, table3) =
        flush_ifile-writec_ifile v1 fd0 c pos (omega (arith, same)) used inode1 (omega arith) hole1
          refl (length-replicate {A = ℕ} 512 0) (omega arith) in
      let same3 : nsectors w3 w3.current_volume ≡ nsectors w w.current_volume =
        (λ i. (get_or (table3 i).mbr_vol (volume3 i) no_volume).vol_nsectors) ∙ same in
      let px = v.chain.1 in
      let ix = v.chain.2 in
      let word_x : IsWord x = let f = v.mounted.fits.sectors in omega arith in
      let inode3 = subst IsInode (sym node3) (entered-IsInode (inode_at w1 n) 0 x inode1 word_x) in
      let there3 : direct w3 n 0 ≡ x =
        ap (λ (i : Inode). get_or i.blocs_directs 0 0) node3
        ∙ get_or-set_self (inode_at w1 n).blocs_directs 0 x 0 (omega (arith, inode1.directs)) in
      let held3 : bloc w3 w3.current_volume x ≡ set zeros 0 c =
        subst (λ k. bloc w3 k x ≡ set zeros 0 c) (sym volume3) held in
      let size = inode.words.1.0 in
      let (fd3, fd4, w4, w5, close, open2, read) =
        close_reread w2 (written fd0 c) _ n x flush refl v3.mounted (omega (arith, same3))
          (omega (arith, same3)) used.0 (omega arith) inode3 (ground (arith, size)) there3 in
      (
        fd0,
        written fd0 c,
        _,
        fd3,
        fd4,
        w1,
        w2,
        w4,
        w5,
        w5,
        open1,
        write,
        close,
        open2,
        read ∙ ap (λ b. ok (int_of_char (get_or b 0 0), fd4) w5) held3,
      )
