-- ===== src/Ifile/Buffers.antt =====
-- Bytes written to the first bloc of a file, and read after the file was closed and opened again
-- (src/ifile.c).
use ase_plus_plus.Prelude.{
  ℕ, suc, ◌+◌, ◌≤◌, ◌<◌, ◌≡◌, ◌≢◌, refl, sym, ap, ◌∙◌, arith, ◌∷◌, All, true, false, length, get_or,
}
use ase_plus_plus.Words.{Bytes, IsWord}
use ase_plus_plus.System.{World, ok}
use ase_plus_plus.Mbr.Blocs.{bloc, loaded}
use ase_plus_plus.Mbr.Address.{nsectors}
use ase_plus_plus.Mbr.Frame.{IsMounted, loaded-IsMounted}
use ase_plus_plus.Inode.{Inode, inode_words}
use ase_plus_plus.Inode.Codec.{IsInode, inode_at, read_inode-ok}
use ase_plus_plus.Inode.Direct.{direct, vbloc_of_fbloc_present}
use ase_plus_plus.Ifile.{FileDesc, open_ifile, close_ifile, read_ifile, write_ifile}
use ase_plus_plus.Ifile.Seek.{load_present}
use ase_plus_plus.Ifile.RoundTrip.{opened}
use ase_plus_plus.Directory.Reading.{IsChar, read_chars-within}
use ase_plus_plus.Directory.Splicing.{splice, length-splice, All-splice, drop-splice_self}
use ase_plus_plus.Directory.Writing.{sized, wrote, write_ifile-within, wrote-splice, wrote-sized}
use ase_plus_plus.Directory.Added.{close_written}

-- The state once a file whose first bloc is `y` is open.
abbrev opening : World → (n y : ℕ) → World
opening w n y = loaded w.current_volume y (loaded w.current_volume n (loaded w.current_volume n w))

open_ifile-opening :
    {w : World} (n y : ℕ)
    → IsMounted w w.current_volume
    → direct w n 0 ≡ y
    → y ≢ 0
    → open_ifile n w ≡ ok (opened n (inode_at w n).size (bloc w w.current_volume y)) (opening w n y)
unfolding open_ifile loaded bloc
open_ifile-opening {w} n y m there pos =
    let vol = w.current_volume in
    let w1 = loaded vol n w in
    let w2 = loaded vol n w1 in
    let m1 = loaded-IsMounted m n in
    let found =
      vbloc_of_fbloc_present {w = w1} m1 n 0 (omega arith) false (λ e. pos (sym there ∙ e)) in
    let load = load_present {w = w2} y (loaded-IsMounted m1 n) pos in
    ground (arith, read_inode-ok m n, found, there, load)

-- A file with a first bloc `x` apart from its inode, no byte of which is 254, and bytes for it.
module _ {w : World} (n x : ℕ) (m : IsMounted w w.current_volume) (inode : IsInode (inode_at w n))
    (there : direct w n 0 ≡ x) (pos : x ≢ 0) (inside : n < nsectors w w.current_volume)
    (bloc_inside : x < nsectors w w.current_volume) (apart : x ≢ n)
    (whole : length (bloc w w.current_volume x) ≡ 512)
    (chars : All IsChar (bloc w w.current_volume x)) (c : ℕ) (cs : Bytes)
    (some_more : 0 < length cs) (short : suc (length cs) < 512) (plain : All IsChar (c ∷ cs)) where
  abbrev before : FileDesc
  before = opened n (inode_at w n).size (bloc w w.current_volume x)

  abbrev after : FileDesc
  after = record {
    fds_inumber = n;
    fds_size = sized (inode_at w n).size (length cs);
    fds_pos = suc (length cs);
    fds_buf = splice (bloc w w.current_volume x) 0 (c ∷ cs);
    fds_dirty = true;
  }

  wrote-after : wrote before (c ∷ cs) ≡ after
  wrote-after =
      let (inumber, buf, at) = wrote-splice (c ∷ cs) before (omega (arith, short)) in
      let (size, dirty) = wrote-sized cs c before (omega (arith, short)) in
      let from_0 : 0 + suc (length cs) ≡ suc (length cs) = omega arith in
      let last : 0 + length cs ≡ length cs = omega arith in
      let size' = size ∙ ap (λ l. sized (inode_at w n).size l) last in
      λ t. record {
        fds_inumber = inumber t;
        fds_size = size' t;
        fds_pos = (at ∙ from_0) t;
        fds_buf = buf t;
        fds_dirty = dirty t;
      }

  write_ifile-after :
      write_ifile before (c ∷ cs) (suc (length cs)) (opening w n x)
      ≡ ok (suc (length cs), after) (loaded w.current_volume n (opening w n x))
  unfolding loaded bloc
  write_ifile-after =
      let m3 = loaded-IsMounted (loaded-IsMounted (loaded-IsMounted m n) n) x in
      write_ifile-within {w = opening w n x} before c cs m3 (λ e. pos (sym there ∙ e)) refl
        (omega (arith, short))
      ∙ ap (λ f. ok (suc (length cs), f) (loaded w.current_volume n (opening w n x))) wrote-after

  -- Closing the file, opening it and reading.
  reread :
      (raw : Bytes)
      → length raw ≡ suc (length cs)
      → (fd2 fd3 fd4 : FileDesc) × (w3 w4 w5 : World) × (close_ifile after
            (loaded w.current_volume n (opening w n x))
          ≡ ok fd2 w3)
        × (open_ifile n w3 ≡ ok fd3 w4)
        × (read_ifile fd3 raw (suc (length cs)) w4 ≡ ok (suc (length cs), fd4, c ∷ cs) w5)
  unfolding loaded bloc read_ifile inode_words
  reread raw long =
      let m3 = loaded-IsMounted (loaded-IsMounted (loaded-IsMounted m n) n) x in
      let size = inode.words.1.0 in
      let word : IsWord after.fds_size = ground (arith, size, short) in
      let buf = after.fds_buf in
      let wide = length-splice (bloc w w.current_volume x) 0 (c ∷ cs) ∙ whole in
      let (fd2, w3, close, mounted, node, held, sectors) =
        close_written {w = loaded w.current_volume n (opening w n x)} after x
          (loaded-IsMounted m3 n) inode word (omega (arith, short)) there pos wide refl inside
          bloc_inside apart in
      let named : direct w3 n 0 ≡ x = ap (λ (i : Inode). get_or i.blocs_directs 0 0) node ∙ there in
      let w4 = opening w3 n x in
      let open_run : open_ifile n w3 ≡ ok (opened n after.fds_size buf) w4 =
        open_ifile-opening n x mounted named pos
        ∙ ap (λ (i : Inode). ok (opened n i.size (bloc w3 w3.current_volume x)) w4) node
        ∙ ap (λ b. ok (opened n after.fds_size b) w4) held in
      let fd3 = opened n after.fds_size buf in
      let big : length cs ≤ after.fds_size = ground arith in
      let run =
        read_chars-within (suc (length cs)) 0 fd3 raw w4 (omega (arith, big)) (omega (arith, short))
          wide (All-splice IsChar (bloc w w.current_volume x) 0 (c ∷ cs) chars plain)
          (omega (arith, long)) in
      let bytes =
        drop-splice_self (bloc w w.current_volume x) 0 (c ∷ cs) (omega (arith, whole, short)) in
      (
        fd2,
        fd3,
        record fd3 { fds_pos = 0 + suc (length cs) },
        w3,
        w4,
        w4,
        close,
        open_run,
        ground (arith, run, bytes, big, some_more),
      )

  -- A file has a first bloc apart from its inode, none of whose bytes is 254. From 2 to 511 bytes without 254
  -- are written to its start, it is closed and opened again, and as many bytes are read: all of this
  -- succeeds, and the bytes read are those written.
  pub read_ifile-write_ifile :
      (raw : Bytes)
      → length raw ≡ suc (length cs)
      → (fd0 fd1 fd2 fd3 fd4 : FileDesc) × (w1 w2 w3 w4 w5 : World) × (open_ifile n w ≡ ok fd0 w1)
        × (write_ifile fd0 (c ∷ cs) (suc (length cs)) w1 ≡ ok (suc (length cs), fd1) w2)
        × (close_ifile fd1 w2 ≡ ok fd2 w3)
        × (open_ifile n w3 ≡ ok fd3 w4)
        × (read_ifile fd3 raw (suc (length cs)) w4 ≡ ok (suc (length cs), fd4, c ∷ cs) w5)
  read_ifile-write_ifile raw long =
      let (fd2, fd3, fd4, w3, w4, w5, close, open_run, read) = reread raw long in
      (
        before,
        after,
        fd2,
        fd3,
        fd4,
        opening w n x,
        loaded w.current_volume n (opening w n x),
        w3,
        w4,
        w5,
        open_ifile-opening n x m there pos,
        write_ifile-after,
        close,
        open_run,
        read,
      )
