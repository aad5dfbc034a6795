-- ===== src/Directory/Names.antt =====
-- A directory of one bloc as a list of names (src/dir.c): `inumber_of_basename`.
use ase_plus_plus.Prelude.{
  ℕ, ◌+◌, ◌*◌, ◌≤◌, ◌<◌, ◌≡◌, ◌≢◌, sym, ap, ◌∙◌, arith, All, false, Option-cases, inl, inr, length,
  take, drop, Option, none, some,
}
use ase_plus_plus.Words.{Bytes}
use ase_plus_plus.System.{World, ok}
use ase_plus_plus.Mbr.Blocs.{bloc, loaded, stored}
use ase_plus_plus.Mbr.Frame.{IsMounted, loaded-IsMounted, read_bloc_whole}
use ase_plus_plus.Inode.{file_directory}
use ase_plus_plus.Inode.Codec.{IsInode, inode_at, inode_bytes, read_inode-ok, write_inode-ok}
use ase_plus_plus.Inode.Direct.{direct, vbloc_of_fbloc_present}
use ase_plus_plus.Ifile.{
  FileDesc, load_buf, seek2_ifile, read_ifile, open_ifile, flush_ifile, close_ifile,
}
use ase_plus_plus.Directory.{
  Entry, entry_size, entry_of_bytes, entry_pos, rounds, find_entry, inumber_of_basename,
}
use ase_plus_plus.Directory.Reading.{IsChar, at_pos, read_ifile-within, seek2_ifile-within}
use ase_plus_plus.Directory.Finding.{
  entries, first_named, first_named-entry, HasEnd, status_of, find_entry_from-first_named,
}

-- The inode number of the first entry with a name, and 0 without one.
abbrev pub inumber_of : Option (ℕ × Entry) → ℕ
inumber_of none = 0
inumber_of (some r) = r.1.ent_inumber

-- Inode `n` is a directory of `count` entries in one bloc of the volume.
pub record IsDirectory (w : World) (n count : ℕ) : Type 0 where
  pub mounted : IsMounted w w.current_volume
  pub inode : IsInode (inode_at w n)
  pub type : (inode_at w n).type ≡ file_directory
  pub there : direct w n 0 ≢ 0
  pub low : (inode_at w n).size ≤ 20 * count
  pub high : 20 * count ≤ (inode_at w n).size + 1
  pub small : 20 * count < 512
  pub chars : All IsChar (bloc w w.current_volume (direct w n 0))
  pub ends :
      All (λ e. HasEnd e.ent_basename) (entries count 0 (bloc w w.current_volume (direct w n 0)))

module _ {w : World} (n count : ℕ) (d : IsDirectory w n count) where
  abbrev pub buffer : Bytes
  buffer = bloc w w.current_volume (direct w n 0)

  abbrev pub opened : FileDesc
  opened = record {
    fds_inumber = n;
    fds_size = (inode_at w n).size;
    fds_pos = 0;
    fds_buf = buffer;
    fds_dirty = false;
  }

  -- The state with the directory's bloc in the buffer.
  abbrev pub seen : World
  seen =
      loaded w.current_volume (direct w n 0)
        (loaded w.current_volume n (loaded w.current_volume n w))

  pub full : length buffer ≡ 512
  unfolding bloc
  full = d.mounted.disk.cells _ _

  pub open_ifile-opened : open_ifile n w ≡ ok opened seen
  unfolding open_ifile load_buf bloc loaded
  open_ifile-opened =
      let vol = w.current_volume in
      let m1 = loaded-IsMounted d.mounted n in
      let inode = read_inode-ok d.mounted n in
      let found = vbloc_of_fbloc_present m1 n 0 (omega arith) false d.there in
      let buf = read_bloc_whole (loaded-IsMounted m1 n) (direct w n 0) in
      let there = d.there in ground (arith, inode, found, buf, there)

  pub close_ifile-opened :
      (pos : ℕ) → (w' : World) × (close_ifile (at_pos opened pos) seen ≡ ok (at_pos opened pos) w')
  unfolding close_ifile flush_ifile bloc loaded
  close_ifile-opened pos =
      let vol = w.current_volume in
      let m3 =
        loaded-IsMounted (loaded-IsMounted (loaded-IsMounted d.mounted n) n) (direct w n 0) in
      let inode = read_inode-ok m3 n in
      let write = write_inode-ok (loaded-IsMounted m3 n) n d.inode in
      (stored vol n (inode_bytes (inode_at w n)) (loaded vol n seen), ground (arith, inode, write))

  pub find_entry-first_named :
      (raw name : Bytes)
      → length raw ≡ 20
      → All (λ c. c ≢ 0) name
      → (to : ℕ) × (to < 512)
        × (find_entry raw opened name seen
            ≡ ok (status_of (first_named (entries count 0 buffer) 0 name), at_pos opened to) seen)
  unfolding find_entry
  find_entry-first_named raw name long plain =
      let start = seek2_ifile-within opened seen full d.chars 0 0 (omega arith) (omega arith) in
      let (to, less, run) =
        find_entry_from-first_named opened seen name full d.chars plain count 0 0 (rounds opened)
          raw (omega (arith, d.small)) (omega (arith, d.low)) (omega (arith, d.high)) d.ends long
          (omega (arith, d.high)) in
      (to, less, ground (arith, start, run))

  -- The entry found, read again.
  pub read_entry :
      (raw : Bytes) (to : ℕ) (r : ℕ × Entry)
      → length raw ≡ 20
      → to < 512
      → (name : Bytes) → first_named (entries count 0 buffer) 0 name ≡ some r
      → (r.0 < 25)
        × (seek2_ifile (at_pos opened to) (entry_pos r.0) seen ≡ ok (at_pos opened (20 * r.0)) seen)
        × (read_ifile (at_pos opened (20 * r.0)) raw entry_size seen
            ≡ ok (20, at_pos opened (20 * r.0 + 20), take 20 (drop (20 * r.0) buffer)) seen)
        × (entry_of_bytes (take 20 (drop (20 * r.0) buffer)) ≡ r.1)
  read_entry raw to r long less name found =
      let (j, inside, at, same) = first_named-entry count 0 0 buffer name r found in
      let place : 0 + 20 * j ≡ 20 * r.0 = omega (arith, at) in
      let offset : entry_pos r.0 ≡ 20 * r.0 = omega (arith, at, inside, d.small) in
      (
        omega (arith, at, inside, d.small),
        ap (λ p. seek2_ifile (at_pos opened to) p seen) offset
            ∙ seek2_ifile-within opened seen full d.chars to (20 * r.0) less
                (omega (arith, at, inside, d.small)),
        read_ifile-within opened seen full d.chars (20 * r.0) raw
            (omega (arith, at, inside, d.high)) (omega (arith, at, inside, d.small)) long,
        ap (λ p. entry_of_bytes (take 20 (drop p buffer))) (sym place) ∙ sym same,
      )

-- Reading the inode keeps the directory.
pub loaded-IsDirectory :
    {w : World} (n count : ℕ)
    → IsDirectory w n count
    → IsDirectory (loaded w.current_volume n w) n count
unfolding bloc loaded
loaded-IsDirectory n count d = record {
  mounted = loaded-IsMounted d.mounted n;
  inode = d.inode;
  type = d.type;
  there = d.there;
  low = d.low;
  high = d.high;
  small = d.small;
  chars = d.chars;
  ends = d.ends;
}

-- The lookup of a name in a directory of one bloc, none of whose bytes is 254, succeeds and gives the
-- inode number of the first entry in use that has the name, and 0 without one.
pub inumber_of_basename-first_named :
    {w : World} (n count : ℕ) (raw name : Bytes)
    → IsDirectory w n count
    → length raw ≡ 20
    → All (λ c. c ≢ 0) name
    → (w' : World) × (inumber_of_basename raw n name w
        ≡ ok
            (inumber_of
              (first_named (entries count 0 (bloc w w.current_volume (direct w n 0))) 0 name))
            w')
unfolding inumber_of_basename bloc loaded
inumber_of_basename-first_named {w} n count raw name d long plain =
    let d1 = loaded-IsDirectory n count d in
    let inode = read_inode-ok d.mounted n in
    let type = d.type in
    let open_run = open_ifile-opened n count d1 in
    let (to, less, find) = find_entry-first_named n count d1 raw name long plain in
    elim (Option-cases
      (first_named (entries count 0 (bloc w w.current_volume (direct w n 0))) 0 name)) [
        | inl e ↦ (seen n count d1, ground (arith, inode, type, open_run, find, e))
        | inr (r, e) ↦
            let (small, seek, read, same) = read_entry n count d1 raw to r long less name e in
            let (w', close) = close_ifile-opened n count d1 (20 * r.0 + 20) in
            (w', ground (arith, inode, type, open_run, find, e, small, seek, read, same, close))
      ]
