-- ===== src/Directory/Kept.antt =====
-- A directory of one bloc is the same once other blocs are written, and once a name was looked up that it
-- does not have (src/dir.c).
use ase_plus_plus.Prelude.{ℕ, ◌≡◌, ◌≢◌, sym, ap, ◌∙◌, subst, arith, All, length, get_or, none}
use ase_plus_plus.Words.{Bytes, words}
use ase_plus_plus.System.{World, ok}
use ase_plus_plus.Mbr.Blocs.{bloc, loaded}
use ase_plus_plus.Mbr.Frame.{IsMounted}
use ase_plus_plus.Inode.{Inode, inode_of_words}
use ase_plus_plus.Inode.Codec.{IsInode, inode_at, read_inode-ok}
use ase_plus_plus.Inode.Direct.{direct}
use ase_plus_plus.Directory.{inumber_of_basename}
use ase_plus_plus.Directory.Reading.{IsChar}
use ase_plus_plus.Directory.Finding.{entries, first_named, HasEnd}
use ase_plus_plus.Directory.Names.{
  IsDirectory, seen, loaded-IsDirectory, open_ifile-opened, find_entry-first_named,
}
use ase_plus_plus.Directory.Closing.{listing}

-- A directory whose two blocs are as before is as before.
pub kept-IsDirectory :
    {w : World} (w' : World) (n count : ℕ)
    → IsDirectory w n count
    → IsMounted w' w.current_volume
    → w'.current_volume ≡ w.current_volume
    → bloc w' w.current_volume n ≡ bloc w w.current_volume n
    → bloc w' w.current_volume (direct w n 0) ≡ bloc w w.current_volume (direct w n 0)
    → IsDirectory w' n count
      × (listing w' n count ≡ listing w n count)
      × (direct w' n 0 ≡ direct w n 0)
kept-IsDirectory {w} w' n count d mounted volume inode_bloc data_bloc =
    let node : inode_at w' n ≡ inode_at w n =
      ap (λ v. inode_of_words (words (bloc w' v n))) volume
      ∙ ap (λ b. inode_of_words (words b)) inode_bloc in
    let named : direct w' n 0 ≡ direct w n 0 =
      ap (λ (i : Inode). get_or i.blocs_directs 0 0) node in
    let bytes : bloc w' w'.current_volume (direct w' n 0) ≡ bloc w w.current_volume (direct w n 0) =
      ap (λ v. bloc w' v (direct w' n 0)) volume
      ∙ ap (λ y. bloc w' w.current_volume y) named
      ∙ data_bloc in
    let size : (inode_at w' n).size ≡ (inode_at w n).size = ap (λ (i : Inode). i.size) node in
    (
      record {
        mounted = subst (λ v. IsMounted w' v) (sym volume) mounted;
        inode = subst IsInode (sym node) d.inode;
        type = ap (λ (i : Inode). i.type) node ∙ d.type;
        there = λ e. d.there (sym named ∙ e);
        low = omega (arith, size, d.low);
        high = omega (arith, size, d.high);
        small = d.small;
        chars = subst (All IsChar) (sym bytes) d.chars;
        ends = subst (λ b. All (λ e. HasEnd e.ent_basename) (entries count 0 b)) (sym bytes) d.ends;
      },
      ap (λ b. entries count 0 b) bytes,
      named,
    )

-- The lookup of a name that is not in a directory leaves the directory's bloc in the buffer.
pub inumber_of_basename_absent :
    {w : World} (n count : ℕ) (raw name : Bytes) (d : IsDirectory w n count)
    → length raw ≡ 20
    → All (λ c. c ≢ 0) name
    → first_named (listing w n count) 0 name ≡ none
    → inumber_of_basename raw n name w ≡ ok 0 (seen n count (loaded-IsDirectory n count d))
unfolding inumber_of_basename bloc loaded
inumber_of_basename_absent {w} n count raw name d long plain absent =
    let d1 = loaded-IsDirectory n count d in
    let inode = read_inode-ok d.mounted n in
    let type = d.type in
    let open_run = open_ifile-opened n count d1 in
    let (to, less, find) = find_entry-first_named n count d1 raw name long plain in
    ground (arith, inode, type, open_run, find, absent)
