-- ===== src/Tests/Files.antt =====
-- The theorems on inodes and on making a file system at a concrete disk.
use ase_plus_plus.Prelude.{
  ℕ, ◌<◌, ◌≡◌, ◌≢◌, refl, sym, arith, ap, [], ◌∷◌, true, false, set, replicate, length-replicate,
}
use ase_plus_plus.System.{World, ok}
use ase_plus_plus.Mbr.Blocs.{bloc, loaded}
use ase_plus_plus.Mbr.Address.{nsectors}
use ase_plus_plus.Mbr.Layout.{table_on}
use ase_plus_plus.Superbloc.FreeList.{IsFree}
use ase_plus_plus.Inode.{Inode, file_file, new_inode, create_inode, vbloc_of_fbloc}
use ase_plus_plus.Inode.Codec.{inode_at}
use ase_plus_plus.Inode.Create.{zero_bytes, new_inode-IsInode, create_inode-cons}
use ase_plus_plus.Inode.Direct.{
  extended, extended-IsFree, extended-direct, direct, entered, vbloc_of_fbloc_allocates,
}
use ase_plus_plus.Inode.Full.{vbloc_of_fbloc_full}
use ase_plus_plus.Superbloc.Alloc.{taken, taken-IsFree, taken-SameBlocs}
use ase_plus_plus.Words.{words}
use ase_plus_plus.Inode.{file_directory, inode_of_words}
use ase_plus_plus.Inode.Codec.{IsInode}
use ase_plus_plus.Prelude.{subst, get_or, ◌∙◌}
use ase_plus_plus.Ifile.{
  FileDesc, open_ifile, flush_ifile, close_ifile, seek_ifile, readc_ifile, writec_ifile,
}
use ase_plus_plus.Ifile.Write.{written, flush_ifile-writec_ifile}
use ase_plus_plus.Ifile.Seek.{seek_ifile_misplaced}
use ase_plus_plus.Ifile.RoundTrip.{readc_ifile-writec_ifile}
use ase_plus_plus.Format.{init_super}
use ase_plus_plus.Format.Volume.{IsMade, init_super-IsFree}
use ase_plus_plus.Tests.Disk.{
  fresh, fresh-IsFormattable, five, formatted, formatted-IsFree, formatted-size, root-IsInode,
  root_hole, root_used, root-eq,
}

init_super-IsFree_example :
    (w : World) × (init_super 0 42 (97 ∷ []) fresh ≡ ok tt w)
    × IsMade 0 3 w
    × (w.mbr ≡ table_on fresh.storage)
    × (w.super.numero ≡ 42)
init_super-IsFree_example =
    init_super-IsFree fresh 0 42 3 (97 ∷ []) fresh-IsFormattable (omega arith) five

abbrev vol : ℕ
vol = formatted.current_volume

create_inode-cons_example :
    (w : World) × (create_inode file_file formatted ≡ ok 2 w)
    × (inode_at w 2 ≡ new_inode file_file)
    × IsFree w (3 ∷ 4 ∷ [])
    × ((k : ℕ) → 0 < k → k < nsectors formatted vol → k ≢ 2 → bloc w vol k ≡ bloc formatted vol k)
    × (w.mbr ≡ formatted.mbr)
    × (w.current_volume ≡ vol)
    × (w.super.numero ≡ formatted.super.numero)
create_inode-cons_example = create_inode-cons formatted-IsFree file_file (omega arith)

vbloc_of_fbloc_allocates_example :
    (w : World) × (vbloc_of_fbloc 1 0 true formatted ≡ ok 2 w)
    × (inode_at w 1 ≡ entered (inode_at formatted 1) 0 2)
    × (vbloc_of_fbloc 1 0 false w ≡ ok 2 (loaded vol 1 w))
    × (bloc w vol 2 ≡ zero_bytes)
    × IsFree w (3 ∷ 4 ∷ [])
    × ((k : ℕ)
        → 0 < k
        → k < nsectors formatted vol
        → k ≢ 2
        → k ≢ 1
        → bloc w vol k ≡ bloc formatted vol k)
vbloc_of_fbloc_allocates_example =
    vbloc_of_fbloc_allocates formatted-IsFree 1 0 (omega arith) (omega (arith, formatted-size))
      root_used root-IsInode (omega arith) root_hole

-- the volume once the root has its first bloc
abbrev grown : World
grown = extended formatted 1 0 2

root_inside : 1 < nsectors formatted formatted.current_volume
root_inside = omega (arith, formatted-size)

grown-IsFree : IsFree grown (3 ∷ 4 ∷ [])
grown-IsFree =
    extended-IsFree formatted-IsFree 1 0 (omega arith) root_inside root_used root-IsInode
      (omega arith) root_hole

grown-direct : direct grown 1 0 ≡ 2
grown-direct =
    extended-direct formatted-IsFree 1 0 (omega arith) root_inside root_used root-IsInode
      (omega arith) root_hole

grown-size : nsectors grown grown.current_volume ≡ 5
unfolding extended
grown-size = formatted-size

-- an open file on the root's inode, with zeros in its buffer
abbrev at_start : FileDesc
at_start = record {
  fds_inumber = 1;
  fds_size = 0;
  fds_pos = 0;
  fds_buf = replicate 512 0;
  fds_dirty = false;
}

flush_ifile-writec_ifile_example :
    (w u : World) × (writec_ifile at_start 65 formatted ≡ ok (0, written at_start 65) w)
    × (flush_ifile (written at_start 65) w
        ≡ ok (record (written at_start 65) { fds_dirty = false }) u)
    × (bloc u vol 2 ≡ set at_start.fds_buf 0 65)
    × (inode_at u 1 ≡ entered (inode_at formatted 1) 0 2)
    × IsFree u (3 ∷ 4 ∷ [])
    × (u.current_volume ≡ vol)
    × (u.mbr ≡ formatted.mbr)
flush_ifile-writec_ifile_example =
    flush_ifile-writec_ifile formatted-IsFree at_start 65 (omega arith) root_inside root_used
      root-IsInode (omega arith) root_hole refl (length-replicate {A = ℕ} 512 0) (omega arith)

readc_ifile-writec_ifile_example :
    (fd0 fd1 fd2 fd3 fd4 : FileDesc) × (w1 w2 w3 w4 w5 : World) × (open_ifile 1 formatted
      ≡ ok fd0 w1)
    × (writec_ifile fd0 65 w1 ≡ ok (0, fd1) w2)
    × (close_ifile fd1 w2 ≡ ok fd2 w3)
    × (open_ifile 1 w3 ≡ ok fd3 w4)
    × (readc_ifile fd3 w4 ≡ ok (65, fd4) w5)
readc_ifile-writec_ifile_example =
    readc_ifile-writec_ifile formatted-IsFree 1 65 (omega arith) root_inside root_used root-IsInode
      root_hole

-- a buffer of the second bloc of that file, with bytes to write
abbrev in_second : FileDesc
in_second = record at_start { fds_pos = 512; fds_buf = replicate 512 7; fds_dirty = true }

seek_ifile_misplaced_example :
    (w : World) × (seek_ifile in_second 0xFFFF_FE00 grown
      ≡ ok (record in_second { fds_pos = 0; fds_dirty = false }) w)
    × (bloc w grown.current_volume 2 ≡ in_second.fds_buf)
    × ((k : ℕ)
        → k < nsectors grown grown.current_volume
        → k ≢ 2
        → bloc w grown.current_volume k ≡ bloc grown grown.current_volume k)
seek_ifile_misplaced_example =
    seek_ifile_misplaced grown-IsFree in_second 0xFFFF_FE00 2 (length-replicate {A = ℕ} 512 7)
      (omega (arith, grown-size)) (omega (arith, grown-size)) (omega arith)
      ((λ e. absurd (omega arith)), ((λ e. absurd (omega arith)), tt)) (omega arith) refl
      (omega arith) (omega arith) grown-direct

-- the volume once its three free blocs are taken
abbrev first_taken : World
first_taken = taken formatted 2

abbrev all_taken : World
all_taken = taken (taken first_taken 3) 4

all_taken-IsFree : IsFree all_taken []
all_taken-IsFree = taken-IsFree (taken-IsFree (taken-IsFree formatted-IsFree))

all_taken-size : nsectors all_taken all_taken.current_volume ≡ 5
unfolding taken
all_taken-size = formatted-size

all_taken-root : inode_at all_taken 1 ≡ new_inode file_directory
unfolding taken
all_taken-root =
    let v1 = taken-IsFree formatted-IsFree in
    let v2 = taken-IsFree v1 in
    ap (λ b. inode_of_words (words b))
      (taken-SameBlocs v2 1 (omega arith) (omega (arith, formatted-size))
        ∙ taken-SameBlocs v1 1 (omega arith) (omega (arith, formatted-size))
        ∙ taken-SameBlocs formatted-IsFree 1 (omega arith) (omega (arith, formatted-size)))
    ∙ root-eq

vbloc_of_fbloc_full_example :
    (w : World) × (vbloc_of_fbloc 1 0 true all_taken ≡ ok 0 w)
    × (bloc w all_taken.current_volume 0 ≡ zero_bytes)
vbloc_of_fbloc_full_example =
    vbloc_of_fbloc_full 1 0 all_taken-IsFree (omega arith) (omega (arith, all_taken-size))
      (subst IsInode (sym all_taken-root) (new_inode-IsInode file_directory (omega arith)))
      (omega arith) (ap (λ (n : Inode). get_or n.blocs_directs 0 0) all_taken-root)
