-- ===== src/Tests/Disk.antt =====
-- A disk with a volume of five blocs, before and after its file system is made.
use ase_plus_plus.Prelude.{
  ℕ, suc, ◌<◌, ◌≤◌, ◌≡◌, ◌≢◌, refl, sym, subst, ap, ◌∙◌, arith, List, [], take, ◌∷◌, ◌++◌, All,
  All-replicate, length, drop, replicate, length-replicate, length-append, length-drop, get_or,
}
use ase_plus_plus.Words.{Bytes, IsWord, words, word_at}
use ase_plus_plus.Storage
use ase_plus_plus.Storage.{Storage}
use ase_plus_plus.System.{Volume, Mbr, Superbloc, World, ok}
use ase_plus_plus.Mbr.{volume_words, no_volume, mbr_magic}
use ase_plus_plus.Mbr.Address.{nsectors, Fits}
use ase_plus_plus.Mbr.Frame.{IsDisk}
use ase_plus_plus.Mbr.Layout.{
  IsTable, mbr_sector, saved, table_on, with_table, table_on-saved, length-mbr_sector,
}
use ase_plus_plus.Format.{init_super}
use ase_plus_plus.Superbloc.FreeList.{IsFree, magic_of}
use ase_plus_plus.Superbloc.{bloc_magic, super_magic, super_of_bytes}
use ase_plus_plus.Superbloc.Codec.{super_of_bytes-super_bytes}
use ase_plus_plus.Mbr.Blocs.{bloc}
use ase_plus_plus.Inode.{Inode, inode_of_words, file_directory, new_inode}
use ase_plus_plus.Inode.Codec.{IsInode, inode_at}
use ase_plus_plus.Inode.Create.{new_inode-IsInode}
use ase_plus_plus.Inode.Direct.{direct}
use ase_plus_plus.Format.Volume.{IsFormattable, IsMade, init_super-IsFree}

abbrev pub volume : Volume
volume = record { vol_cylinder = 1; vol_sector = 3; vol_nsectors = 5; vol_type = 0; valide = 0 }

abbrev pub table : Mbr
table = record { mbr_vol = volume ∷ replicate 7 no_volume; nbvols = 1; magic_number = mbr_magic }

abbrev pub no_super : Superbloc
no_super = record {
  magic = 0;
  numero = 0;
  nom = [];
  id = 0;
  premier_libre = 0;
  nb_bloc_libre = 0;
  root_inumber = 0;
}

-- The table stands in memory only.
abbrev pub blank : World
blank = record {
  storage = record { cells = λ c s. replicate 512 0; master = replicate 512 0 };
  mbr = table;
  mbr_mutex = record { compteur = 0; magic = 0 };
  super = no_super;
  current_volume = 0;
}

pub table-IsTable : IsTable table
table-IsTable =
    let word : (n : ℕ) → n < 1000 → IsWord n = λ n h. omega arith in
    let zero_word = word 0 (omega arith) in
    record {
      size = refl;
      words = (
        (
          word 1 (omega arith),
          (word 3 (omega arith), (word 5 (omega arith), (zero_word, (zero_word, tt)))),
        ),
        All-replicate (λ v. All IsWord (volume_words v)) 7 no_volume
            (zero_word, (zero_word, (zero_word, (zero_word, (zero_word, tt))))),
      );
      count = word 1 (omega arith);
      magic = omega arith;
    }

-- The table stands on the disk.
abbrev pub fresh : World
fresh = saved blank

pub fresh-IsDisk : IsDisk fresh
unfolding Storage.write_nsector
fresh-IsDisk =
    let l = length-mbr_sector table table-IsTable in
    let zeros : List ℕ = replicate 512 0 in
    let full : length (mbr_sector table ++ drop (length (mbr_sector table)) zeros) ≡ 512 = omega (
      arith,
      l,
      length-append (mbr_sector table) (drop (length (mbr_sector table)) zeros),
      length-drop (length (mbr_sector table)) zeros,
      length-replicate {A = ℕ} 512 0,
    ) in
    let long : length zeros ≡ 512 = length-replicate {A = ℕ} 512 0 in
    record { master = full; cells = λ c s. ground (arith, full, long) }

pub found : table_on fresh.storage ≡ table
found = table_on-saved blank table-IsTable

pub fresh-IsFormattable : IsFormattable fresh 0
fresh-IsFormattable = record {
  magic = ap (λ (t : Mbr). t.magic_number) found;
  disk = fresh-IsDisk;
  volume = omega arith;
  fits =
      subst (λ t. Fits (with_table fresh t) 0) (sym found)
        (record { sectors = omega arith; cylinders = omega arith });
  two = subst (λ t. 2 ≤ nsectors (with_table fresh t) 0) (sym found) (omega arith);
}

pub five : nsectors (with_table fresh (table_on fresh.storage)) 0 ≡ 5
five = ap (λ t. nsectors (with_table fresh t) 0) found

-- The volume after `init_super`, with four free blocs less the root's.
abbrev pub made :
    (w : World) × (init_super 0 42 (97 ∷ []) fresh ≡ ok tt w)
    × IsMade 0 3 w
    × (w.mbr ≡ table_on fresh.storage)
    × (w.super.numero ≡ 42)
made = init_super-IsFree fresh 0 42 3 (97 ∷ []) fresh-IsFormattable (omega arith) five

abbrev pub formatted : World
formatted = made.0

pub formatted-IsFree : IsFree formatted (2 ∷ 3 ∷ 4 ∷ [])
formatted-IsFree = made.2.0

pub formatted-size : nsectors formatted formatted.current_volume ≡ 5
formatted-size = (λ i. (get_or ((made.3 ∙ found) i).mbr_vol (made.2.1 i) no_volume).vol_nsectors)

pub root-eq : inode_at formatted 1 ≡ new_inode file_directory
root-eq = made.2.4

pub root-IsInode : IsInode (inode_at formatted 1)
root-IsInode = subst IsInode (sym root-eq) (new_inode-IsInode file_directory (omega arith))

pub root_hole : direct formatted 1 0 ≡ 0
root_hole = ap (λ (n : Inode). get_or n.blocs_directs 0 0) root-eq

pub root_used : All (λ (y : ℕ). y ≢ 1) (2 ∷ 3 ∷ 4 ∷ [])
root_used =
    ((λ e. absurd (omega arith)), ((λ e. absurd (omega arith)), ((λ e. absurd (omega arith)), tt)))

-- The first word of an area is the first of any part of it that begins there.
pub first_word : (n : ℕ) (b : Bytes) → word_at (take (suc (suc (suc (suc n)))) b) 0 ≡ word_at b 0
unfolding words
first_word n [] = refl
first_word n (a ∷ []) = refl
first_word n (a ∷ b ∷ []) = refl
first_word n (a ∷ b ∷ c ∷ []) = refl
first_word n (a ∷ b ∷ c ∷ d ∷ r) = refl

pub root_magic : magic_of formatted formatted.current_volume 1 ≢ bloc_magic
unfolding inode_of_words
root_magic e =
    let b = bloc formatted formatted.current_volume 1 in
    let type : word_at b 0 ≡ 1 = ap (λ (n : Inode). n.type) root-eq in
    absurd (omega (arith, first_word 4 b, type, e))

pub super_word : word_at (bloc formatted formatted.current_volume 0) 0 ≡ super_magic
unfolding super_of_bytes
super_word =
    sym (first_word 52 (bloc formatted formatted.current_volume 0))
    ∙ ap (λ b. word_at b 0) made.2.3
    ∙ ap (λ (s : Superbloc). s.magic) (super_of_bytes-super_bytes formatted-IsFree.super)
    ∙ formatted-IsFree.super.magic
