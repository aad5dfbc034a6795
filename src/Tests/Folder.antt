-- ===== src/Tests/Folder.antt =====
-- A directory of two entries in a bloc, and the lookup of a name in it.
use ase_plus_plus.Prelude.{
  ℕ, ◌<◌, ◌≡◌, ◌≢◌, refl, sym, ap, subst, arith, [], ◌∷◌, ◌++◌, All, All-replicate, All-append,
  Bool, true, ◌&&◌, not, ◌==◌, ltb, if◌then◌else◌, length, length-replicate, replicate, get_or,
  some,
}
use ase_plus_plus.Words.{Bytes, IsWord, words, unwords}
use ase_plus_plus.System.{World, Superbloc, ok}
use ase_plus_plus.Superbloc.{bloc_magic, super_magic}
use ase_plus_plus.Mbr.Blocs.{bloc}
use ase_plus_plus.Mbr.Frame.{IsMounted}
use ase_plus_plus.Inode.{Inode, file_directory, inode_words}
use ase_plus_plus.Inode.Codec.{IsInode, inode_at, inode_bytes, inode_of_bytes, length-inode_bytes}
use ase_plus_plus.Inode.Direct.{direct}
use ase_plus_plus.Directory.{entry_of_bytes, entry_name, inumber_of_basename}
use ase_plus_plus.Directory.Reading.{IsChar}
use ase_plus_plus.Directory.Finding.{entries, first_named, HasEnd}
use ase_plus_plus.Directory.Names.{IsDirectory, inumber_of, inumber_of_basename-first_named}
use ase_plus_plus.Ifile.{return_failure}
use ase_plus_plus.Files.{create_file}
use ase_plus_plus.Files.Root.{root_entries, create_file_refused}
use ase_plus_plus.Tests.Disk.{blank}

abbrev inode : Inode
inode = record {
  type = file_directory;
  size = 39;
  blocs_directs = 2 ∷ replicate 123 0;
  blocs_indirect = 0;
  blocs_double_indirect = 0;
}

inode-IsInode : IsInode inode
unfolding inode_words
inode-IsInode =
    let zero_word : IsWord 0 = omega arith in
    record {
      directs = refl;
      words = (
        omega arith,
        (
          omega arith,
          (
            omega arith,
            All-append IsWord (replicate 123 0) (0 ∷ 0 ∷ []) (All-replicate IsWord 123 0 zero_word)
                (zero_word, (zero_word, tt)),
          ),
        ),
      );
    }

-- `a` is inode 7, `bc` inode 9.
abbrev contents : Bytes
contents =
    (7 ∷ 0 ∷ 0 ∷ 0 ∷ entry_name (97 ∷ []))
    ++ ((9 ∷ 0 ∷ 0 ∷ 0 ∷ entry_name (98 ∷ 99 ∷ [])) ++ replicate 472 0)

-- The last free bloc, number 3.
abbrev link : Bytes
link = unwords (bloc_magic ∷ 0 ∷ []) ++ replicate 504 0

abbrev folder_super : Superbloc
folder_super = record {
  magic = super_magic;
  numero = 1;
  nom = replicate 32 0;
  id = 0;
  premier_libre = 3;
  nb_bloc_libre = 1;
  root_inumber = 1;
}

abbrev pub folder : World
folder = record blank {
  storage = record {
    cells = λ c s.
        if s == 4
        then inode_bytes inode
        else if s == 5
        then contents
        else if s == 6
        then link
        else replicate 512 0;
    master = replicate 512 0;
  };
  mbr_mutex = record { compteur = 1; magic = 0x69 };
  super = folder_super;
}

length-link : length link ≡ 512
unfolding unwords
length-link = refl

pub folder-IsMounted : IsMounted folder 0
folder-IsMounted =
    let a = length-inode_bytes inode-IsInode in
    let b : length contents ≡ 512 = refl in
    let c : length (replicate {A = ℕ} 512 0) ≡ 512 = length-replicate {A = ℕ} 512 0 in
    let e = length-link in
    record {
      ready = record { formatted = refl; mutex = refl; free = omega arith };
      volume = omega arith;
      fits = record { sectors = omega arith; cylinders = omega arith };
      disk = record { master = c; cells = λ x s. ground (arith, a, b, c, e) };
    }

inode-eq : inode_at folder 1 ≡ inode
unfolding bloc
inode-eq = inode_of_bytes inode-IsInode

pub direct-eq : direct folder 1 0 ≡ 2
direct-eq = ap (λ (i : Inode). get_or i.blocs_directs 0 0) inode-eq

pub contents-eq : bloc folder 0 (direct folder 1 0) ≡ contents
unfolding bloc
contents-eq = ap (λ n. bloc folder 0 n) direct-eq

unfoldable pub is_char : ℕ → Bool
is_char b = ltb b 256 && not (b == 254)

unfoldable pub all_chars : Bytes → Bool
all_chars [] = true
all_chars (b ∷ bs) = is_char b && all_chars bs

pub chars_of : (bs : Bytes) → all_chars bs ≡ true → All IsChar bs
unfolding all_chars is_char
chars_of [] e = tt
chars_of (b ∷ bs) e =
    let first : (b < 256) × (b ≢ 254) = ground arith in (first, chars_of bs (ground arith))

contents-IsChar : All IsChar contents
unfolding all_chars is_char
contents-IsChar = chars_of contents refl

contents_end : All (λ e. HasEnd e.ent_basename) (entries 2 0 contents)
unfolding entry_of_bytes
contents_end = ((97 ∷ [], refl), ((98 ∷ 99 ∷ [], refl), tt))

pub folder-IsDirectory : IsDirectory folder 1 2
folder-IsDirectory =
    let size : (inode_at folder 1).size ≡ 39 = ap (λ (i : Inode). i.size) inode-eq in
    record {
      mounted = folder-IsMounted;
      inode = subst IsInode (sym inode-eq) inode-IsInode;
      type = ap (λ (i : Inode). i.type) inode-eq;
      there = λ e. absurd (omega (arith, direct-eq, e));
      low = omega (arith, size);
      high = omega (arith, size);
      small = omega arith;
      chars = subst (All IsChar) (sym contents-eq) contents-IsChar;
      ends =
          subst (λ b. All (λ e. HasEnd e.ent_basename) (entries 2 0 b)) (sym contents-eq)
            contents_end;
    }

inumber_of_basename-first_named_example :
    (w : World) × (inumber_of_basename (replicate 20 0) 1 (98 ∷ 99 ∷ []) folder
      ≡ ok
          (inumber_of
            (first_named (entries 2 0 (bloc folder 0 (direct folder 1 0))) 0 (98 ∷ 99 ∷ [])))
          w)
inumber_of_basename-first_named_example =
    inumber_of_basename-first_named 1 2 (replicate 20 0) (98 ∷ 99 ∷ []) folder-IsDirectory refl
      ((λ e. absurd (omega arith)), ((λ e. absurd (omega arith)), tt))

-- The result is 9.
second_test : inumber_of (first_named (entries 2 0 contents) 0 (98 ∷ 99 ∷ [])) ≡ 9
unfolding first_named entry_of_bytes words
second_test = refl

bc_found :
    first_named (root_entries folder 2) 0 (98 ∷ 99 ∷ [])
    ≡ some (1, record { ent_inumber = 9; ent_basename = entry_name (98 ∷ 99 ∷ []) })
unfolding first_named entry_of_bytes words
bc_found = ap (λ b. first_named (entries 2 0 b) 0 (98 ∷ 99 ∷ [])) contents-eq

-- `/bc`
create_file_refused_example :
    (w : World) × (create_file (replicate 20 0) (47 ∷ 98 ∷ 99 ∷ []) 0 folder ≡ ok return_failure w)
create_file_refused_example =
    create_file_refused 2 (replicate 20 0) (98 ∷ 99 ∷ []) folder-IsDirectory
      (λ e. absurd (omega arith)) refl
      (record {
        long = omega arith;
        short = omega arith;
        no_slash = ((λ e. absurd (omega arith)), ((λ e. absurd (omega arith)), tt));
        no_end = ((λ e. absurd (omega arith)), ((λ e. absurd (omega arith)), tt));
      })
      0 _ bc_found
