-- ===== src/Tests/Entries.antt =====
-- Names added to the directory of two entries, and removed from it, and a file created in it.
use ase_plus_plus.Prelude.{ℕ, ◌≡◌, ◌≢◌, refl, ap, arith, [], ◌∷◌, All, false, replicate, none}
use ase_plus_plus.Words.{Bytes, words, unwords}
use ase_plus_plus.System.{World, ok}
use ase_plus_plus.Mbr.Blocs.{bloc}
use ase_plus_plus.Directory.{entry_of_bytes, add_entry, del_entry, inumber_of_basename}
use ase_plus_plus.Directory.Finding.{entries, first_named}
use ase_plus_plus.Directory.Adding.{IsName, IsNumber}
use ase_plus_plus.Directory.Added.{IsApart}
use ase_plus_plus.Directory.Closing.{listing}
use ase_plus_plus.Directory.Insert.{inumber_of_basename-add_entry}
use ase_plus_plus.Directory.Erase.{del_entry-add_entry}
use ase_plus_plus.Mbr.Address.{nsectors}
use ase_plus_plus.Shell.{same_string}
use ase_plus_plus.Files.{create_file}
use ase_plus_plus.Superbloc.FreeList.{IsFree}
use ase_plus_plus.Inode.{file_file}
use ase_plus_plus.Ifile.{FileDesc, open_ifile, close_ifile, read_ifile, write_ifile}
use ase_plus_plus.Ifile.Buffers.{read_ifile-write_ifile}
use ase_plus_plus.Files.Created.{create_file-first_named}
use ase_plus_plus.Tests.Folder.{
  folder, folder-IsMounted, folder-IsDirectory, direct-eq, contents-eq, all_chars, is_char,
  chars_of,
}

inode_bloc : nsectors folder 0 ≡ 5
inode_bloc = refl

folder-IsApart : IsApart folder 1
folder-IsApart = record {
  inode_inside = omega (arith, inode_bloc);
  bloc_inside = omega (arith, inode_bloc, direct-eq);
  apart = λ e. absurd (omega (arith, direct-eq, e));
}

-- The name `d`, of inode 4.
d-IsName : IsName (100 ∷ [])
unfolding all_chars is_char
d-IsName = record {
  short = omega arith;
  plain = ((λ e. absurd (omega arith)), tt);
  chars = chars_of (100 ∷ []) refl;
}

four-IsNumber : IsNumber 4
unfolding unwords all_chars is_char
four-IsNumber = record {
  word = omega arith;
  used = λ e. absurd (omega arith);
  chars = chars_of (unwords (4 ∷ [])) refl;
}

d_absent : first_named (listing folder 1 2) 0 (100 ∷ []) ≡ none
unfolding first_named entry_of_bytes words
d_absent = ap (λ b. first_named (entries 2 0 b) 0 (100 ∷ [])) contents-eq

inumber_of_basename-add_entry_example :
    (w : World) × (add_entry (replicate 20 0) 1 4 (100 ∷ []) folder ≡ ok 0 w)
    × ((u : World) × (inumber_of_basename (replicate 20 0) 1 (100 ∷ []) w ≡ ok 4 u))
    × ((other : Bytes)
        → All (λ c. c ≢ 0) other
        → same_string (100 ∷ []) other ≡ false
        → (u u' : World) × (i : ℕ) × (inumber_of_basename (replicate 20 0) 1 other folder ≡ ok i u)
          × (inumber_of_basename (replicate 20 0) 1 other w ≡ ok i u'))
inumber_of_basename-add_entry_example =
    inumber_of_basename-add_entry 1 2 folder-IsDirectory folder-IsApart (omega arith)
      (replicate 20 0) refl four-IsNumber d-IsName d_absent

del_entry-add_entry_example :
    (w1 w2 : World) × (add_entry (replicate 20 0) 1 4 (100 ∷ []) folder ≡ ok 0 w1)
    × (del_entry (replicate 20 0) 1 (100 ∷ []) w1 ≡ ok 20 w2)
    × ((other : Bytes)
        → All (λ c. c ≢ 0) other
        → (u u' : World) × (i : ℕ) × (inumber_of_basename (replicate 20 0) 1 other folder ≡ ok i u)
          × (inumber_of_basename (replicate 20 0) 1 other w2 ≡ ok i u'))
del_entry-add_entry_example =
    del_entry-add_entry 1 2 folder-IsDirectory folder-IsApart (omega arith) (replicate 20 0) refl
      four-IsNumber d-IsName d_absent

three-IsNumber : IsNumber 3
unfolding unwords all_chars is_char
three-IsNumber = record {
  word = omega arith;
  used = λ e. absurd (omega arith);
  chars = chars_of (unwords (3 ∷ [])) refl;
}

folder-IsFree : IsFree folder (3 ∷ [])
unfolding unwords words bloc
folder-IsFree = record {
  mounted = folder-IsMounted;
  super = record {
    magic = refl;
    name = refl;
    head = (omega arith, (omega arith, tt));
    tail = (omega arith, (omega arith, (omega arith, (omega arith, tt))));
  };
  room = omega (arith, inode_bloc);
  chain = (refl, omega arith, omega (arith, inode_bloc), refl, refl);
  count = refl;
}

-- `/d`
create_file-first_named_example :
    (w : World) × (create_file (replicate 20 0) (47 ∷ 100 ∷ []) file_file folder ≡ ok 3 w)
    × ((u : World) × (inumber_of_basename (replicate 20 0) 1 (100 ∷ []) w ≡ ok 3 u))
    × ((other : Bytes)
        → All (λ c. c ≢ 0) other
        → same_string (100 ∷ []) other ≡ false
        → (u u' : World) × (i : ℕ) × (inumber_of_basename (replicate 20 0) 1 other folder ≡ ok i u)
          × (inumber_of_basename (replicate 20 0) 1 other w ≡ ok i u'))
create_file-first_named_example =
    create_file-first_named 2 (replicate 20 0) (100 ∷ []) folder-IsDirectory folder-IsApart
      (omega arith) (omega arith) refl
      (record {
        long = omega arith;
        short = omega arith;
        no_slash = ((λ e. absurd (omega arith)), tt);
        no_end = ((λ e. absurd (omega arith)), tt);
      })
      d-IsName.chars folder-IsFree three-IsNumber (λ e. absurd (omega arith))
      (λ e. absurd (omega (arith, direct-eq, e))) file_file (omega arith) d_absent

-- Two bytes, 65 and 66, written over the start of the directory's bloc.
read_ifile-write_ifile_example :
    (fd0 fd1 fd2 fd3 fd4 : FileDesc) × (w1 w2 w3 w4 w5 : World) × (open_ifile 1 folder ≡ ok fd0 w1)
    × (write_ifile fd0 (65 ∷ 66 ∷ []) 2 w1 ≡ ok (2, fd1) w2)
    × (close_ifile fd1 w2 ≡ ok fd2 w3)
    × (open_ifile 1 w3 ≡ ok fd3 w4)
    × (read_ifile fd3 (0 ∷ 0 ∷ []) 2 w4 ≡ ok (2, fd4, 65 ∷ 66 ∷ []) w5)
unfolding all_chars is_char bloc
read_ifile-write_ifile_example =
    read_ifile-write_ifile 1 2 folder-IsMounted folder-IsDirectory.inode direct-eq
      (λ e. absurd (omega arith)) (omega (arith, inode_bloc)) (omega (arith, inode_bloc))
      (λ e. absurd (omega arith)) refl (chars_of (bloc folder 0 2) refl) 65 (66 ∷ []) (omega arith)
      (omega arith) (chars_of (65 ∷ 66 ∷ []) refl) (0 ∷ 0 ∷ []) refl
