-- ===== src/Tests/Lookups.antt =====
-- A path, a directory and the shell's current directory, and the theorems on them applied.
use ase_plus_plus.Prelude.{◌≡◌, refl, arith, [], ◌∷◌, false, replicate}
use ase_plus_plus.Words.{Bytes}
use ase_plus_plus.System.Results.{Gives}
use ase_plus_plus.Ifile.{FileDesc}
use ase_plus_plus.Commons.{slash, dot}
use ase_plus_plus.Directory.{rounds, find_entry_from, inumber_of_path}
use ase_plus_plus.Directory.Loops.{FindLoop, find_entry_from-FindLoop}
use ase_plus_plus.Directory.Lookup.{resolve, inumber_of_path-resolve}
use ase_plus_plus.Builtins.{do_cd}
use ase_plus_plus.Builtins.Directories.{IsCwd, do_cd-IsCwd}
use ase_plus_plus.Tests.Disk.{formatted}

abbrev raw : Bytes
raw = replicate 20 0

-- `/a//bc/`
inumber_of_path-resolve_example :
    inumber_of_path raw (slash ∷ 97 ∷ slash ∷ slash ∷ 98 ∷ 99 ∷ slash ∷ []) formatted
    ≡ resolve raw formatted.super.root_inumber ((97 ∷ []) ∷ (98 ∷ 99 ∷ []) ∷ []) formatted
inumber_of_path-resolve_example =
    inumber_of_path-resolve raw slash (97 ∷ slash ∷ slash ∷ 98 ∷ 99 ∷ slash ∷ []) formatted

abbrev directory : FileDesc
directory = record {
  fds_inumber = 1;
  fds_size = 39;
  fds_pos = 0;
  fds_buf = replicate 512 0;
  fds_dirty = false;
}

find_entry_from-FindLoop_example :
    FindLoop
      (97 ∷ [])
      directory
      raw
      0
      formatted
      (find_entry_from (rounds directory) directory raw 0 (97 ∷ []) formatted)
find_entry_from-FindLoop_example =
    find_entry_from-FindLoop (97 ∷ []) directory raw 0 formatted (omega arith)

-- `cd ..` in the root
do_cd-IsCwd_example : Gives IsCwd (do_cd raw (slash ∷ []) (dot ∷ dot ∷ []) formatted)
do_cd-IsCwd_example =
    do_cd-IsCwd raw (slash ∷ []) (dot ∷ dot ∷ []) formatted
      (record { starts = ([], refl); ends = refl; fits = omega arith })
