-- ===== src/FileTools/Refused.antt =====
-- What `if_nfile` does with a name that is taken (src/if_nfile.c).
use ase_plus_plus.Prelude.{ℕ, ◌+◌, ◌<◌, ◌≡◌, ◌≢◌, arith, ◌∷◌, length, some}
use ase_plus_plus.Words.{Bytes}
use ase_plus_plus.System.{World, pure, ◌>>=◌, ◌>>◌}
use ase_plus_plus.Ifile.{return_failure, open_ifile}
use ase_plus_plus.Commons.{slash}
use ase_plus_plus.Directory.{Entry}
use ase_plus_plus.Directory.Finding.{first_named}
use ase_plus_plus.Directory.Names.{IsDirectory}
use ase_plus_plus.Files.{close_file}
use ase_plus_plus.Files.Root.{IsEntryName, root_entries, create_file_refused}
use ase_plus_plus.Builtins.{type_chars}
use ase_plus_plus.FileTools.{nfile}

-- When the name is that of an entry of the root, `nfile` opens inode -1, the failure of `create_file`, and
-- writes what is typed to it.
nfile_unchecked :
    {w : World} (count : ℕ) (raw name typed : Bytes) (r : ℕ × Entry)
    → IsDirectory w w.super.root_inumber count
    → w.super.root_inumber ≢ 0
    → length raw ≡ 20
    → IsEntryName name
    → length name + 1 < 16
    → first_named (root_entries w count) 0 name ≡ some r
    → (w' : World) × (nfile raw (slash ∷ name) typed w
        ≡ (open_ifile return_failure >>= λ fd.
              type_chars fd typed >>= λ fd'. close_file fd' >> pure return_failure)
            w')
unfolding nfile
nfile_unchecked count raw name typed r d root long plain short found =
    let (w', refused) = create_file_refused count raw name d root long plain 0 r found in
    (w', ground (arith, refused, short))
