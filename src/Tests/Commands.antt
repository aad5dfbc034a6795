-- ===== src/Tests/Commands.antt =====
-- Command lines, a dialogue with the volume manager and a mounting, and the theorems on them applied.
use ase_plus_plus.Prelude.{
  ℕ, ◌<◌, ◌≡◌, refl, arith, List, [], ◌∷◌, ◌++◌, ◌==◌, if◌then◌else◌, some, set,
}
use ase_plus_plus.Words.{Bytes, IsWord}
use ase_plus_plus.System.{World, ok, stop, exit}
use ase_plus_plus.Mbr.{read_mbr}
use ase_plus_plus.Volumes.{create_volume}
use ase_plus_plus.Shell.{cp, eval, command_names}
use ase_plus_plus.Shell.Lines.{eval-commands}
use ase_plus_plus.Shell.Complete.{matches, completions, completions-matches}
use ase_plus_plus.Manager.{loop, dialogue}
use ase_plus_plus.Manager.Dialogue.{quit_name, dialogue-read_mbr}
use ase_plus_plus.Mutex.{sem_init}
use ase_plus_plus.Mbr.Frame.{IsMounted}
use ase_plus_plus.Superbloc.{super_magic}
use ase_plus_plus.Superbloc.Codec.{super_on, super_loaded}
use ase_plus_plus.Mount.{mount_volume}
use ase_plus_plus.Mount.Volume.{ready_for, mount_volume-cases}
use ase_plus_plus.Tests.Disk.{blank, table-IsTable, fresh, fresh-IsFormattable}

-- ` cp  a b`
eval-commands_example :
    eval (32 ∷ 99 ∷ 112 ∷ 32 ∷ 32 ∷ 97 ∷ 32 ∷ 98 ∷ []) ≡ some (cp, 97 ∷ 32 ∷ 98 ∷ [])
eval-commands_example =
    eval-commands 4 (32 ∷ []) 32 (32 ∷ []) (97 ∷ 32 ∷ 98 ∷ []) (omega arith) (refl, tt) refl
      (refl, tt) refl

-- `c`
completions-matches_example : completions 16 0 0 (99 ∷ []) ≡ matches (99 ∷ []) command_names
completions-matches_example = completions-matches (99 ∷ []) 16 (omega arith)

matches_test :
    matches (99 ∷ []) command_names
    ≡ (99 ∷ 97 ∷ 116 ∷ [])
      ∷ (99 ∷ 100 ∷ [])
      ∷ (99 ∷ 108 ∷ 111 ∷ 99 ∷ 107 ∷ [])
      ∷ (99 ∷ 111 ∷ 109 ∷ 112 ∷ 117 ∷ 116 ∷ 101 ∷ [])
      ∷ (99 ∷ 112 ∷ [])
      ∷ []
unfolding matches
matches_test = refl

-- `new` of a volume
abbrev lines : List (Bytes × List ℕ)
lines = (110 ∷ 101 ∷ 119 ∷ [], 2 ∷ 0 ∷ 4 ∷ 1 ∷ []) ∷ []

abbrev with_volume : World
with_volume = record blank {
  mbr = record (blank.mbr) {
    mbr_vol =
        set blank.mbr.mbr_vol 1
          (record { vol_cylinder = 2; vol_sector = 0; vol_nsectors = 4; vol_type = 1; valide = 0 });
    nbvols = 2;
  };
}

new_volume : loop lines blank ≡ ok tt with_volume
unfolding loop create_volume
new_volume = refl

dialogue-read_mbr_example :
    (w : World) × (dialogue (lines ++ ((quit_name, 1 ∷ []) ∷ [])) blank ≡ stop (exit 0) w)
    × ((u : World)
        → u.storage ≡ w.storage
        → (u' : World) × (read_mbr u ≡ ok tt u') × (u'.mbr ≡ with_volume.mbr))
dialogue-read_mbr_example =
    let word : (n : ℕ) → n < 1000 → IsWord n = λ n h. omega arith in
    dialogue-read_mbr lines blank with_volume
      (
        (
          word 2 (omega arith),
          (word 0 (omega arith), (word 4 (omega arith), (word 1 (omega arith), tt))),
        ),
        tt,
      )
      (record { table = table-IsTable; magic = refl; taken = omega arith }) new_volume

-- A disk with the table and a volume without a file system
fresh-IsMounted : IsMounted (ready_for 0 fresh) 0
unfolding sem_init
fresh-IsMounted =
    let f = fresh-IsFormattable in
    record {
      ready = record { formatted = f.magic; mutex = refl; free = omega arith };
      volume = f.volume;
      fits = record { sectors = f.fits.sectors; cylinders = f.fits.cylinders };
      disk = record { master = f.disk.cells 0 0; cells = f.disk.cells };
    }

mount_volume-cases_example : mount_volume 0 fresh ≡ (
    if (super_on (ready_for 0 fresh) 0).magic == super_magic
    then ok tt (super_loaded 0 (ready_for 0 fresh))
    else stop (exit 2) (super_loaded 0 (ready_for 0 fresh)))
mount_volume-cases_example = mount_volume-cases 0 fresh fresh-IsFormattable.magic fresh-IsMounted
