-- ===== src/Volumes.antt =====
-- The volume table in memory: `create_volume` and `delete_volume` of src/mbr.c. Both print a message
-- where they refuse.
pub mod Table
use ase_plus_plus.Prelude.{ℕ, zero, suc, ◌+◌, ◌-◌, List, ◌==◌, ltb, leb, if◌then◌else◌, get_or, set}
use ase_plus_plus.System.{Volume, Mbr, Cmd, Void, undefined, pure, halt, ◌>>=◌, gets, modify}
use ase_plus_plus.Mbr.{maxvol, add32, no_volume}

-- `mbr.mbr_vol[mbr.nbvols++] = new;`
unfoldable pub add_volume : Mbr → Volume → Cmd Void
add_volume m v =
    if ltb m.nbvols maxvol
    then modify (λ w. record w {
      mbr = record m { mbr_vol = set m.mbr_vol m.nbvols v; nbvols = add32 m.nbvols 1 };
    })
    else halt undefined

unfoldable pub create_volume : (cylinder sector nsectors vol_type : ℕ) → Cmd Void
unfolding add_volume
create_volume cylinder sector nsectors type = do
  m ← gets (λ w. w.mbr)
  if m.nbvols == maxvol
      then pure tt
      else add_volume m (record {
        vol_cylinder = cylinder;
        vol_sector = sector;
        vol_nsectors = nsectors;
        vol_type = type;
        valide = 0;
      })

-- The loop of `delete_volume`: `n` rounds from `i` on, each of which moves a volume down one place.
-- There is no ninth volume to move.
unfoldable pub shift_volumes : (n i : ℕ) → List Volume → Cmd (List Volume)
shift_volumes zero i vs = pure vs
shift_volumes (suc n) i vs =
    if ltb i maxvol
    then shift_volumes n (i + 1) (set vs (i - 1) (get_or vs i no_volume))
    else halt undefined

unfoldable pub delete_volume : (number : ℕ) → Cmd Void
unfolding shift_volumes
delete_volume number = do
  m ← gets (λ w. w.mbr)
  if leb m.nbvols number then pure tt else (do
    vs ← shift_volumes (m.nbvols - number) (number + 1) m.mbr_vol
    modify (λ w. record w { mbr = record m { mbr_vol = vs; nbvols = m.nbvols - 1 } }))
