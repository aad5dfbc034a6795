-- ===== src/Volumes/Table.antt =====
-- The volume table as a sequence of at most eight volumes (src/mbr.c).
use ase_plus_plus.Prelude.{
  ℕ, zero, suc, ◌+◌, ◌-◌, ◌≤◌, ◌<◌, ◌≡◌, refl, sym, ap, ◌∙◌, arith, List, length, get_or, set,
  length-set, get_or-set_self, get_or-set_ne,
}
use native.Mathlib.Decide.{ℕ_discrete}
use ase_plus_plus.System.{Volume, World, ok, stop, undefined}
use ase_plus_plus.Mbr.{maxvol, no_volume}
use ase_plus_plus.Volumes.{create_volume, shift_volumes, delete_volume}

-- A table in memory: eight places, of which the first `nbvols` are taken.
pub record HasPlaces (w : World) : Type 0 where
  pub places : length w.mbr.mbr_vol ≡ maxvol
  pub taken : w.mbr.nbvols ≤ maxvol

-- The table with one volume more.
abbrev pub entered : World → Volume → World
entered w v = record w {
  mbr = record (w.mbr) { mbr_vol = set w.mbr.mbr_vol w.mbr.nbvols v; nbvols = w.mbr.nbvols + 1 };
}

pub add_volume-entered :
    (c s n type : ℕ) (w : World)
    → w.mbr.nbvols < maxvol
    → create_volume c s n type w
      ≡ ok tt (
          entered w (record {
            vol_cylinder = c;
            vol_sector = s;
            vol_nsectors = n;
            vol_type = type;
            valide = 0;
          }))
unfolding create_volume
add_volume-entered c s n type w h = ground arith

-- `create_volume` on a table that is not full enters the volume, not valid yet, behind the others, which
-- stay as they are.
pub create_volume_enters :
    (c s n type : ℕ) (w : World)
    → HasPlaces w
    → w.mbr.nbvols < maxvol
    → (w' : World) × (create_volume c s n type w ≡ ok tt w')
      × HasPlaces w'
      × (w'.mbr.nbvols ≡ w.mbr.nbvols + 1)
      × (get_or w'.mbr.mbr_vol w.mbr.nbvols no_volume ≡ record {
        vol_cylinder = c;
        vol_sector = s;
        vol_nsectors = n;
        vol_type = type;
        valide = 0;
      })
      × ((k : ℕ)
          → k < w.mbr.nbvols
          → get_or w'.mbr.mbr_vol k no_volume ≡ get_or w.mbr.mbr_vol k no_volume)
create_volume_enters c s n type w t h =
    let new : Volume = record {
      vol_cylinder = c;
      vol_sector = s;
      vol_nsectors = n;
      vol_type = type;
      valide = 0;
    } in
    (
      entered w new,
      add_volume-entered c s n type w h,
      record { places = length-set w.mbr.mbr_vol _ new ∙ t.places; taken = omega arith },
      refl,
      get_or-set_self w.mbr.mbr_vol w.mbr.nbvols new no_volume (omega (arith, t.places)),
      λ k g. get_or-set_ne w.mbr.mbr_vol new no_volume (λ q. absurd (omega arith)),
    )

-- What the loop of `delete_volume` leaves in each place.
shift_volumes-ok :
    (n i : ℕ) (vs : List Volume) (w : World)
    → 0 < i
    → i + n ≤ maxvol
    → length vs ≡ maxvol
    → (us : List Volume) × (shift_volumes n i vs w ≡ ok us w)
      × (length us ≡ maxvol)
      × ((k : ℕ) → k + 1 < i → get_or us k no_volume ≡ get_or vs k no_volume)
      × ((k : ℕ) → i ≤ k + 1 → k + 1 < i + n → get_or us k no_volume ≡ get_or vs (k + 1) no_volume)
unfolding shift_volumes
shift_volumes-ok zero i vs w p h l = (vs, refl, l, (λ k e. refl), λ k e g. absurd (omega arith))
shift_volumes-ok (suc n) i vs w p h l =
    let moved = set vs (i - 1) (get_or vs i no_volume) in
    let (us, run, size, below, above) =
      shift_volumes-ok n (i + 1) moved w (omega arith) (omega arith)
        (length-set vs (i - 1) _ ∙ l) in
    (
      us,
      ground (arith, run),
      size,
      (λ k e. below k (omega arith) ∙ get_or-set_ne vs _ no_volume (λ q. absurd (omega arith))),
      λ k e g. elim (ℕ_discrete (k + 1) i) [
        | yes q ↦
            let back : i - 1 ≡ k = omega arith in
            below k (omega arith)
            ∙ ap (λ j. get_or (set vs j (get_or vs i no_volume)) k no_volume) back
            ∙ get_or-set_self vs k _ no_volume (omega arith)
            ∙ ap (λ j. get_or vs j no_volume) (sym q)
        | no q ↦
            above k (omega arith) (omega arith)
            ∙ get_or-set_ne vs _ no_volume (λ r. absurd (omega arith))
      ],
    )

-- Past the eighth place there is nothing to move.
shift_volumes-undefined :
    (n i : ℕ) (vs : List Volume) (w : World)
    → i ≤ maxvol
    → maxvol < i + n
    → shift_volumes n i vs w ≡ stop undefined w
unfolding shift_volumes
shift_volumes-undefined zero i vs w p h = absurd (omega arith)
shift_volumes-undefined (suc n) i vs w p h = elim (ℕ_discrete i maxvol) [
  | yes e ↦ ground arith
  | no ne ↦
      let rest =
        shift_volumes-undefined n (i + 1) (set vs (i - 1) (get_or vs i no_volume)) w (omega arith)
          (omega arith) in
      ground (arith, rest)
]

-- `delete_volume` of a volume of the table, where not all eight places are taken, removes that volume:
-- those before it keep their places, those behind it move down by one, and there is one volume less.
pub delete_volume_removes :
    (number : ℕ) (w : World)
    → HasPlaces w
    → number < w.mbr.nbvols
    → w.mbr.nbvols < maxvol
    → (w' : World) × (delete_volume number w ≡ ok tt w')
      × HasPlaces w'
      × (w'.mbr.nbvols + 1 ≡ w.mbr.nbvols)
      × ((k : ℕ)
          → k < number
          → get_or w'.mbr.mbr_vol k no_volume ≡ get_or w.mbr.mbr_vol k no_volume)
      × ((k : ℕ)
          → number ≤ k
          → k < w'.mbr.nbvols
          → get_or w'.mbr.mbr_vol k no_volume ≡ get_or w.mbr.mbr_vol (k + 1) no_volume)
unfolding delete_volume
delete_volume_removes number w t h less =
    let (us, run, size, below, above) =
      shift_volumes-ok (w.mbr.nbvols - number) (number + 1) w.mbr.mbr_vol w (omega arith)
        (omega arith) t.places in
    (
      record w { mbr = record (w.mbr) { mbr_vol = us; nbvols = w.mbr.nbvols - 1 } },
      ground (arith, run),
      record { places = size; taken = omega arith },
      omega arith,
      (λ k g. below k (omega arith)),
      λ k g l. above k (omega arith) (omega arith),
    )

-- When all eight places are taken, `delete_volume` of any of the volumes reads a ninth one, which is not
-- there.
pub delete_volume-full :
    (number : ℕ) (w : World)
    → w.mbr.nbvols ≡ maxvol
    → number < maxvol
    → delete_volume number w ≡ stop undefined w
unfolding delete_volume
delete_volume-full number w full h =
    let run =
      shift_volumes-undefined (w.mbr.nbvols - number) (number + 1) w.mbr.mbr_vol w (omega arith)
        (omega arith) in
    ground (arith, run)

-- A volume entered last and then deleted leaves as many volumes as before, each in its place, if two
-- places were free.
pub delete_volume-create_volume :
    (c s n type : ℕ) (w : World)
    → HasPlaces w
    → w.mbr.nbvols + 1 < maxvol
    → (w' w'' : World) × (create_volume c s n type w ≡ ok tt w')
      × (delete_volume w.mbr.nbvols w' ≡ ok tt w'')
      × (w''.mbr.nbvols ≡ w.mbr.nbvols)
      × ((k : ℕ)
          → k < w.mbr.nbvols
          → get_or w''.mbr.mbr_vol k no_volume ≡ get_or w.mbr.mbr_vol k no_volume)
delete_volume-create_volume c s n type w t h =
    let (w', made, t', count, _, kept) = create_volume_enters c s n type w t (omega arith) in
    let (w'', gone, _, count', before, _) =
      delete_volume_removes w.mbr.nbvols w' t' (omega arith) (omega arith) in
    (w', w'', made, gone, omega arith, λ k g. before k g ∙ kept k g)
