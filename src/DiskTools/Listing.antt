-- ===== src/DiskTools/Listing.antt =====
-- The table that `list_volumes` prints (src/mbr.c).
use ase_plus_plus.Prelude.{
  ℕ, zero, suc, ◌+◌, ◌≤◌, ◌<◌, ◌≡◌, refl, ap, ◌∙◌, arith, List, [], ◌∷◌, ◌++◌, length, get_or, set,
  take, drop, length-take,
}
use ase_plus_plus.System.{Volume, Mbr, World, ok}
use ase_plus_plus.Mbr.{maxvol, no_volume}
use ase_plus_plus.Volumes.Table.{HasPlaces, entered}
use ase_plus_plus.DiskTools.{Row, row, list_rows, list_volumes}

-- The rows of volumes that are numbered from `i` on.
abbrev pub numbered : (i : ℕ) → List Volume → List Row
numbered i [] = []
numbered i (v ∷ vs) = row i v ∷ numbered (i + 1) vs

-- The volumes of a table.
abbrev pub volumes_of : Mbr → List Volume
volumes_of m = take m.nbvols m.mbr_vol

drop-next :
    (vs : List Volume) (i : ℕ) → i < length vs → drop i vs ≡ get_or vs i no_volume ∷ drop (suc i) vs
drop-next [] i h = absurd (omega arith)
drop-next (v ∷ vs) zero h = refl
drop-next (v ∷ vs) (suc i) h = drop-next vs i (omega arith)

list_rows-numbered :
    (n i : ℕ) (w : World)
    → length w.mbr.mbr_vol ≡ maxvol
    → i + n ≤ maxvol
    → list_rows n i w ≡ ok (numbered i (take n (drop i w.mbr.mbr_vol))) w
unfolding list_rows
list_rows-numbered zero i w l h = refl
list_rows-numbered (suc n) i w l h =
    let e : i + 1 ≡ suc i = omega arith in
    let rest = list_rows-numbered n (i + 1) w l (omega arith) in
    ground (arith, rest, e, drop-next w.mbr.mbr_vol i (omega arith))

-- What is printed are the volumes of the table with their numbers, in their order.
pub list_volumes-numbered :
    (w : World) → HasPlaces w → list_volumes w ≡ ok (numbered 0 (volumes_of w.mbr)) w
unfolding list_volumes
list_volumes-numbered w t = list_rows-numbered w.mbr.nbvols 0 w t.places (omega (arith, t.taken))

numbered-append :
    (i : ℕ) (us vs : List Volume)
    → numbered i (us ++ vs) ≡ numbered i us ++ numbered (i + length us) vs
numbered-append i [] vs = ap (λ k. numbered k vs) (omega arith)
numbered-append i (u ∷ us) vs =
    ap (λ r. row i u ∷ r)
      (numbered-append (i + 1) us vs ∙ ap (λ k. numbered (i + 1) us ++ numbered k vs) (omega arith))

take-set_last :
    (vs : List Volume) (n : ℕ) (v : Volume)
    → n < length vs
    → take (n + 1) (set vs n v) ≡ take n vs ++ (v ∷ [])
take-set_last [] n v h = absurd (omega arith)
take-set_last (u ∷ vs) zero v h = refl
take-set_last (u ∷ vs) (suc n) v h = ground (arith, take-set_last vs n v (omega arith))

-- A table with one volume more has one row more, the last one.
pub numbered-entered :
    (w : World) (v : Volume)
    → HasPlaces w
    → w.mbr.nbvols < maxvol
    → numbered 0 (volumes_of (entered w v).mbr)
      ≡ numbered 0 (volumes_of w.mbr) ++ (row w.mbr.nbvols v ∷ [])
numbered-entered w v t less =
    let n = w.mbr.nbvols in
    let vs = w.mbr.mbr_vol in
    let size : length (take n vs) ≡ n = omega (arith, length-take n vs, t.places) in
    ap (numbered 0) (take-set_last vs n v (omega (arith, t.places)))
    ∙ numbered-append 0 (take n vs) (v ∷ [])
    ∙ ap (λ k. numbered 0 (take n vs) ++ (row k v ∷ [])) (omega (arith, size))
