-- ===== src/DiskTools/Making.antt =====
-- A volume made by mkvol (src/mkvol.c) and listed by dvol (src/dvol.c).
use ase_plus_plus.Prelude.{
  ℕ, ◌<◌, ◌≡◌, ◌≢◌, refl, sym, ap, subst, ◌∙◌, arith, List, [], ◌∷◌, ◌++◌, false, ◌==◌, Option,
}
use ase_plus_plus.Words.{Bytes, IsWord}
use ase_plus_plus.System.{Volume, World, ok, stop, exit}
use ase_plus_plus.Mbr.{maxvol, mbr_magic, write_mbr}
use ase_plus_plus.Mbr.Layout.{table_on, with_table, read_mbr_found, saved, table_on-saved}
use ase_plus_plus.Volumes.{create_volume}
use ase_plus_plus.Volumes.Table.{HasPlaces, entered, add_volume-entered}
use ase_plus_plus.Manager.Dialogue.{IsKept, Leaves, Kept, create_volume-IsKept, write_mbr-saved}
use ase_plus_plus.DiskTools.{
  ℤ, pos, negsuc, to_unsigned, Libc, Row, row, VolumeArgs, no_volume_args, volume_options, ask,
  make_volume, mkvol_main, init_mbr, list_volumes, dvol_main,
}
use ase_plus_plus.DiskTools.Listing.{numbered, volumes_of, list_volumes-numbered, numbered-entered}

-- The volume of the options, with the numbers that are asked for in place of those that are missing.
abbrev pub asked : VolumeArgs → List (Option ℤ) → Volume
asked a typed =
    let cylinder = ask a.cylinder typed in
    let sector = ask a.sector cylinder.1 in
    let size = ask a.size sector.1 in
    let vol_type = ask a.vol_type size.1 in
    record {
      vol_cylinder = to_unsigned cylinder.0;
      vol_sector = to_unsigned sector.0;
      vol_nsectors = to_unsigned size.0;
      vol_type = to_unsigned vol_type.0;
      valide = 0;
    }

pub to_unsigned-IsWord : (n : ℤ) → IsWord (to_unsigned n)
to_unsigned-IsWord (pos n) = omega arith
to_unsigned-IsWord (negsuc n) = omega arith

IsKept-HasPlaces : (w : World) → IsKept w.mbr → HasPlaces w
IsKept-HasPlaces w k = record { places = k.table.size; taken = k.taken }

entered-IsKept :
    (w : World) (v : Volume)
    → v.valide ≡ 0
    → IsWord v.vol_cylinder
    → IsWord v.vol_sector
    → IsWord v.vol_nsectors
    → IsWord v.vol_type
    → IsKept w.mbr
    → w.mbr.nbvols < maxvol
    → (create_volume v.vol_cylinder v.vol_sector v.vol_nsectors v.vol_type w ≡ ok tt (entered w v))
      × IsKept (entered w v).mbr
entered-IsKept w v new c s n t k less =
    let run : create_volume v.vol_cylinder v.vol_sector v.vol_nsectors v.vol_type w
        ≡ ok tt (entered w v) =
      add_volume-entered v.vol_cylinder v.vol_sector v.vol_nsectors v.vol_type w less
      ∙ ap (λ z. ok tt (entered w (record v { valide = z }))) (sym new) in
    (
      run,
      subst (Leaves Kept) run (
          create_volume-IsKept v.vol_cylinder v.vol_sector v.vol_nsectors v.vol_type w
            (c, (s, (n, (t, tt)))) k),
    )

-- The state of mkvol once the table of the disk is in memory.
abbrev pub opened : World → World
opened w = with_table w (table_on w.storage)

pub init_mbr-opened :
    (status : ℕ) (w : World)
    → status ≢ 0
    → (table_on w.storage).magic_number ≡ mbr_magic
    → init_mbr status w ≡ ok tt (opened w)
unfolding init_mbr
init_mbr-opened status w up magic =
    let start : (status == 0) ≡ false = ground (arith, up) in rw start (read_mbr_found w magic)

-- The course of `main` behind the options.
make_volume-saved :
    (status : ℕ) (a : VolumeArgs) (typed : List (Option ℤ)) (w w1 : World)
    → init_mbr status w ≡ ok tt (opened w)
    → (let v = asked a typed in
        create_volume v.vol_cylinder v.vol_sector v.vol_nsectors v.vol_type (opened w) ≡ ok tt w1)
    → {rows : List Row} → list_volumes w1 ≡ ok rows w1
    → write_mbr w1 ≡ ok tt (saved w1)
    → make_volume status a typed w ≡ stop (exit 0) (saved w1)
unfolding make_volume
make_volume-saved status a typed w w1 e1 e2 e3 e4 = rw (e1, e2, e3, e4)

-- When the options can be read, mkvol on a disk with a well-formed table that is not full ends with status 0,
-- and in any later state on that disk dvol prints the volumes of before and, behind them, the new one: with
-- the numbers of the options, or with the numbers typed where an option is missing or negative.
pub dvol-mkvol :
    (libc : Libc) (status status' : ℕ) (options : List (ℕ × Bytes)) (typed : List (Option ℤ))
    (a : VolumeArgs) (w : World)
    → status ≢ 0
    → status' ≢ 0
    → volume_options libc options no_volume_args w ≡ ok a w
    → IsKept (table_on w.storage)
    → (table_on w.storage).nbvols < maxvol
    → (w2 : World) × (mkvol_main libc status options typed w ≡ stop (exit 0) w2)
      × ((u : World)
          → u.storage ≡ w2.storage
          → (u2 : World) × (dvol_main status' u
              ≡ ok
                  (numbered 0 (volumes_of (table_on w.storage))
                    ++ (row (table_on w.storage).nbvols (asked a typed) ∷ []))
                  u2))
unfolding mkvol_main dvol_main
dvol-mkvol libc status status' options typed a w up up' read k less =
    let w0 = opened w in
    let v = asked a typed in
    let found = init_mbr-opened status w up k.magic in
    let (made, kept) =
      entered-IsKept w0 v refl (to_unsigned-IsWord _) (to_unsigned-IsWord _) (to_unsigned-IsWord _)
        (to_unsigned-IsWord _) k less in
    let w1 = entered w0 v in
    let listed = list_volumes-numbered w1 (IsKept-HasPlaces w1 kept) in
    (
      saved w1,
      rw read (make_volume-saved status a typed w w1 found made listed (write_mbr-saved w1 kept)),
      λ u same.
          let on_u : table_on u.storage ≡ w1.mbr =
            ap table_on same ∙ table_on-saved w1 kept.table in
          let kept_u : IsKept (table_on u.storage) = subst IsKept (sym on_u) kept in
          (
            opened u,
            rw (init_mbr-opened status' u up' kept_u.magic) (
                list_volumes-numbered (opened u) (IsKept-HasPlaces (opened u) kept_u)
                ∙ ap (λ rows. ok rows (opened u))
                    (ap (λ m. numbered 0 (volumes_of m)) on_u
                      ∙ numbered-entered w0 v (IsKept-HasPlaces w0 k) less)),
          ),
    )
