-- ===== src/SectorTools/Shown.antt =====
-- What dmps (src/dmps.c) and frmt (src/frmt.c) dump.
use ase_plus_plus.Prelude.{
  ℕ, zero, suc, ◌+◌, ◌-◌, ◌<◌, ◌≡◌, ap, ◌∙◌, arith, List, [], ◌∷◌, length, take_all, inl, inr,
  Option-cases,
}
use ase_plus_plus.Words.{Bytes}
use ase_plus_plus.Storage
use ase_plus_plus.Storage.{Storage, sector_size}
use ase_plus_plus.Hardware.{Hardware, Ata}
use ase_plus_plus.Drive.{disk_info, read_sector, format_sector}
use ase_plus_plus.Drive.Refine.{disk_info-size, disk_info-storage, read_sector-refines}
use ase_plus_plus.SectorTools.{
  Ending, failure, usage, aborted, dumped, dump_sector, dmps_main, format_sectors, frmt_main,
}

-- On hardware that obeys the laws, dmps with the address of a sector of the disk dumps what that sector holds, and
-- leaves the sectors of the disk as they are.
pub dmps-cells :
    (hw : Hardware) (ata : Ata hw) (n c t : ℕ) (raw : ℕ → Bytes) (s : hw.State)
    → c < ata.cylinders
    → t < ata.sectors
    → length (raw sector_size) ≡ sector_size
    → (s' : hw.State) × (dmps_main hw (suc n) (c ∷ t ∷ []) raw s
        ≡ dumped ((ata.storage s).cells c t ∷ []) s')
      × ((ata.storage s').cells ≡ (ata.storage s).cells)
unfolding dmps_main Storage.read_nsector
dmps-cells hw ata n c t raw s hc ht l =
    let s1 = (disk_info hw s).1 in
    let same = disk_info-storage hw ata s in
    let (s2, run, left) = read_sector-refines hw ata c t (raw sector_size) s1 hc ht l in
    let whole =
      take_all sector_size ((ata.storage s1).cells c t) (omega (arith, ata.cells-length s1 c t)) in
    (
      s2,
      rw (disk_info-size hw ata s, run, dump_sector)
          (ap (λ b. dumped (b ∷ []) s2) (whole ∙ ap (λ (d : Storage). d.cells c t) same)),
      ap (λ (d : Storage). d.cells) left ∙ ap (λ (d : Storage). d.cells) same,
    )

-- The sectors that frmt formats are as many as from the second number of its arguments to the third, which it calls
-- the number of sectors: none, where that is the smaller one.
pub frmt-length :
    (hw : Hardware) (n cylinder sector nbsector : ℕ) (raw : ℕ → Bytes) (s s' : hw.State)
    (bs : List Bytes)
    → frmt_main hw (suc n) (cylinder ∷ sector ∷ nbsector ∷ []) raw s ≡ dumped bs s'
    → length bs ≡ nbsector - sector
unfolding frmt_main
frmt-length hw n cylinder sector nbsector raw s s' bs e =
    loop (nbsector - sector) sector (raw (disk_info hw s).0) (disk_info hw s).1 s' bs e
  where
    cases :
        {S : Type 0} (r : Ending S) (b : Bytes) (bs : List Bytes) (s : S)
        → (let more : Ending S = elim r [
          | failure ↦ failure
          | usage ↦ usage
          | aborted ↦ aborted
          | dumped bs s2 ↦ dumped (b ∷ bs) s2
        ] in
            more ≡ dumped bs s)
        → (cs : List Bytes) × (r ≡ dumped cs s) × (bs ≡ b ∷ cs)
    cases failure b bs s e = absurd (ground arith)
    cases usage b bs s e = absurd (ground arith)
    cases aborted b bs s e = absurd (ground arith)
    cases (dumped cs s1) b bs s e = (cs, ground arith, ground arith)

    loop :
        (n j : ℕ) (buff : Bytes) (s s' : hw.State) (bs : List Bytes)
        → format_sectors hw n cylinder j buff s ≡ dumped bs s'
        → length bs ≡ n
    loop zero j buff s s' bs e = ground (arith, e)
    loop (suc n) j buff s s' bs e = elim (Option-cases (read_sector hw cylinder j buff s)) [
      | inl bad ↦ absurd (ground (arith, e, bad))
      | inr (r, fine) ↦
          let (cs, rest, at_bs) =
            cases (format_sectors hw n cylinder (j + 1) r.0 (format_sector hw cylinder j 1 0 r.1))
              r.0 bs s' (rw (fine, format_sectors) at e) in
          omega (
            arith,
            loop n (j + 1) r.0 (format_sector hw cylinder j 1 0 r.1) s' cs rest,
            ap length at_bs,
          )
    ]
