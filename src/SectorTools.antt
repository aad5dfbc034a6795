-- ===== src/SectorTools.antt =====
-- The programs on single sectors, src/dmps.c, src/frmt.c and src/mkhd.c, over the driver. The result of the
-- hardware's start, the arguments as `atoi` reads them and what `malloc` leaves in an area of a size are
-- arguments; the interrupt vector and the mask are the hardware library's.
pub mod Shown
use ase_plus_plus.Prelude.{
  ℕ, zero, suc, ◌+◌, ◌-◌, List, [], ◌∷◌, Option, none, some, ◌==◌, if◌then◌else◌,
}
use ase_plus_plus.Words.{Bytes}
use ase_plus_plus.Hardware.{Hardware}
use ase_plus_plus.Drive.{disk_info, read_sector, format_sector}

-- How a program ends: with EXIT_FAILURE at the hardware's start, with a message on its use, by a failed
-- assertion, or with the sectors that it dumped.
pub data Ending (S : Type 0) : Type 0 where
  failure : Ending S
  usage : Ending S
  aborted : Ending S
  dumped : List Bytes → S → Ending S

module _ (hw : Hardware) where
  open hw use {State}

  unfoldable pub dump_sector : (cylinder sector : ℕ) → (raw : ℕ → Bytes) → State → Ending State
  dump_sector cylinder sector raw s0 =
      let (size, s1) = disk_info hw s0 in
      elim (read_sector hw cylinder sector (raw size) s1) [
        | none ↦ aborted
        | some (buff, s2) ↦ dumped (buff ∷ []) s2
      ]

  -- `main` of dmps.c.
  unfoldable pub dmps_main :
      (status : ℕ) → (args : List ℕ) → (raw : ℕ → Bytes) → State → Ending State
  unfolding dump_sector
  dmps_main zero args raw s = failure
  dmps_main (suc n) (cylinder ∷ sector ∷ []) raw s = dump_sector cylinder sector raw s
  dmps_main (suc n) _ raw s = usage

  -- The loop of frmt.c, `n` rounds from the sector `j` on.
  unfoldable pub format_sectors : (n cylinder j : ℕ) → (buff : Bytes) → State → Ending State
  format_sectors zero cylinder j buff s = dumped [] s
  format_sectors (suc n) cylinder j buff s0 = elim (read_sector hw cylinder j buff s0) [
    | none ↦ aborted
    | some (b, s1) ↦
        elim (format_sectors n cylinder (j + 1) b (format_sector hw cylinder j 1 0 s1)) [
          | failure ↦ failure
          | usage ↦ usage
          | aborted ↦ aborted
          | dumped bs s2 ↦ dumped (b ∷ bs) s2
        ]
  ]

  -- `main` of frmt.c: the third number, `nbsector`, is where the loop ends.
  unfoldable pub frmt_main :
      (status : ℕ) → (args : List ℕ) → (raw : ℕ → Bytes) → State → Ending State
  unfolding format_sectors
  frmt_main zero args raw s = failure
  frmt_main (suc n) (cylinder ∷ sector ∷ nbsector ∷ []) raw s0 =
      let (size, s1) = disk_info hw s0 in
      format_sectors (nbsector - sector) cylinder sector (raw size) s1
  frmt_main (suc n) _ raw s = usage

  -- `main` of mkhd.c
  unfoldable pub mkhd_main : (status : ℕ) → State → Ending State
  mkhd_main status s = if status == 0 then failure else dumped [] s
