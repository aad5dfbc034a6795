-- ===== src/Tests/Driver.antt =====
-- The theorems on the disk driver at a concrete machine.
use ase_plus_plus.Prelude.{ℕ, replicate, length-replicate, ◌≡◌, [], ◌∷◌, arith}
use ase_plus_plus.SectorTools.{dumped, dmps_main}
use ase_plus_plus.SectorTools.Shown.{dmps-cells}
use ase_plus_plus.Tests.Machine.{Machine, machine, machine_ata, sevens}

dmps-cells_example :
    (s : Machine) × (dmps_main machine 1 (5 ∷ 7 ∷ []) (λ n. replicate n 0) sevens
      ≡ dumped (sevens.disk.cells 5 7 ∷ []) s)
    × (s.disk.cells ≡ sevens.disk.cells)
dmps-cells_example =
    dmps-cells machine machine_ata 0 5 7 (λ n. replicate n 0) sevens (omega arith) (omega arith)
      (length-replicate {A = ℕ} 512 0)
