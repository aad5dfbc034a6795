-- ===== src/Hardware/Port.antt =====
-- The port numbers of src/hardware_ini.h that the disk driver uses.
use ase_plus_plus.Prelude.{ℕ}

abbrev pub hda_cmdreg : ℕ
hda_cmdreg = 0x3F6

abbrev pub hda_dataregs : ℕ
hda_dataregs = 0x110

abbrev pub hda_irq : ℕ
hda_irq = 14
