-- ===== src/Hardware/Command.antt =====
-- The ATA-2 commands of include/hardware.h that the disk driver issues.
use ase_plus_plus.Prelude.{ℕ}

abbrev pub seek : ℕ
seek = 0x02

abbrev pub read : ℕ
read = 0x04

abbrev pub write : ℕ
write = 0x06

abbrev pub format : ℕ
format = 0x08

abbrev pub dskinfo : ℕ
dskinfo = 0x16
