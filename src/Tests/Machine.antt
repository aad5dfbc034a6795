-- ===== src/Tests/Machine.antt =====
-- A disk controller that obeys the laws of the hardware.
use ase_plus_plus.Prelude.{
  ℕ, ◌+◌, ◌-◌, ◌*◌, ◌<◌, ◌≡◌, refl, ap, ◌∙◌, arith, ◌==◌, if◌then◌else◌, length, get_or, set,
  length-set, replicate, length-replicate, false,
}
use ase_plus_plus.Storage.{Storage, sector_size, put}
use ase_plus_plus.Hardware.{Hardware, Ata, data_reg}
use ase_plus_plus.Hardware.Port
use ase_plus_plus.Hardware.Command

pub record Machine : Type 0 where
  pub regs : ℕ → ℕ
  pub at : ℕ × ℕ
  pub disk : Storage
  pub master_full : length disk.master ≡ sector_size
  pub cells_full : (c t : ℕ) → length (disk.cells c t) ≡ sector_size

pub put_full :
    (m : Machine) (c t i j : ℕ) → length (put m.disk.cells c t m.disk.master i j) ≡ sector_size
put_full m c t i j = ground (arith, m.master_full, m.cells_full i j)

abbrev run_seek : Machine → Machine
run_seek m = record m { at = (m.regs 0 * 256 + m.regs 1, m.regs 2 * 256 + m.regs 3) }

abbrev run_read : Machine → Machine
run_read m = record m {
  disk = record (m.disk) { master = m.disk.cells m.at.0 m.at.1 };
  master_full = m.cells_full m.at.0 m.at.1;
  cells_full = m.cells_full;
}

abbrev run_write : Machine → Machine
run_write m = record m {
  disk = record (m.disk) { cells = put m.disk.cells m.at.0 m.at.1 m.disk.master };
  master_full = m.master_full;
  cells_full = put_full m m.at.0 m.at.1;
}

abbrev with_reg : ℕ → ℕ → Machine → Machine
with_reg k v m = record m { regs = λ j. if j == k then v else m.regs j }

abbrev run : ℕ → Machine → Machine
run command m =
    if command == Command.seek
    then run_seek m
    else if command == Command.read
    then run_read m
    else if command == Command.write
    then run_write m
    else if command == Command.dskinfo
    then with_reg 5 0 (with_reg 4 2 m)
    else m

abbrev out_port : ℕ → ℕ → Machine → Machine
out_port p v m = if p == Port.hda_cmdreg then run v m else with_reg (p - Port.hda_dataregs) v m

abbrev pub machine : Hardware
machine = record {
  State = Machine;
  out = out_port;
  input = λ p m. (m.regs (p - Port.hda_dataregs), m);
  sleep = λ irq m. m;
  master = λ i m. get_or m.disk.master i 0;
  set_master = λ i v m. record m {
    disk = record (m.disk) { master = set m.disk.master i v };
    master_full = length-set m.disk.master i v ∙ m.master_full;
    cells_full = m.cells_full;
  };
}

pub out_data : (k v : ℕ) (m : Machine) → k < 16 → out_port (data_reg k) v m ≡ with_reg k v m
out_data k v m h =
    let other : (data_reg k == Port.hda_cmdreg) ≡ false = ground arith in
    let same : data_reg k - Port.hda_dataregs ≡ k = omega arith in rw (other, same)

abbrev pub machine_ata : Ata machine
machine_ata = record {
  reg = λ m. m.regs;
  head = λ m. m.at;
  storage = λ m. m.disk;
  cylinders = 16;
  sectors = 32;
  geometry = (omega arith, omega arith);
  out-reg = λ k v j m h g. ap (λ (u : Machine). u.regs j) (out_data k v m h);
  out-head = λ k v m h. ap (λ (u : Machine). u.at) (out_data k v m h);
  out-storage = λ k v m h. ap (λ (u : Machine). u.disk) (out_data k v m h);
  seek-head = λ c t m hc ht a b. λ i. (a i, b i);
  seek-storage = λ m. refl;
  read-storage = λ m a b. refl;
  write-storage = λ m a b. refl;
  info-hi = λ m. refl;
  info-lo = λ m. refl;
  info-storage = λ m. refl;
  input-storage = λ p m. refl;
  master-length = λ m. m.master_full;
  cells-length = λ m. m.cells_full;
  master_lem = λ i m. refl;
  set-storage = λ i v m. refl;
}

-- A machine whose sectors hold the byte 7, with an empty buffer.
abbrev pub sevens : Machine
sevens = record {
  regs = λ j. 0;
  at = (0, 0);
  disk = record { cells = λ c t. replicate sector_size 7; master = replicate sector_size 0 };
  master_full = length-replicate {A = ℕ} sector_size 0;
  cells_full = λ c t. length-replicate {A = ℕ} sector_size 7;
}
