-- ===== src/Hardware.antt =====
-- The simulated hardware of lib/libhardware.a, through the interface of include/hardware.h. The
-- library is not part of the sources: its operations are a parameter, and what the driver relies on
-- are the laws of `Ata`, the ATA-2 commands that hardware.h names.
pub mod Port
pub mod Command
use ase_plus_plus.Prelude.{ℕ, ◌+◌, ◌*◌, ◌<◌, ◌≡◌, ◌==◌, if◌then◌else◌, length, get_or, set}
use ase_plus_plus.Storage.{Storage, sector_size, put}

-- `_out`, `_in`, `_sleep`, and the bytes of MASTERBUFFER.
pub record Hardware : Type 1 where
  pub State : Type 0
  pub out : (port value : ℕ) → State → State
  pub input : (port : ℕ) → State → ℕ × State
  pub sleep : (irq_level : ℕ) → State → State
  pub master : ℕ → State → ℕ
  pub set_master : ℕ → ℕ → State → State

-- The data registers are sixteen bytes.
abbrev pub data_regs : ℕ
data_regs = 16

abbrev pub data_reg : ℕ → ℕ
data_reg k = Port.hda_dataregs + k

-- A command, and the wait for its interrupt.
abbrev pub issue : (hw : Hardware) → ℕ → hw.State → hw.State
issue hw command s = hw.sleep Port.hda_irq (hw.out Port.hda_cmdreg command s)

-- The laws that the driver relies on. A state is seen by its data registers, the address under the
-- head, and the storage; a disk has a number of cylinders, and of sectors in each.
pub record Ata (hw : Hardware) : Type 1 where
  pub reg : hw.State → ℕ → ℕ
  pub head : hw.State → ℕ × ℕ
  pub storage : hw.State → Storage
  pub cylinders : ℕ
  pub sectors : ℕ
  pub geometry : (cylinders < 65536) × (sectors < 65536)
  -- a byte written to a data register stays there, and changes nothing else
  pub out-reg :
      (k v j : ℕ) (s : hw.State)
      → k < data_regs
      → v < 256
      → reg (hw.out (data_reg k) v s) j ≡ (if j == k then v else reg s j)
  pub out-head : (k v : ℕ) (s : hw.State) → k < data_regs → head (hw.out (data_reg k) v s) ≡ head s
  pub out-storage :
      (k v : ℕ) (s : hw.State) → k < data_regs → storage (hw.out (data_reg k) v s) ≡ storage s
  -- SEEK moves the head to the address in the first four data registers
  pub seek-head :
      (c t : ℕ) (s : hw.State)
      → c < cylinders
      → t < sectors
      → reg s 0 * 256 + reg s 1 ≡ c
      → reg s 2 * 256 + reg s 3 ≡ t
      → head (issue hw Command.seek s) ≡ (c, t)
  pub seek-storage : (s : hw.State) → storage (issue hw Command.seek s) ≡ storage s
  -- READ of one sector fills the transfer buffer
  pub read-storage :
      (s : hw.State)
      → reg s 0 ≡ 0
      → reg s 1 ≡ 1
      → storage (issue hw Command.read s)
        ≡ record (storage s) { master = (storage s).cells (head s).0 (head s).1 }
  -- WRITE of one sector stores the transfer buffer in the sector under the head
  pub write-storage :
      (s : hw.State)
      → reg s 0 ≡ 0
      → reg s 1 ≡ 1
      → storage (issue hw Command.write s) ≡ record (storage s) {
        cells = put (storage s).cells (head s).0 (head s).1 (storage s).master;
      }
  -- DSKINFO leaves the sector size in registers 4 and 5; reading a register changes nothing
  pub info-hi :
      (s : hw.State) → (hw.input (data_reg 4) (hw.out Port.hda_cmdreg Command.dskinfo s)).0 ≡ 2
  pub info-lo :
      (s : hw.State)
      → let (_, s') = hw.input (data_reg 4) (hw.out Port.hda_cmdreg Command.dskinfo s) in
        (hw.input (data_reg 5) s').0 ≡ 0
  pub info-storage : (s : hw.State) → storage (hw.out Port.hda_cmdreg Command.dskinfo s) ≡ storage s
  pub input-storage : (p : ℕ) (s : hw.State) → storage (hw.input p s).1 ≡ storage s
  -- the transfer buffer holds one sector of bytes
  pub master-length : (s : hw.State) → length (storage s).master ≡ sector_size
  pub cells-length : (s : hw.State) (c t : ℕ) → length ((storage s).cells c t) ≡ sector_size
  pub master_lem : (i : ℕ) (s : hw.State) → hw.master i s ≡ get_or (storage s).master i 0
  pub set-storage :
      (i v : ℕ) (s : hw.State)
      → storage (hw.set_master i v s) ≡ record (storage s) { master = set (storage s).master i v }
