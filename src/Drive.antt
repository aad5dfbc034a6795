-- ===== src/Drive.antt =====
-- The disk driver, src/drive.c, over the raw hardware. `none` is a failed assertion. A C buffer is a
-- list: a function that fills one takes it and returns it filled. `dump`, which prints, is left out.
pub mod Refine
pub mod Seek
use ase_plus_plus.Prelude.{
  ℕ, zero, suc, ◌+◌, ◌*◌, ◌/◌, ◌%◌, Option, none, some, ◌==◌, if◌then◌else◌, get_or, set,
}
use ase_plus_plus.Words.{Bytes}
use ase_plus_plus.Hardware.{Hardware, data_reg, issue}
use ase_plus_plus.Hardware.Port
use ase_plus_plus.Hardware.Command

-- `(x >> 8) & 0xFF` and `x & 0xFF`
abbrev pub hi_byte : ℕ → ℕ
hi_byte x = x / 256 % 256

abbrev pub lo_byte : ℕ → ℕ
lo_byte x = x % 256

module _ (hw : Hardware) where
  open hw use {State, out, input, master, set_master}

  unfoldable pub seek_sector : (cylinder sector : ℕ) → State → State
  seek_sector cylinder sector s0 =
      let s1 = out (data_reg 0) (hi_byte cylinder) s0 in
      let s2 = out (data_reg 1) (lo_byte cylinder) s1 in
      let s3 = out (data_reg 2) (hi_byte sector) s2 in
      let s4 = out (data_reg 3) (lo_byte sector) s3 in issue hw Command.seek s4

  -- `for (i = 0; i < size; i++) buffer[i] = MASTERBUFFER[i];`, `n` rounds from `i` on
  unfoldable pub copy_from_master : (n i : ℕ) → Bytes → State → Bytes
  copy_from_master zero i buffer s = buffer
  copy_from_master (suc n) i buffer s = copy_from_master n (i + 1) (set buffer i (master i s)) s

  -- `for (i = 0; i < size; i++) MASTERBUFFER[i] = buffer[i];`
  unfoldable pub copy_to_master : (n i : ℕ) → Bytes → State → State
  copy_to_master zero i buffer s = s
  copy_to_master (suc n) i buffer s =
      copy_to_master n (i + 1) buffer (set_master i (get_or buffer i 0) s)

  unfoldable pub read_nsector :
      (cylinder sector : ℕ) → Bytes → (size : ℕ) → State → Option (Bytes × State)
  read_nsector cylinder sector buffer size s0 =
      let s1 = seek_sector cylinder sector s0 in
      let s2 = out (data_reg 0) 0 s1 in
      let s3 = out (data_reg 1) 1 s2 in
      let s4 = issue hw Command.read s3 in
      if size == 0 then none else some (copy_from_master size 0 buffer s4, s4)

  -- `CMD_DSKINFO` and the two bytes of the sector size
  unfoldable pub disk_info : State → ℕ × State
  disk_info s0 =
      let s1 = out Port.hda_cmdreg Command.dskinfo s0 in
      let (hi, s2) = input (data_reg 4) s1 in
      let (lo, s3) = input (data_reg 5) s2 in (hi * 256 + lo, s3)

  unfoldable pub read_sector : (cylinder sector : ℕ) → Bytes → State → Option (Bytes × State)
  read_sector cylinder sector buffer s0 =
      let (size, s1) = disk_info s0 in read_nsector cylinder sector buffer size s1

  -- What `write_nsector` asks for: the size of the transfer, with its high byte left in place.
  unfoldable pub set_count : ℕ → State → State
  set_count size s = out (data_reg 1) (lo_byte size) (out (data_reg 0) (hi_byte size * 256) s)

  unfoldable pub write_nsector : (cylinder sector : ℕ) → Bytes → (size : ℕ) → State → Option State
  write_nsector cylinder sector buffer size s0 =
      let s1 = copy_to_master size 0 buffer s0 in
      let s2 = seek_sector cylinder sector s1 in
      if size == 0 then none else some (issue hw Command.write (set_count size s2))

  unfoldable pub write_sector : (cylinder sector : ℕ) → Bytes → State → Option State
  write_sector cylinder sector buffer s0 =
      let (size, s1) = disk_info s0 in write_nsector cylinder sector buffer size s1

  unfoldable pub format_sector : (cylinder sector nsector value : ℕ) → State → State
  format_sector cylinder sector nsector value s0 =
      let s1 = seek_sector cylinder sector s0 in
      let s2 = out (data_reg 0) (hi_byte nsector) s1 in
      let s3 = out (data_reg 1) (lo_byte nsector) s2 in
      let s4 = out (data_reg 2) (value / 16777216 % 256) s3 in
      let s5 = out (data_reg 3) (value / 65536 % 256) s4 in
      let s6 = out (data_reg 4) (hi_byte value) s5 in
      let s7 = out (data_reg 5) (lo_byte value) s6 in issue hw Command.format s7
