-- ===== src/Storage.antt =====
-- The disk as the layers above the driver take it: 512-byte sectors by cylinder and sector, and the transfer
-- buffer of the master disk. It is an assumption of theirs, not a translation of src/drive.c, which Drive
-- models: here a disk has a sector at every address, where the driver hands over 16 bits of a cylinder and of
-- a sector, no transfer is longer than a sector, and a write stores one sector. Drive/Refine says how far the
-- driver keeps to it.
use ase_plus_plus.Prelude.{ℕ, ◌&&◌, ◌++◌, ◌==◌, if◌then◌else◌, take, drop, length}
use ase_plus_plus.Words.{Bytes}

abbrev pub sector_size : ℕ
sector_size = 512

-- The sectors, and MASTERBUFFER.
pub record Storage : Type 0 where
  pub cells : ℕ → ℕ → Bytes
  pub master : Bytes

-- The disk with one sector replaced.
abbrev pub put : (ℕ → ℕ → Bytes) → ℕ → ℕ → Bytes → ℕ → ℕ → Bytes
put cells c s b i j = if i == c && j == s then b else cells i j

-- A whole sector passes through the transfer buffer; the caller takes `size` bytes.
unfoldable pub read_nsector : ℕ → ℕ → ℕ → Storage → Bytes × Storage
read_nsector c s size d = (take size (d.cells c s), record d { master = d.cells c s })

-- Only the first `size` bytes of the transfer buffer are replaced, and the whole buffer is written.
unfoldable pub write_nsector : ℕ → ℕ → Bytes → Storage → Storage
write_nsector c s b d =
    let m = b ++ drop (length b) d.master in record { cells = put d.cells c s m; master = m }
