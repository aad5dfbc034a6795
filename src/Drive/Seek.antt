-- ===== src/Drive/Seek.antt =====
-- The address that `seek_sector` (src/drive.c) hands to the disk.
use ase_plus_plus.Prelude.{ℕ, ◌+◌, ◌*◌, ◌<◌, ◌≡◌, ◌∙◌, arith}
use ase_plus_plus.Hardware.{Hardware, Ata, data_reg}
use ase_plus_plus.Drive.{seek_sector, hi_byte, lo_byte}

module _ (hw : Hardware) (ata : Ata hw) where
  open ata use {reg, head, storage, out-reg, out-storage, out-head}

  pub seek_sector-storage : (c t : ℕ) (s : hw.State) → storage (seek_sector hw c t s) ≡ storage s
  unfolding seek_sector
  seek_sector-storage c t s =
      ata.seek-storage _
      ∙ out-storage 3 _ _ (omega arith)
      ∙ out-storage 2 _ _ (omega arith)
      ∙ out-storage 1 _ _ (omega arith)
      ∙ out-storage 0 _ _ (omega arith)

  -- Four bytes written in turn to the first four data registers stand there.
  four_regs :
      (a b c d : ℕ) (s : hw.State)
      → a < 256
      → b < 256
      → c < 256
      → d < 256
      → let s' =
          hw.out
            (data_reg 3)
            d
            (hw.out (data_reg 2) c (hw.out (data_reg 1) b (hw.out (data_reg 0) a s))) in
        (reg s' 0 ≡ a) × (reg s' 1 ≡ b) × (reg s' 2 ≡ c) × (reg s' 3 ≡ d)
  four_regs a b c d s ha hb hc hd = (
    out-reg 3 d 0 _ (omega arith) hd
        ∙ out-reg 2 c 0 _ (omega arith) hc
        ∙ out-reg 1 b 0 _ (omega arith) hb
        ∙ out-reg 0 a 0 _ (omega arith) ha,
    out-reg 3 d 1 _ (omega arith) hd
        ∙ out-reg 2 c 1 _ (omega arith) hc
        ∙ out-reg 1 b 1 _ (omega arith) hb,
    out-reg 3 d 2 _ (omega arith) hd ∙ out-reg 2 c 2 _ (omega arith) hc,
    out-reg 3 d 3 _ (omega arith) hd,
  )

  -- The two bytes of an address part make it up again.
  bytes_of : (x n : ℕ) → x < n → n < 65536 → hi_byte x * 256 + lo_byte x ≡ x
  bytes_of x n h g = omega arith

  pub seek_sector-head :
      (c t : ℕ) (s : hw.State)
      → c < ata.cylinders
      → t < ata.sectors
      → head (seek_sector hw c t s) ≡ (c, t)
  unfolding seek_sector
  seek_sector-head c t s hc ht =
      let r =
        four_regs (hi_byte c) (lo_byte c) (hi_byte t) (lo_byte t) s (omega arith) (omega arith)
          (omega arith) (omega arith) in
      ata.seek-head c t _ hc ht (rw (r.0, r.1) (bytes_of c _ hc ata.geometry.0))
        (rw (r.2, r.3) (bytes_of t _ ht ata.geometry.1))
