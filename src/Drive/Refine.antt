-- ===== src/Drive/Refine.antt =====
-- How far the driver of src/drive.c keeps to Storage on any hardware that obeys the laws `Ata`: its reads do,
-- and its writes ask for as many sectors as the buffer has bytes.
use ase_plus_plus.Prelude.{
  ℕ, zero, suc, ◌+◌, ◌*◌, ◌<◌, ◌≤◌, ◌≡◌, refl, sym, ◌∙◌, ap, some, [], ◌∷◌, ◌++◌, arith, ◌==◌,
  length, take, drop, get_or, set, length-set, false, take_all, drop_all, append-nil,
}
use ase_plus_plus.Words.{Bytes}
use ase_plus_plus.Storage
use ase_plus_plus.Storage.{Storage}
use ase_plus_plus.Hardware.{Hardware, Ata, issue, data_reg}
use ase_plus_plus.Hardware.Command
use ase_plus_plus.Drive.{
  seek_sector, copy_from_master, copy_to_master, disk_info, read_nsector, read_sector, set_count,
  write_nsector, hi_byte, lo_byte,
}
use ase_plus_plus.Drive.Seek.{seek_sector-storage, seek_sector-head}

-- The first `i` elements of one list, then `n` of another from index `i`, then the first again.
splice : ℕ → ℕ → Bytes → Bytes → Bytes
splice n zero xs ys = take n ys ++ drop n xs
splice n (suc i) [] ys = []
splice n (suc i) (x ∷ xs) [] = x ∷ xs
splice n (suc i) (x ∷ xs) (y ∷ ys) = x ∷ splice n i xs ys

splice_step :
    (n i : ℕ) (xs ys : Bytes)
    → i < length xs
    → i < length ys
    → splice n (i + 1) (set xs i (get_or ys i 0)) ys ≡ splice (suc n) i xs ys
unfolding splice
splice_step n zero [] ys h k = absurd (omega arith)
splice_step n zero (x ∷ xs) [] h k = absurd (omega arith)
splice_step n zero (x ∷ xs) (y ∷ ys) h k = refl
splice_step n (suc i) [] ys h k = absurd (omega arith)
splice_step n (suc i) (x ∷ xs) [] h k = absurd (omega arith)
splice_step n (suc i) (x ∷ xs) (y ∷ ys) h k =
    let e : suc i + 1 ≡ suc (i + 1) = omega arith in
    rw e (ap (λ r. x ∷ r) (splice_step n i xs ys (omega arith) (omega arith)))

splice-zero : (i : ℕ) (xs ys : Bytes) → splice zero i xs ys ≡ xs
unfolding splice
splice-zero zero xs ys = refl
splice-zero (suc i) [] ys = refl
splice-zero (suc i) (x ∷ xs) [] = refl
splice-zero (suc i) (x ∷ xs) (y ∷ ys) = ap (λ r. x ∷ r) (splice-zero i xs ys)

module _ (hw : Hardware) (ata : Ata hw) where
  open ata use {head, storage}

  copy_from_master-splice :
      (n i : ℕ) (buffer : Bytes) (s : hw.State)
      → i + n ≤ length buffer
      → i + n ≤ Storage.sector_size
      → copy_from_master hw n i buffer s ≡ splice n i buffer (storage s).master
  unfolding copy_from_master
  copy_from_master-splice zero i buffer s h k = sym (splice-zero i buffer _)
  copy_from_master-splice (suc n) i buffer s h k =
      let b' = set buffer i (hw.master i s) in
      let l : length b' ≡ length buffer = length-set buffer i (hw.master i s) in
      copy_from_master-splice n (i + 1) b' s (omega arith) (omega arith)
      ∙ rw (ata.master_lem i s) (
          splice_step n i buffer (storage s).master (omega arith)
            (omega (arith, ata.master-length s)))

  copy_to_master-storage :
      (n i : ℕ) (buffer : Bytes) (s : hw.State)
      → i + n ≤ length buffer
      → i + n ≤ Storage.sector_size
      → storage (copy_to_master hw n i buffer s)
        ≡ record (storage s) { master = splice n i (storage s).master buffer }
  unfolding copy_to_master
  copy_to_master-storage zero i buffer s h k =
      ap (λ m. record (storage s) { master = m }) (sym (splice-zero i _ buffer))
  copy_to_master-storage (suc n) i buffer s h k =
      copy_to_master-storage n (i + 1) buffer (hw.set_master i (get_or buffer i 0) s) (omega arith)
        (omega arith)
      ∙ rw (ata.set-storage i (get_or buffer i 0) s) (
          ap (λ m. record (storage s) { master = m })
            (splice_step n i (storage s).master buffer (omega (arith, ata.master-length s))
              (omega arith)))

  pub disk_info-size : (s : hw.State) → (disk_info hw s).0 ≡ Storage.sector_size
  unfolding disk_info
  disk_info-size s = rw (ata.info-hi s, ata.info-lo s)

  pub disk_info-storage : (s : hw.State) → storage (disk_info hw s).1 ≡ storage s
  unfolding disk_info
  disk_info-storage s = ata.input-storage _ _ ∙ ata.input-storage _ _ ∙ ata.info-storage s

  -- Reading `size` bytes of a sector of the disk into a buffer of that size succeeds, returns what the
  -- storage holds there, and leaves the storage as the storage's own read does.
  pub read_nsector-refines :
      (c t size : ℕ) (buffer : Bytes) (s : hw.State)
      → c < ata.cylinders
      → t < ata.sectors
      → 0 < size
      → size ≤ Storage.sector_size
      → length buffer ≡ size
      → (s' : hw.State) × (read_nsector hw c t buffer size s
          ≡ some ((Storage.read_nsector c t size (storage s)).0, s'))
        × (storage s' ≡ (Storage.read_nsector c t size (storage s)).1)
  unfolding read_nsector Storage.read_nsector splice
  read_nsector-refines c t size buffer s hc ht h0 h1 hl =
      let s1 = seek_sector hw c t s in
      let s2 = hw.out (data_reg 0) 0 s1 in
      let s3 = hw.out (data_reg 1) 1 s2 in
      let s4 = issue hw Command.read s3 in
      let st : storage s3 ≡ storage s =
        ata.out-storage 1 1 s2 (omega arith)
        ∙ ata.out-storage 0 0 s1 (omega arith)
        ∙ seek_sector-storage hw ata c t s in
      let hd : head s3 ≡ (c, t) =
        ata.out-head 1 1 s2 (omega arith)
        ∙ ata.out-head 0 0 s1 (omega arith)
        ∙ seek_sector-head hw ata c t s hc ht in
      let r0 : ata.reg s3 0 ≡ 0 =
        ata.out-reg 1 1 0 s2 (omega arith) (omega arith)
        ∙ ata.out-reg 0 0 0 s1 (omega arith) (omega arith) in
      let r1 : ata.reg s3 1 ≡ 1 = ata.out-reg 1 1 1 s2 (omega arith) (omega arith) in
      let st4 : storage s4 ≡ record (storage s) { master = (storage s).cells c t } =
        ata.read-storage s3 r0 r1 ∙ rw (hd, st) refl in
      let copied : copy_from_master hw size 0 buffer s4 ≡ take size ((storage s).cells c t) =
        copy_from_master-splice size 0 buffer s4 (omega arith) (omega arith)
        ∙ rw (st4, drop_all size buffer (omega arith), append-nil) refl in
      let test : (size == 0) ≡ false = ground arith in (s4, rw (test, copied) refl, st4)

  -- Reading a whole sector of the disk into a buffer of one sector succeeds, returns the sector's 512
  -- bytes, and leaves the storage as the storage's own read does.
  pub read_sector-refines :
      (c t : ℕ) (buffer : Bytes) (s : hw.State)
      → c < ata.cylinders
      → t < ata.sectors
      → length buffer ≡ Storage.sector_size
      → (s' : hw.State) × (read_sector hw c t buffer s
          ≡ some ((Storage.read_nsector c t Storage.sector_size (storage s)).0, s'))
        × (storage s' ≡ (Storage.read_nsector c t Storage.sector_size (storage s)).1)
  unfolding read_sector
  read_sector-refines c t buffer s hc ht hl =
      rw (disk_info-size s, ← disk_info-storage s)
        (read_nsector-refines c t Storage.sector_size buffer (disk_info hw s).1 hc ht (omega arith)
          (omega arith) hl)

  -- Before CMD_WRITE the driver leaves the size in bytes in the two registers from which CMD_READ takes
  -- its number of sectors (there 0 and 1): a transfer of fewer than 256 bytes asks for that many sectors.
  pub set_count-regs :
      (size : ℕ) (s : hw.State)
      → size < 256
      → (ata.reg (set_count hw size s) 0 ≡ 0) × (ata.reg (set_count hw size s) 1 ≡ size)
  unfolding set_count
  set_count-regs size s h =
      let e0 : hi_byte size * 256 ≡ 0 = omega arith in
      let e1 : lo_byte size ≡ size = omega arith in
      (
        ata.out-reg 1 (lo_byte size) 0 _ (omega arith) (omega arith)
            ∙ ata.out-reg 0 (hi_byte size * 256) 0 s (omega arith) (omega arith)
            ∙ e0,
        ata.out-reg 1 (lo_byte size) 1 _ (omega arith) (omega arith) ∙ e1,
      )

  -- Writing a buffer of 1 to 512 bytes to a sector of the disk succeeds: CMD_WRITE is given once the head is on
  -- the sector, and the transfer buffer begins with the bytes; the sectors are as before then.
  pub write_nsector-issued :
      (c t : ℕ) (buffer : Bytes) (s : hw.State)
      → c < ata.cylinders
      → t < ata.sectors
      → 0 < length buffer
      → length buffer ≤ Storage.sector_size
      → (s2 : hw.State) × (write_nsector hw c t buffer (length buffer) s
          ≡ some (issue hw Command.write (set_count hw (length buffer) s2)))
        × (storage (set_count hw (length buffer) s2)
            ≡ record (storage s) { master = buffer ++ drop (length buffer) (storage s).master })
        × (head (set_count hw (length buffer) s2) ≡ (c, t))
  unfolding write_nsector splice set_count
  write_nsector-issued c t buffer s hc ht h0 h1 =
      let n = length buffer in
      let s1 = copy_to_master hw n 0 buffer s in
      let s2 = seek_sector hw c t s1 in
      let s3 = hw.out (data_reg 0) (hi_byte n * 256) s2 in
      let copied : storage s1
          ≡ record (storage s) { master = buffer ++ drop n (storage s).master } =
        copy_to_master-storage n 0 buffer s (omega arith) (omega arith)
        ∙ rw (take_all n buffer (omega arith)) refl in
      let test : (n == 0) ≡ false = ground arith in
      (
        s2,
        rw test refl,
        ata.out-storage 1 _ s3 (omega arith)
            ∙ ata.out-storage 0 _ s2 (omega arith)
            ∙ seek_sector-storage hw ata c t s1
            ∙ copied,
        ata.out-head 1 _ s3 (omega arith)
            ∙ ata.out-head 0 _ s2 (omega arith)
            ∙ seek_sector-head hw ata c t s1 hc ht,
      )

  -- The size of one byte asks for one sector, and writing it leaves the storage as the storage's own write
  -- does. For any other size the law on CMD_WRITE says nothing.
  pub write_nsector-refines :
      (c t b : ℕ) (s : hw.State)
      → c < ata.cylinders
      → t < ata.sectors
      → (s' : hw.State) × (write_nsector hw c t (b ∷ []) 1 s ≡ some s')
        × (storage s' ≡ Storage.write_nsector c t (b ∷ []) (storage s))
  unfolding Storage.write_nsector
  write_nsector-refines c t b s hc ht =
      let (s2, run, st, hd) =
        write_nsector-issued c t (b ∷ []) s hc ht (omega arith) (omega arith) in
      let (r0, r1) = set_count-regs 1 s2 (omega arith) in
      (
        issue hw Command.write (set_count hw 1 s2),
        run,
        ata.write-storage (set_count hw 1 s2) r0 r1 ∙ rw (hd, st) refl,
      )
