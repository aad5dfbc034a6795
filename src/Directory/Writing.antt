-- ===== src/Directory/Writing.antt =====
-- Writing inside the buffer of an open file (src/ifile.c), and the search for a free entry (src/dir.c), in a
-- directory of one bloc.
use ase_plus_plus.Prelude.{
  ℕ, zero, suc, ◌+◌, ◌*◌, ◌%◌, ◌≤◌, ◌<◌, ◌≡◌, ◌≢◌, refl, ap₂, ◌∙◌, arith, [], ◌∷◌, All, true, false,
  ◌==◌, ltb, if◌then◌else◌, Bool-cases, inl, inr, length, set, length-take, length-drop, take, drop,
}
use ase_plus_plus.Words.{Bytes}
use ase_plus_plus.System.{World, ok}
use ase_plus_plus.Mbr.Blocs.{loaded}
use ase_plus_plus.Mbr.Frame.{IsMounted}
use ase_plus_plus.Inode.Direct.{direct, vbloc_of_fbloc_present}
use ase_plus_plus.Ifile.{FileDesc, ensure_bloc, writec_ifile, write_chars, write_ifile}
use ase_plus_plus.Ifile.Write.{written}
use ase_plus_plus.Directory.{entry_of_bytes, new_entry_from}
use ase_plus_plus.Directory.Finding.{entries}
use ase_plus_plus.Directory.Reading.{IsChar, at_pos, read_ifile-within, read_ifile-end}
use ase_plus_plus.Directory.Splicing.{splice, splice-set, first_free}

-- The size of a file of size `size` once its byte `last` is written: the size is that of the last byte.
abbrev pub sized : (size last : ℕ) → ℕ
sized size last = if ltb size last then last else size

-- The file descriptor once these bytes are in its buffer.
abbrev pub wrote : FileDesc → Bytes → FileDesc
wrote fd [] = fd
wrote fd (c ∷ cs) = wrote (written fd c) cs

writec_ifile-dirty :
    (fd : FileDesc) (c : ℕ) (w : World)
    → fd.fds_dirty ≡ true
    → fd.fds_pos + 1 < 512
    → writec_ifile fd c w ≡ ok (fd.fds_pos, written fd c) w
unfolding writec_ifile ensure_bloc
writec_ifile-dirty fd c w dirty small = ground (arith, dirty)

write_chars-dirty :
    (cs : Bytes) (fd : FileDesc) (w : World)
    → fd.fds_dirty ≡ true
    → fd.fds_pos + length cs < 512
    → write_chars fd cs w ≡ ok (true, wrote fd cs) w
unfolding write_chars
write_chars-dirty [] fd w dirty small = refl
write_chars-dirty (c ∷ cs) fd w dirty small =
    let next : (written fd c).fds_pos ≡ fd.fds_pos + 1 = omega arith in
    let one = writec_ifile-dirty fd c w dirty (omega arith) in
    let rest = write_chars-dirty cs (written fd c) w refl (omega arith) in ground (arith, one, rest)

-- Bytes written to a bloc of the file that is there, with none written to it before.
pub write_ifile-within :
    {w : World} (fd : FileDesc) (c : ℕ) (cs : Bytes)
    → IsMounted w w.current_volume
    → direct w fd.fds_inumber 0 ≢ 0
    → fd.fds_dirty ≡ false
    → fd.fds_pos + suc (length cs) < 512
    → write_ifile fd (c ∷ cs) (suc (length cs)) w
      ≡ ok (suc (length cs), wrote fd (c ∷ cs)) (loaded w.current_volume fd.fds_inumber w)
unfolding write_ifile write_chars writec_ifile ensure_bloc
write_ifile-within {w} fd c cs m there clean small =
    let n = fd.fds_inumber in
    let found = vbloc_of_fbloc_present m n 0 (omega arith) true there in
    let rest =
      write_chars-dirty cs (written fd c) (loaded w.current_volume n w) refl (omega arith) in
    ground (arith, found, there, clean, rest)

-- What is in the descriptor then.
pub wrote-splice :
    (cs : Bytes) (fd : FileDesc)
    → fd.fds_pos + length cs < 512
    → ((wrote fd cs).fds_inumber ≡ fd.fds_inumber)
      × ((wrote fd cs).fds_buf ≡ splice fd.fds_buf fd.fds_pos cs)
      × ((wrote fd cs).fds_pos ≡ fd.fds_pos + length cs)
wrote-splice [] fd small = (refl, refl, omega arith)
wrote-splice (c ∷ cs) fd small =
    let next : (written fd c).fds_pos ≡ suc fd.fds_pos = omega arith in
    let place : fd.fds_pos % 512 ≡ fd.fds_pos = omega arith in
    let (a, b, p) = wrote-splice cs (written fd c) (omega arith) in
    (
      a,
      b
          ∙ ap₂ (λ i j. splice (set fd.fds_buf i c) j cs) place next
          ∙ splice-set fd.fds_buf fd.fds_pos c cs,
      p ∙ omega arith,
    )

pub wrote-sized :
    (cs : Bytes) (c : ℕ) (fd : FileDesc)
    → fd.fds_pos + suc (length cs) < 512
    → ((wrote fd (c ∷ cs)).fds_size ≡ sized fd.fds_size (fd.fds_pos + length cs))
      × ((wrote fd (c ∷ cs)).fds_dirty ≡ true)
wrote-sized [] c fd small =
    let same : fd.fds_pos + 0 ≡ fd.fds_pos = omega arith in (rw same refl, refl)
wrote-sized (d ∷ cs) c fd small =
    let next : (written fd c).fds_pos ≡ suc fd.fds_pos = omega arith in
    let (s, dirty) = wrote-sized cs d (written fd c) (omega arith) in (s ∙ ground arith, dirty)

-- The search for a free entry, from an entry on.
module _ (fd : FileDesc) (w : World) (full : length fd.fds_buf ≡ 512)
    (chars : All IsChar fd.fds_buf) where
  pub new_entry_from-first_free :
      (m i pos fuel : ℕ) (buf : Bytes)
      → pos + 20 * m < 512
      → fd.fds_size ≤ pos + 20 * m
      → pos + 20 * m ≤ fd.fds_size + 1
      → length buf ≡ 20
      → m < fuel
      → (to : ℕ) × (to < 512)
        × (new_entry_from fuel (at_pos fd pos) buf i w
            ≡ ok (i + first_free (entries m pos fd.fds_buf), at_pos fd to) w)
  unfolding new_entry_from
  new_entry_from-first_free m i pos zero buf small low high long big = absurd (omega arith)
  new_entry_from-first_free zero i pos (suc fuel) buf small low high long big =
      let read = read_ifile-end fd w full chars pos buf (omega arith) in
      let same : i + 0 ≡ i = omega arith in (pos, omega arith, ground (arith, read, same))
  new_entry_from-first_free (suc m) i pos (suc fuel) buf small low high long big =
      let read = read_ifile-within fd w full chars pos buf (omega arith) (omega arith) long in
      let bytes = take 20 (drop pos fd.fds_buf) in
      let size : length bytes ≡ 20 =
        length-take 20 (drop pos fd.fds_buf) ∙ omega (arith, length-drop pos fd.fds_buf) in
      elim (Bool-cases ((entry_of_bytes bytes).ent_inumber == 0)) [
        | inl t ↦
            let same : i + 0 ≡ i = omega arith in
            (pos + 20, omega arith, ground (arith, read, t, same))
        | inr f ↦
            let (to, less, rest) =
              new_entry_from-first_free m (i + 1) (pos + 20) fuel bytes (omega arith) (omega arith)
                (omega arith) size (omega arith) in
            let k = first_free (entries m (pos + 20) fd.fds_buf) in
            let same : i + 1 + k ≡ i + suc k = omega arith in
            (to, less, ground (arith, read, f, rest, same))
      ]
