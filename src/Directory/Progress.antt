-- ===== src/Directory/Progress.antt =====
-- What reading does to the cursor of an open file (src/ifile.c), whenever it gives a result.
use ase_plus_plus.Prelude.{
  ℕ, zero, suc, ◌+◌, ◌%◌, ◌≤◌, ◌<◌, ◌≡◌, ◌⊎◌, inl, inr, refl, ◌∙◌, arith, true, false, ◌==◌, ltb,
  leb, set,
}
use ase_plus_plus.Words.{Bytes}
use ase_plus_plus.System.{World, pure, ◌>>=◌, ◌>>◌}
use ase_plus_plus.System.Results.{Gives, Gives-and_then, Gives-after, Gives-if, Gives-weaken}
use ase_plus_plus.Mbr.{add32, write_bloc}
use ase_plus_plus.Inode.{current, vbloc_of_fbloc}
use ase_plus_plus.Ifile.{
  FileDesc, read_eof, bloc_of_pos, load_buf, flush_ifile, seek_ifile, readc_ifile, read_chars,
  read_ifile,
}

-- The same cursor and size.
abbrev pub At : (pos size : ℕ) → FileDesc → Type 0
At pos size fd = (fd.fds_pos ≡ pos) × (fd.fds_size ≡ size)

flush_ifile-At : (fd : FileDesc) (w : World) → Gives (At fd.fds_pos fd.fds_size) (flush_ifile fd w)
unfolding flush_ifile
flush_ifile-At fd w =
    let P = At fd.fds_pos fd.fds_size in
    let clean : FileDesc = record fd { fds_dirty = false } in
    let write = λ (x vol : ℕ). write_bloc vol x fd.fds_buf >> pure clean in
    Gives-if P fd.fds_dirty _ _ w
      (λ t.
        Gives-after P (vbloc_of_fbloc fd.fds_inumber (bloc_of_pos fd.fds_pos) true w)
          (λ x. current >>= λ vol. write x vol)
          (λ x w1. Gives-after P (current w1) (write x) (λ vol w2.
            Gives-after P (write_bloc vol x fd.fds_buf w2) (λ u. pure clean)
              (λ u w3. (refl, refl)))))
      (λ f. (refl, refl))

pub seek_ifile-At :
    (fd : FileDesc) (offset : ℕ) (w : World)
    → Gives (At (add32 fd.fds_pos offset) fd.fds_size) (seek_ifile fd offset w)
unfolding seek_ifile
seek_ifile-At fd offset w =
    let pos = add32 fd.fds_pos offset in
    let P = At pos fd.fds_size in
    let moved = record fd { fds_pos = pos } in
    Gives-if P (bloc_of_pos pos == bloc_of_pos fd.fds_pos) _ _ w (λ t. (refl, refl))
      (λ f. Gives-and_then P P (flush_ifile moved w) _ (flush_ifile-At moved w) (λ fd' w1 at.
        let fill = λ (buf : Bytes). pure (record fd' { fds_buf = buf }) in
        Gives-after P (vbloc_of_fbloc fd'.fds_inumber (bloc_of_pos fd'.fds_pos) false w1)
          (λ x. load_buf x >>= fill) (λ x w2. Gives-after P (load_buf x w2) fill (λ buf w3. at))))

-- The cursor does not go back, and moves if it is not behind the size.
abbrev Forward : (fd fd' : FileDesc) → Type 0
Forward fd fd' =
    (fd'.fds_size ≡ fd.fds_size)
    × (fd.fds_pos ≤ fd'.fds_pos)
    × (fd.fds_pos ≤ fd.fds_size → fd.fds_pos < fd'.fds_pos)

-- A size whose next number is a word too.
abbrev pub IsSize : ℕ → Type 0
IsSize n = n < 0xFFFF_FFFF

readc_ifile-Forward :
    (fd : FileDesc) (w : World)
    → IsSize fd.fds_size
    → Gives (λ r. Forward fd r.1) (readc_ifile fd w)
unfolding readc_ifile
readc_ifile-Forward fd w small =
    let P = λ (r : ℕ × FileDesc). Forward fd r.1 in
    Gives-if P (ltb fd.fds_size fd.fds_pos) _ _ w (λ t. (refl, ground arith, λ h. ground arith))
      (λ f.
        Gives-and_then (At (add32 fd.fds_pos 1) fd.fds_size) P (seek_ifile fd 1 w) _
          (seek_ifile-At fd 1 w) (λ fd' w1 at. (at.1, ground (arith, at), λ h. ground (arith, at))))

read_chars-Forward :
    (n i : ℕ) (fd : FileDesc) (buf : Bytes) (w : World)
    → IsSize fd.fds_size
    → Gives
        (λ r.
          (r.1.fds_size ≡ fd.fds_size)
          × (fd.fds_pos ≤ r.1.fds_pos)
          × (1 ≤ n → fd.fds_pos ≤ fd.fds_size → fd.fds_pos < r.1.fds_pos))
        (read_chars n i fd buf w)
unfolding read_chars
read_chars-Forward zero i fd buf w small = (refl, omega arith, λ h h'. absurd (omega arith))
read_chars-Forward (suc n) i fd buf w small =
    let P = λ (r : ℕ × FileDesc). Forward fd r.1 in
    let Q = λ (r : ℕ × FileDesc × Bytes).
      (r.1.fds_size ≡ fd.fds_size)
      × (fd.fds_pos ≤ r.1.fds_pos)
      × (1 ≤ suc n → fd.fds_pos ≤ fd.fds_size → fd.fds_pos < r.1.fds_pos) in
    Gives-and_then P Q (readc_ifile fd w) _ (readc_ifile-Forward fd w small) (λ r w1 at.
      Gives-if Q (r.0 == read_eof) _ _ w1 (λ t. (at.0, at.1, λ h. at.2))
        (λ f.
          Gives-weaken _ Q _
            (read_chars-Forward n (i + 1) r.1 (set buf i (r.0 % 256)) w1 (omega (arith, at)))
            (λ s more.
              (more.0 ∙ at.0, omega (arith, at, more), λ h h'. omega (arith, at, at.2 h', more)))))

-- A read that finds a byte moves the cursor, which was before the end.
abbrev pub Advances : (fd : FileDesc) → ℕ × FileDesc × Bytes → Type 0
Advances fd r =
    (r.1.fds_size ≡ fd.fds_size)
    × ((r.0 ≡ read_eof) ⊎ ((fd.fds_pos < fd.fds_size) × (fd.fds_pos < r.1.fds_pos)))

pub read_ifile-Advances :
    (fd : FileDesc) (buf : Bytes) (n : ℕ) (w : World)
    → IsSize fd.fds_size
    → Gives (Advances fd) (read_ifile fd buf (suc n) w)
unfolding read_ifile
read_ifile-Advances fd buf n w small =
    Gives-if (Advances fd) (leb fd.fds_size fd.fds_pos) _ _ w (λ t. (refl, inl refl))
      (λ f.
        Gives-weaken _ (Advances fd) _ (read_chars-Forward (suc n) 0 fd buf w small)
          (λ r more. (more.0, inr (ground arith, more.2 (omega arith) (ground arith)))))
