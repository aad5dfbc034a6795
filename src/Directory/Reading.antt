-- ===== src/Directory/Reading.antt =====
-- Reading inside the buffer of an open file (src/ifile.c), as a directory of one bloc is read.
use ase_plus_plus.Prelude.{
  ℕ, zero, suc, ◌+◌, ◌-◌, ◌%◌, ◌≤◌, ◌<◌, ◌≡◌, ◌≢◌, refl, sym, ap, ap₂, ◌∙◌, arith, [], ◌∷◌, ◌++◌,
  append-nil, All, false, ◌==◌, length, get_or, set, take, drop, take_all, length-set,
}
use ase_plus_plus.Words.{Bytes}
use ase_plus_plus.System.{World, ok}
use ase_plus_plus.Mbr.{add32}
use ase_plus_plus.Ifile.{
  FileDesc, read_eof, bloc_of_pos, int_of_char, seek_ifile, seek2_ifile, readc_ifile, read_chars,
  read_ifile,
}

-- A byte that is not taken for the end of the file.
abbrev pub IsChar : ℕ → Type 0
IsChar b = (b < 256) × (b ≢ 254)

get_or-IsChar : (bs : Bytes) (i : ℕ) → All IsChar bs → IsChar (get_or bs i 0)
get_or-IsChar [] i h = (omega arith, λ e. absurd (omega arith))
get_or-IsChar (b ∷ bs) zero h = h.0
get_or-IsChar (b ∷ bs) (suc i) h = get_or-IsChar bs i h.1

take-set :
    (bs : Bytes) (i b : ℕ) → i < length bs → take (suc i) (set bs i b) ≡ take i bs ++ (b ∷ [])
take-set [] i b h = absurd (omega arith)
take-set (x ∷ bs) zero b h = refl
take-set (x ∷ bs) (suc i) b h = ap (λ r. x ∷ r) (take-set bs i b (omega arith))

take-drop :
    (bs : Bytes) (i n : ℕ)
    → i < length bs
    → take (suc n) (drop i bs) ≡ get_or bs i 0 ∷ take n (drop (suc i) bs)
take-drop [] i n h = absurd (omega arith)
take-drop (x ∷ bs) zero n h = refl
take-drop (x ∷ bs) (suc i) n h = take-drop bs i n (omega arith)

append-cons : (xs : Bytes) (b : ℕ) (ys : Bytes) → (xs ++ (b ∷ [])) ++ ys ≡ xs ++ (b ∷ ys)
append-cons [] b ys = refl
append-cons (x ∷ xs) b ys = ap (λ r. x ∷ r) (append-cons xs b ys)

-- A byte in the first bloc, read from the buffer, which holds that bloc.
readc_ifile-within :
    (fd : FileDesc) (w : World)
    → fd.fds_pos ≤ fd.fds_size
    → fd.fds_pos + 1 < 512
    → readc_ifile fd w
      ≡ ok (int_of_char (get_or fd.fds_buf fd.fds_pos 0), record fd { fds_pos = fd.fds_pos + 1 }) w
unfolding readc_ifile seek_ifile
readc_ifile-within fd w inside small = ground arith

-- A character is not mistaken for the end, and is the byte again when it is stored.
char-IsChar : (b : ℕ) → IsChar b → (int_of_char b == read_eof ≡ false) × (int_of_char b % 256 ≡ b)
char-IsChar b h = (ground (arith, h), ground (arith, h))

-- The byte at `pos` stored at `i`, and those behind it.
shifted :
    (bs buf : Bytes) (i pos n : ℕ)
    → i < length buf
    → pos < length bs
    → take (i + 1) (set buf i (get_or bs pos 0)) ++ take n (drop (pos + 1) bs)
      ≡ take i buf ++ take (suc n) (drop pos bs)
shifted bs buf i pos n hi hp =
    let b = get_or bs pos 0 in
    let one : i + 1 ≡ suc i = omega arith in
    let next : pos + 1 ≡ suc pos = omega arith in
    ap₂ (λ k j. take k (set buf i b) ++ take n (drop j bs)) one next
    ∙ ap (λ t. t ++ take n (drop (suc pos) bs)) (take-set buf i b hi)
    ∙ append-cons (take i buf) b (take n (drop (suc pos) bs))
    ∙ ap (λ t. take i buf ++ t) (sym (take-drop bs pos n hp))

pub read_chars-within :
    (n i : ℕ) (fd : FileDesc) (buf : Bytes) (w : World)
    → fd.fds_pos + n ≤ fd.fds_size + 1
    → fd.fds_pos + n < 512
    → length fd.fds_buf ≡ 512
    → All IsChar fd.fds_buf
    → length buf ≡ i + n
    → read_chars n i fd buf w
      ≡ ok
          (
            i + n,
            record fd { fds_pos = fd.fds_pos + n },
            take i buf ++ take n (drop fd.fds_pos fd.fds_buf),
          )
          w
unfolding read_chars
read_chars-within zero i fd buf w inside small full chars long =
    let all : take i buf ++ [] ≡ buf = append-nil (take i buf) ∙ take_all i buf (omega arith) in
    λ t. ok (a t, record fd { fds_pos = c t }, sym all t) w
  where
    a : i ≡ i + 0
    a = omega arith

    c : fd.fds_pos ≡ fd.fds_pos + 0
    c = omega arith
read_chars-within (suc n) i fd buf w inside small full chars long =
    let pos = fd.fds_pos in
    let b = get_or fd.fds_buf pos 0 in
    let (go, same) = char-IsChar b (get_or-IsChar fd.fds_buf pos chars) in
    let fd' = record fd { fds_pos = pos + 1 } in
    let buf' = set buf i b in
    let one = readc_ifile-within fd w (omega arith) (omega arith) in
    let rest =
      read_chars-within n (i + 1) fd' buf' w (omega arith) (omega arith) full chars
        (length-set buf i b ∙ omega arith) in
    let bytes : take (i + 1) buf' ++ take n (drop (pos + 1) fd.fds_buf)
        ≡ take i buf ++ take (suc n) (drop pos fd.fds_buf) =
      shifted fd.fds_buf buf i pos n (omega arith) (omega arith) in
    let count : i + 1 + n ≡ i + suc n = omega arith in
    let at : pos + 1 + n ≡ pos + suc n = omega arith in
    let step : read_chars (suc n) i fd buf w ≡ read_chars n (i + 1) fd' buf' w =
      rw (one, go, same) refl in
    step ∙ (rest ∙ λ t. ok (count t, record fd { fds_pos = at t }, bytes t) w)

-- The file descriptor of a file of one bloc, whose buffer holds it, with the cursor elsewhere.
abbrev pub at_pos : FileDesc → ℕ → FileDesc
at_pos fd pos = record fd { fds_pos = pos }

module _ (fd : FileDesc) (w : World) (full : length fd.fds_buf ≡ 512)
    (chars : All IsChar fd.fds_buf) where
  -- 20 bytes read from inside a file of one bloc are those of its buffer.
  pub read_ifile-within :
      (pos : ℕ) (buf : Bytes)
      → pos + 20 ≤ fd.fds_size + 1
      → pos + 20 < 512
      → length buf ≡ 20
      → read_ifile (at_pos fd pos) buf 20 w
        ≡ ok (20, at_pos fd (pos + 20), take 20 (drop pos fd.fds_buf)) w
  unfolding read_ifile
  read_ifile-within pos buf inside small long =
      let run = read_chars-within 20 0 (at_pos fd pos) buf w inside small full chars long in
      ground (arith, run)

  pub read_ifile-end :
      (pos : ℕ) (buf : Bytes)
      → fd.fds_size ≤ pos
      → read_ifile (at_pos fd pos) buf 20 w ≡ ok (read_eof, at_pos fd pos, buf) w
  unfolding read_ifile
  read_ifile-end pos buf behind = ground arith

  pub seek2_ifile-within :
      (pos to : ℕ) → pos < 512 → to < 512 → seek2_ifile (at_pos fd pos) to w ≡ ok (at_pos fd to) w
  unfolding seek2_ifile seek_ifile
  seek2_ifile-within pos to hp ht =
      let there : add32 pos ((to + (0x1_0000_0000 - pos)) % 0x1_0000_0000) ≡ to = omega arith in
      let zero_to : bloc_of_pos to ≡ 0 = omega arith in
      let zero_pos : bloc_of_pos pos ≡ 0 = omega arith in rw (there, zero_to, zero_pos) refl

-- A byte 254 in the first bloc of a file ends a read of it there, with no byte read and the cursor behind
-- it.
pub read_ifile_254 :
    (fd : FileDesc) (w : World) (n : ℕ) (buf : Bytes)
    → get_or fd.fds_buf fd.fds_pos 0 ≡ 254
    → fd.fds_pos < fd.fds_size
    → fd.fds_pos + 1 < 512
    → read_ifile fd buf (suc n) w ≡ ok (0, record fd { fds_pos = fd.fds_pos + 1 }, buf) w
unfolding read_ifile read_chars
read_ifile_254 fd w n buf byte inside small =
    let one = readc_ifile-within fd w (omega arith) small in ground (arith, one, byte)
