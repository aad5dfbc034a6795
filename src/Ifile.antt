-- ===== src/Ifile.antt =====
-- Open files, src/ifile.c. A `file_desc_t` that a function changes is taken and returned. An `int` and a
-- `char` offset are 32-bit words, a negative one in two's complement.
pub mod Delete
pub mod Seek
pub mod Write
pub mod RoundTrip
pub mod Buffers
use ase_plus_plus.Prelude.{
  ℕ, zero, suc, ◌+◌, ◌-◌, ◌/◌, ◌%◌, List, [], ◌∷◌, ◌++◌, Bool, true, false, not, ◌==◌, ltb, leb,
  if◌then◌else◌, get_or, set, replicate,
}
use ase_plus_plus.Words.{Bytes}
use ase_plus_plus.System.{World, Cmd, exit, pure, halt, ◌>>=◌, ◌>>◌}
use ase_plus_plus.Mbr.{add32, read_bloc, write_bloc}
use ase_plus_plus.Inode.{Inode, current, read_inode, write_inode, delete_inode, vbloc_of_fbloc}

abbrev pub data_bloc_size : ℕ
data_bloc_size = 512

-- `READ_EOF`, -2
abbrev pub read_eof : ℕ
read_eof = 0xFFFF_FFFE

-- `RETURN_FAILURE`, -1
abbrev pub return_failure : ℕ
return_failure = 0xFFFF_FFFF

pub record FileDesc : Type 0 where
  pub fds_inumber : ℕ
  pub fds_size : ℕ
  pub fds_pos : ℕ
  pub fds_buf : Bytes
  pub fds_dirty : Bool

abbrev pub bloc_of_pos : ℕ → ℕ
bloc_of_pos pos = pos / data_bloc_size

abbrev pub ibloc_of_pos : ℕ → ℕ
ibloc_of_pos pos = pos % data_bloc_size

-- A `char`, which has a sign, as an `int`.
abbrev pub int_of_char : ℕ → ℕ
int_of_char b = if ltb b 128 then b else b + 0xFFFF_FF00

unfoldable pub delete_ifile : (inumber : ℕ) → Cmd ℕ
delete_ifile inumber = do
  status ← delete_inode inumber
  if status == 0 then pure 0 else halt (exit 1)

-- The buffer of a bloc of the volume; the bloc number 0 stands for zeros.
unfoldable pub load_buf : (vbloc : ℕ) → Cmd Bytes
load_buf vbloc = do
  vol ← current
  if vbloc == 0 then pure (replicate data_bloc_size 0) else read_bloc vol vbloc

unfoldable pub open_ifile : (inumber : ℕ) → Cmd FileDesc
unfolding load_buf
open_ifile inumber = do
  inode ← read_inode inumber
  first_bloc ← vbloc_of_fbloc inumber 0 false
  buf ← load_buf first_bloc
  pure (record {
    fds_inumber = inumber;
    fds_size = inode.size;
    fds_pos = 0;
    fds_buf = buf;
    fds_dirty = false;
  })

unfoldable pub flush_ifile : FileDesc → Cmd FileDesc
flush_ifile fd =
    if fd.fds_dirty
    then (do
      vbloc ← vbloc_of_fbloc fd.fds_inumber (bloc_of_pos fd.fds_pos) true
      vol ← current
      write_bloc vol vbloc fd.fds_buf
      pure (record fd { fds_dirty = false }))
    else pure fd

unfoldable pub close_ifile : FileDesc → Cmd FileDesc
unfolding flush_ifile
close_ifile fd = do
  fd' ← flush_ifile fd
  inode ← read_inode fd'.fds_inumber
  write_inode fd'.fds_inumber (record inode { size = fd'.fds_size })
  pure fd'

-- The position is moved before the buffer is flushed.
unfoldable pub seek_ifile : FileDesc → (offset : ℕ) → Cmd FileDesc
unfolding flush_ifile load_buf
seek_ifile fd offset =
    let moved = record fd { fds_pos = add32 fd.fds_pos offset } in
    if bloc_of_pos moved.fds_pos == bloc_of_pos fd.fds_pos then pure moved else (do
      fd' ← flush_ifile moved
      vbloc ← vbloc_of_fbloc fd'.fds_inumber (bloc_of_pos fd'.fds_pos) false
      buf ← load_buf vbloc
      pure (record fd' { fds_buf = buf }))

-- `offset - fd->fds_pos` wraps around.
unfoldable pub seek2_ifile : FileDesc → (offset : ℕ) → Cmd FileDesc
unfolding seek_ifile
seek2_ifile fd offset = seek_ifile fd ((offset + (0x1_0000_0000 - fd.fds_pos)) % 0x1_0000_0000)

unfoldable pub readc_ifile : FileDesc → Cmd (ℕ × FileDesc)
unfolding seek_ifile
readc_ifile fd = if ltb fd.fds_size fd.fds_pos then pure (read_eof, fd) else (do
  fd' ← seek_ifile fd 1
  pure (int_of_char (get_or fd.fds_buf (ibloc_of_pos fd.fds_pos) 0), fd'))

-- `writec_ifile` makes sure that the bloc is allocated at the first write to it. The result tells
-- whether it is.
unfoldable pub ensure_bloc : FileDesc → Cmd (Bool × FileDesc)
ensure_bloc fd = if fd.fds_dirty then pure (true, fd) else (do
  ibloc ← vbloc_of_fbloc fd.fds_inumber (bloc_of_pos fd.fds_pos) true
  if ibloc == 0 then pure (false, fd) else pure (true, record fd { fds_dirty = true }))

-- What `writec_ifile` does once the last byte of the buffer is written.
unfoldable pub next_buffer : FileDesc → Cmd FileDesc
unfolding load_buf
next_buffer fd = do
  ibloc ← vbloc_of_fbloc fd.fds_inumber (bloc_of_pos fd.fds_pos) false
  vol ← current
  write_bloc vol ibloc fd.fds_buf
  next ← vbloc_of_fbloc fd.fds_inumber (bloc_of_pos (add32 fd.fds_pos 1)) false
  buf ← load_buf next
  pure (record fd { fds_buf = buf; fds_dirty = false })

-- The cursor and the size after a byte was written.
abbrev pub advance : FileDesc → FileDesc
advance fd = record fd {
  fds_size = if ltb fd.fds_size fd.fds_pos then fd.fds_pos else fd.fds_size;
  fds_pos = add32 fd.fds_pos 1;
}

unfoldable pub writec_ifile : FileDesc → (c : ℕ) → Cmd (ℕ × FileDesc)
unfolding ensure_bloc next_buffer
writec_ifile fd c = do
  r ← ensure_bloc (record fd { fds_buf = set fd.fds_buf (ibloc_of_pos fd.fds_pos) c })
  if r.0
      then (do
        fd' ← if ibloc_of_pos fd.fds_pos == data_bloc_size - 1 then next_buffer r.1 else pure r.1
        pure (fd.fds_pos, advance fd'))
      else pure (return_failure, r.1)

-- The loop of `read_ifile`: `n` bytes are left, `i` are read.
unfoldable pub read_chars : (n i : ℕ) → FileDesc → Bytes → Cmd (ℕ × FileDesc × Bytes)
unfolding readc_ifile
read_chars zero i fd buf = pure (i, fd, buf)
read_chars (suc n) i fd buf = do
  r ← readc_ifile fd
  if r.0 == read_eof then pure (i, r.1, buf) else read_chars n (i + 1) r.1 (set buf i (r.0 % 256))

unfoldable pub read_ifile : FileDesc → Bytes → (nbyte : ℕ) → Cmd (ℕ × FileDesc × Bytes)
unfolding read_chars
read_ifile fd buf nbyte =
    if leb fd.fds_size fd.fds_pos then pure (read_eof, fd, buf) else read_chars nbyte 0 fd buf

-- The loop of `write_ifile`, over the bytes that are left; the result tells whether all were written.
unfoldable pub write_chars : FileDesc → Bytes → Cmd (Bool × FileDesc)
unfolding writec_ifile
write_chars fd [] = pure (true, fd)
write_chars fd (c ∷ cs) = do
  r ← writec_ifile fd c
  if r.0 == return_failure then pure (false, r.1) else write_chars r.1 cs

-- The buffer holds the bytes to write, so that its length is their number.
unfoldable pub write_ifile : FileDesc → Bytes → (nbyte : ℕ) → Cmd (ℕ × FileDesc)
unfolding write_chars
write_ifile fd buf nbyte = do
  r ← write_chars fd buf
  if r.0 then pure (nbyte, r.1) else pure (return_failure, r.1)
