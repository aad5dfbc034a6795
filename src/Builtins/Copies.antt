-- ===== src/Builtins/Copies.antt =====
-- The loops of `do_cat` and `do_cp` end (src/builtins.c).
use ase_plus_plus.Prelude.{
  ℕ, zero, suc, ◌-◌, ◌%◌, ◌≤◌, ◌<◌, ◌≡◌, refl, arith, false, ◌==◌, ltb, if◌then◌else◌,
}
use ase_plus_plus.System.{World, Cmd, pure, ◌>>=◌}
use ase_plus_plus.System.Results.{
  Gives, Gives-and_then, Gives-if, and_then-same, then-same, if-same,
}
use ase_plus_plus.Mbr.{add32}
use ase_plus_plus.Ifile.{FileDesc, read_eof, readc_ifile, seek_ifile}
use ase_plus_plus.Files.{readc_file, writec_file}
use ase_plus_plus.Directory.{rounds}
use ase_plus_plus.Directory.Progress.{IsSize, At, seek_ifile-At}
use ase_plus_plus.Builtins.{print_chars, copy_chars}

-- A byte that is read is one of those up to the size, and the cursor is behind it then.
abbrev Reads : (fd : FileDesc) → ℕ × FileDesc → Type 0
Reads fd r = (r.1.fds_size ≡ fd.fds_size) × (r.0 == read_eof ≡ false → rounds r.1 < rounds fd)

readc_file-Reads :
    (fd : FileDesc) (w : World) → IsSize fd.fds_size → Gives (Reads fd) (readc_file fd w)
unfolding readc_file readc_ifile
readc_file-Reads fd w small =
    Gives-if (Reads fd) (ltb fd.fds_size fd.fds_pos) _ _ w
      (λ behind. (refl, λ e. absurd (ground arith)))
      (λ before.
        Gives-and_then (At (add32 fd.fds_pos 1) fd.fds_size) (Reads fd) (seek_ifile fd 1 w) _
          (seek_ifile-At fd 1 w) (λ fd' w1 at. (at.1, λ e. ground (arith, at))))

print_chars-fuel :
    (n m : ℕ) (fd : FileDesc) (w : World)
    → IsSize fd.fds_size
    → rounds fd ≤ n
    → rounds fd ≤ m
    → print_chars n fd w ≡ print_chars m fd w
unfolding print_chars
print_chars-fuel zero m fd w small hn hm = absurd (omega arith)
print_chars-fuel (suc n) zero fd w small hn hm = absurd (omega arith)
print_chars-fuel (suc n) (suc m) fd w small hn hm =
    and_then-same (Reads fd) (readc_file fd w) _ _ (readc_file-Reads fd w small) (λ r w1 adv.
      if-same (r.0 == read_eof) _ _ _ w1 (λ more.
        let less = adv.1 more in
        let same =
          print_chars-fuel n m r.1 w1 (omega (arith, small, adv.0)) (omega (arith, less))
            (omega (arith, less)) in
        rw same refl))

copy_chars-fuel :
    (n m : ℕ) (sfd dfd : FileDesc) (w : World)
    → IsSize sfd.fds_size
    → rounds sfd ≤ n
    → rounds sfd ≤ m
    → copy_chars n sfd dfd w ≡ copy_chars m sfd dfd w
unfolding copy_chars
copy_chars-fuel zero m sfd dfd w small hn hm = absurd (omega arith)
copy_chars-fuel (suc n) zero sfd dfd w small hn hm = absurd (omega arith)
copy_chars-fuel (suc n) (suc m) sfd dfd w small hn hm =
    and_then-same (Reads sfd) (readc_file sfd w) _ _ (readc_file-Reads sfd w small) (λ r w1 adv.
      if-same (r.0 == read_eof) _ _ _ w1 (λ more.
        let less = adv.1 more in
        then-same (writec_file dfd (r.0 % 256) w1) _ _ (λ s w2.
          copy_chars-fuel n m r.1 s.1 w2 (omega (arith, small, adv.0)) (omega (arith, less))
            (omega (arith, less)))))

-- The loop of `do_cp`, with the fuel that it is given.
abbrev pub copy_loop : (sfd dfd : FileDesc) → Cmd (FileDesc × FileDesc)
copy_loop sfd dfd = copy_chars (rounds sfd) sfd dfd

-- The loop of `do_cp` ends, for a source of less than 2^32 - 1 bytes, whatever the writes do: with its
-- fuel it reads a character, ends where there is none, and else writes it and goes round with the fuel of
-- a new loop.
pub copy_chars-ends :
    (sfd dfd : FileDesc) (w : World)
    → IsSize sfd.fds_size
    → copy_chars (rounds sfd) sfd dfd w
      ≡ (readc_file sfd >>= λ r.
            if r.0 == read_eof
            then pure (r.1, dfd)
            else (writec_file dfd (r.0 % 256) >>= λ s. copy_loop r.1 s.1))
          w
unfolding copy_chars
copy_chars-ends sfd dfd w small =
    and_then-same (Reads sfd) (readc_file sfd w) _ _ (readc_file-Reads sfd w small) (λ r w1 adv.
      if-same (r.0 == read_eof) _ _ _ w1 (λ more.
        let less = adv.1 more in
        then-same (writec_file dfd (r.0 % 256) w1) _ _ (λ s w2.
          copy_chars-fuel (suc sfd.fds_size - sfd.fds_pos) (rounds r.1) r.1 s.1 w2
            (omega (arith, small, adv.0)) (omega (arith, less)) (omega arith))))
