-- ===== src/Builtins/Computed.antt =====
-- The text that `do_compute` writes (src/builtins.c).
use ase_plus_plus.Prelude.{
  ℕ, zero, suc, ◌+◌, ◌≡◌, ◌≢◌, refl, ap, ◌∙◌, arith, [], ◌∷◌, ◌++◌, false, ◌==◌, replicate, some,
}
use ase_plus_plus.Words.{Bytes}
use ase_plus_plus.System.{World, Run, ok, stop, Cmd, and_then, pure, ◌>>=◌, ◌>>◌}
use ase_plus_plus.System.Results.{then-same}
use ase_plus_plus.Inode.{file_file}
use ase_plus_plus.Ifile.{FileDesc, return_failure, open_ifile, writec_ifile}
use ase_plus_plus.Files.{create_file, close_file}
use ase_plus_plus.Builtins.{canonical, type_chars, do_ed, write_dots, write_lines, do_compute}

-- Lines of dots, `n` of them, of which the first has `i`.
abbrev pub dotted : (n i : ℕ) → Bytes
dotted zero i = []
dotted (suc n) i = replicate i 46 ++ (10 ∷ dotted n (i + 1))

-- Two commands in a row, on a run.
and_then_assoc :
    {A B C : Type 0} (r : Run A) (k : A → Cmd B) (l : B → Cmd C)
    → and_then (and_then r k) l ≡ and_then r (λ a. k a >>= l)
and_then_assoc (ok a w) k l = refl
and_then_assoc (stop why w) k l = refl

write_dots-type_chars :
    (i : ℕ) (fd : FileDesc) (rest : Bytes) (w : World)
    → and_then (write_dots i fd w) (λ fd'. type_chars fd' rest)
      ≡ type_chars fd (replicate i 46 ++ rest) w
unfolding write_dots type_chars
write_dots-type_chars zero fd rest w = refl
write_dots-type_chars (suc i) fd rest w =
    and_then_assoc (writec_ifile fd 46 w) _ _
    ∙ then-same (writec_ifile fd 46 w) _ _ (λ r w1. write_dots-type_chars i r.1 rest w1)

write_lines-type_chars :
    (n i : ℕ) (fd : FileDesc) (w : World) → write_lines n i fd w ≡ type_chars fd (dotted n i) w
unfolding write_lines type_chars
write_lines-type_chars zero i fd w = refl
write_lines-type_chars (suc n) i fd w =
    then-same (write_dots i fd w) _ _ (λ fd' w1.
      then-same (writec_ifile fd' 10 w1) _ _ (λ r w2. write_lines-type_chars n (i + 1) r.1 w2))
    ∙ write_dots-type_chars i fd (10 ∷ dotted n (i + 1)) w

-- Where the file can be created, `do_compute` with a maximum `max` and a path does what `do_ed` of that path does
-- when the lines of 0, 1 and so on to `max` dots are typed.
pub do_compute-do_ed :
    (raw cwd path target : Bytes) (max inumber : ℕ) (w w1 w2 : World)
    → canonical cwd path w ≡ ok target w1
    → create_file raw target file_file w1 ≡ ok inumber w2
    → inumber ≢ return_failure
    → do_compute raw cwd (some ((false, max), some path)) w
      ≡ do_ed raw cwd path (dotted (max + 1) 0) w
unfolding do_compute do_ed
do_compute-do_ed raw cwd path target max inumber w w1 w2 e1 e2 ne =
    let made : (inumber == return_failure) ≡ false = ground (arith, ne) in
    rw (e1, e2, made)
      (then-same (open_ifile inumber w2) _ _ (λ fd w3.
        ap (λ (r : Run FileDesc). and_then r (λ fd'. close_file fd' >> pure 0))
          (write_lines-type_chars (max + 1) 0 fd w3)))
