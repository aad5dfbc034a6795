-- ===== src/Directory/Loops.antt =====
-- The loops over the entries of a directory end (src/dir.c).
use ase_plus_plus.Prelude.{
  ℕ, zero, suc, ◌+◌, ◌≤◌, ◌≡◌, ◌⊎◌, refl, subst, arith, inl, inr, true, false, Bool-cases, ◌==◌,
}
use ase_plus_plus.Words.{Bytes}
use ase_plus_plus.System.{World, Stop, Run, ok, stop}
use ase_plus_plus.System.Results.{Gives}
use ase_plus_plus.Ifile.{FileDesc, read_eof, return_failure, read_ifile}
use ase_plus_plus.Directory.{
  entry_size, entry_of_bytes, is_entry, find_entry_from, new_entry_from, rounds,
}
use ase_plus_plus.Directory.Progress.{IsSize, Advances, read_ifile-Advances}

-- A round that reads an entry leaves fewer of them.
fewer_rounds :
    (n : ℕ) (fd : FileDesc) (r : ℕ × FileDesc × Bytes)
    → Advances fd r
    → r.0 == read_eof ≡ false
    → rounds fd ≤ suc n
    → rounds r.1 ≤ n
fewer_rounds n fd r adv f h = ground (arith, adv)

-- A course of the loop of `find_entry` to its end, without fuel: each constructor is a round that ends the
-- loop, but the last, whose course goes on with the next round.
pub data FindLoop (basename : Bytes)
    : FileDesc → Bytes → (ientry : ℕ) → World → Run (ℕ × FileDesc) → Type 0 where
  read_stops :
      {fd : FileDesc} {entry : Bytes} {i : ℕ} {w w' : World} (why : Stop)
      → read_ifile fd entry entry_size w ≡ stop why w'
      → FindLoop basename fd entry i w (stop why w')
  at_end :
      {fd : FileDesc} {entry : Bytes} {i : ℕ} {w w' : World} (r : ℕ × FileDesc × Bytes)
      → read_ifile fd entry entry_size w ≡ ok r w'
      → r.0 == read_eof ≡ true
      → FindLoop basename fd entry i w (ok (return_failure, r.1) w')
  test_stops :
      {fd : FileDesc} {entry : Bytes} {i : ℕ} {w w' w'' : World} (r : ℕ × FileDesc × Bytes)
      (why : Stop)
      → read_ifile fd entry entry_size w ≡ ok r w'
      → r.0 == read_eof ≡ false
      → is_entry (entry_of_bytes r.2) basename w' ≡ stop why w''
      → FindLoop basename fd entry i w (stop why w'')
  found :
      {fd : FileDesc} {entry : Bytes} {i : ℕ} {w w' w'' : World} (r : ℕ × FileDesc × Bytes)
      → read_ifile fd entry entry_size w ≡ ok r w'
      → r.0 == read_eof ≡ false
      → is_entry (entry_of_bytes r.2) basename w' ≡ ok true w''
      → FindLoop basename fd entry i w (ok (i, r.1) w'')
  goes_on :
      {fd : FileDesc} {entry : Bytes} {i : ℕ} {w w' w'' : World} {o : Run (ℕ × FileDesc)}
      (r : ℕ × FileDesc × Bytes)
      → read_ifile fd entry entry_size w ≡ ok r w'
      → r.0 == read_eof ≡ false
      → is_entry (entry_of_bytes r.2) basename w' ≡ ok false w''
      → FindLoop basename r.1 r.2 (i + 1) w'' o
      → FindLoop basename fd entry i w o

Run-cases :
    {A : Type 0} (r : Run A)
    → ((a : A) × (w : World) × (r ≡ ok a w)) ⊎ ((why : Stop) × (w : World) × (r ≡ stop why w))
Run-cases (ok a w) = inl (a, w, refl)
Run-cases (stop why w) = inr (why, w, refl)

module _ (name : Bytes) where
  -- With fuel for the rest of the file, what `find_entry_from` gives is the end of a course.
  find_entry_from-course :
      (n : ℕ) (fd : FileDesc) (entry : Bytes) (i : ℕ) (w : World)
      → IsSize fd.fds_size
      → rounds fd ≤ n
      → FindLoop name fd entry i w (find_entry_from n fd entry i name w)
  unfolding find_entry_from
  find_entry_from-course zero fd entry i w small h = absurd (omega arith)
  find_entry_from-course (suc n) fd entry i w small h =
      elim (Run-cases (read_ifile fd entry entry_size w)) [
        | inr (why, w1, e) ↦ rw e (read_stops why e)
        | inl (r, w1, e) ↦
            let adv : Advances fd r =
              subst (Gives (Advances fd)) e (read_ifile-Advances fd entry 19 w small) in
            elim (Bool-cases (r.0 == read_eof)) [
              | inl t ↦ rw (e, t) (at_end r e t)
              | inr f ↦ elim (Run-cases (is_entry (entry_of_bytes r.2) name w1)) [
                | inr (why, w2, e2) ↦ rw (e, f, e2) (test_stops r why e f e2)
                | inl (true, w2, e2) ↦ rw (e, f, e2) (found r e f e2)
                | inl (false, w2, e2) ↦
                    let rest =
                      find_entry_from-course n r.1 r.2 (i + 1) w2 (omega (arith, small, adv))
                        (fewer_rounds n fd r adv f h) in
                    rw (e, f, e2) (goes_on r e f e2 rest)
              ]
            ]
      ]

  -- The loop of `find_entry` ends, from any position in a file of less than 2^32 - 1 bytes, whatever is in
  -- it: its rounds, as the source has them, come to an end, which is what the model gives with its fuel.
  pub find_entry_from-FindLoop :
      (fd : FileDesc) (entry : Bytes) (i : ℕ) (w : World)
      → IsSize fd.fds_size
      → FindLoop name fd entry i w (find_entry_from (rounds fd) fd entry i name w)
  find_entry_from-FindLoop fd entry i w small =
      find_entry_from-course (rounds fd) fd entry i w small (omega arith)

-- A course of the loop of `new_entry` to its end, in the same way.
pub data NewLoop : FileDesc → Bytes → (ientry : ℕ) → World → Run (ℕ × FileDesc) → Type 0 where
  new_stops :
      {fd : FileDesc} {entry : Bytes} {i : ℕ} {w w' : World} (why : Stop)
      → read_ifile fd entry entry_size w ≡ stop why w'
      → NewLoop fd entry i w (stop why w')
  new_at_end :
      {fd : FileDesc} {entry : Bytes} {i : ℕ} {w w' : World} (r : ℕ × FileDesc × Bytes)
      → read_ifile fd entry entry_size w ≡ ok r w'
      → r.0 == read_eof ≡ true
      → NewLoop fd entry i w (ok (i, r.1) w')
  is_free :
      {fd : FileDesc} {entry : Bytes} {i : ℕ} {w w' : World} (r : ℕ × FileDesc × Bytes)
      → read_ifile fd entry entry_size w ≡ ok r w'
      → r.0 == read_eof ≡ false
      → (entry_of_bytes r.2).ent_inumber == 0 ≡ true
      → NewLoop fd entry i w (ok (i, r.1) w')
  in_use :
      {fd : FileDesc} {entry : Bytes} {i : ℕ} {w w' : World} {o : Run (ℕ × FileDesc)}
      (r : ℕ × FileDesc × Bytes)
      → read_ifile fd entry entry_size w ≡ ok r w'
      → r.0 == read_eof ≡ false
      → (entry_of_bytes r.2).ent_inumber == 0 ≡ false
      → NewLoop r.1 r.2 (i + 1) w' o
      → NewLoop fd entry i w o

-- The loop of `new_entry` ends too.
pub new_entry_from-NewLoop :
    (n : ℕ) (fd : FileDesc) (entry : Bytes) (i : ℕ) (w : World)
    → IsSize fd.fds_size
    → rounds fd ≤ n
    → NewLoop fd entry i w (new_entry_from n fd entry i w)
unfolding new_entry_from
new_entry_from-NewLoop zero fd entry i w small h = absurd (omega arith)
new_entry_from-NewLoop (suc n) fd entry i w small h =
    elim (Run-cases (read_ifile fd entry entry_size w)) [
      | inr (why, w1, e) ↦ rw e (new_stops why e)
      | inl (r, w1, e) ↦
          let adv : Advances fd r =
            subst (Gives (Advances fd)) e (read_ifile-Advances fd entry 19 w small) in
          elim (Bool-cases (r.0 == read_eof)) [
            | inl t ↦ rw (e, t) (new_at_end r e t)
            | inr f ↦ elim (Bool-cases ((entry_of_bytes r.2).ent_inumber == 0)) [
              | inl z ↦ rw (e, f, z) (is_free r e f z)
              | inr u ↦
                  let rest =
                    new_entry_from-NewLoop n r.1 r.2 (i + 1) w1 (omega (arith, small, adv))
                      (fewer_rounds n fd r adv f h) in
                  rw (e, f, u) (in_use r e f u rest)
            ]
          ]
    ]
