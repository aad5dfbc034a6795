-- ===== src/Tracktime/Distinct.antt =====
-- The processes that the module tracks are distinct (kernel_module/tracktime.c).
use ase_plus_plus.Prelude.{
  ℕ, zero, suc, ◌+◌, ◌^◌, ◌≤◌, ◌<◌, ◌≡◌, ◌≢◌, refl, sym, ap, ◌∙◌, arith, List, [], ◌∷◌, true, false,
  All, take, length, get_or, set, length-set, get_or-set_self, get_or-set_ne, none, some,
  Option-cases, Bool-cases, inl, inr,
}
use native.Mathlib.Decide.{ℕ_discrete}
use ase_plus_plus.Tracktime.{
  max_pid, Kernel, Tracker, int_of_long, long_of_int, tracked, asepid_action, asepid_terminate_pid,
}

module _ (kernel : Kernel) where
  -- The numbers in the taken places are distinct.
  pub record IsTracker (t : Tracker kernel) : Type 0 where
    pub places : length t.pid_array ≡ max_pid
    pub count : t.pid_count ≤ max_pid
    pub distinct :
        (i j : ℕ)
        → i < t.pid_count
        → j < t.pid_count
        → get_or t.pid_array i 0 ≡ get_or t.pid_array j 0
        → i ≡ j

  untracked :
      (n : ℕ) (ps : List ℕ) (pid i : ℕ)
      → n ≤ length ps
      → pid < 2 ^ 31
      → tracked kernel n ps pid ≡ false
      → i < n
      → get_or ps i 0 ≢ pid
  untracked zero ps pid i l b h k = absurd (omega arith)
  untracked (suc n) [] pid i l b h k = absurd (omega arith)
  untracked (suc n) (p ∷ ps) pid zero l b h k = λ e. absurd (ground (arith, h, e, b))
  untracked (suc n) (p ∷ ps) pid (suc i) l b h k =
      untracked n ps pid i (omega arith) b (ground (arith, h)) (omega arith)

  untracked_long :
      (n : ℕ) (ps : List ℕ) (pid : ℕ)
      → 2 ^ 32 ≤ pid
      → pid < 2 ^ 63
      → All (λ p. p < 2 ^ 32) ps
      → tracked kernel n ps pid ≡ false
  untracked_long zero ps pid big small ints = refl
  untracked_long (suc n) [] pid big small ints = refl
  untracked_long (suc n) (p ∷ ps) pid big small ints =
      ground (arith, untracked_long n ps pid big small ints.1, ints.0)

  -- A place more, with a number that is new.
  added :
      (t : Tracker kernel) (pid : ℕ) (s : kernel.State)
      → IsTracker t
      → t.pid_count < max_pid
      → pid < 2 ^ 31
      → tracked kernel t.pid_count t.pid_array pid ≡ false
      → IsTracker (record {
        pid_count = t.pid_count + 1;
        pid_array = set t.pid_array t.pid_count pid;
        proc = s;
      })
  added t pid s v room small new = record {
    places = length-set t.pid_array t.pid_count pid ∙ v.places;
    count = omega arith;
    distinct = λ i j hi hj e.
        let ps = t.pid_array in
        let n = t.pid_count in
        let self : get_or (set ps n pid) n 0 ≡ pid =
          get_or-set_self ps n pid 0 (omega (arith, v.places)) in
        let kept : (k : ℕ) → k ≢ n → get_or (set ps n pid) k 0 ≡ get_or ps k 0 =
          λ k ne. get_or-set_ne ps pid 0 (λ q. ne (sym q)) in
        let fresh : (k : ℕ) → k < n → get_or ps k 0 ≢ pid =
          λ k h. untracked n ps pid k (omega (arith, v.places)) small new h in
        elim (ℕ_discrete i n) [
          | yes p ↦ elim (ℕ_discrete j n) [
            | yes q ↦ p ∙ sym q
            | no q ↦ absurd (
                fresh j (omega arith)
                  (sym (kept j q) ∙ sym e ∙ ap (λ k. get_or (set ps n pid) k 0) p ∙ self))
          ]
          | no p ↦ elim (ℕ_discrete j n) [
            | yes q ↦ absurd (
                fresh i (omega arith)
                  (sym (kept i p) ∙ e ∙ ap (λ k. get_or (set ps n pid) k 0) q ∙ self))
            | no q ↦ v.distinct i j (omega arith) (omega arith) (sym (kept i p) ∙ e ∙ kept j q)
          ]
        ];
  }

  -- Tracking a process whose number is a non-negative `int`, while a place is left, succeeds and keeps the
  -- tracked numbers distinct, for a kernel that finds a process under its own number.
  pub asepid_action-IsTracker :
      (pid : ℕ) (t : Tracker kernel)
      → pid < 2 ^ 31
      → ((nr : ℕ) → kernel.find_get_pid pid t.proc ≡ some nr → nr ≡ pid)
      → IsTracker t
      → t.pid_count < max_pid
      → (t' : Tracker kernel) × (asepid_action kernel pid t ≡ some t') × IsTracker t'
  unfolding asepid_action
  asepid_action-IsTracker pid t small own v room =
      let same : int_of_long pid ≡ pid = omega arith in
      elim (Option-cases (kernel.find_get_pid pid t.proc)) [
        | inl e ↦ (t, ground (arith, e, same), v)
        | inr (nr, e) ↦ elim (Bool-cases (tracked kernel t.pid_count t.pid_array pid)) [
          | inl old ↦ (t, ground (arith, e, old, same), v)
          | inr new ↦
              let found = e ∙ ap (λ k. some k) (own nr e) in
              let s = kernel.proc_create (take 9 (kernel.decimal pid)) t.proc in
              (
                record {
                  pid_count = t.pid_count + 1;
                  pid_array = set t.pid_array t.pid_count pid;
                  proc = s;
                },
                ground (arith, found, new, room, same),
                added t pid s v room small new,
              )
        ]
      ]

  -- A number that no `int` is, but that `find_get_pid` takes for a process, is never found in the array: the
  -- process is tracked again.
  pub asepid_action_again :
      (pid : ℕ) (t : Tracker kernel)
      → 2 ^ 32 ≤ pid
      → pid < 2 ^ 63
      → All (λ p. p < 2 ^ 32) t.pid_array
      → kernel.find_get_pid (int_of_long pid) t.proc ≡ some (int_of_long pid)
      → t.pid_count < max_pid
      → (s : kernel.State) × (asepid_action kernel pid t
          ≡ some (record {
            pid_count = t.pid_count + 1;
            pid_array = set t.pid_array t.pid_count (int_of_long pid);
            proc = s;
          }))
  unfolding asepid_action
  asepid_action_again pid t big small ints e room =
      let new = untracked_long t.pid_count t.pid_array pid big small ints in
      (kernel.proc_create (take 9 (kernel.decimal pid)) t.proc, ground (arith, e, new, room))

  -- With all places taken, tracking one more process that exists writes past the end of the array.
  pub asepid_action_full :
      (pid nr : ℕ) (t : Tracker kernel)
      → kernel.find_get_pid (int_of_long pid) t.proc ≡ some nr
      → tracked kernel t.pid_count t.pid_array pid ≡ false
      → t.pid_count ≡ max_pid
      → asepid_action kernel pid t ≡ none
  unfolding asepid_action
  asepid_action_full pid nr t e new full = ground (arith, e, new, full)

  -- After a tracked process has ended, its entry is gone, but its number stays in the array: asking to
  -- track that number again succeeds and changes nothing, so that no entry is made.
  pub asepid_action-asepid_terminate_pid :
      (pid : ℕ) (t : Tracker kernel)
      → pid < 2 ^ 31
      → tracked kernel t.pid_count t.pid_array pid ≡ true
      → (asepid_terminate_pid kernel pid t
          ≡ record t { proc = kernel.remove_proc_entry (kernel.decimal pid) t.proc })
        × (asepid_action kernel pid (asepid_terminate_pid kernel pid t)
            ≡ some (asepid_terminate_pid kernel pid t))
  unfolding asepid_action asepid_terminate_pid
  asepid_action-asepid_terminate_pid pid t small old =
      let same : int_of_long pid ≡ pid = omega arith in
      let back : long_of_int pid ≡ pid = ground (arith, small) in
      (
        rw (back, old) refl,
        elim (Option-cases
            (kernel.find_get_pid pid (kernel.remove_proc_entry (kernel.decimal pid) t.proc))) [
              | inl e ↦ ground (arith, old, e, same, back)
              | inr (nr, e) ↦ ground (arith, old, e, same, back)
            ],
      )
