-- ===== src/Tests/Processes.antt =====
-- The theorems on the tracking of processes at a concrete kernel.
use ase_plus_plus.Prelude.{ℕ, ◌≡◌, arith, List, [], ◌∷◌, some, replicate, length-replicate}
use ase_plus_plus.Words.{Bytes}
use ase_plus_plus.Tracktime.{Kernel, Parsed, Tracker, asepid_action}
use ase_plus_plus.Tracktime.Distinct.{IsTracker, asepid_action-IsTracker}

-- Every number is that of a process; the state is the list of the entries made.
abbrev kernel : Kernel
kernel = record {
  State = List Bytes;
  decimal = λ n. n ∷ [];
  find_get_pid = λ pid s. some pid;
  proc_create = λ pid s. pid ∷ s;
  remove_proc_entry = λ pid s. [];
  copy_from_user = λ len s. some [];
  kstrtol = λ b. Parsed.einval;
}

abbrev untouched : Tracker kernel
untouched = record { pid_count = 0; pid_array = replicate 1024 0; proc = [] }

untouched-IsTracker : IsTracker kernel untouched
untouched-IsTracker = record {
  places = length-replicate {A = ℕ} 1024 0;
  count = omega arith;
  distinct = λ i j hi hj e. absurd (omega arith);
}

asepid_action-IsTracker_example :
    (t : Tracker kernel) × (asepid_action kernel 42 untouched ≡ some t) × IsTracker kernel t
asepid_action-IsTracker_example =
    asepid_action-IsTracker kernel 42 untouched (omega arith) (λ nr e. ground (arith, e))
      untouched-IsTracker (omega arith)

abbrev filled : Tracker kernel
filled = record { pid_count = 1024; pid_array = replicate 1024 7; proc = (7 ∷ []) ∷ [] }
