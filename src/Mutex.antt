-- ===== src/Mutex.antt =====
-- `mbr_mutex` of src/mbr.c, the semaphore (src/sem.c) round each transfer, as one context alone meets
-- it. `sem_up` finds no blocked context to wake, and its `yield` finds no other to run.
use ase_plus_plus.Prelude.{ℕ, ◌+◌, ◌-◌, ◌==◌, ltb, if◌then◌else◌}
use ase_plus_plus.System.{Mutex, Cmd, Void, blocked, halt, ◌>>=◌, ◌>>◌, gets, modify, assert_that}

abbrev pub sem_magic_number : ℕ
sem_magic_number = 0x69

unfoldable pub sem_init : ℕ → Mutex
sem_init val = record { compteur = val; magic = sem_magic_number }

unfoldable pub sem_down : Cmd Void
sem_down = do
  sem ← gets (λ w. w.mbr_mutex)
  assert_that (sem.magic == sem_magic_number)
  if ltb 0 sem.compteur
      then modify (λ w. record w { mbr_mutex = record sem { compteur = sem.compteur - 1 } })
      else halt blocked

unfoldable pub sem_up : Cmd Void
sem_up = do
  sem ← gets (λ w. w.mbr_mutex)
  assert_that (sem.magic == sem_magic_number)
  modify (λ w. record w { mbr_mutex = record sem { compteur = sem.compteur + 1 } })
