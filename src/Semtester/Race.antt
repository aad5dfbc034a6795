-- ===== src/Semtester/Race.antt =====
-- A tick of the timer between the test of `sem_down` and the change of the counter (src/sem.c), in
-- src/semtester.c.
use ase_plus_plus.Prelude.{ℕ, ◌-◌}
use ase_plus_plus.Scheduler.{update}
use ase_plus_plus.Semtester.{changes, takes_mutex, Tester}

-- The state behind the test of the mutex, and behind a call of `sem_down` that takes it.
abbrev pub tested : (c : ℕ) → Tester → Tester
tested c s = record s { place = update s.place c takes_mutex }

abbrev pub taken : (b : ℕ) → Tester → Tester
taken b s = record s {
  mutex = record (s.mutex) { compteur = s.mutex.compteur - 1 };
  place = update s.place b changes;
}
