-- ===== src/Tests/Producers.antt =====
-- Two producers of src/semtester.c, of which one waits for the mutex.
use ase_plus_plus.Prelude.{
  ℕ, ◌+◌, ◌≤◌, ◌≡◌, refl, arith, List, [], ◌∷◌, none, some, Option, inl, inr, false,
}
use ase_plus_plus.Scheduler.{State, activable, ready, Context, Kernel, update, canary_value}
use ase_plus_plus.Scheduler.Ring.{IsDistinct}
use ase_plus_plus.Semtester.{
  asks, waits_mutex, max_buffer, Role, producer, Tester, statement, timer_it, started, moves, ticks,
  Reach, IsQuiet, here, later,
}
use ase_plus_plus.Semtester.Counting.{inside}
use ase_plus_plus.Semtester.Tokens.{tokens}
use ase_plus_plus.Semtester.Safety.{semtester_bounds, semtester_exclusive}
use ase_plus_plus.Semtester.Lost.{token_lost}
use ase_plus_plus.Semtester.Race.{tested, taken}

abbrev context : State → (next : ℕ) → Context
context s next = record {
  state = s;
  function = 7;
  arguments = 0;
  next = next;
  next_semaphore_context = none;
  canary = canary_value;
  cmd = 0;
}

-- Contexts 1 and 2, of which 1 runs.
abbrev kernel : Kernel
kernel = record {
  heap = update (update (λ a. none) 1 (some (context ready 2))) 2 (some (context activable 1));
  current_ctx = λ core. some 1;
  current_core = 0;
  first_context = false;
}

abbrev roles : ℕ → Role
roles a = producer

abbrev ids : List ℕ
ids = 1 ∷ 2 ∷ []

ids-IsDistinct : IsDistinct ids
ids-IsDistinct = (((λ e. omega arith), tt), (tt, tt))

abbrev or_same : Option Tester → Tester → Tester
or_same none s = s
or_same (some t) s = t

-- A statement of a context, and a tick.
abbrev go : ℕ → Tester → Tester
go c s = or_same (statement 9 c producer (s.place c) s) s

abbrev tick : Tester → Tester
tick s = or_same (timer_it 9 s) s

abbrev locked : Tester
locked = go 1 (go 1 (started kernel))

abbrev queued : Tester
queued = go 2 (go 2 (tick locked))

abbrev woken : Tester
woken = go 1 (go 1 queued)

locked-Reach : Reach roles ids (started kernel) locked
unfolding started statement
locked-Reach = later (later here (moves 9 1 refl (inl refl) refl)) (moves 9 1 refl (inl refl) refl)

queued-Reach : Reach roles ids (started kernel) queued
unfolding started statement timer_it
queued-Reach =
    later (later (later locked-Reach (ticks 9 refl)) (moves 9 2 refl (inr (inl refl)) refl))
      (moves 9 2 refl (inr (inl refl)) refl)

woken-Reach : Reach roles ids (started kernel) woken
unfolding started statement timer_it
woken-Reach =
    later (later queued-Reach (moves 9 1 refl (inl refl) refl)) (moves 9 1 refl (inl refl) refl)

locked-IsQuiet : IsQuiet roles ids (started kernel) locked locked-Reach
unfolding locked-Reach
locked-IsQuiet = tt

woken-IsQuiet : IsQuiet roles ids (started kernel) woken woken-Reach
unfolding woken-Reach queued-Reach locked-Reach
woken-IsQuiet = tt

semtester_bounds_example :
    (woken.tail ≤ woken.head)
    × (woken.head ≤ woken.tail + max_buffer)
    × (tokens roles ids woken ≤ max_buffer)
semtester_bounds_example =
    semtester_bounds roles ids kernel woken ids-IsDistinct woken-Reach woken-IsQuiet

locked_inside : inside (locked.place 1) ≡ 1
unfolding started statement
locked_inside = refl

semtester_exclusive_example : inside (locked.place 2) ≡ 0
semtester_exclusive_example =
    semtester_exclusive roles ids kernel locked 1 2 ids-IsDistinct locked-Reach locked-IsQuiet
      (inl refl) (inr (inl refl)) (λ e. omega arith) locked_inside

woken_waits : woken.place 2 ≡ waits_mutex
unfolding started statement timer_it
woken_waits = refl

tick_enters : (tick woken).place 2 ≡ asks
unfolding started statement timer_it
tick_enters = refl

tick_runs : timer_it 9 woken ≡ some (tick woken)
unfolding started statement timer_it
tick_runs = refl

token_lost_example : tokens roles ids (tick woken) + 1 ≤ tokens roles ids woken
token_lost_example =
    token_lost roles ids ids-IsDistinct kernel 9 woken (tick woken) (tick woken) 2 woken-Reach
      woken-IsQuiet (inr (inl refl)) tick_runs woken_waits tick_enters here tt

-- Both contexts before `sem_down` of the mutex, and the first one runs.
abbrev ready_to_lock : Tester
ready_to_lock = tick (go 2 (tick (go 1 (started kernel))))

abbrev second_runs : Tester
second_runs = tick (tested 1 ready_to_lock)

abbrev back_again : Tester
back_again = tick (taken 2 second_runs)
