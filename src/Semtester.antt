-- ===== src/Semtester.antt =====
-- The program src/semtester.c: producers and consumers of a buffer, contexts of src/ctx.c that meet at three
-- semaphores of src/sem.c. A state has the memory of the contexts, the globals, and the place in its
-- function of each context; what is printed and `second_sleep`, which counts, are left out. A context goes
-- on by one statement, and the timer may interrupt it between two of them. Inside a call it may interrupt
-- `sem_down` between its test and the change of the counter; a tick at another place inside `sem_down`,
-- `sem_up` or `yield`, none of which masks the timer, is left out. A run is quiet when no call is
-- interrupted. `none` is a stop, or a search for a context that does not end.
pub mod Turning
pub mod Counting
pub mod Moves
pub mod Settled
pub mod Tokens
pub mod Invariant
pub mod Safety
pub mod Lost
pub mod Race
use ase_plus_plus.Prelude.{
  ℕ, ◌+◌, List, [], ◌∷◌, Bool, true, false, ◌==◌, ltb, if◌then◌else◌, ◌≡◌, Option, none, some, ◌⊎◌,
}
use ase_plus_plus.Superbloc.{dec32}
use ase_plus_plus.Scheduler.{
  Context, Semaphore, Kernel, Turn, Task, returns, resumes, enters, done, stops, loops, update,
  sem_magic_number, ◌>>=◌, ◌>>◌, create_ctx, yield, sem_init, sem_down, sem_up,
}

-- `MAX_BUFFER`
abbrev pub max_buffer : ℕ
max_buffer = 5

-- `producerA` and `producerB`, and `consummerC` and `consummerD`, differ in what they print only.
pub data Role : Type 0 where
  producer : Role
  consumer : Role

-- Where a context is in the body of its loop: before the first `sem_down`, before that of the mutex, before
-- the change of `head` or `tail`, before `sem_up` of the mutex, and before the last `sem_up`; or in the
-- first or in the second `sem_down`: behind its `yield`, or between its test of the counter, which was
-- positive, and the change of it.
pub data Place : Type 0 where
  asks : Place
  locks : Place
  changes : Place
  unlocks : Place
  signals : Place
  waits_count : Place
  waits_mutex : Place
  takes_count : Place
  takes_mutex : Place

pub record Tester : Type 0 where
  pub kernel : Kernel
  pub mutex : Semaphore
  pub fill_count : Semaphore
  pub empty_count : Semaphore
  pub head : ℕ
  pub tail : ℕ
  pub place : ℕ → Place

abbrev pub running : Kernel → Option ℕ
running k = k.current_ctx k.current_core

-- A context that is entered starts its function anew.
abbrev pub turned : Turn → Kernel → (ℕ → Place) → ℕ → Place
turned returns k place = place
turned resumes k place = place
turned enters k place = elim (running k) [ some a ↦ update place a asks | none ↦ place ]

-- A call of `sem_down` by the context `c`, which goes on at `next`; until then it waits.
unfoldable pub down :
    (fuel c : ℕ) (next wait : Place) → Semaphore → Tester → Option (Semaphore × Tester)
unfolding sem_down
down fuel c next wait sem s = elim (sem_down fuel sem s.kernel) [
  | done r k ↦ some (
    r.1,
    record s {
      kernel = k;
      place = turned r.0 k (update s.place c (if ltb 0 sem.compteur then next else wait));
    },
  )
  | stops why ↦ none
  | loops ↦ none
]

unfoldable pub up : (fuel c : ℕ) (next : Place) → Semaphore → Tester → Option (Semaphore × Tester)
unfolding sem_up
up fuel c next sem s = elim (sem_up fuel sem s.kernel) [
  | done r k ↦ some (r.1, record s { kernel = k; place = turned r.0 k (update s.place c next) })
  | stops why ↦ none
  | loops ↦ none
]

abbrev pub with_mutex : Option (Semaphore × Tester) → Option Tester
with_mutex none = none
with_mutex (some (m, s)) = some (record s { mutex = m })

abbrev pub with_fill : Option (Semaphore × Tester) → Option Tester
with_fill none = none
with_fill (some (m, s)) = some (record s { fill_count = m })

abbrev pub with_empty : Option (Semaphore × Tester) → Option Tester
with_empty none = none
with_empty (some (m, s)) = some (record s { empty_count = m })

-- The statements of the loops, where a call is not interrupted. A call that was goes on by `take_token`.
unfoldable pub statement : (fuel c : ℕ) → Role → Place → Tester → Option Tester
unfolding down up
statement fuel c producer asks s = with_empty (down fuel c locks waits_count s.empty_count s)
statement fuel c consumer asks s = with_fill (down fuel c locks waits_count s.fill_count s)
statement fuel c r locks s = with_mutex (down fuel c changes waits_mutex s.mutex s)
statement fuel c producer changes s =
    some (record s { head = s.head + 1; place = update s.place c unlocks })
statement fuel c consumer changes s =
    some (record s { tail = s.tail + 1; place = update s.place c unlocks })
statement fuel c r unlocks s = with_mutex (up fuel c signals s.mutex s)
statement fuel c producer signals s = with_fill (up fuel c asks s.fill_count s)
statement fuel c consumer signals s = with_empty (up fuel c asks s.empty_count s)
statement fuel c r waits_count s = some (record s { place = update s.place c locks })
statement fuel c r waits_mutex s = some (record s { place = update s.place c changes })
statement fuel c r takes_count s = none
statement fuel c r takes_mutex s = none

-- The test of `sem_down` alone, where the counter is positive.
unfoldable pub test_counter : Semaphore → (c : ℕ) → (takes : Place) → Tester → Option Tester
test_counter sem c takes s =
    if sem.magic == sem_magic_number
    then (if ltb 0 sem.compteur then some (record s { place = update s.place c takes }) else none)
    else none

unfoldable pub test_token : (c : ℕ) → Role → Place → Tester → Option Tester
unfolding test_counter
test_token c producer asks s = test_counter s.empty_count c takes_count s
test_token c consumer asks s = test_counter s.fill_count c takes_count s
test_token c r locks s = test_counter s.mutex c takes_mutex s
test_token c r _ s = none

-- The change of the counter, which wraps around, behind that test, and the end of `sem_down`.
abbrev pub lowered : Semaphore → Semaphore
lowered sem = record sem { compteur = dec32 sem.compteur }

unfoldable pub take_token : (c : ℕ) → Role → Place → Tester → Option Tester
take_token c producer takes_count s =
    some (record s { empty_count = lowered s.empty_count; place = update s.place c locks })
take_token c consumer takes_count s =
    some (record s { fill_count = lowered s.fill_count; place = update s.place c locks })
take_token c r takes_mutex s =
    some (record s { mutex = lowered s.mutex; place = update s.place c changes })
take_token c r _ s = none

-- The handler of the timer's interrupts.
unfoldable pub timer_it : (fuel : ℕ) → Tester → Option Tester
unfolding yield
timer_it fuel s = elim (yield fuel s.kernel) [
  | done t k ↦ some (record s { kernel = k; place = turned t k s.place })
  | stops why ↦ none
  | loops ↦ none
]

-- The contexts that `main` makes, in the order of their creation: consumers D and C, producers A and B. Each
-- is an address, what `malloc` left there, and its function.
unfoldable pub make_contexts : (core : ℕ) (d c a b : ℕ × Context × ℕ) (cmd : ℕ → ℕ) → Task ℕ
make_contexts core d c a b cmd = do
  create_ctx core d.0 d.1 d.2 0 (cmd 0)
  create_ctx core c.0 c.1 c.2 0 (cmd 1)
  create_ctx core a.0 a.1 a.2 0 (cmd 2)
  create_ctx core b.0 b.1 b.2 0 (cmd 3)

-- The state behind the creation of the contexts, before the first `yield`.
unfoldable pub started : Kernel → Tester
unfolding sem_init
started k = record {
  kernel = k;
  mutex = sem_init 1;
  fill_count = sem_init 0;
  empty_count = sem_init max_buffer;
  head = 0;
  tail = 0;
  place = λ a. asks;
}

abbrev pub Member : ℕ → List ℕ → Type 0
Member c [] = ⊥
Member c (a ∷ as') = (c ≡ a) ⊎ Member c as'

-- The program goes on: one of its contexts by a statement, or by the part of `sem_down` before or behind the
-- place of a tick, or the core by a tick of the timer.
pub data Step (roles : ℕ → Role) (ids : List ℕ) (s t : Tester) : Type 0 where
  moves :
      (fuel c : ℕ)
      → running s.kernel ≡ some c
      → Member c ids
      → statement fuel c (roles c) (s.place c) s ≡ some t
      → Step roles ids s t
  tests :
      (c : ℕ)
      → running s.kernel ≡ some c
      → Member c ids
      → test_token c (roles c) (s.place c) s ≡ some t
      → Step roles ids s t
  takes :
      (c : ℕ)
      → running s.kernel ≡ some c
      → Member c ids
      → take_token c (roles c) (s.place c) s ≡ some t
      → Step roles ids s t
  ticks : (fuel : ℕ) → timer_it fuel s ≡ some t → Step roles ids s t

pub data Reach (roles : ℕ → Role) (ids : List ℕ) (s : Tester) : Tester → Type 0 where
  here : Reach roles ids s s
  later : {t u : Tester} → Reach roles ids s t → Step roles ids t u → Reach roles ids s u

-- A run in which the timer does not tick inside `sem_down`, `sem_up` and `yield`: each call is one step.
abbrev pub IsQuiet : (roles : ℕ → Role) (ids : List ℕ) (s t : Tester) → Reach roles ids s t → Type 0
IsQuiet roles ids s t here = Unit
IsQuiet roles ids s t (later {t = u} r (moves fuel c cur m e)) = IsQuiet roles ids s u r
IsQuiet roles ids s t (later {t = u} r (tests c cur m e)) = ⊥
IsQuiet roles ids s t (later {t = u} r (takes c cur m e)) = ⊥
IsQuiet roles ids s t (later {t = u} r (ticks fuel e)) = IsQuiet roles ids s u r
