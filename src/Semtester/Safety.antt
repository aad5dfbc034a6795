-- ===== src/Semtester/Safety.antt =====
-- The buffer and the mutex of src/semtester.c in the runs in which no call is interrupted.
use ase_plus_plus.Prelude.{ℕ, ◌+◌, ◌≤◌, ◌≡◌, ◌≢◌, refl, arith, List, [], ◌∷◌}
use ase_plus_plus.Scheduler.{Kernel}
use ase_plus_plus.Scheduler.Ring.{IsDistinct}
use ase_plus_plus.Semtester.{
  max_buffer, Role, Place, asks, Tester, started, Member, moves, tests, takes, ticks, Reach, here,
  later, IsQuiet,
}
use ase_plus_plus.Semtester.Counting.{inside, filled, emptied, total, total-two}
use ase_plus_plus.Semtester.Tokens.{filled-asks, emptied-asks, tokens, Inv}
use ase_plus_plus.Semtester.Invariant.{statement-Inv, timer_it-Inv}

pub total-asks :
    (f : ℕ → Place → ℕ) (ids : List ℕ) → ((a : ℕ) → f a asks ≡ 0) → total f (λ a. asks) ids ≡ 0
total-asks f [] z = refl
total-asks f (a ∷ ids) z = omega (arith, z a, total-asks f ids z)

module _ (roles : ℕ → Role) (ids : List ℕ) where
  pub started-Inv : (k : Kernel) → Inv roles ids max_buffer (started k)
  unfolding started
  started-Inv k =
      let fills = total-asks (λ a. filled (roles a)) ids (λ a. filled-asks (roles a)) in
      let empties = total-asks (λ a. emptied (roles a)) ids (λ a. emptied-asks (roles a)) in
      record {
        settled = record { parked = λ a w. absurd (ground (arith, w)); at_work = λ c cur. refl };
        locked = omega (arith, total-asks (λ a. inside) ids (λ a. refl));
        items = omega (arith, fills);
        room = omega (arith, empties);
        few = omega (arith, fills, empties);
      }

  pub Reach-Inv :
      (n : ℕ) (s t : Tester)
      → IsDistinct ids
      → Inv roles ids n s
      → (r : Reach roles ids s t) → IsQuiet roles ids s t r
      → Inv roles ids n t
  Reach-Inv n s t d i here q = i
  Reach-Inv n s t d i (later {t = u} r (moves fuel c cur m e)) q =
      let j = Reach-Inv n s u d i r q in
      statement-Inv roles ids d n fuel c m u j (roles c) (u.place c) t refl refl cur e
  Reach-Inv n s t d i (later {t = u} r (tests c cur m e)) q = absurd q
  Reach-Inv n s t d i (later {t = u} r (takes c cur m e)) q = absurd q
  Reach-Inv n s t d i (later {t = u} r (ticks fuel e)) q =
      timer_it-Inv roles ids d n fuel u t (Reach-Inv n s u d i r q) e

  -- Whatever the order in which the contexts go on and the timer ticks, as long as it does not tick inside
  -- `sem_down`, `sem_up` and `yield`, the consumers never take more than was produced, the producers never put more
  -- than five items into the buffer, and the semaphores of the buffer and the contexts never hold more than
  -- five tokens together.
  pub semtester_bounds :
      (k : Kernel) (t : Tester)
      → IsDistinct ids
      → (r : Reach roles ids (started k) t) → IsQuiet roles ids (started k) t r
      → (t.tail ≤ t.head) × (t.head ≤ t.tail + max_buffer) × (tokens roles ids t ≤ max_buffer)
  semtester_bounds k t d r q =
      let i = Reach-Inv max_buffer (started k) t d (started-Inv k) r q in
      (omega (arith, i.items), omega (arith, i.room), i.few)

  -- Whatever the order in which the contexts go on and the timer ticks, as long as it does not tick inside
  -- `sem_down`, `sem_up` and `yield`, while one context is between `sem_down` and `sem_up` of the mutex, no other one
  -- is.
  pub semtester_exclusive :
      (k : Kernel) (t : Tester) (a b : ℕ)
      → IsDistinct ids
      → (r : Reach roles ids (started k) t) → IsQuiet roles ids (started k) t r
      → Member a ids
      → Member b ids
      → a ≢ b
      → inside (t.place a) ≡ 1
      → inside (t.place b) ≡ 0
  semtester_exclusive k t a b d r q ma mb ne ia =
      let i = Reach-Inv max_buffer (started k) t d (started-Inv k) r q in
      omega (arith, i.locked, total-two (λ c. inside) t.place a b ids ne ma mb)
