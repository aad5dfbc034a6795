-- ===== src/Scheduler/Turns.antt =====
-- Which context `yield` switches to, and what it leaves (src/ctx.c).
use ase_plus_plus.Prelude.{
  ℕ, suc, ◌≤◌, ◌≡◌, ◌≢◌, refl, arith, List, [], ◌∷◌, ◌++◌, All, some, length, false, if◌then◌else◌,
  Bool-cases, inl, inr, All-split,
}
use ase_plus_plus.Scheduler.{
  ready, Context, Kernel, Turn, returns, resumes, enters, done, loops, update, is_activable,
  switch_to_ctx, yield, yield_from, save_current,
}
use ase_plus_plus.Scheduler.Ring.{Linked-store, Linked-head, IsRing}
use ase_plus_plus.Scheduler.Order.{IsRing-rotate, Linked-split}
use ase_plus_plus.Scheduler.Yield.{Blocked, Runnable, skip_blocked-loops, skip_blocked-head}

-- A context that was never run enters its function, another one goes on where it stopped.
abbrev pub turn_of : Context → Turn
turn_of x = if is_activable x.state then enters else resumes

abbrev pub switched : Kernel → (b : ℕ) → Context → Kernel
switched k b x = record k {
  current_ctx = update k.current_ctx k.current_core (some b);
  heap =
      if is_activable x.state then update k.heap b (some (record x { state = ready })) else k.heap;
}

-- The core runs context `c`, and the ring of its contexts goes on with the given ones.
pub record Runs (k : Kernel) (c : ℕ) (xs : List ℕ) : Type 0 where
  pub cur : k.current_ctx k.current_core ≡ some c
  pub started : k.first_context ≡ false
  pub ring : IsRing k.heap c xs

module _ (k : Kernel) (c b : ℕ) (ps qs : List ℕ) (runs : Runs k c (ps ++ (b ∷ qs)))
    (r : Runnable k.heap b) where
  switch_to_ctx-switched : switch_to_ctx b k ≡ done (turn_of r.0) (switched k b r.0)
  unfolding switch_to_ctx save_current
  switch_to_ctx-switched =
      let at_c = Linked-head k.heap c (ps ++ (b ∷ qs)) c runs.ring.links in
      elim (Bool-cases (is_activable r.0.state)) [
        | inl t ↦ ground (arith, runs.cur, at_c, t)
        | inr f ↦ ground (arith, runs.cur, at_c, f)
      ]

  switched-Runs : Runs (switched k b r.0) b (qs ++ (c ∷ ps))
  switched-Runs =
      let turned = IsRing-rotate k.heap c ps b qs runs.ring in
      record {
        cur = ground arith;
        started = runs.started;
        ring = record {
          links = elim (Bool-cases (is_activable r.0.state)) [
            | inl t ↦ rw t (Linked-store k.heap b r.0 _ b (qs ++ (c ∷ ps)) b r.1 refl turned.links)
            | inr f ↦ rw f turned.links
          ];
          distinct = turned.distinct;
        };
      }

  pub yield-switched :
      (fuel : ℕ)
      → suc (length ps) ≤ fuel
      → All (Blocked k.heap) ps
      → (yield fuel k ≡ done (turn_of r.0) (switched k b r.0))
        × Runs (switched k b r.0) b (qs ++ (c ∷ ps))
  unfolding yield yield_from
  yield-switched fuel big bl =
      let (x, at_c, next) =
        Linked-head k.heap c ps b (Linked-split k.heap c ps b qs c runs.ring.links).0 in
      let ne : b ≢ c = (All-split (λ y. y ≢ c) ps (b ∷ qs) runs.ring.distinct.0).1.0 in
      let found =
        skip_blocked-head k c b ps fuel (Linked-split k.heap c ps b qs c runs.ring.links).0 bl r
          big in
      (
        ground (arith, runs.cur, runs.started, at_c, next, ne, found, switch_to_ctx-switched),
        switched-Runs,
      )

-- A yield while every other context is blocked goes on with the current one, if that is not blocked.
pub yield_alone :
    (k : Kernel) (c : ℕ) (xs : List ℕ) (fuel : ℕ)
    → Runs k c xs
    → Runnable k.heap c
    → All (Blocked k.heap) xs
    → suc (length xs) ≤ fuel
    → yield fuel k ≡ done returns k
unfolding yield yield_from
yield_alone k c xs fuel runs r bl big =
    let (x, at_c, next) = Linked-head k.heap c xs c runs.ring.links in
    let found = skip_blocked-head k c c xs fuel runs.ring.links bl r big in
    ground (arith, runs.cur, runs.started, at_c, next, found)

-- When every context of the ring is blocked, the current one too, no fuel sees the end of `yield`.
pub yield-loops :
    (k : Kernel) (c : ℕ) (xs : List ℕ) (fuel : ℕ)
    → Runs k c xs
    → All (Blocked k.heap) (c ∷ xs)
    → yield fuel k ≡ loops
unfolding yield yield_from
yield-loops k c [] fuel runs bl =
    let never = skip_blocked-loops k c c [] [] fuel runs.ring.links runs.ring.links bl bl in
    ground (arith, runs.cur, runs.started, runs.ring.links, never)
yield-loops k c (b ∷ xs) fuel runs bl =
    let l = runs.ring.links in
    let never = skip_blocked-loops k c b xs (b ∷ xs) fuel l.1 l bl.1 bl in
    ground (arith, runs.cur, runs.started, l.0, never)
