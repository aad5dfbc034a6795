-- ===== src/Scheduler/Rounds.antt =====
-- Contexts that yield one after the other (src/ctx.c).
use ase_plus_plus.Prelude.{
  ℕ, zero, suc, ◌≤◌, ◌≡◌, refl, subst, arith, List, [], ◌∷◌, ◌++◌, All, length, ◌==◌, Bool-cases,
  inl, inr, All-append,
}
use mathlib.Core.List.{append_assoc}
use ase_plus_plus.System.{Void}
use ase_plus_plus.Scheduler.{ready, Kernel, Task, Turn, done, pure, ◌>>◌, is_activable, yield}
use ase_plus_plus.Scheduler.Ring.{All-map}
use ase_plus_plus.Scheduler.Yield.{Runnable}
use ase_plus_plus.Scheduler.Turns.{Runs, switched, yield-switched}

-- The yields of `n` contexts, each of the one that then runs.
unfoldable pub yields : (fuel n : ℕ) → Task Void
yields fuel zero = pure tt
yields fuel (suc n) = yield fuel >> yields fuel n

-- A switch blocks no context.
switched-Runnable :
    (k : Kernel) (b y : ℕ) (r : Runnable k.heap b)
    → Runnable k.heap y
    → Runnable (switched k b r.0).heap y
switched-Runnable k b y r s = elim (Bool-cases (is_activable r.0.state)) [
  | inl t ↦ elim (Bool-cases (y == b)) [
    | inl same ↦ (record (r.0) { state = ready }, ground (arith, t), refl, r.3)
    | inr off ↦ (s.0, ground (arith, t), s.2, s.3)
  ]
  | inr f ↦ (s.0, ground (arith, f), s.2, s.3)
]

-- One yield runs the next context, behind which the ring goes on as before.
yield_next :
    (fuel : ℕ) (k : Kernel) (c p : ℕ) (xs : List ℕ)
    → 1 ≤ fuel
    → Runs k c (p ∷ xs)
    → All (Runnable k.heap) (c ∷ p ∷ xs)
    → (t : Turn) × (k' : Kernel) × (yield fuel k ≡ done t k')
      × Runs k' p (xs ++ (c ∷ []))
      × All (Runnable k'.heap) (p ∷ (xs ++ (c ∷ [])))
yield_next fuel k c p xs big runs r =
    let b = r.1.0 in
    let (run, runs') = yield-switched k c p [] xs runs b fuel big tt in
    let keep = λ (y : ℕ) (s : Runnable k.heap y). switched-Runnable k p y b s in
    (
      _,
      switched k p b.0,
      run,
      runs',
      (
        keep p b,
        All-append (Runnable (switched k p b.0).heap) xs (c ∷ []) (All-map xs keep r.1.1)
            (keep c r.0, tt),
      ),
    )

-- While no context of the ring is blocked, the contexts are run in turn: a context with `n` others before
-- it runs after `n + 1` yields, and the ring is then the same, seen from there.
pub yields-reaches :
    (fuel : ℕ) (ps qs : List ℕ) (k : Kernel) (c b : ℕ)
    → 1 ≤ fuel
    → Runs k c (ps ++ (b ∷ qs))
    → All (Runnable k.heap) (c ∷ (ps ++ (b ∷ qs)))
    → (k' : Kernel) × (yields fuel (suc (length ps)) k ≡ done tt k')
      × Runs k' b (qs ++ (c ∷ ps))
      × All (Runnable k'.heap) (b ∷ (qs ++ (c ∷ ps)))
unfolding yields
yields-reaches fuel [] qs k c b big runs r =
    let (t, k', run, runs', r') = yield_next fuel k c b qs big runs r in
    (k', ground (arith, run), runs', r')
yields-reaches fuel (p ∷ ps) qs k c b big runs r =
    let (t, k', run, runs', r') = yield_next fuel k c p (ps ++ (b ∷ qs)) big runs r in
    let e = append_assoc ps (b ∷ qs) (c ∷ []) in
    let (k'', go, last, all) =
      yields-reaches fuel ps (qs ++ (c ∷ [])) k' p b big (subst (Runs k' p) e runs')
        (subst (λ xs. All (Runnable k'.heap) (p ∷ xs)) e r') in
    let e' = append_assoc qs (c ∷ []) (p ∷ ps) in
    (
      k'',
      ground (arith, run, go),
      subst (Runs k'' b) e' last,
      subst (λ xs. All (Runnable k''.heap) (b ∷ xs)) e' all,
    )
