-- ===== src/Scheduler/Blocked.antt =====
-- The contexts that wait for a semaphore (src/sem.c).
use ase_plus_plus.Prelude.{
  ℕ, suc, ◌+◌, ◌≤◌, ◌≡◌, ◌≢◌, refl, sym, ap, subst, ◌∙◌, arith, List, [], ◌∷◌, ◌++◌, All, Option,
  none, some, length, true, All-split,
}
use ase_plus_plus.Scheduler.{
  blocked, activable, enters, returns, Turn, Context, Kernel, Semaphore, done, ◌>>=◌, update,
  is_blocked, sem_magic_number, canary_value, yield, sem_down, sem_up,
}
use ase_plus_plus.Scheduler.Ring.{Heap, Linked-store, Linked-head, All-map, All_both, All-update}
use ase_plus_plus.Scheduler.Order.{IsDistinct-split}
use ase_plus_plus.Scheduler.Yield.{Blocked, Runnable}
use ase_plus_plus.Scheduler.Turns.{Runs, turn_of, switched, yield-switched}

-- The list of a semaphore, from its head on.
abbrev pub Waits : Heap → Option ℕ → List ℕ → Type 0
Waits h head [] = head ≡ none
Waits h head (a ∷ ws) =
    (x : Context) × (head ≡ some a)
    × (h a ≡ some x)
    × (is_blocked x.state ≡ true)
    × Waits h x.next_semaphore_context ws

pub Waits-frame :
    (h g : Heap) (head : Option ℕ) (ws : List ℕ)
    → All (λ y. g y ≡ h y) ws
    → Waits h head ws
    → Waits g head ws
Waits-frame h g head [] e w = w
Waits-frame h g head (a ∷ ws) e (x, there, at_a, state, rest) =
    (x, there, e.0 ∙ at_a, state, Waits-frame h g x.next_semaphore_context ws e.1 rest)

-- A context that can run waits for no semaphore.
Waits-All :
    (h : Heap) (head : Option ℕ) (ws : List ℕ) (b : ℕ)
    → Runnable h b
    → Waits h head ws
    → All (λ y. y ≢ b) ws
Waits-All h head [] b r w = tt
Waits-All h head (a ∷ ws) b r (x, there, at_a, state, rest) = (
  λ e. let same : h a ≡ h b = ap h e in ground (arith, r),
  Waits-All h x.next_semaphore_context ws b r rest,
)

-- A context is stored with another state, `c` keeps its ring.
Runs-store :
    (k : Kernel) (c a : ℕ) (xs : List ℕ) (x y : Context)
    → k.heap a ≡ some x
    → y.next ≡ x.next
    → Runs k c xs
    → Runs (record k { heap = update k.heap a (some y) }) c xs
Runs-store k c a xs x y at_a next runs = record {
  cur = runs.cur;
  started = runs.started;
  ring = record {
    links = Linked-store k.heap a x y c xs c at_a next runs.ring.links;
    distinct = runs.ring.distinct;
  };
}

switched_ne : (k : Kernel) (b y : ℕ) (x : Context) → y ≢ b → (switched k b x).heap y ≡ k.heap y
switched_ne k b y x ne = ground arith

module _ (k : Kernel) (sem : Semaphore) (fuel c b : ℕ) (ps qs ws : List ℕ)
    (magic : sem.magic ≡ sem_magic_number) (runs : Runs k c (ps ++ (b ∷ qs)))
    (big : suc (length ps) ≤ fuel) (bl : All (Blocked k.heap) ps) (r : Runnable k.heap b)
    (waits : Waits k.heap sem.ctx_blocked ws) (off : All (λ y. y ≢ c) ws) where
  -- A context that finds the counter at 0 is blocked, is put in front of those that wait for the
  -- semaphore, and leaves the core to the first context of the ring that is not blocked.
  pub sem_down-Waits :
      sem.compteur ≡ 0
      → (k' : Kernel) × (t : Turn) × (sem' : Semaphore) × (sem_down fuel sem k ≡ done (t, sem') k')
        × Runs k' b (qs ++ (c ∷ ps))
        × Waits k'.heap sem'.ctx_blocked (c ∷ ws)
        × (sem'.compteur ≡ 0)
  unfolding sem_down
  sem_down-Waits zero =
      let (x, at_c, next) = Linked-head k.heap c (ps ++ (b ∷ qs)) c runs.ring.links in
      let x' = record x { state = blocked; next_semaphore_context = sem.ctx_blocked } in
      let k1 = record k { heap = update k.heap c (some x') } in
      let ne = All-split (λ y. y ≢ c) ps (b ∷ qs) runs.ring.distinct.0 in
      let frame = All-update k.heap c (some x') in
      let bl' : All (Blocked k1.heap) ps =
        All_both ps (λ y off' (v, at_y, s). (v, ground arith, s)) ne.0 bl in
      let r' : Runnable k1.heap b = (r.0, ground (arith, ne.1.0, r.1), r.2, r.3) in
      let runs1 = Runs-store k c c (ps ++ (b ∷ qs)) x x' at_c refl runs in
      let (run, runs') = yield-switched k1 c b ps qs runs1 r' fuel big bl' in
      let ne_b = λ (e : c ≡ b). ne.1.0 (sym e) in
      let off_b : All (λ y. y ≢ b) (c ∷ ws) =
        (ne_b, Waits-All k.heap sem.ctx_blocked ws b r waits) in
      let waits1 : Waits k1.heap (some c) (c ∷ ws) = (
        x',
        refl,
        ground arith,
        refl,
        Waits-frame k.heap k1.heap sem.ctx_blocked ws (frame ws off) waits,
      ) in
      (
        switched k1 b r'.0,
        turn_of r'.0,
        record sem { ctx_blocked = some c },
        ground (arith, magic, zero, runs.cur, at_c, run),
        runs',
        Waits-frame k1.heap _ (some c) (c ∷ ws)
            (All-map (c ∷ ws) (λ y off'. switched_ne k1 b y r'.0 off') off_b) waits1,
        zero,
      )

module _ (k : Kernel) (sem : Semaphore) (fuel a : ℕ) (ws : List ℕ)
    (magic : sem.magic ≡ sem_magic_number) (waits : Waits k.heap sem.ctx_blocked (a ∷ ws)) where
  -- `sem_up` raises the counter and takes the context that came last off the list: its function is to be
  -- run from the beginning. The caller goes on, and the ring is as it was.
  pub sem_up-Waits :
      All (λ y. y ≢ a) ws
      → (k' : Kernel) × (sem' : Semaphore) × (sem_up fuel sem k ≡ done (returns, sem') k')
        × (sem'.compteur ≡ sem.compteur + 1)
        × Waits k'.heap sem'.ctx_blocked ws
        × (k'.heap ≡ update k.heap a (some (record (waits.0) { state = activable })))
        × ((c : ℕ) (xs : List ℕ) → Runs k c xs → Runs k' c xs)
  unfolding sem_up
  sem_up-Waits off =
      let (x, head, at_a, state, rest) = waits in
      let y = record x { state = activable } in
      let k1 = record k { heap = update k.heap a (some y) } in
      (
        k1,
        record sem { compteur = sem.compteur + 1; ctx_blocked = x.next_semaphore_context },
        ground (arith, magic, head, at_a),
        refl,
        Waits-frame k.heap k1.heap x.next_semaphore_context ws (All-update k.heap a (some y) ws off)
            rest,
        refl,
        λ c xs runs. Runs-store k c a xs x y at_a refl runs,
      )

  -- A context that `sem_up` wakes enters its function from the beginning when the caller then yields
  -- to it, and does not go on behind its `sem_down`.
  pub sem_up-enters :
      (c : ℕ) (ps qs : List ℕ)
      → All (λ y. y ≢ a) ws
      → Runs k c (ps ++ (a ∷ qs))
      → All (Blocked k.heap) ps
      → suc (length ps) ≤ fuel
      → waits.0.canary ≡ canary_value
      → (k' : Kernel) × ((sem_up fuel sem >>= λ r. yield fuel) k ≡ done enters k')
        × Runs k' a (qs ++ (c ∷ ps))
  sem_up-enters c ps qs off runs bl big canary =
      let (k1, sem', up, _, _, heap, same) = sem_up-Waits off in
      let y = record (waits.0) { state = activable } in
      let h' = update k.heap a (some y) in
      let (_, _, apart) = IsDistinct-split ps (a ∷ qs) runs.ring.distinct.1 in
      let bl' : All (Blocked h') ps =
        All_both ps (λ z ne (v, at_z, s). (v, ground (arith, ne.0), s)) apart bl in
      let r : Runnable h' a = (y, ground arith, refl, canary) in
      let (run, runs') =
        yield-switched k1 c a ps qs (same c (ps ++ (a ∷ qs)) runs)
          (subst (λ h. Runnable h a) (sym heap) r) fuel big
          (subst (λ h. All (Blocked h) ps) (sym heap) bl') in
      (_, ground (arith, up, run), runs')
