-- ===== src/Semtester/Lost.antt =====
-- The token that a context of src/semtester.c loses when it is woken at the mutex: `sem_up` of src/sem.c
-- makes it ACTIVABLE, for which src/ctx.c enters its function anew.
use ase_plus_plus.Prelude.{
  ℕ, ◌+◌, ◌≤◌, ◌≡◌, refl, sym, ap, ◌∙◌, arith, List, some, ◌==◌, Bool-cases, Option-cases, inl, inr,
}
use ase_plus_plus.Scheduler.{Kernel, Turn, returns, resumes, enters, yield}
use ase_plus_plus.Scheduler.Ring.{IsDistinct}
use ase_plus_plus.Semtester.{
  max_buffer, Role, producer, consumer, Place, asks, waits_mutex, Tester, running, turned, timer_it,
  started, Member, Reach, IsQuiet,
}
use ase_plus_plus.Semtester.Turning.{Outcome-cases}
use ase_plus_plus.Semtester.Counting.{filled, emptied, total, total-update}
use ase_plus_plus.Semtester.Tokens.{filled-asks, emptied-asks, tokens, Inv}
use ase_plus_plus.Semtester.Safety.{Reach-Inv, started-Inv}
use ase_plus_plus.Semtester.Invariant.{timer_it-Inv}

-- A context that waits for the mutex has a token of one of the two semaphores of the buffer.
waits-token : (r : Role) → filled r waits_mutex + emptied r waits_mutex ≡ 1
waits-token producer = refl
waits-token consumer = refl

module _ (roles : ℕ → Role) (ids : List ℕ) (distinct : IsDistinct ids) where
  turned-lost :
      (f : ℕ → Place → ℕ) (t : Turn) (k : Kernel) (place : ℕ → Place) (a : ℕ)
      → Member a ids
      → place a ≡ waits_mutex
      → turned t k place a ≡ asks
      → f a asks ≡ 0
      → total f (turned t k place) ids + f a waits_mutex ≡ total f place ids
  turned-lost f returns k place a m w e z = absurd (ground (arith, w, e))
  turned-lost f resumes k place a m w e z = absurd (ground (arith, w, e))
  turned-lost f enters k place a m w e z = elim (Option-cases (running k)) [
    | inl idle ↦ absurd (ground (arith, w, e, idle))
    | inr (b, cur) ↦ elim (Bool-cases (a == b)) [
      | inl it ↦
          let one : b ≡ a = ground (arith, it) in
          rw (cur, turned, one)
            (omega (arith, total-update f place a asks ids distinct m, ap (f a) w))
      | inr off ↦ absurd (ground (arith, w, e, cur, off))
    ]
  ]

  -- A tick that enters a context which waits for the mutex loses its token.
  timer_it-tokens :
      (fuel : ℕ) (s t : Tester) (a : ℕ)
      → Member a ids
      → timer_it fuel s ≡ some t
      → s.place a ≡ waits_mutex
      → t.place a ≡ asks
      → tokens roles ids t + 1 ≡ tokens roles ids s
  unfolding timer_it
  timer_it-tokens fuel s t a m e w back = elim (Outcome-cases (yield fuel s.kernel)) [
    | inl (turn, k, run) ↦
        let u : Tester = record s { kernel = k; place = turned turn k s.place } in
        let left : t ≡ u = ground (arith, e, run) in
        let at_u : turned turn k s.place a ≡ asks =
          ap (λ (x : Tester). x.place a) (sym left) ∙ back in
        rw left (
          omega (
            arith,
            turned-lost (λ c. filled (roles c)) turn k s.place a m w at_u (filled-asks (roles a)),
            turned-lost (λ c. emptied (roles c)) turn k s.place a m w at_u (emptied-asks (roles a)),
            waits-token (roles a),
          ))
    | inr (inl (why, wrong)) ↦ absurd (ground (arith, e, wrong))
    | inr (inr wrong) ↦ absurd (ground (arith, e, wrong))
  ]

  -- When a tick enters a context that waits for the mutex, which had taken a token of the buffer before, that
  -- token is lost, in a run in which the timer does not tick inside `sem_down`, `sem_up` and `yield`: in every state
  -- that is reached from there by such a run the semaphores and the contexts have fewer tokens than before the
  -- tick.
  pub token_lost :
      (k : Kernel) (fuel : ℕ) (s t u : Tester) (a : ℕ)
      → (r : Reach roles ids (started k) s) → IsQuiet roles ids (started k) s r
      → Member a ids
      → timer_it fuel s ≡ some t
      → s.place a ≡ waits_mutex
      → t.place a ≡ asks
      → (r' : Reach roles ids t u) → IsQuiet roles ids t u r'
      → tokens roles ids u + 1 ≤ tokens roles ids s
  token_lost k fuel s t u a r q m e w back r' q' =
      let i = Reach-Inv roles ids max_buffer (started k) s distinct (started-Inv roles ids k) r q in
      let j = timer_it-Inv roles ids distinct max_buffer fuel s t i e in
      let here : Inv roles ids (tokens roles ids t) t = record {
        settled = j.settled;
        locked = j.locked;
        items = j.items;
        room = j.room;
        few = omega arith;
      } in
      let after = Reach-Inv roles ids (tokens roles ids t) t u distinct here r' q' in
      omega (arith, after.few, timer_it-tokens fuel s t a m e w back)
