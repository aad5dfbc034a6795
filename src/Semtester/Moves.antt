-- ===== src/Semtester/Moves.antt =====
-- What a call of `sem_down` or `sem_up` (src/sem.c) by one of the contexts of src/semtester.c leaves.
use ase_plus_plus.Prelude.{
  ℕ, ◌+◌, ◌≡◌, refl, arith, ltb, some, true, false, ◌==◌, inl, inr, Bool-cases, Option-cases,
}
use ase_plus_plus.Scheduler.{
  blocked, activable, Context, Semaphore, Kernel, Turn, update, is_blocked, sem_magic_number, yield,
  sem_down, sem_up,
}
use ase_plus_plus.Semtester.{Place, Tester, running, turned, down, up}
use ase_plus_plus.Semtester.Turning.{is_live, Turned, yield-Turned, Outcome-cases}

-- The states that differ from a given one in its contexts.
abbrev pub with_contexts : Tester → Kernel → (ℕ → Place) → Tester
with_contexts s k place = record s { kernel = k; place = place }

-- The context `c`, stored with another state.
abbrev pub restated : Kernel → ℕ → Context → Kernel
restated k c x = record k { heap = update k.heap c (some x) }

-- `sem_down` takes a token, or blocks its context and yields.
pub data Downed (c : ℕ) (next wait : Place) (sem m : Semaphore) (s s' : Tester) : Type 0 where
  takes :
      sem.compteur ≡ m.compteur + 1
      → s' ≡ with_contexts s s.kernel (update s.place c next)
      → Downed c next wait sem m s s'
  blocks :
      (x y : Context) (t : Turn) (k : Kernel)
      → m.compteur ≡ sem.compteur
      → running s.kernel ≡ some c
      → is_blocked y.state ≡ true
      → Turned (restated s.kernel c y) k t
      → s' ≡ with_contexts s k (turned t k (update s.place c wait))
      → Downed c next wait sem m s s'

pub down-Downed :
    (fuel c : ℕ) (next wait : Place) (sem m : Semaphore) (s s' : Tester)
    → running s.kernel ≡ some c
    → down fuel c next wait sem s ≡ some (m, s')
    → Downed c next wait sem m s s'
unfolding down sem_down
down-Downed fuel c next wait sem m s s' cur e = elim (Bool-cases (sem.magic == sem_magic_number)) [
  | inr wrong ↦ absurd (ground (arith, wrong))
  | inl magic ↦ elim (Bool-cases (ltb 0 sem.compteur)) [
    | inl free ↦ takes (ground (arith, magic, free)) (ground (arith, magic, free))
    | inr none_left ↦ elim (Option-cases (s.kernel.heap c)) [
      | inl gone ↦ absurd (ground (arith, magic, none_left, cur, gone))
      | inr (x, at_c) ↦
          let y : Context = record x {
            state = blocked;
            next_semaphore_context = sem.ctx_blocked;
          } in
          let j = restated s.kernel c y in
          elim (Outcome-cases (yield fuel j)) [
            | inl (t, k, run) ↦
                blocks x y t k (ground (arith, magic, none_left, cur, at_c, run)) cur refl
                  (yield-Turned fuel j k t run) (ground (arith, magic, none_left, cur, at_c, run))
            | inr (inl (why, wrong)) ↦ absurd (ground (arith, magic, none_left, cur, at_c, wrong))
            | inr (inr wrong) ↦ absurd (ground (arith, magic, none_left, cur, at_c, wrong))
          ]
    ]
  ]
]

-- `sem_up` gives a token back; it makes a context that waits ready to be entered, or yields.
pub data Upped (c : ℕ) (next : Place) (sem m : Semaphore) (s s' : Tester) : Type 0 where
  wakes :
      (a : ℕ) (y : Context)
      → m.compteur ≡ sem.compteur + 1
      → is_live y.state ≡ false
      → s' ≡ with_contexts s (restated s.kernel a y) (update s.place c next)
      → Upped c next sem m s s'
  yields :
      (t : Turn) (k : Kernel)
      → m.compteur ≡ sem.compteur + 1
      → Turned s.kernel k t
      → s' ≡ with_contexts s k (turned t k (update s.place c next))
      → Upped c next sem m s s'

pub up-Upped :
    (fuel c : ℕ) (next : Place) (sem m : Semaphore) (s s' : Tester)
    → up fuel c next sem s ≡ some (m, s')
    → Upped c next sem m s s'
unfolding up sem_up
up-Upped fuel c next sem m s s' e = elim (Bool-cases (sem.magic == sem_magic_number)) [
  | inr wrong ↦ absurd (ground (arith, wrong))
  | inl magic ↦ elim (Option-cases sem.ctx_blocked) [
    | inl nobody ↦ elim (Outcome-cases (yield fuel s.kernel)) [
      | inl (t, k, run) ↦
          yields t k (ground (arith, magic, nobody, run)) (yield-Turned fuel s.kernel k t run)
            (ground (arith, magic, nobody, run))
      | inr (inl (why, wrong)) ↦ absurd (ground (arith, magic, nobody, wrong))
      | inr (inr wrong) ↦ absurd (ground (arith, magic, nobody, wrong))
    ]
    | inr (a, first) ↦ elim (Option-cases (s.kernel.heap a)) [
      | inl gone ↦ absurd (ground (arith, magic, first, gone))
      | inr (x, at_a) ↦
          wakes a (record x { state = activable }) (ground (arith, magic, first, at_a)) refl
            (ground (arith, magic, first, at_a))
    ]
  ]
]
