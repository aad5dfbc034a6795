-- ===== src/Semtester/Settled.antt =====
-- What the calls of src/semtester.c keep: a context that waits does not run on, and what the others hold.
use mathlib.Core.Path.{subst₂}
use ase_plus_plus.Prelude.{
  ℕ, ◌+◌, ◌≤◌, ◌≡◌, refl, sym, ◌∙◌, ap, subst, arith, List, Bool, true, false, some, ◌==◌, ◌⊎◌, inl,
  inr, Bool-cases,
}
use ase_plus_plus.Scheduler.{Context, Semaphore, Kernel, Turn, returns, update, is_blocked}
use ase_plus_plus.Scheduler.Ring.{IsDistinct}
use ase_plus_plus.Semtester.{Place, asks, waits_count, waits_mutex, Tester, running, turned, Member}
use ase_plus_plus.Semtester.Turning.{is_live, Turned, same, other, fresh}
use ase_plus_plus.Semtester.Counting.{total, total-step}
use ase_plus_plus.Semtester.Moves.{
  with_contexts, restated, Downed, takes, blocks, Upped, wakes, yields,
}

abbrev pub waits : Place → Bool
waits waits_count = true
waits waits_mutex = true
waits _ = false

-- A context that waits is one that is blocked, or that will be entered at its beginning.
abbrev pub Parked : Kernel → (ℕ → Place) → Type 0
Parked k place =
    (a : ℕ)
    → waits (place a) ≡ true
    → (x : Context) × (k.heap a ≡ some x) × (is_live x.state ≡ false)

-- The context that runs does not wait.
abbrev pub AtWork : Kernel → (ℕ → Place) → Type 0
AtWork k place = (c : ℕ) → running k ≡ some c → waits (place c) ≡ false

pub record Settled (k : Kernel) (place : ℕ → Place) : Type 0 where
  pub parked : Parked k place
  pub at_work : AtWork k place

-- If a context that yields waits, it is blocked.
pub Turned-Settled :
    (j k : Kernel) (t : Turn) (place : ℕ → Place)
    → Parked j place
    → ((c : ℕ)
        → running j ≡ some c
        → waits (place c) ≡ true
        → (x : Context) × (j.heap c ≡ some x) × (is_blocked x.state ≡ true))
    → Turned j k t
    → Settled k (turned t k place)
Turned-Settled j k t place p b (same e1 e2 free) =
    subst₂ (λ t k. Settled k (turned t k place)) (sym e1) (sym e2)
      (record {
        parked = p;
        at_work = λ c cur. elim (Bool-cases (waits (place c))) [
          | inr f ↦ f
          | inl w ↦
              let (x, at_x, stuck) = b c cur w in
              let (y, at_y, free_y) = free c cur in ground (arith, at_x, at_y, stuck, free_y)
        ];
      })
Turned-Settled j k t place p b (other a x e1 cur at_a live h) =
    subst (λ t. Settled k (turned t k place)) (sym e1)
      (record {
        parked = λ c w. let (y, at_y, dead) = p c w in (y, ap (λ f. f c) h ∙ at_y, dead);
        at_work = λ c cur'. elim (Bool-cases (waits (place c))) [
          | inr f ↦ f
          | inl w ↦
              let (y, at_y, dead) = p c w in
              let one : c ≡ a = ground (arith, cur, cur') in
              let at_c : j.heap c ≡ some x = ap j.heap one ∙ at_a in
              ground (arith, at_y, at_c, dead, live)
        ];
      })
Turned-Settled j k t place p b (fresh a x e1 cur h) =
    subst (λ t. Settled k (turned t k place)) (sym e1)
      (rw (cur, turned)
        (record {
          parked = λ c w. elim (Bool-cases (c == a)) [
            | inl it ↦ absurd (ground (arith, w, it))
            | inr off ↦
                let (y, at_y, dead) = p c (ground (arith, w, off)) in
                (y, ap (λ f. f c) h ∙ ground (arith, off, at_y), dead)
          ];
          at_work = λ c cur'. ground (arith, cur, cur');
        }))

-- A context that is stored blocked or activable, and one that goes to another place.
restated-Parked :
    (k : Kernel) (place : ℕ → Place) (a : ℕ) (y : Context)
    → is_live y.state ≡ false
    → Parked k place
    → Parked (restated k a y) place
restated-Parked k place a y dead p b w = elim (Bool-cases (b == a)) [
  | inl it ↦ (y, ground (arith, it), dead)
  | inr off ↦ let (x, at_x, d) = p b w in (x, ground (arith, off, at_x), d)
]

pub placed-Settled :
    (k : Kernel) (place : ℕ → Place) (c : ℕ) (p : Place)
    → waits p ≡ false
    → Settled k place
    → Settled k (update place c p)
placed-Settled k place c p n s = record {
  parked = λ b w. elim (Bool-cases (b == c)) [
    | inl it ↦ absurd (ground (arith, w, it, n))
    | inr off ↦ s.parked b (ground (arith, w, off))
  ];
  at_work = λ b cur. elim (Bool-cases (b == c)) [
    | inl it ↦ ground (arith, it, n)
    | inr off ↦ ground (arith, off, s.at_work b cur)
  ];
}

-- What a call by `c`, behind which it is at the place `p`, leaves of all that is held.
pub record Kept (ids : List ℕ) (c : ℕ) (p : Place) (s s' : Tester) : Type 0 where
  pub settled : Settled s'.kernel s'.place
  pub same_rest : s' ≡ with_contexts s s'.kernel s'.place
  pub totals :
      (f : ℕ → Place → ℕ)
      → ((a : ℕ) → f a asks ≡ 0)
      → total f s'.place ids + f c (s.place c) ≤ total f s.place ids + f c p

module _ (ids : List ℕ) (distinct : IsDistinct ids) (c : ℕ) (member : Member c ids) where
  pub Kept-turned :
      (p : Place) (t : Turn) (k : Kernel) (s s' : Tester)
      → Settled k (turned t k (update s.place c p))
      → s' ≡ with_contexts s k (turned t k (update s.place c p))
      → Kept ids c p s s'
  Kept-turned p t k s s' i e = subst (Kept ids c p s) (sym e) (record {
    settled = i;
    same_rest = refl;
    totals = λ f z. total-step f t k s.place c p ids z distinct member;
  })

  -- Behind a yield of `c` at a place where it waits, if it is blocked.
  blocked-Settled :
      (wait : Place) (y : Context) (t : Turn) (k : Kernel) (s : Tester)
      → Settled s.kernel s.place
      → running s.kernel ≡ some c
      → is_blocked y.state ≡ true
      → Turned (restated s.kernel c y) k t
      → Settled k (turned t k (update s.place c wait))
  blocked-Settled wait y t k s i cur stuck turn =
      Turned-Settled (restated s.kernel c y) k t (update s.place c wait)
        (λ b w. elim (Bool-cases (b == c)) [
          | inl it ↦ (y, ground (arith, it), ground (arith, stuck))
          | inr off ↦
              let (x, at_x, d) = i.parked b (ground (arith, w, off)) in
              (x, ground (arith, off, at_x), d)
        ])
        (λ b cur' w. (y, ground (arith, cur, cur'), stuck)) turn

  pub Downed-Kept :
      (next wait : Place) (sem m : Semaphore) (s s' : Tester)
      → waits next ≡ false
      → Settled s.kernel s.place
      → Downed c next wait sem m s s'
      → (p : Place) × Kept ids c p s s'
        × ((p ≡ next) × (sem.compteur ≡ m.compteur + 1) ⊎ (p ≡ wait) × (m.compteur ≡ sem.compteur))
  Downed-Kept next wait sem m s s' n i (takes less e) = (
    next,
    Kept-turned next returns s.kernel s s' (placed-Settled s.kernel s.place c next n i) e,
    inl (refl, less),
  )
  Downed-Kept next wait sem m s s' n i (blocks x y t k eq cur stuck turn e) = (
    wait,
    Kept-turned wait t k s s' (blocked-Settled wait y t k s i cur stuck turn) e,
    inr (refl, eq),
  )

  pub Upped-Kept :
      (next : Place) (sem m : Semaphore) (s s' : Tester)
      → waits next ≡ false
      → Settled s.kernel s.place
      → Upped c next sem m s s'
      → Kept ids c next s s' × (m.compteur ≡ sem.compteur + 1)
  Upped-Kept next sem m s s' n i (wakes a y more dead e) = (
    Kept-turned next returns (restated s.kernel a y) s s'
        (record {
          parked =
              restated-Parked s.kernel (update s.place c next) a y dead
                (placed-Settled s.kernel s.place c next n i).parked;
          at_work = (placed-Settled s.kernel s.place c next n i).at_work;
        })
        e,
    more,
  )
  Upped-Kept next sem m s s' n i (yields t k more turn e) = (
    let j = placed-Settled s.kernel s.place c next n i in
        Kept-turned next t k s s'
          (Turned-Settled s.kernel k t (update s.place c next) j.parked
            (λ b cur w. absurd (ground (arith, w, j.at_work b cur))) turn)
          e,
    more,
  )
