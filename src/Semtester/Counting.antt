-- ===== src/Semtester/Counting.antt =====
-- The tokens that the contexts of src/semtester.c hold, counted over all of them.
use ase_plus_plus.Prelude.{
  ℕ, ◌+◌, ◌≤◌, ◌≡◌, ◌≢◌, refl, sym, subst, ◌∙◌, arith, List, [], ◌∷◌, All, Option-cases, inl, inr,
}
use ase_plus_plus.Scheduler.{Kernel, Turn, returns, resumes, enters, update}
use ase_plus_plus.Scheduler.Ring.{IsDistinct}
use ase_plus_plus.Semtester.{
  Role, producer, consumer, Place, asks, locks, changes, unlocks, signals, waits_mutex, running,
  turned, Member,
}

-- Behind `sem_down` of the mutex and before its `sem_up`.
abbrev pub inside : Place → ℕ
inside changes = 1
inside unlocks = 1
inside _ = 0

-- A place of the buffer that holds an item, or that the context has taken one out of: a token taken from
-- `fill_count` or still to be given to it.
abbrev pub filled : Role → Place → ℕ
filled producer unlocks = 1
filled producer signals = 1
filled consumer locks = 1
filled consumer waits_mutex = 1
filled consumer changes = 1
filled _ _ = 0

-- So for `empty_count`.
abbrev pub emptied : Role → Place → ℕ
emptied producer locks = 1
emptied producer waits_mutex = 1
emptied producer changes = 1
emptied consumer unlocks = 1
emptied consumer signals = 1
emptied _ _ = 0

abbrev pub total : (ℕ → Place → ℕ) → (ℕ → Place) → List ℕ → ℕ
total f place [] = 0
total f place (a ∷ ids) = f a (place a) + total f place ids

pub Member-All : (P : ℕ → Type 0) (c : ℕ) (ids : List ℕ) → All P ids → Member c ids → P c
Member-All P c [] h m = elim m [ ]
Member-All P c (a ∷ ids) h (inl e) = rw e h.0
Member-All P c (a ∷ ids) h (inr m) = Member-All P c ids h.1 m

module _ (f : ℕ → Place → ℕ) (place : ℕ → Place) (c : ℕ) (p : Place) where
  total-frame :
      (ids : List ℕ) → All (λ a. a ≢ c) ids → total f (update place c p) ids ≡ total f place ids
  total-frame [] away = refl
  total-frame (a ∷ ids) away = ground (arith, away.0, total-frame ids away.1)

  pub total-update :
      (ids : List ℕ)
      → IsDistinct ids
      → Member c ids
      → total f (update place c p) ids + f c (place c) ≡ total f place ids + f c p
  total-update [] d m = elim m [ ]
  total-update (a ∷ ids) d (inl e) =
      ground (arith, e, total-frame ids (subst (λ x. All (λ b. b ≢ x) ids) (sym e) d.0))
  total-update (a ∷ ids) d (inr m) =
      ground (arith, Member-All (λ b. b ≢ a) c ids d.0 m, total-update ids d.1 m)

  -- A context that is not counted may change too.
  total-le :
      (ids : List ℕ)
      → IsDistinct ids
      → f c p ≡ 0
      → total f (update place c p) ids ≤ total f place ids
  total-le [] d z = omega arith
  total-le (a ∷ ids) d z = ground (arith, total-le ids d.1 z)

-- A turn takes no more than what a context that is entered holds.
pub total-turned :
    (f : ℕ → Place → ℕ) (t : Turn) (k : Kernel) (place : ℕ → Place) (ids : List ℕ)
    → ((a : ℕ) → f a asks ≡ 0)
    → IsDistinct ids
    → total f (turned t k place) ids ≤ total f place ids
total-turned f returns k place ids z d = omega arith
total-turned f resumes k place ids z d = omega arith
total-turned f enters k place ids z d = elim (Option-cases (running k)) [
  | inl idle ↦ rw (idle, turned) (omega arith)
  | inr (a, cur) ↦ rw (cur, turned) (total-le f place a asks ids d (z a))
]

-- The contexts that a step of `c` to the place `p` and a turn leave: what was held, but for `c`.
pub total-step :
    (f : ℕ → Place → ℕ) (t : Turn) (k : Kernel) (place : ℕ → Place) (c : ℕ) (p : Place)
    (ids : List ℕ)
    → ((a : ℕ) → f a asks ≡ 0)
    → IsDistinct ids
    → Member c ids
    → total f (turned t k (update place c p)) ids + f c (place c) ≤ total f place ids + f c p
total-step f t k place c p ids z d m =
    omega (arith, total-update f place c p ids d m, total-turned f t k (update place c p) ids z d)

-- Two contexts that hold something make two.
total-Member :
    (f : ℕ → Place → ℕ) (place : ℕ → Place) (a : ℕ) (ids : List ℕ)
    → Member a ids
    → f a (place a) ≤ total f place ids
total-Member f place a [] m = elim m [ ]
total-Member f place a (b ∷ ids) (inl e) = ground (arith, e)
total-Member f place a (b ∷ ids) (inr m) = omega (arith, total-Member f place a ids m)

pub total-two :
    (f : ℕ → Place → ℕ) (place : ℕ → Place) (a b : ℕ) (ids : List ℕ)
    → a ≢ b
    → Member a ids
    → Member b ids
    → f a (place a) + f b (place b) ≤ total f place ids
total-two f place a b [] ne m n = elim m [ ]
total-two f place a b (c ∷ ids) ne (inl p) (inl q) = absurd (ne (p ∙ sym q))
total-two f place a b (c ∷ ids) ne (inl p) (inr n) = ground (arith, p, total-Member f place b ids n)
total-two f place a b (c ∷ ids) ne (inr m) (inl q) = ground (arith, q, total-Member f place a ids m)
total-two f place a b (c ∷ ids) ne (inr m) (inr n) = omega (arith, total-two f place a b ids ne m n)
