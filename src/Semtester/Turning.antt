-- ===== src/Semtester/Turning.antt =====
-- What a yield leaves of the contexts (src/ctx.c), and the contexts that wait at a semaphore.
use ase_plus_plus.Prelude.{
  ℕ, zero, suc, ◌≡◌, refl, sym, ap, ◌∙◌, arith, Bool, true, false, Option, some, ◌==◌, ◌⊎◌,
  Bool-cases, Option-cases, inl, inr,
}
use ase_plus_plus.System.{Stop}
use ase_plus_plus.Scheduler.{
  Outcome, stops, loops, State, activable, blocked, ready, Context, Kernel, Turn, returns, resumes,
  enters, done, update, is_blocked, is_activable, canary_value, skip_blocked, switch_to_ctx,
  save_current, yield_from, yield,
}
use ase_plus_plus.Semtester.{running}

-- A context that is neither blocked nor to be entered at its beginning.
abbrev pub is_live : State → Bool
is_live activable = false
is_live blocked = false
is_live _ = true

-- The search ends at a context that is not blocked.
skip_blocked-done :
    (fuel a b : ℕ) (k k' : Kernel)
    → skip_blocked fuel a k ≡ done b k'
    → (k' ≡ k) × ((x : Context) × (k.heap b ≡ some x) × (is_blocked x.state ≡ false))
unfolding skip_blocked
skip_blocked-done zero a b k k' e = cc
skip_blocked-done (suc n) a b k k' e = elim (Option-cases (k.heap a)) [
  | inl gone ↦ absurd (ground (arith, gone))
  | inr (x, at_a) ↦ elim (Bool-cases (is_blocked x.state)) [
    | inl t ↦ skip_blocked-done n x.next b k k' (ground (arith, at_a, t))
    | inr f ↦ (ground (arith, at_a, f), (x, ground (arith, at_a, f), f))
  ]
]

-- The context that a yield leaves running: the one that ran, another one behind its own yield, or one
-- at the beginning of its function.
pub data Turned (k k' : Kernel) (t : Turn) : Type 0 where
  same :
      t ≡ returns
      → k' ≡ k
      → ((a : ℕ)
          → running k ≡ some a
          → (x : Context) × (k.heap a ≡ some x) × (is_blocked x.state ≡ false))
      → Turned k k' t
  other :
      (a : ℕ) (x : Context)
      → t ≡ resumes
      → running k' ≡ some a
      → k.heap a ≡ some x
      → is_live x.state ≡ true
      → k'.heap ≡ k.heap
      → Turned k k' t
  fresh :
      (a : ℕ) (x : Context)
      → t ≡ enters
      → running k' ≡ some a
      → k'.heap ≡ update k.heap a (some (record x { state = ready }))
      → Turned k k' t

live_of : (s : State) → is_blocked s ≡ false → is_activable s ≡ false → is_live s ≡ true
live_of s b a = ground arith

-- The kernel behind a switch to `b`, from the code's state `j`.
abbrev set_to : Kernel → ℕ → Kernel
set_to j b = record j { current_ctx = update j.current_ctx j.current_core (some b) }

-- A switch that ends found its context not blocked.
record Switched (j : Kernel) (b : ℕ) (k' : Kernel) (t : Turn) : Type 0 where
  found : Context
  at_b : j.heap b ≡ some found
  free : is_blocked found.state ≡ false
  way :
      ((t ≡ enters)
          × (k' ≡ record (set_to j b) {
            heap = update j.heap b (some (record found { state = ready }));
          })
        ⊎ ((is_activable found.state ≡ false) × (t ≡ resumes) × (k' ≡ set_to j b)))

switch_to_ctx-Switched :
    (b : ℕ) (j k' : Kernel) (t : Turn)
    → save_current j ≡ done tt j
    → switch_to_ctx b j ≡ done t k'
    → Switched j b k' t
unfolding switch_to_ctx
switch_to_ctx-Switched b j k' t saved e = elim (Option-cases (j.heap b)) [
  | inl gone ↦ absurd (ground (arith, saved, gone))
  | inr (x, at_b) ↦ elim (Bool-cases (x.canary == canary_value)) [
    | inl whole ↦ elim (Bool-cases (is_blocked x.state)) [
      | inl t ↦ absurd (ground (arith, saved, at_b, whole, t))
      | inr f ↦ elim (Bool-cases (is_activable x.state)) [
        | inl act ↦ record {
          found = x;
          at_b = at_b;
          free = f;
          way = inl (
            ground (arith, saved, at_b, whole, f, act),
            ground (arith, saved, at_b, whole, f, act),
          );
        }
        | inr not_act ↦ record {
          found = x;
          at_b = at_b;
          free = f;
          way = inr (
            not_act,
            ground (arith, saved, at_b, whole, f, not_act),
            ground (arith, saved, at_b, whole, f, not_act),
          );
        }
      ]
    ]
    | inr broken ↦ absurd (ground (arith, saved, at_b, broken))
  ]
]

-- A switch reads the context that it leaves, if there is one.
saved_of :
    (b : ℕ) (j k' : Kernel) (t : Turn) → switch_to_ctx b j ≡ done t k' → save_current j ≡ done tt j
unfolding switch_to_ctx save_current
saved_of b j k' t e = elim (Option-cases (running j)) [
  | inl idle ↦ ground (arith, idle)
  | inr (a, cur) ↦ elim (Option-cases (j.heap a)) [
    | inl gone ↦ absurd (ground (arith, cur, gone))
    | inr (x, at_a) ↦ ground (arith, cur, at_a)
  ]
]

pub update_same : {A : Type 0} (f : ℕ → A) (a : ℕ) (v : A) → update f a v a ≡ v
update_same f a v = ground arith

-- The code's state at the switch has the heap of the state before.
switched-Turned :
    (b : ℕ) (k j k' : Kernel) (t : Turn)
    → j.heap ≡ k.heap
    → switch_to_ctx b j ≡ done t k'
    → Turned k k' t
switched-Turned b k j k' t h e =
    let s = switch_to_ctx-Switched b j k' t (saved_of b j k' t e) e in
    let kept : k.heap b ≡ some s.found = ap (λ (f : ℕ → Option Context). f b) (sym h) ∙ s.at_b in
    elim s.way [
      | inl (entered, left) ↦
          fresh b s.found entered (rw left (update_same j.current_ctx j.current_core (some b))) (
            ap (λ (k : Kernel). k.heap) left
            ∙ ap (λ f. update f b (some (record (s.found) { state = ready }))) h)
      | inr (old, resumed, left) ↦
          other b s.found resumed (rw left (update_same j.current_ctx j.current_core (some b))) kept
            (live_of s.found.state s.free old) (rw left h)
    ]

pub Outcome-cases :
    {A : Type 0} (o : Outcome A)
    → ((a : A) × (k : Kernel) × (o ≡ done a k)) ⊎ ((why : Stop) × (o ≡ stops why)) ⊎ (o ≡ loops)
Outcome-cases (done a k) = inl (a, k, refl)
Outcome-cases (stops why) = inr (inl (why, refl))
Outcome-cases loops = inr (inr refl)

pub yield-Turned : (fuel : ℕ) (k k' : Kernel) (t : Turn) → yield fuel k ≡ done t k' → Turned k k' t
unfolding yield yield_from
yield-Turned fuel k k' t e = elim (Option-cases (running k)) [
  | inl idle ↦
      same (ground (arith, idle)) (ground (arith, idle))
        (λ a cur. absurd (ground (arith, idle, cur)))
  | inr (c, cur) ↦ elim (Bool-cases k.first_context) [
    | inl first ↦
        switched-Turned c k (record k { first_context = false }) k' t refl
          (ground (arith, cur, first))
    | inr started ↦ elim (Option-cases (k.heap c)) [
      | inl gone ↦ absurd (ground (arith, cur, started, gone))
      | inr (x, at_c) ↦ elim (Outcome-cases (skip_blocked fuel x.next k)) [
        | inl (b, j, found) ↦
            let (unchanged, (y, at_b, free)) = skip_blocked-done fuel x.next b k j found in
            elim (Bool-cases (b == c)) [
              | inl alone ↦
                  same (ground (arith, cur, started, at_c, found, alone))
                    (ground (arith, cur, started, at_c, found, alone, unchanged))
                    (λ a at_a. (y, ground (arith, alone, cur, at_a, at_b), free))
              | inr another ↦
                  switched-Turned b k j k' t (ap (λ (k : Kernel). k.heap) unchanged)
                    (ground (arith, cur, started, at_c, found, another))
            ]
        | inr (inl (why, wrong)) ↦ absurd (ground (arith, cur, started, at_c, wrong))
        | inr (inr wrong) ↦ absurd (ground (arith, cur, started, at_c, wrong))
      ]
    ]
  ]
]
