-- ===== src/Semtester/Tokens.antt =====
-- The tokens of the semaphores of src/semtester.c, and what a call does to their number.
use ase_plus_plus.Prelude.{ℕ, ◌+◌, ◌≤◌, ◌≡◌, refl, sym, ap, arith, List, ◌⊎◌, inl, inr}
use mathlib.Core.Path.{subst₂}
use ase_plus_plus.Scheduler.{Semaphore}
use ase_plus_plus.Semtester.{
  max_buffer, Role, producer, consumer, Place, asks, locks, changes, unlocks, signals, waits_count,
  waits_mutex, Tester,
}
use ase_plus_plus.Semtester.Counting.{inside, filled, emptied, total}
use ase_plus_plus.Semtester.Moves.{with_contexts}
use ase_plus_plus.Semtester.Settled.{Settled, Kept}

pub filled-asks : (r : Role) → filled r asks ≡ 0
filled-asks producer = refl
filled-asks consumer = refl

pub emptied-asks : (r : Role) → emptied r asks ≡ 0
emptied-asks producer = refl
emptied-asks consumer = refl

-- What the semaphores gain is what the context gives.
pub record Balanced (r : Role) (p q : Place) (s t : Tester) : Type 0 where
  pub mutexes : t.mutex.compteur + inside q ≤ s.mutex.compteur + inside p
  pub fill_counts : t.fill_count.compteur + filled r q ≤ s.fill_count.compteur + filled r p
  pub empty_counts : t.empty_count.compteur + emptied r q ≤ s.empty_count.compteur + emptied r p

-- A state that differs in its semaphores.
pub record SameContexts (s t : Tester) : Type 0 where
  pub kernels : t.kernel ≡ s.kernel
  pub places : t.place ≡ s.place
  pub heads : t.head ≡ s.head
  pub tails : t.tail ≡ s.tail

module _ (roles : ℕ → Role) (ids : List ℕ) where
  abbrev pub all_inside : Tester → ℕ
  all_inside s = total (λ a. inside) s.place ids

  abbrev pub all_filled : Tester → ℕ
  all_filled s = total (λ a. filled (roles a)) s.place ids

  abbrev pub all_emptied : Tester → ℕ
  all_emptied s = total (λ a. emptied (roles a)) s.place ids

  -- What the counters and the contexts hold of the two semaphores of the buffer.
  abbrev pub tokens : Tester → ℕ
  tokens s = s.fill_count.compteur + all_filled s + (s.empty_count.compteur + all_emptied s)

  -- Each token of a semaphore is a place of the buffer, and so is what a context holds; there are
  -- `n` of them at the most.
  pub record Inv (n : ℕ) (s : Tester) : Type 0 where
    pub settled : Settled s.kernel s.place
    pub locked : s.mutex.compteur + all_inside s ≤ 1
    pub items : s.tail + s.fill_count.compteur + all_filled s ≤ s.head
    pub room : s.head + s.empty_count.compteur + all_emptied s ≤ s.tail + max_buffer
    pub few : tokens s ≤ n

  -- What a call by `c` leaves of what is held, where it goes on at `q`.
  pub record Holds (c : ℕ) (r : Role) (p q : Place) (s s' : Tester) : Type 0 where
    pub settled' : Settled s'.kernel s'.place
    pub insides : all_inside s' + inside p ≤ all_inside s + inside q
    pub fills : all_filled s' + filled r p ≤ all_filled s + filled r q
    pub empties : all_emptied s' + emptied r p ≤ all_emptied s + emptied r q

  pub Kept-Holds :
      (c : ℕ) (r : Role) (p q : Place) (s s' : Tester)
      → roles c ≡ r
      → s.place c ≡ p
      → Kept ids c q s s'
      → Holds c r p q s s'
  Kept-Holds c r p q s s' er ep k = record {
    settled' = k.settled;
    insides = rw ep at (k.totals (λ a. inside) (λ a. refl));
    fills = rw (er, ep) at (k.totals (λ a. filled (roles a)) (λ a. filled-asks (roles a)));
    empties = rw (er, ep) at (k.totals (λ a. emptied (roles a)) (λ a. emptied-asks (roles a)));
  }

  pub Holds-Inv :
      (n c : ℕ) (r : Role) (p q : Place) (s s' t : Tester)
      → Inv n s
      → Holds c r p q s s'
      → SameContexts s' t
      → s' ≡ with_contexts s s'.kernel s'.place
      → Balanced r p q s t
      → Inv n t
  Holds-Inv n c r p q s s' t i h u g b =
      let heads : s'.head ≡ s.head = ap (λ (x : Tester). x.head) g in
      let tails : s'.tail ≡ s.tail = ap (λ (x : Tester). x.tail) g in
      let on = λ (f : ℕ → Place → ℕ). ap (λ y. total f y ids) u.places in
      record {
        settled = subst₂ Settled (sym u.kernels) (sym u.places) h.settled';
        locked = omega (arith, i.locked, h.insides, b.mutexes, on (λ a. inside));
        items = omega (
          arith,
          i.items,
          h.fills,
          b.fill_counts,
          on (λ a. filled (roles a)),
          u.heads,
          u.tails,
          heads,
          tails,
        );
        room = omega (
          arith,
          i.room,
          h.empties,
          b.empty_counts,
          on (λ a. emptied (roles a)),
          u.heads,
          u.tails,
          heads,
          tails,
        );
        few = omega (
          arith,
          i.few,
          h.fills,
          h.empties,
          b.fill_counts,
          b.empty_counts,
          on (λ a. filled (roles a)),
          on (λ a. emptied (roles a)),
        );
      }

-- What each call does to the counts, where `sem_down` goes on or waits.
abbrev pub TakesOrWaits : (next wait q : Place) (sem m : Semaphore) → Type 0
TakesOrWaits next wait q sem m =
    (q ≡ next) × (sem.compteur ≡ m.compteur + 1) ⊎ (q ≡ wait) × (m.compteur ≡ sem.compteur)

module _ (q : Place) (m : Semaphore) (s s' : Tester)
    (same : s' ≡ with_contexts s s'.kernel s'.place) where
  pub locks-Balanced :
      (r : Role)
      → TakesOrWaits changes waits_mutex q s.mutex m
      → Balanced r locks q s (record s' { mutex = m })
  locks-Balanced producer (inl (e, n)) = ground (arith, same)
  locks-Balanced producer (inr (e, n)) = ground (arith, same)
  locks-Balanced consumer (inl (e, n)) = ground (arith, same)
  locks-Balanced consumer (inr (e, n)) = ground (arith, same)

  pub asks-Balanced_producer :
      TakesOrWaits locks waits_count q s.empty_count m
      → Balanced producer asks q s (record s' { empty_count = m })
  asks-Balanced_producer (inl (e, n)) = ground (arith, same)
  asks-Balanced_producer (inr (e, n)) = ground (arith, same)

  pub asks-Balanced_consumer :
      TakesOrWaits locks waits_count q s.fill_count m
      → Balanced consumer asks q s (record s' { fill_count = m })
  asks-Balanced_consumer (inl (e, n)) = ground (arith, same)
  asks-Balanced_consumer (inr (e, n)) = ground (arith, same)

  pub unlocks-Balanced :
      (r : Role)
      → m.compteur ≡ s.mutex.compteur + 1
      → Balanced r unlocks signals s (record s' { mutex = m })
  unlocks-Balanced producer e = ground (arith, same)
  unlocks-Balanced consumer e = ground (arith, same)

  pub signals-Balanced_producer :
      m.compteur ≡ s.fill_count.compteur + 1
      → Balanced producer signals asks s (record s' { fill_count = m })
  signals-Balanced_producer e = ground (arith, same)

  pub signals-Balanced_consumer :
      m.compteur ≡ s.empty_count.compteur + 1
      → Balanced consumer signals asks s (record s' { empty_count = m })
  signals-Balanced_consumer e = ground (arith, same)
