-- ===== src/Semtester/Invariant.antt =====
-- What every statement and every tick of src/semtester.c keeps.
use ase_plus_plus.Prelude.{
  ℕ, ◌+◌, ◌≡◌, refl, sym, subst, arith, List, false, Option, none, some, inl, inr,
}
use ase_plus_plus.Scheduler.{Semaphore, returns, update, yield}
use ase_plus_plus.Scheduler.Ring.{IsDistinct}
use ase_plus_plus.Semtester.{
  Role, producer, consumer, Place, asks, locks, changes, unlocks, signals, waits_count, waits_mutex,
  takes_count, takes_mutex, Tester, running, turned, down, up, with_mutex, with_fill, with_empty,
  statement, timer_it, Member,
}
use ase_plus_plus.Semtester.Turning.{yield-Turned, Outcome-cases}
use ase_plus_plus.Semtester.Counting.{inside, filled, emptied, total-turned}
use ase_plus_plus.Semtester.Moves.{with_contexts, down-Downed, up-Upped}
use ase_plus_plus.Semtester.Settled.{
  waits, Turned-Settled, placed-Settled, Kept-turned, Downed-Kept, Upped-Kept,
}
use ase_plus_plus.Semtester.Tokens.{
  filled-asks, emptied-asks, Inv, Holds, Kept-Holds, Holds-Inv, SameContexts, Balanced,
  TakesOrWaits, locks-Balanced, asks-Balanced_producer, asks-Balanced_consumer, unlocks-Balanced,
  signals-Balanced_producer, signals-Balanced_consumer,
}

with_mutex-some :
    (o : Option (Semaphore × Tester)) (t : Tester)
    → with_mutex o ≡ some t
    → (m : Semaphore) × (s : Tester) × (o ≡ some (m, s)) × (t ≡ record s { mutex = m })
with_mutex-some none t e = absurd (ground arith)
with_mutex-some (some (m, s)) t e = (m, s, refl, ground arith)

with_fill-some :
    (o : Option (Semaphore × Tester)) (t : Tester)
    → with_fill o ≡ some t
    → (m : Semaphore) × (s : Tester) × (o ≡ some (m, s)) × (t ≡ record s { fill_count = m })
with_fill-some none t e = absurd (ground arith)
with_fill-some (some (m, s)) t e = (m, s, refl, ground arith)

with_empty-some :
    (o : Option (Semaphore × Tester)) (t : Tester)
    → with_empty o ≡ some t
    → (m : Semaphore) × (s : Tester) × (o ≡ some (m, s)) × (t ≡ record s { empty_count = m })
with_empty-some none t e = absurd (ground arith)
with_empty-some (some (m, s)) t e = (m, s, refl, ground arith)

module _ (roles : ℕ → Role) (ids : List ℕ) (distinct : IsDistinct ids) (n fuel c : ℕ)
    (member : Member c ids) (s : Tester) (i : Inv roles ids n s) where
  down-Inv :
      (r : Role) (p next wait : Place) (sem m : Semaphore) (s' t : Tester)
      → roles c ≡ r
      → s.place c ≡ p
      → running s.kernel ≡ some c
      → waits next ≡ false
      → down fuel c next wait sem s ≡ some (m, s')
      → SameContexts s' t
      → ((q : Place)
          → s' ≡ with_contexts s s'.kernel s'.place
          → TakesOrWaits next wait q sem m
          → Balanced r p q s t)
      → Inv roles ids n t
  down-Inv r p next wait sem m s' t er ep cur on run u b =
      let (q, kept, how) =
        Downed-Kept ids distinct c member next wait sem m s s' on i.settled
          (down-Downed fuel c next wait sem m s s' cur run) in
      Holds-Inv roles ids n c r p q s s' t i (Kept-Holds roles ids c r p q s s' er ep kept) u
        kept.same_rest (b q kept.same_rest how)

  up-Inv :
      (r : Role) (p next : Place) (sem m : Semaphore) (s' t : Tester)
      → roles c ≡ r
      → s.place c ≡ p
      → waits next ≡ false
      → up fuel c next sem s ≡ some (m, s')
      → SameContexts s' t
      → (s' ≡ with_contexts s s'.kernel s'.place
          → m.compteur ≡ sem.compteur + 1
          → Balanced r p next s t)
      → Inv roles ids n t
  up-Inv r p next sem m s' t er ep on run u b =
      let (kept, more) =
        Upped-Kept ids distinct c member next sem m s s' on i.settled
          (up-Upped fuel c next sem m s s' run) in
      Holds-Inv roles ids n c r p next s s' t i (Kept-Holds roles ids c r p next s s' er ep kept) u
        kept.same_rest (b kept.same_rest more)

  -- The change of `head` or `tail`.
  abbrev changed : (head tail : ℕ) → Tester
  changed head tail = record s { head = head; tail = tail; place = update s.place c unlocks }

  changed-Holds :
      (r : Role)
      → roles c ≡ r
      → s.place c ≡ changes
      → Holds roles ids c r changes unlocks s (with_contexts s s.kernel (update s.place c unlocks))
  changed-Holds r er ep = Kept-Holds roles ids c r changes unlocks s _ er ep (
      Kept-turned ids distinct c member unlocks returns s.kernel s _
        (placed-Settled s.kernel s.place c unlocks refl i.settled) refl)

  changes-Inv :
      (r : Role) (t : Tester)
      → roles c ≡ r
      → s.place c ≡ changes
      → statement fuel c r changes s ≡ some t
      → Inv roles ids n t
  unfolding statement
  changes-Inv producer t er ep e =
      let h = changed-Holds producer er ep in
      subst (Inv roles ids n) {x = changed (s.head + 1) s.tail} (ground (arith, e)) (record {
        settled = h.settled';
        locked = omega (arith, i.locked, h.insides);
        items = omega (arith, i.items, h.fills);
        room = omega (arith, i.room, h.empties);
        few = omega (arith, i.few, h.fills, h.empties);
      })
  changes-Inv consumer t er ep e =
      let h = changed-Holds consumer er ep in
      subst (Inv roles ids n) {x = changed s.head (s.tail + 1)} (ground (arith, e)) (record {
        settled = h.settled';
        locked = omega (arith, i.locked, h.insides);
        items = omega (arith, i.items, h.fills);
        room = omega (arith, i.room, h.empties);
        few = omega (arith, i.few, h.fills, h.empties);
      })

  pub statement-Inv :
      (r : Role) (p : Place) (t : Tester)
      → roles c ≡ r
      → s.place c ≡ p
      → running s.kernel ≡ some c
      → statement fuel c r p s ≡ some t
      → Inv roles ids n t
  unfolding statement
  statement-Inv producer asks t er ep cur e =
      let (m, s', run, et) = with_empty-some _ t e in
      subst (Inv roles ids n) (sym et) (
        down-Inv producer asks locks waits_count s.empty_count m s' (record s' { empty_count = m })
          er ep cur refl run (record { kernels = refl; places = refl; heads = refl; tails = refl })
          (λ q g h. asks-Balanced_producer q m s s' g h))
  statement-Inv consumer asks t er ep cur e =
      let (m, s', run, et) = with_fill-some _ t e in
      subst (Inv roles ids n) (sym et) (
        down-Inv consumer asks locks waits_count s.fill_count m s' (record s' { fill_count = m }) er
          ep cur refl run (record { kernels = refl; places = refl; heads = refl; tails = refl })
          (λ q g h. asks-Balanced_consumer q m s s' g h))
  statement-Inv r locks t er ep cur e =
      let (m, s', run, et) = with_mutex-some _ t e in
      subst (Inv roles ids n) (sym et) (
        down-Inv r locks changes waits_mutex s.mutex m s' (record s' { mutex = m }) er ep cur refl
          run (record { kernels = refl; places = refl; heads = refl; tails = refl })
          (λ q g h. locks-Balanced q m s s' g r h))
  statement-Inv producer changes t er ep cur e = changes-Inv producer t er ep e
  statement-Inv consumer changes t er ep cur e = changes-Inv consumer t er ep e
  statement-Inv r unlocks t er ep cur e =
      let (m, s', run, et) = with_mutex-some _ t e in
      subst (Inv roles ids n) (sym et) (
        up-Inv r unlocks signals s.mutex m s' (record s' { mutex = m }) er ep refl run
          (record { kernels = refl; places = refl; heads = refl; tails = refl })
          (λ g h. unlocks-Balanced signals m s s' g r h))
  statement-Inv producer signals t er ep cur e =
      let (m, s', run, et) = with_fill-some _ t e in
      subst (Inv roles ids n) (sym et) (
        up-Inv producer signals asks s.fill_count m s' (record s' { fill_count = m }) er ep refl run
          (record { kernels = refl; places = refl; heads = refl; tails = refl })
          (λ g h. signals-Balanced_producer asks m s s' g h))
  statement-Inv consumer signals t er ep cur e =
      let (m, s', run, et) = with_empty-some _ t e in
      subst (Inv roles ids n) (sym et) (
        up-Inv consumer signals asks s.empty_count m s' (record s' { empty_count = m }) er ep refl
          run (record { kernels = refl; places = refl; heads = refl; tails = refl })
          (λ g h. signals-Balanced_consumer asks m s s' g h))
  statement-Inv r waits_count t er ep cur e =
      let busy = i.settled.at_work c cur in absurd (ground (arith, busy, ep))
  statement-Inv r waits_mutex t er ep cur e =
      let busy = i.settled.at_work c cur in absurd (ground (arith, busy, ep))
  statement-Inv r takes_count t er ep cur e = absurd (ground arith)
  statement-Inv r takes_mutex t er ep cur e = absurd (ground arith)

pub timer_it-Inv :
    (roles : ℕ → Role) (ids : List ℕ) (distinct : IsDistinct ids) (n fuel : ℕ) (s t : Tester)
    → Inv roles ids n s
    → timer_it fuel s ≡ some t
    → Inv roles ids n t
unfolding timer_it
timer_it-Inv roles ids distinct n fuel s t i e = elim (Outcome-cases (yield fuel s.kernel)) [
  | inl (turn, k, run) ↦
      subst (Inv roles ids n) {x = with_contexts s k (turned turn k s.place)}
        (ground (arith, e, run))
        (record {
          settled =
              Turned-Settled s.kernel k turn s.place i.settled.parked
                (λ c cur w. absurd (ground (arith, w, i.settled.at_work c cur)))
                (yield-Turned fuel s.kernel k turn run);
          locked =
              omega (
                arith,
                i.locked,
                total-turned (λ a. inside) turn k s.place ids (λ a. refl) distinct,
              );
          items = omega (
            arith,
            i.items,
            total-turned (λ a. filled (roles a)) turn k s.place ids (λ a. filled-asks (roles a))
                distinct,
          );
          room = omega (
            arith,
            i.room,
            total-turned (λ a. emptied (roles a)) turn k s.place ids (λ a. emptied-asks (roles a))
                distinct,
          );
          few = omega (
            arith,
            i.few,
            total-turned (λ a. filled (roles a)) turn k s.place ids (λ a. filled-asks (roles a))
                distinct,
            total-turned (λ a. emptied (roles a)) turn k s.place ids (λ a. emptied-asks (roles a))
                distinct,
          );
        })
  | inr (inl (why, wrong)) ↦ absurd (ground (arith, e, wrong))
  | inr (inr wrong) ↦ absurd (ground (arith, e, wrong))
]
