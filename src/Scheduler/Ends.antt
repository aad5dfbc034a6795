-- ===== src/Scheduler/Ends.antt =====
-- The end of a context: `delete_ctx` and the code behind the call of the function in `switch_to_ctx`
-- (src/ctx.c).
use ase_plus_plus.Prelude.{
  ℕ, zero, suc, ◌≤◌, ◌≡◌, ◌≢◌, refl, sym, ap, ◌∙◌, arith, List, [], ◌∷◌, All, none, some, length,
}
use ase_plus_plus.System.{Stop, exit, undefined}
use ase_plus_plus.Scheduler.{
  Kernel, done, stops, update, predecessor, delete_ctx, yield, yield_from, switch_to_ctx,
  save_current, function_returned, terminated,
}
use ase_plus_plus.Scheduler.Ring.{Heap, Link, Linked, IsDistinct, IsRing, Linked-store, All-map}

-- The last context of a way from `a`.
abbrev pub last_of : (a : ℕ) → List ℕ → ℕ
last_of a [] = a
last_of a (b ∷ xs) = last_of b xs

-- The search finds the last context of the ring, with a round of fuel for each context.
pub predecessor-last :
    (k : Kernel) (c a : ℕ) (xs : List ℕ) (fuel : ℕ)
    → Linked k.heap a xs c
    → All (λ y. y ≢ c) xs
    → suc (length xs) ≤ fuel
    → predecessor fuel c a k ≡ done (last_of a xs) k
unfolding predecessor
predecessor-last k c a [] zero l ne big = absurd (omega arith)
predecessor-last k c a (b ∷ xs) zero l ne big = absurd (omega arith)
predecessor-last k c a [] (suc fuel) l ne big = ground (arith, l)
predecessor-last k c a (b ∷ xs) (suc fuel) l ne big =
    ground (arith, l.0, ne.0, predecessor-last k c b xs fuel l.1 ne.1 (omega arith))

All-last {κ} : (P : ℕ → Type κ) (a : ℕ) (xs : List ℕ) → All P (a ∷ xs) → P (last_of a xs)
All-last P a [] h = h.0
All-last P a (b ∷ xs) h = All-last P b xs h.1

Linked-last : (h : Heap) (a : ℕ) (xs : List ℕ) (z : ℕ) → Linked h a xs z → Link h (last_of a xs) z
Linked-last h a [] z l = l
Linked-last h a (b ∷ xs) z l = Linked-last h b xs z l.1

-- A way whose last link alone is changed leads elsewhere.
Linked-relink :
    (h g : Heap) (a : ℕ) (xs : List ℕ) (c z : ℕ)
    → All (λ y. y ≢ last_of a xs → g y ≡ h y) (a ∷ xs)
    → Link g (last_of a xs) z
    → IsDistinct (a ∷ xs)
    → Linked h a xs c
    → Linked g a xs z
Linked-relink h g a [] c z same last d l = last
Linked-relink h g a (b ∷ xs) c z same last d l =
    let ne : a ≢ last_of b xs = λ e. All-last (λ y. y ≢ a) b xs d.0 (sym e) in
    ((l.0.0, same.0 ne ∙ l.0.1, l.0.2), Linked-relink h g b xs c z same.1 last d.1 l.1)

module _ (c b : ℕ) (xs : List ℕ) (fuel : ℕ) (k : Kernel)
    (cur : k.current_ctx k.current_core ≡ some c) (ring : IsRing k.heap c (b ∷ xs))
    (big : suc (suc (length xs)) ≤ fuel) where
  pub delete_ctx-IsRing :
      (k' : Kernel) × (delete_ctx fuel k ≡ done tt k')
      × IsRing k'.heap b xs
      × (k'.heap c ≡ none)
      × (k'.current_ctx ≡ k.current_ctx)
      × (k'.current_core ≡ k.current_core)
      × (k'.first_context ≡ k.first_context)
  unfolding delete_ctx
  delete_ctx-IsRing =
      let (x, at_c, next) = ring.links.0 in
      let (p, at_p, back) = Linked-last k.heap b xs c ring.links.1 in
      let l = last_of b xs in
      let ne : l ≢ c = All-last (λ y. y ≢ c) b xs ring.distinct.0 in
      let found = predecessor-last k c c (b ∷ xs) fuel ring.links ring.distinct.0 big in
      let h' = update (update k.heap l (some (record p { next = x.next }))) c none in
      let at_l : h' l ≡ some (record p { next = x.next }) = ground arith in
      let frame : All (λ y. y ≢ l → h' y ≡ k.heap y) (b ∷ xs) =
        All-map (b ∷ xs) (λ y off ne'. ground arith) ring.distinct.0 in
      (
        record k { heap = h' },
        ground (arith, at_c, at_p, cur, found, next, ring.distinct.0.0),
        record {
          links =
              Linked-relink k.heap h' b xs c b frame (_, at_l, next) ring.distinct.1 ring.links.1;
          distinct = ring.distinct.1;
        },
        ground arith,
        refl,
        refl,
        refl,
      )

-- How the run ends when the context before the given ones has returned.
abbrev pub end_of : List ℕ → Stop
end_of [] = exit 0
end_of (b ∷ xs) = undefined

-- Once a context is freed, `yield` of the core reads it.
yield-freed :
    (c fuel : ℕ) (k : Kernel)
    → k.current_ctx k.current_core ≡ some c
    → k.heap c ≡ none
    → yield fuel k ≡ stops undefined
unfolding yield yield_from switch_to_ctx save_current
yield-freed c fuel k cur freed = ground (arith, cur, freed)

-- When the function of a context returns, the run ends there, whatever other contexts wait: `yield` reads
-- the context that `delete_ctx` has just freed. The last context ends the program with status 0.
pub function_returned-end_of :
    (c : ℕ) (xs : List ℕ) (fuel : ℕ) (k : Kernel)
    → k.current_ctx k.current_core ≡ some c
    → IsRing k.heap c xs
    → suc (length xs) ≤ fuel
    → function_returned fuel k ≡ stops (end_of xs)
unfolding function_returned delete_ctx
function_returned-end_of c [] fuel k cur ring big =
    let (x, at_c, next) = ring.links in
    let k' = record k { heap = update k.heap c (some (record x { state = terminated })) } in
    let found =
      predecessor-last k' c c [] fuel (Linked-store k.heap c x _ c [] c at_c refl ring.links) tt
        big in
    ground (arith, cur, at_c, next, found)
function_returned-end_of c (b ∷ xs) fuel k cur ring big =
    let (x, at_c, next) = ring.links.0 in
    let k' = record k { heap = update k.heap c (some (record x { state = terminated })) } in
    let ring' : IsRing k'.heap c (b ∷ xs) = record {
      links = Linked-store k.heap c x _ c (b ∷ xs) c at_c refl ring.links;
      distinct = ring.distinct;
    } in
    let (k'', run, _, freed, same, core, _) = delete_ctx-IsRing c b xs fuel k' cur ring' big in
    let stopped =
      yield-freed c fuel k'' (ap k''.current_ctx core ∙ ap (λ f. f k.current_core) same ∙ cur)
        freed in
    ground (arith, cur, at_c, run, stopped)
