-- ===== src/Scheduler/Yield.antt =====
-- Which context `yield` runs (src/ctx.c).
use ase_plus_plus.Prelude.{
  ℕ, zero, suc, ◌≤◌, ◌≡◌, refl, arith, List, [], ◌∷◌, All, some, length, true, false,
}
use ase_plus_plus.Scheduler.{Context, Kernel, done, loops, is_blocked, canary_value, skip_blocked}
use ase_plus_plus.Scheduler.Ring.{Heap, Linked, head_or}

-- A context of memory that is blocked, and one that is not.
abbrev pub Blocked : Heap → ℕ → Type 0
Blocked h a = (x : Context) × (h a ≡ some x) × (is_blocked x.state ≡ true)

abbrev pub Runnable : Heap → ℕ → Type 0
Runnable h a =
    (x : Context) × (h a ≡ some x) × (is_blocked x.state ≡ false) × (x.canary ≡ canary_value)

-- The search passes the blocked contexts before `b`, with a round of fuel for each and one for `b`.
pub skip_blocked-first :
    (k : Kernel) (a b : ℕ) (xs : List ℕ) (fuel : ℕ)
    → Linked k.heap a xs b
    → All (Blocked k.heap) (a ∷ xs)
    → Runnable k.heap b
    → suc (suc (length xs)) ≤ fuel
    → skip_blocked fuel a k ≡ done b k
unfolding skip_blocked
skip_blocked-first k a b xs zero l bl r big = absurd (omega arith)
skip_blocked-first k a b [] (suc zero) l bl r big = absurd (omega arith)
skip_blocked-first k a b [] (suc (suc fuel)) l bl r big = ground (arith, l, bl.0, r)
skip_blocked-first k a b (c ∷ xs) (suc fuel) l bl r big =
    ground (arith, l.0, bl.0, skip_blocked-first k c b xs fuel l.1 bl.1 r (omega arith))

-- In a ring all of whose contexts are blocked the search goes round for ever.
pub skip_blocked-loops :
    (k : Kernel) (c a : ℕ) (xs ys : List ℕ) (fuel : ℕ)
    → Linked k.heap a xs c
    → Linked k.heap c ys c
    → All (Blocked k.heap) (a ∷ xs)
    → All (Blocked k.heap) (c ∷ ys)
    → skip_blocked fuel a k ≡ loops
unfolding skip_blocked
skip_blocked-loops k c a xs ys zero l m bl cl = refl
skip_blocked-loops k c a [] ys (suc fuel) l m bl cl =
    ground (arith, l, bl.0, skip_blocked-loops k c c ys ys fuel m m cl cl)
skip_blocked-loops k c a (b ∷ xs) ys (suc fuel) l m bl cl =
    ground (arith, l.0, bl.0, skip_blocked-loops k c b xs ys fuel l.1 m bl.1 cl)

-- The search from the next of `c` on.
pub skip_blocked-head :
    (k : Kernel) (c b : ℕ) (xs : List ℕ) (fuel : ℕ)
    → Linked k.heap c xs b
    → All (Blocked k.heap) xs
    → Runnable k.heap b
    → suc (length xs) ≤ fuel
    → skip_blocked fuel (head_or xs b) k ≡ done b k
unfolding skip_blocked
skip_blocked-head k c b [] zero l bl r big = absurd (omega arith)
skip_blocked-head k c b [] (suc fuel) l bl r big = ground (arith, r)
skip_blocked-head k c b (a ∷ xs) fuel l bl r big =
    skip_blocked-first k a b xs fuel l.1 bl r (omega arith)
