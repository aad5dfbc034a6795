-- ===== src/Scheduler/Listed.antt =====
-- The listing of the contexts of a core, `do_ps` (src/builtins.c).
use ase_plus_plus.Prelude.{
  ℕ, zero, suc, ◌≤◌, ◌≡◌, ◌≢◌, arith, List, [], ◌∷◌, All, none, some, length, map,
}
use ase_plus_plus.Scheduler.{Kernel, done, list_ctx, do_ps}
use ase_plus_plus.Scheduler.Ring.{Heap, Linked, IsRing}

-- The command of the context at an address.
abbrev pub cmd_at : Heap → ℕ → ℕ
cmd_at h a = elim (h a) [ some x ↦ x.cmd | none ↦ 0 ]

abbrev pub cmds : Heap → List ℕ → List ℕ
cmds h xs = map (cmd_at h) xs

list_ctx-Linked :
    (k : Kernel) (c a : ℕ) (xs : List ℕ) (fuel : ℕ)
    → Linked k.heap a xs c
    → All (λ y. y ≢ c) xs
    → suc (length xs) ≤ fuel
    → list_ctx fuel c a k ≡ done (cmds k.heap (a ∷ xs)) k
unfolding list_ctx
list_ctx-Linked k c a [] zero l ne big = absurd (omega arith)
list_ctx-Linked k c a (b ∷ xs) zero l ne big = absurd (omega arith)
list_ctx-Linked k c a [] (suc fuel) l ne big = ground (arith, l)
list_ctx-Linked k c a (b ∷ xs) (suc fuel) l ne big =
    ground (arith, l.0, ne.0, list_ctx-Linked k c b xs fuel l.1 ne.1 (omega arith))

-- `do_ps` ends with as many rounds as the ring of the core has contexts, and prints the command of each
-- once, the current one first.
pub do_ps-IsRing :
    (core c : ℕ) (xs : List ℕ) (fuel : ℕ) (k : Kernel)
    → k.current_ctx core ≡ some c
    → IsRing k.heap c xs
    → suc (length xs) ≤ fuel
    → do_ps fuel core k ≡ done (cmds k.heap (c ∷ xs)) k
unfolding do_ps
do_ps-IsRing core c xs fuel k cur ring big =
    let run = list_ctx-Linked k c c xs fuel ring.links ring.distinct.0 big in
    ground (arith, cur, run)
