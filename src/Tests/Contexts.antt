-- ===== src/Tests/Contexts.antt =====
-- Three contexts of a core, and the theorems on the scheduler applied to them.
use ase_plus_plus.Prelude.{ℕ, ◌+◌, ◌≡◌, refl, arith, [], ◌∷◌, All, none, some, false}
use ase_plus_plus.System.{undefined}
use ase_plus_plus.Scheduler.{
  State, activable, blocked, ready, Context, Semaphore, Kernel, enters, done, stops, update,
  canary_value, sem_magic_number, create_ctx, delete_ctx, do_ps, yield, function_returned,
}
use ase_plus_plus.Scheduler.Ring.{Heap, IsRing, create_ctx-IsRing}
use ase_plus_plus.Scheduler.Ends.{delete_ctx-IsRing, function_returned-end_of}
use ase_plus_plus.Scheduler.Listed.{do_ps-IsRing}
use ase_plus_plus.Scheduler.Yield.{Runnable}
use ase_plus_plus.Scheduler.Turns.{Runs, switched, yield-switched}
use ase_plus_plus.Scheduler.Rounds.{yields, yields-reaches}

abbrev context : State → (next : ℕ) → Context
context s next = record {
  state = s;
  function = 7;
  arguments = 0;
  next = next;
  next_semaphore_context = none;
  canary = canary_value;
  cmd = next + 10;
}

-- Contexts 1, 2 and 3, in a ring.
abbrev heap : (s1 s2 s3 : State) → Heap
heap s1 s2 s3 =
    update (update (update (λ a. none) 1 (some (context s1 2))) 2 (some (context s2 3))) 3
      (some (context s3 1))

abbrev kernel : (s1 s2 s3 : State) → Kernel
kernel s1 s2 s3 = record {
  heap = heap s1 s2 s3;
  current_ctx = λ core. some 1;
  current_core = 0;
  first_context = false;
}

ring : (s1 s2 s3 : State) → IsRing (heap s1 s2 s3) 1 (2 ∷ 3 ∷ [])
ring s1 s2 s3 = record {
  links = ((_, refl, refl), ((_, refl, refl), (_, refl, refl)));
  distinct = (((λ e. omega arith), ((λ e. omega arith), tt)), (((λ e. omega arith), tt), (tt, tt)));
}

runs : (s1 s2 s3 : State) → Runs (kernel s1 s2 s3) 1 (2 ∷ 3 ∷ [])
runs s1 s2 s3 = record { cur = refl; started = refl; ring = ring s1 s2 s3 }

create_ctx-IsRing_example :
    (k : Kernel) × (create_ctx 0 4 (context ready 0) 9 8 5 (kernel ready ready ready) ≡ done 4 k)
    × IsRing k.heap 1 (4 ∷ 2 ∷ 3 ∷ [])
    × (k.current_ctx 0 ≡ some 1)
    × ((c : Context) × (k.heap 4 ≡ some c)
        × (c.state ≡ activable)
        × (c.function ≡ 9)
        × (c.canary ≡ canary_value))
create_ctx-IsRing_example =
    create_ctx-IsRing 0 1 4 (2 ∷ 3 ∷ []) (context ready 0) 9 8 5 (kernel ready ready ready) refl
      (ring ready ready ready) refl

delete_ctx-IsRing_example :
    (k : Kernel) × (delete_ctx 3 (kernel ready ready ready) ≡ done tt k)
    × IsRing k.heap 2 (3 ∷ [])
    × (k.heap 1 ≡ none)
    × (k.current_ctx ≡ λ core. some 1)
    × (k.current_core ≡ 0)
    × (k.first_context ≡ false)
delete_ctx-IsRing_example =
    delete_ctx-IsRing 1 2 (3 ∷ []) 3 (kernel ready ready ready) refl (ring ready ready ready)
      (omega arith)

function_returned-end_of_example : function_returned 3 (kernel ready ready ready) ≡ stops undefined
function_returned-end_of_example =
    function_returned-end_of 1 (2 ∷ 3 ∷ []) 3 (kernel ready ready ready) refl
      (ring ready ready ready) (omega arith)

yield-switched_example :
    (yield 3 (kernel ready blocked activable)
      ≡ done enters (switched (kernel ready blocked activable) 3 (context activable 1)))
    × Runs (switched (kernel ready blocked activable) 3 (context activable 1)) 3 (1 ∷ 2 ∷ [])
yield-switched_example =
    yield-switched (kernel ready blocked activable) 1 3 (2 ∷ []) [] (runs ready blocked activable)
      (context activable 1, refl, refl, refl) 3 (omega arith) ((context blocked 3, refl, refl), tt)

yields-reaches_example :
    (k : Kernel) × (yields 3 2 (kernel ready ready ready) ≡ done tt k)
    × Runs k 3 (1 ∷ 2 ∷ [])
    × All (Runnable k.heap) (3 ∷ 1 ∷ 2 ∷ [])
yields-reaches_example =
    yields-reaches 3 (2 ∷ []) [] (kernel ready ready ready) 1 3 (omega arith)
      (runs ready ready ready)
      (
        (context ready 2, refl, refl, refl),
        ((context ready 3, refl, refl, refl), ((context ready 1, refl, refl, refl), tt)),
      )

abbrev taken : Semaphore
taken = record { compteur = 0; ctx_blocked = some 2; magic = sem_magic_number }

do_ps_test :
    do_ps 3 0 (kernel ready blocked ready) ≡ done (12 ∷ 13 ∷ 11 ∷ []) (kernel ready blocked ready)
do_ps_test =
    do_ps-IsRing 0 1 (2 ∷ 3 ∷ []) 3 (kernel ready blocked ready) refl (ring ready blocked ready)
      (omega arith)
