-- ===== src/Scheduler.antt =====
-- Contexts and their scheduler, src/ctx.c and src/ctx.h, and the semaphores with their blocked contexts,
-- src/sem.c, with `do_ps` of src/builtins.c. The memory holds the contexts at their addresses, and `none`
-- where nothing is allocated; a `Task` is the code that one core runs. Stacks and the registers saved
-- with them are left out: what `switch_to_ctx` leaves to run is its result. A loop along the ring takes
-- fuel. Interrupts are left out, and memory is taken to be there when it is asked for.
pub mod Ring
pub mod Ends
pub mod Listed
pub mod Yield
pub mod Order
pub mod Turns
pub mod Rounds
pub mod Blocked
use ase_plus_plus.Prelude.{
  List, [], ◌∷◌, ℕ, zero, suc, ◌+◌, ◌-◌, Option, none, some, Bool, true, false, not, ◌==◌, ltb,
  if◌then◌else◌,
}
use ase_plus_plus.System.{Stop, abort, exit, undefined, Void}

-- `enum state_e`
pub data State : Type 0 where
  activable : State
  blocked : State
  ready : State
  running : State
  terminated : State

-- `struct ctx_s`: addresses are numbers, NULL is `none`.
pub record Context : Type 0 where
  pub state : State
  pub function : ℕ
  pub arguments : ℕ
  pub next : ℕ
  pub next_semaphore_context : Option ℕ
  pub canary : ℕ
  pub cmd : ℕ

-- `struct sem_s`
pub record Semaphore : Type 0 where
  pub compteur : ℕ
  pub ctx_blocked : Option ℕ
  pub magic : ℕ

-- The globals of ctx.c, and the memory of the contexts.
pub record Kernel : Type 0 where
  pub heap : ℕ → Option Context
  pub current_ctx : ℕ → Option ℕ
  pub current_core : ℕ
  pub first_context : Bool

-- How code ends: with a result, stopped, or in a loop that the fuel does not see the end of.
pub data Outcome (A : Type 0) : Type 0 where
  done : A → Kernel → Outcome A
  stops : Stop → Outcome A
  loops : Outcome A

abbrev pub Task : Type 0 → Type 0
Task A = Kernel → Outcome A

abbrev pub pure : {A : Type 0} → A → Task A
pure a k = done a k

abbrev pub halt : {A : Type 0} → Stop → Task A
halt why k = stops why

abbrev pub diverge : {A : Type 0} → Task A
diverge k = loops

abbrev pub and_then : {A B : Type 0} → Outcome A → (A → Task B) → Outcome B
and_then (done a k) f = f a k
and_then (stops why) f = stops why
and_then loops f = loops

infixl 5 ◌>>=◌ ◌>>◌
abbrev pub ◌>>=◌ : {A B : Type 0} → Task A → (A → Task B) → Task B
m >>= f = λ k. and_then (m k) f

abbrev pub ◌>>◌ : {A B : Type 0} → Task A → Task B → Task B
m >> f = m >>= λ _. f

abbrev pub gets : {A : Type 0} → (Kernel → A) → Task A
gets f k = done (f k) k

abbrev pub modify : (Kernel → Kernel) → Task Void
modify f k = done tt (f k)

abbrev pub assert_that : Bool → Task Void
assert_that true k = done tt k
assert_that false k = stops abort

abbrev pub update : {A : Type 0} → (ℕ → A) → ℕ → A → ℕ → A
update f a v b = if b == a then v else f b

-- A read and a write of a context through a pointer.
abbrev pub deref : ℕ → Task Context
deref a k = elim (k.heap a) [ some c ↦ done c k | none ↦ stops undefined ]

abbrev pub store : ℕ → Context → Task Void
store a c = modify (λ k. record k { heap = update k.heap a (some c) })

abbrev pub release : ℕ → Task Void
release a = modify (λ k. record k { heap = update k.heap a none })

-- `current_ctx[current_core]`
abbrev pub current : Task (Option ℕ)
current = gets (λ k. k.current_ctx k.current_core)

abbrev pub set_current : ℕ → Task Void
set_current a =
    modify (λ k. record k { current_ctx = update k.current_ctx k.current_core (some a) })

-- `current_ctx[current_core]` where the code follows it.
abbrev pub running_ctx : Task ℕ
running_ctx = do c ← current; elim c [ some a ↦ pure a | none ↦ halt undefined ]

abbrev pub canary_value : ℕ
canary_value = 0xCAFEBABE

abbrev pub sem_magic_number : ℕ
sem_magic_number = 0x69

abbrev pub is_blocked : State → Bool
is_blocked activable = false
is_blocked blocked = true
is_blocked ready = false
is_blocked running = false
is_blocked terminated = false

abbrev pub is_activable : State → Bool
is_activable activable = true
is_activable blocked = false
is_activable ready = false
is_activable running = false
is_activable terminated = false

-- The fields that `create_ctx` sets. The link, and the link of a semaphore, hold what `malloc` left.
abbrev pub new_ctx : (function arguments cmd : ℕ) → Context → Context
new_ctx function arguments cmd c = record c {
  state = activable;
  function = function;
  arguments = arguments;
  canary = canary_value;
  cmd = cmd;
}

-- `create_ctx`: the core is the one the code runs on, `ctx` the address from `malloc`, and `raw` what
-- stands there.
unfoldable pub create_ctx : (core ctx : ℕ) → Context → (function arguments cmd : ℕ) → Task ℕ
create_ctx core ctx raw function arguments cmd = do
  let c = new_ctx function arguments cmd raw
  modify (λ k. record k { current_core = core })
  cur ← current
  elim cur [
    | none ↦ store ctx (record c { next = ctx }) >> set_current ctx >> pure ctx
    | some a ↦ (do
      x ← deref a
      store ctx (record c { next = x.next })
      store a (record x { next = ctx })
      pure ctx)
  ]

-- The loop of `delete_ctx`: the context of the ring whose next one is `c`.
unfoldable pub predecessor : (fuel : ℕ) → (c iterator : ℕ) → Task ℕ
predecessor zero c iterator = diverge
predecessor (suc n) c iterator = do
  x ← deref iterator
  if x.next == c then pure iterator else predecessor n c x.next

unfoldable pub delete_ctx : (fuel : ℕ) → Task Void
unfolding predecessor
delete_ctx fuel = do
  c ← running_ctx
  x ← deref c
  iterator ← predecessor fuel c c
  if x.next == c
      then halt (exit 0)
      else (do p ← deref iterator; store iterator (record p { next = x.next }); release c)

-- Where the core goes on: after the call, where a context was switched from, or at the beginning of
-- the function of a context.
pub data Turn : Type 0 where
  returns : Turn
  resumes : Turn
  enters : Turn

-- The save of the stack pointer writes to the context switched from.
unfoldable pub save_current : Task Void
save_current = do cur ← current; elim cur [ some a ↦ deref a >> pure tt | none ↦ pure tt ]

unfoldable pub switch_to_ctx : (ctx : ℕ) → Task Turn
unfolding save_current
switch_to_ctx ctx = do
  save_current
  x ← deref ctx
  assert_that (x.canary == canary_value)
  assert_that (not (is_blocked x.state))
  set_current ctx
  if is_activable x.state
      then store ctx (record x { state = ready }) >> pure enters
      else pure resumes

-- The loop of `yield`: the first context from `iterator` on that is not blocked.
unfoldable pub skip_blocked : (fuel : ℕ) → (iterator : ℕ) → Task ℕ
skip_blocked zero iterator = diverge
skip_blocked (suc n) iterator = do
  x ← deref iterator
  if is_blocked x.state then skip_blocked n x.next else pure iterator

unfoldable pub yield_from : (fuel c : ℕ) → Task Turn
unfolding skip_blocked switch_to_ctx
yield_from fuel c = do
  first ← gets (λ k. k.first_context)
  if first then modify (λ k. record k { first_context = false }) >> switch_to_ctx c else (do
    x ← deref c
    iterator ← skip_blocked fuel x.next
    if iterator == c then pure returns else switch_to_ctx iterator)

unfoldable pub yield : (fuel : ℕ) → Task Turn
unfolding yield_from
yield fuel = do cur ← current; elim cur [ some c ↦ yield_from fuel c | none ↦ pure returns ]

-- What `switch_to_ctx` does once the function of a context has returned.
unfoldable pub function_returned : (fuel : ℕ) → Task Turn
unfolding delete_ctx yield
function_returned fuel = do
  c ← running_ctx
  x ← deref c
  store c (record x { state = terminated })
  delete_ctx fuel
  yield fuel

unfoldable pub sem_init : (val : ℕ) → Semaphore
sem_init val = record { compteur = val; ctx_blocked = none; magic = sem_magic_number }

-- On the core that `current_core` names. The semaphore is taken and returned.
unfoldable pub sem_down : (fuel : ℕ) → Semaphore → Task (Turn × Semaphore)
unfolding yield
sem_down fuel sem = do
  assert_that (sem.magic == sem_magic_number)
  if ltb 0 sem.compteur then pure (returns, record sem { compteur = sem.compteur - 1 }) else (do
    c ← running_ctx
    x ← deref c
    store c (record x { state = blocked; next_semaphore_context = sem.ctx_blocked })
    t ← yield fuel
    pure (t, record sem { ctx_blocked = some c }))

-- A counter that is raised is 1 at least.
unfoldable pub sem_up : (fuel : ℕ) → Semaphore → Task (Turn × Semaphore)
unfolding yield
sem_up fuel sem = do
  assert_that (sem.magic == sem_magic_number)
  let up = record sem { compteur = sem.compteur + 1 }
  elim sem.ctx_blocked [
    | some a ↦ (do
      x ← deref a
      store a (record x { state = activable })
      pure (returns, record up { ctx_blocked = x.next_semaphore_context }))
    | none ↦ (do t ← yield fuel; pure (t, up))
  ]

-- The loop of `do_ps` (src/builtins.c) along the ring of `c`: the commands printed.
unfoldable pub list_ctx : (fuel : ℕ) → (c iterator : ℕ) → Task (List ℕ)
list_ctx zero c iterator = diverge
list_ctx (suc n) c iterator = do
  x ← deref iterator
  if x.next == c then pure (x.cmd ∷ []) else (do rest ← list_ctx n c x.next; pure (x.cmd ∷ rest))

-- What `do_ps` prints of one core.
unfoldable pub do_ps : (fuel core : ℕ) → Task (List ℕ)
unfolding list_ctx
do_ps fuel core = do
  cur ← gets (λ k. k.current_ctx core)
  elim cur [ some c ↦ list_ctx fuel c c | none ↦ pure [] ]
