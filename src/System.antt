-- ===== src/System.antt =====
-- The global state of the file system library, and its functions as commands on that state. The
-- globals are `mbr` and `mbr_mutex` (src/mbr.c), `super` and `current_volume` (src/superbloc.c); the
-- disk is the storage that drive.c gives. One context runs: what it prints is left out.
pub mod Results
use ase_plus_plus.Prelude.{ℕ, List, Bool, true, false}
use ase_plus_plus.Words.{Bytes}
use ase_plus_plus.Storage.{Storage}

-- `struct vol_s` (src/mbr.h); the type is the integer of `enum type_vol_e`
pub record Volume : Type 0 where
  pub vol_cylinder : ℕ
  pub vol_sector : ℕ
  pub vol_nsectors : ℕ
  pub vol_type : ℕ
  pub valide : ℕ

-- `struct mbr_s`
pub record Mbr : Type 0 where
  pub mbr_vol : List Volume
  pub nbvols : ℕ
  pub magic_number : ℕ

-- `struct sem_s` (src/sem.h) without its list of blocked contexts, which is empty while one context
-- runs: a context that blocks ends the run.
pub record Mutex : Type 0 where
  pub compteur : ℕ
  pub magic : ℕ

-- `struct superbloc_s` (src/superbloc.h)
pub record Superbloc : Type 0 where
  pub magic : ℕ
  pub numero : ℕ
  pub nom : Bytes
  pub id : ℕ
  pub premier_libre : ℕ
  pub nb_bloc_libre : ℕ
  pub root_inumber : ℕ

pub record World : Type 0 where
  pub storage : Storage
  pub mbr : Mbr
  pub mbr_mutex : Mutex
  pub super : Superbloc
  pub current_volume : ℕ

-- How a run ends without a result: a failed assertion, `exit` with a status, a wait for a semaphore
-- that no one can raise, or an access that C leaves undefined.
pub data Stop : Type 0 where
  abort : Stop
  exit : ℕ → Stop
  blocked : Stop
  undefined : Stop

-- The state survives a stop: what is on the disk stays there.
pub data Run (A : Type 0) : Type 0 where
  ok : A → World → Run A
  stop : Stop → World → Run A

abbrev pub Cmd : Type 0 → Type 0
Cmd A = World → Run A

abbrev pub Void : Type 0
Void = Unit {0}

abbrev pub pure : {A : Type 0} → A → Cmd A
pure a w = ok a w

abbrev pub halt : {A : Type 0} → Stop → Cmd A
halt why w = stop why w

abbrev pub and_then : {A B : Type 0} → Run A → (A → Cmd B) → Run B
and_then (ok a w) k = k a w
and_then (stop why w) k = stop why w

infixl 5 ◌>>=◌ ◌>>◌
abbrev pub ◌>>=◌ : {A B : Type 0} → Cmd A → (A → Cmd B) → Cmd B
m >>= k = λ w. and_then (m w) k

abbrev pub ◌>>◌ : {A B : Type 0} → Cmd A → Cmd B → Cmd B
m >> k = m >>= λ _. k

abbrev pub gets : {A : Type 0} → (World → A) → Cmd A
gets f w = ok (f w) w

abbrev pub modify : (World → World) → Cmd Void
modify f w = ok tt (f w)

-- `assert(test);`
abbrev pub assert_that : Bool → Cmd Void
assert_that true w = ok tt w
assert_that false w = stop abort w
