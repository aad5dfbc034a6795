-- ===== src/Tracktime.antt =====
-- The kernel module of kernel_module/tracktime.c, which keeps an entry under /proc/ase for each process it
-- tracks. What it calls of the kernel is a parameter. A `long` is a word of 64 bits and an `int` one of 32, a
-- negative one in two's complement.
pub mod Distinct
pub mod Shown
use ase_plus_plus.Prelude.{
  ℕ, zero, suc, ◌+◌, ◌-◌, ◌%◌, ◌^◌, List, [], ◌∷◌, Bool, true, false, ◌==◌, ltb, if◌then◌else◌, set,
  take, Option, none, some,
}
use ase_plus_plus.Words.{Bytes}

abbrev pub max_pid : ℕ
max_pid = 1024

abbrev pub ase_buffer_len : ℕ
ase_buffer_len = 64

-- `kstrtol`
pub data Parsed : Type 0 where
  long : ℕ → Parsed
  erange : Parsed
  einval : Parsed

pub record Kernel : Type 1 where
  pub State : Type 0
  -- the number of the process with this number, if there is one: two `int`s
  pub find_get_pid : ℕ → State → Option ℕ
  -- the digits of a number
  pub decimal : ℕ → Bytes
  pub proc_create : Bytes → State → State
  pub remove_proc_entry : Bytes → State → State
  pub copy_from_user : (len : ℕ) → State → Option Bytes
  pub kstrtol : Bytes → Parsed

-- A `long` passed as an `int`, and an `int` as a `long`.
abbrev pub int_of_long : ℕ → ℕ
int_of_long n = n % 2 ^ 32

abbrev pub long_of_int : ℕ → ℕ
long_of_int n = if ltb n (2 ^ 31) then n else n + (2 ^ 64 - 2 ^ 32)

-- What the handlers of the files under /proc/ase return: an error number without its sign, or 0.
pub data Opened : Type 0 where
  refused : ℕ → Opened
  opened : Opened

module _ (kernel : Kernel) where
  open kernel use {
    State, find_get_pid, decimal, proc_create, remove_proc_entry, copy_from_user, kstrtol,
  }

  pub record Tracker : Type 0 where
    pub pid_count : ℕ
    pub pid_array : List ℕ
    pub proc : State

  -- What `asecmd_proc_write` returns.
  pub data Written : Type 0 where
    failed : ℕ → Written
    done : ℕ → Written

  -- The loops over the first `pid_count` places of `pid_array`; a place holds an `int`, and `pid` is a `long`.
  abbrev pub tracked : (n : ℕ) → List ℕ → (pid : ℕ) → Bool
  tracked zero ps pid = false
  tracked (suc n) [] pid = false
  tracked (suc n) (p ∷ ps) pid =
      let rest = tracked n ps pid in if long_of_int p == pid then true else rest

  -- `pid` is a `long`, and `find_get_pid` takes an `int`. The name of the entry is cut to 9 characters. `none`
  -- is a write past the end of `pid_array`.
  unfoldable pub asepid_action : (pid : ℕ) → Tracker → Option Tracker
  asepid_action pid t = elim (find_get_pid (int_of_long pid) t.proc) [
    | none ↦ some t
    | some nr ↦
        if tracked t.pid_count t.pid_array pid
        then some t
        else if ltb t.pid_count max_pid
        then some (record {
          pid_count = t.pid_count + 1;
          pid_array = set t.pid_array t.pid_count nr;
          proc = proc_create (take 9 (decimal pid)) t.proc;
        })
        else none
  ]

  -- `pid` is an `int`. The place in `pid_array` is kept.
  unfoldable pub asepid_terminate_pid : (pid : ℕ) → Tracker → Tracker
  asepid_terminate_pid pid t =
      if tracked t.pid_count t.pid_array (long_of_int pid)
      then record t { proc = remove_proc_entry (decimal pid) t.proc }
      else t

  -- The error numbers are given without their sign.
  unfoldable pub asecmd_proc_write : (len : ℕ) → Tracker → Option (Written × Tracker)
  unfolding asepid_action
  asecmd_proc_write len t =
      if ltb (ase_buffer_len - 1) len
      then some (failed 22, t)
      else elim (copy_from_user len t.proc) [
        | none ↦ some (failed 2, t)
        | some buffer ↦ elim (kstrtol buffer) [
          | long res ↦ elim (asepid_action res t) [ none ↦ none | some t' ↦ some (done len, t') ]
          | erange ↦ some (failed 1, t)
          | einval ↦ some (failed 1, t)
        ]
      ]

  -- `asepid_proc_open`, with the global `current_pid`. The name is not converted on an error, and
  -- `kstrtol` leaves the variable as it was then.
  unfoldable pub asepid_proc_open : (name : Bytes) → (current_pid : ℕ) → Opened × ℕ
  asepid_proc_open name current_pid = elim (kstrtol name) [
    | long res ↦ (opened, res)
    | erange ↦ (refused 34, current_pid)
    | einval ↦ (refused 22, current_pid)
  ]

  -- `asepid_proc_show`: the process number and the time printed. `none` is a process that is not there, to which
  -- the code follows a null pointer. What `pid_task` gives of a process number is a parameter.
  unfoldable pub asepid_proc_show :
      (utime : ℕ → State → Option ℕ) → (current_pid : ℕ) → Tracker → Option (ℕ × ℕ)
  asepid_proc_show utime current_pid t = elim (find_get_pid (int_of_long current_pid) t.proc) [
    | none ↦ none
    | some nr ↦ elim (utime nr t.proc) [ none ↦ none | some u ↦ some (current_pid, u) ]
  ]

  -- `asepid_proc_write` takes what is written, and does nothing.
  unfoldable pub asepid_proc_write : (len : ℕ) → ℕ
  asepid_proc_write len = len

  -- `ase_proc_init` with the results of `proc_mkdir` and `proc_create`: the error number without its sign.
  unfoldable pub ase_proc_init : (has_parent has_entry : Bool) → Opened
  ase_proc_init has_parent has_entry =
      if has_parent then (if has_entry then opened else refused 12) else refused 12
