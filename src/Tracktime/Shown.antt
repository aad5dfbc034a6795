-- ===== src/Tracktime/Shown.antt =====
-- Two files of the kernel module that are open at once (kernel_module/tracktime.c).
use ase_plus_plus.Prelude.{ℕ, ◌≡◌, arith, Option, some}
use ase_plus_plus.Words.{Bytes}
use ase_plus_plus.Tracktime.{
  Kernel, long, int_of_long, Tracker, opened, asepid_proc_open, asepid_proc_show,
}

-- When the file of one process is opened and then that of another one, a read of the first prints what belongs to
-- the second: `current_pid` is one variable for all open files.
pub asepid_proc_show-asepid_proc_open :
    (kernel : Kernel) (utime : ℕ → kernel.State → Option ℕ) (first second : Bytes) (a b p nr u : ℕ)
    (t : Tracker kernel)
    → kernel.kstrtol first ≡ long a
    → kernel.kstrtol second ≡ long b
    → kernel.find_get_pid (int_of_long b) t.proc ≡ some nr
    → utime nr t.proc ≡ some u
    → (let once = asepid_proc_open kernel first p in
        let twice = asepid_proc_open kernel second once.1 in
        (once.0 ≡ opened)
        × (twice.0 ≡ opened)
        × (asepid_proc_show kernel utime twice.1 t ≡ some (b, u)))
unfolding asepid_proc_open asepid_proc_show
asepid_proc_show-asepid_proc_open kernel utime first second a b p nr u t e1 e2 e3 e4 =
    (ground (arith, e1), ground (arith, e1, e2), ground (arith, e1, e2, e3, e4))
