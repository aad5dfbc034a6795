-- ===== src/Mount.antt =====
-- Mounting a volume, src/mount.c, and `do_mount` of src/builtins.c. The start of the hardware library,
-- `getenv` and `strtol` are not in the sources: what they return is an argument.
pub mod Volume
use ase_plus_plus.Prelude.{ℕ, not, Bool, ◌==◌, if◌then◌else◌, Option, none, some}
use ase_plus_plus.System.{World, Cmd, Void, exit, pure, halt, ◌>>=◌, ◌>>◌, modify}
use ase_plus_plus.Mbr.{read_mbr}
use ase_plus_plus.Superbloc.{load_super, save_super}

-- `ffatal(test, ...)`
abbrev pub ffatal : Bool → Cmd Void
ffatal test = if test then pure tt else halt (exit 1)

unfoldable pub load_this_volume : (volume : ℕ) → Cmd Void
load_this_volume volume = do
  modify (λ w. record w { current_volume = volume })
  status ← load_super volume
  ffatal (status == 0)

-- The variable of the environment, if it is defined, as `strtol` reads it: its value, and whether there
-- was no error.
unfoldable pub load_current_volume : Option (ℕ × Bool) → Cmd Void
load_current_volume none = halt (exit 1)
load_current_volume (some value) = do
  modify (λ w. record w { current_volume = value.0 })
  ffatal (value.1)
  status ← load_super value.0
  ffatal (status == 0)

-- `status` is the result of `init_hardware`.
unfoldable pub mount : (status : ℕ) → Option (ℕ × Bool) → Cmd Void
unfolding load_current_volume
mount status current_volume_str = do
  ffatal (not (status == 0))
  read_mbr
  load_current_volume current_volume_str

unfoldable pub mount_volume : (volume : ℕ) → Cmd Void
unfolding load_this_volume
mount_volume volume = do read_mbr; load_this_volume volume

unfoldable pub do_mount : (volume : ℕ) → Cmd ℕ
unfolding mount_volume
do_mount volume = do mount_volume volume; pure 0

unfoldable pub umount : Cmd Void
umount = save_super
