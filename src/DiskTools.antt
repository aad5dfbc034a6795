-- ===== src/DiskTools.antt =====
-- The programs that make and list volumes, src/mkvol.c, src/mknfs.c, src/dvol.c and src/dfs.c, with
-- `init_mbr`, `list_volumes` and `display_type_vol` of src/mbr.c. The options that `getopt_long` finds, each a
-- letter and an argument, what `scanf` reads, the functions of the C library that read a number, and the
-- result of the hardware's start are arguments. Of what the programs print only the table is kept.
pub mod Listing
pub mod Making
pub mod Asking
use ase_plus_plus.Prelude.{
  ℕ, zero, suc, ◌+◌, ◌-◌, ◌%◌, ◌^◌, List, [], ◌∷◌, Bool, true, false, not, ◌==◌, ltb, if◌then◌else◌,
  take, Option, none, some,
}
use ase_plus_plus.Words.{Bytes}
use ase_plus_plus.System.{Volume, World, Cmd, Void, exit, undefined, pure, halt, ◌>>=◌, ◌>>◌, gets}
use ase_plus_plus.Mbr.{maxvol, volume_at, read_mbr, write_mbr}
use ase_plus_plus.Volumes.{create_volume}
use ase_plus_plus.Superbloc.{load_super}
use ase_plus_plus.Format.{init_super}
use ase_plus_plus.Shell.{same_string}

-- An `int`: `negsuc n` is -(n + 1).
pub data ℤ : Type 0 where
  pos : ℕ → ℤ
  negsuc : ℕ → ℤ

-- As an `unsigned int`.
abbrev pub to_unsigned : ℤ → ℕ
to_unsigned (pos n) = n % 2 ^ 32
to_unsigned (negsuc n) = 2 ^ 32 - 1 - n % 2 ^ 32

abbrev pub is_negative : ℤ → Bool
is_negative (pos n) = false
is_negative (negsuc n) = true

-- `sscanf(s, "%i", ...) == 1` and `atoi(s)`
pub record Libc : Type 0 where
  pub scans : Bytes → Bool
  pub atoi : Bytes → ℤ

-- `init_mbr` with the result of `init_hardware`; the interrupt vector is the hardware library's.
unfoldable pub init_mbr : (status : ℕ) → Cmd Void
init_mbr status = if status == 0 then halt (exit 1) else read_mbr

pub data Kind : Type 0 where
  principale : Kind
  etendue : Kind
  autre : Kind

abbrev pub display_type_vol : (type : ℕ) → Kind
display_type_vol zero = principale
display_type_vol (suc zero) = etendue
display_type_vol (suc (suc n)) = autre

-- A line of the table: the number of the volume, its first cylinder and sector, its size and type.
abbrev pub Row : Type 0
Row = ℕ × ℕ × ℕ × ℕ × Kind

abbrev pub row : ℕ → Volume → Row
row i v = (i, v.vol_cylinder, v.vol_sector, v.vol_nsectors, display_type_vol v.vol_type)

-- The loop of `list_volumes`, `n` rounds from `i` on.
unfoldable pub list_rows : (n i : ℕ) → Cmd (List Row)
list_rows zero i = pure []
list_rows (suc n) i =
    if ltb i maxvol
    then (do v ← gets (λ w. volume_at w i); rows ← list_rows n (i + 1); pure (row i v ∷ rows))
    else halt undefined

unfoldable pub list_volumes : Cmd (List Row)
unfolding list_rows
list_volumes = do n ← gets (λ w. w.mbr.nbvols); list_rows n 0

-- `main` of dvol.c: what is printed before the exit with status 0.
unfoldable pub dvol_main : (status : ℕ) → Cmd (List Row)
dvol_main status = do init_mbr status; list_volumes

-- `main` of dfs.c up to `display`. A bad superbloc exits in `load_super`.
unfoldable pub dfs_main : (status : ℕ) → Cmd (List Row)
dfs_main status = do init_mbr status; rows ← list_volumes; write_mbr; load_super 0; pure rows

-- The variables of `main` in mkvol.c that the options set.
pub record VolumeArgs : Type 0 where
  pub vol_type : ℤ
  pub sector : ℤ
  pub cylinder : ℤ
  pub size : ℤ

abbrev pub no_volume_args : VolumeArgs
no_volume_args = record {
  vol_type = negsuc 0;
  sector = negsuc 0;
  cylinder = negsuc 0;
  size = negsuc 0;
}

-- base, annex, other
abbrev pub type_of_name : Bytes → Option ℕ
type_of_name name =
    if same_string name (98 ∷ 97 ∷ 115 ∷ 101 ∷ [])
    then some 0
    else if same_string name (97 ∷ 110 ∷ 110 ∷ 101 ∷ 120 ∷ [])
    then some 1
    else if same_string name (111 ∷ 116 ∷ 104 ∷ 101 ∷ 114 ∷ [])
    then some 2
    else none

module _ (libc : Libc) where
  -- The argument of an option that wants a number.
  unfoldable pub number : Bytes → Cmd ℤ
  number optarg = if libc.scans optarg then pure (libc.atoi optarg) else halt (exit 2)

  -- A round of the loop over the options of mkvol.
  unfoldable pub volume_option : (opt : ℕ) → (optarg : Bytes) → VolumeArgs → Cmd VolumeArgs
  unfolding number
  volume_option opt optarg a =
      if opt == b'h'
      then halt (exit 0)
      else if opt == b's'
      then (do n ← number optarg; pure (record a { sector = n }))
      else if opt == b'c'
      then (do n ← number optarg; pure (record a { cylinder = n }))
      else if opt == b'S'
      then (do n ← number optarg; pure (record a { size = n }))
      else if opt == b't'
      then elim (type_of_name optarg) [
        | some t ↦ pure (record a { vol_type = pos t })
        | none ↦ halt (exit 2)
      ]
      else halt (exit 1)

  unfoldable pub volume_options : List (ℕ × Bytes) → VolumeArgs → Cmd VolumeArgs
  unfolding volume_option
  volume_options [] a = pure a
  volume_options ((opt, optarg) ∷ options) a = do
    a' ← volume_option opt optarg a
    volume_options options a'

-- What `scanf` reads: a number, or none, where the variable stays as it is.
abbrev pub ask : ℤ → List (Option ℤ) → ℤ × List (Option ℤ)
ask (pos n) typed = (pos n, typed)
ask (negsuc n) [] = (negsuc n, [])
ask (negsuc n) (none ∷ typed) = (negsuc n, none ∷ typed)
ask (negsuc n) (some m ∷ typed) = (m, typed)

-- `main` of mkvol.c behind the options.
unfoldable pub make_volume : (status : ℕ) → VolumeArgs → (typed : List (Option ℤ)) → Cmd Void
make_volume status a typed = do
  init_mbr status
  let cylinder = ask a.cylinder typed
  let sector = ask a.sector cylinder.1
  let size = ask a.size sector.1
  let vol_type = ask a.vol_type size.1
  create_volume (to_unsigned cylinder.0) (to_unsigned sector.0) (to_unsigned size.0)
      (to_unsigned vol_type.0)
  list_volumes
  write_mbr
  halt (exit 0)

unfoldable pub mkvol_main :
    Libc → (status : ℕ) → (options : List (ℕ × Bytes)) → (typed : List (Option ℤ)) → Cmd Void
mkvol_main libc status options typed = do
  a ← volume_options libc options no_volume_args
  make_volume status a typed

-- `volume_loop` of mknfs.c: `vol > MAXVOL` lets the number 8 and the negative ones pass, for which
-- `mbr.mbr_vol[vol]` is outside of the array.
unfoldable pub volume_loop : (typed : List (Option ℤ)) → Cmd (ℕ × List (Option ℤ))
volume_loop [] = halt (exit 2)
volume_loop (none ∷ typed) = halt (exit 2)
volume_loop (some (negsuc n) ∷ typed) = halt undefined
volume_loop (some (pos n) ∷ typed) =
    let rest = volume_loop typed in
    if ltb maxvol n
    then rest
    else if ltb n maxvol
    then (do v ← gets (λ w. volume_at w n); if v.vol_nsectors == 0 then rest else pure (n, typed))
    else halt undefined

-- The variables of `main` in mknfs.c that the options set.
pub record FileSystemArgs : Type 0 where
  pub vol : ℤ
  pub serial : ℤ
  pub name : Bytes

abbrev pub no_file_system_args : FileSystemArgs
no_file_system_args = record { vol = negsuc 0; serial = negsuc 0; name = [] }

module _ (libc : Libc) where
  unfoldable pub file_system_option :
      (opt : ℕ) → (optarg : Bytes) → FileSystemArgs → Cmd FileSystemArgs
  unfolding number
  file_system_option opt optarg a =
      if opt == b'h'
      then halt (exit 0)
      else if opt == b's'
      then (do n ← number libc optarg; pure (record a { serial = n }))
      else if opt == b'v'
      then (do n ← number libc optarg; pure (record a { vol = n }))
      else if opt == b'n'
      then pure (record a { name = take 32 optarg })
      else halt (exit 1)

  unfoldable pub file_system_options : List (ℕ × Bytes) → FileSystemArgs → Cmd FileSystemArgs
  unfolding file_system_option
  file_system_options [] a = pure a
  file_system_options ((opt, optarg) ∷ options) a = do
    a' ← file_system_option opt optarg a
    file_system_options options a'

-- The volume of the options, or the one asked for.
unfoldable pub chosen_volume : ℤ → List (Option ℤ) → Cmd (ℕ × List (Option ℤ))
unfolding volume_loop
chosen_volume vol typed =
    if is_negative vol then volume_loop typed else pure (to_unsigned vol, typed)

-- `main` of mknfs.c behind the options. The occupation of the volume is printed before the exit.
unfoldable pub make_file_system :
    (status : ℕ) → FileSystemArgs → (typed : List (Option ℤ)) → Cmd Void
make_file_system status a typed = do
  init_mbr status
  if is_negative a.vol
      then list_volumes >> pure tt
      else if is_negative a.serial
      then list_volumes >> pure tt
      else pure tt
  v ← chosen_volume a.vol typed
  init_super v.0 (to_unsigned (ask a.serial v.1).0) a.name
  halt (exit 0)

unfoldable pub mknfs_main :
    Libc → (status : ℕ) → (options : List (ℕ × Bytes)) → (typed : List (Option ℤ)) → Cmd Void
mknfs_main libc status options typed = do
  a ← file_system_options libc options no_file_system_args
  make_file_system status a typed
