-- ===== src/Commons.antt =====
-- The paths of the shell, `canonical_path` of src/commons.c. Strings are the bytes before their NUL;
-- `cwd`, a global, is an argument. `none` is a write past the end of a buffer.
pub mod Canonical
pub mod Again
use ase_plus_plus.Prelude.{
  ℕ, List, [], ◌∷◌, ◌++◌, Bool, true, false, ◌&&◌, ◌==◌, ltb, if◌then◌else◌, length, Option, none,
  some,
}
use ase_plus_plus.Words.{Bytes}

abbrev pub maxprompt : ℕ
maxprompt = 256

-- `'/'` and `'.'`
abbrev pub slash : ℕ
slash = 47

abbrev pub dot : ℕ
dot = 46

-- A run of characters is a token unless it is empty.
abbrev pub add_token : Bytes → List Bytes → List Bytes
add_token [] ts = ts
add_token (c ∷ r) ts = (c ∷ r) ∷ ts

-- The run that a string begins with, and the tokens behind it.
abbrev pub first_run : Bytes → Bytes × List Bytes
first_run [] = ([], [])
first_run (c ∷ s) =
    let rest = first_run s in
    if c == slash then ([], add_token rest.0 rest.1) else (c ∷ rest.0, rest.1)

-- What `strtok(target, "/")` gives, call after call.
abbrev pub tokens : Bytes → List Bytes
tokens s = add_token (first_run s).0 (first_run s).1

-- The characters before the last slash, `strrchr`.
abbrev pub before_last : Bytes → Option Bytes
before_last [] = none
before_last (c ∷ s) = elim (before_last s) [
  | some p ↦ some (c ∷ p)
  | none ↦ if c == slash then some [] else none
]

-- `strncmp(token, "..", 2) == 0` and `strncmp(token, ".", 1) == 0`
abbrev pub begins_with_dots : Bytes → Bool
begins_with_dots [] = false
begins_with_dots (a ∷ []) = false
begins_with_dots (a ∷ b ∷ r) = (a == dot) && (b == dot)

abbrev pub begins_with_dot : Bytes → Bool
begins_with_dot [] = false
begins_with_dot (a ∷ r) = a == dot

-- One level up. An empty path has no slash, and all of it is kept.
unfoldable pub go_up : Bytes → Bytes
go_up canonical =
    if length canonical == 1
    then slash ∷ []
    else elim (before_last canonical) [ some p ↦ p | none ↦ canonical ]

unfoldable pub add_name : Bytes → (token : Bytes) → Bytes
add_name canonical token =
    if begins_with_dots token
    then go_up canonical
    else if begins_with_dot token
    then canonical
    else canonical ++ (slash ∷ token)

unfoldable pub add_names : Bytes → List Bytes → Bytes
add_names canonical [] = canonical
add_names canonical (t ∷ ts) = add_names (add_name canonical t) ts

abbrev pub or_root : Bytes → Bytes
or_root canonical = if length canonical == 0 then slash ∷ [] else canonical

-- A path that does not begin with a slash stands behind the current directory's.
abbrev pub target_of : (cwd path : Bytes) → Bytes
target_of cwd [] = cwd
target_of cwd (c ∷ path) = if c == slash then c ∷ path else cwd ++ (c ∷ path)

unfoldable pub canonical_path : (cwd path : Bytes) → Option Bytes
canonical_path cwd path =
    if ltb (length (target_of cwd path)) maxprompt
    then some (or_root (add_names [] (tokens (target_of cwd path))))
    else none
