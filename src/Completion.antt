-- ===== src/Completion.antt =====
-- The completion of file names, `list_generator` of src/shell.c. Its static variables are taken and returned.
-- A name with what stands before it is taken to fit its buffer of 1024 characters.
pub mod Names
use ase_plus_plus.Prelude.{
  ℕ, zero, suc, ◌+◌, ◌-◌, List, [], ◌∷◌, ◌++◌, Bool, true, false, ◌==◌, ltb, if◌then◌else◌, length,
  take, get_or, replicate, Option, none, some,
}
use ase_plus_plus.Words.{Bytes}
use ase_plus_plus.System.{Cmd, undefined, pure, halt, ◌>>=◌, ◌>>◌}
use ase_plus_plus.Commons.{slash, maxprompt}
use ase_plus_plus.Files.{list_directory}
use ase_plus_plus.Shell.{is_prefix}
use ase_plus_plus.Builtins.{canonical}

-- The static variables but `len`, which is the length of the text.
pub record Listing : Type 0 where
  pub list_index : ℕ
  pub last_slash : ℕ
  pub subentries : List Bytes
  pub entry_lenght : ℕ

-- The position of the last slash of a text; without one, that of an earlier text is kept.
abbrev pub slash_from : (i : ℕ) → Bytes → (last_slash : ℕ) → ℕ
slash_from i [] last_slash = last_slash
slash_from i (c ∷ s) last_slash = slash_from (suc i) s (if c == slash then i else last_slash)

-- The directory to list.
abbrev pub listed : (cwd text : Bytes) → (last_slash : ℕ) → Cmd Bytes
listed cwd text last_slash =
    if ltb 0 last_slash
    then (if ltb (length (cwd ++ take last_slash text)) maxprompt
        then canonical cwd (cwd ++ take last_slash text)
        else halt undefined)
    else canonical cwd cwd

-- What a call with the state 0 does first.
unfoldable pub start_listing : (raw cwd text : Bytes) → Listing → Cmd Listing
start_listing raw cwd text l = do
  let last = slash_from 0 text l.last_slash
  target ← listed cwd text last
  r ← list_directory raw l.subentries 1024 target
  pure (record { list_index = 0; last_slash = last; subentries = r.1; entry_lenght = r.0 })

abbrev pub fullname : (text : Bytes) → (last_slash : ℕ) → (name : Bytes) → Bytes
fullname text last_slash name = take last_slash text ++ (slash ∷ name)

-- The loop over the entries that are left, `n` of them.
unfoldable pub next_entry : (n : ℕ) → (text : Bytes) → Listing → Option Bytes × Listing
next_entry zero text l = (none, l)
next_entry (suc n) text l =
    let name = fullname text l.last_slash (get_or l.subentries l.list_index []) in
    let l' = record l { list_index = l.list_index + 1 } in
    let rest = next_entry n text l' in if is_prefix text name then (some name, l') else rest

unfoldable pub list_generator :
    (raw cwd text : Bytes) → (state : ℕ) → Listing → Cmd (Option Bytes × Listing)
unfolding start_listing next_entry
list_generator raw cwd text state l = do
  l' ← if state == 0 then start_listing raw cwd text l else pure l
  pure (next_entry (l'.entry_lenght - l'.list_index) text l')
