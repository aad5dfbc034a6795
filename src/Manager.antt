-- ===== src/Manager.antt =====
-- The volume manager, src/vm.c: a dialogue on the volume table. What `scanf` reads, the command words and
-- the numbers behind each, is the input. `init_mbr`, which starts the hardware library, comes before; what
-- `list` and `help` print is left out.
pub mod Dialogue
use ase_plus_plus.Prelude.{
  ℕ, List, [], ◌∷◌, Bool, true, false, ◌==◌, if◌then◌else◌, Option, none, some,
}
use ase_plus_plus.Words.{Bytes}
use ase_plus_plus.System.{Cmd, Void, exit, undefined, pure, halt, ◌>>=◌, ◌>>◌}
use ase_plus_plus.Mbr.{write_mbr}
use ase_plus_plus.Volumes.{create_volume, delete_volume}
use ase_plus_plus.Shell.{same_string}

-- The functions of the table of commands; `unknown` is `none`.
pub data Function : Type 0 where
  list : Function
  new : Function
  del : Function
  save : Function
  quit : Function
  xit : Function
  help : Function
  unknown : Function

-- list, new, del, save, quit, exit, help
abbrev pub commands : List (Bytes × Function)
commands =
    ((108 ∷ 105 ∷ 115 ∷ 116 ∷ []), list)
    ∷ ((110 ∷ 101 ∷ 119 ∷ []), new)
    ∷ ((100 ∷ 101 ∷ 108 ∷ []), del)
    ∷ ((115 ∷ 97 ∷ 118 ∷ 101 ∷ []), save)
    ∷ ((113 ∷ 117 ∷ 105 ∷ 116 ∷ []), quit)
    ∷ ((101 ∷ 120 ∷ 105 ∷ 116 ∷ []), xit)
    ∷ ((104 ∷ 101 ∷ 108 ∷ 112 ∷ []), help)
    ∷ []

-- The loop of `execute`, which ends at the entry without a name.
unfoldable pub lookup : List (Bytes × Function) → (name : Bytes) → Function
lookup [] name = unknown
lookup (c ∷ cs) name = elim (same_string name c.0) [ true ↦ c.1 | false ↦ lookup cs name ]

-- The functions `new`, `del` and `quit` with the numbers read. A number that cannot be read leaves its
-- variable uninitialised.
unfoldable pub ask_new : List ℕ → Cmd Void
ask_new (cylinder ∷ sector ∷ nbsector ∷ type ∷ more) = create_volume cylinder sector nbsector type
ask_new (cylinder ∷ sector ∷ nbsector ∷ []) = halt undefined
ask_new (cylinder ∷ sector ∷ []) = halt undefined
ask_new (cylinder ∷ []) = halt undefined
ask_new [] = halt undefined

unfoldable pub ask_del : List ℕ → Cmd Void
ask_del (number ∷ more) = delete_volume number
ask_del [] = halt undefined

unfoldable pub ask_quit : List ℕ → Cmd Void
ask_quit (quitter ∷ more) = if quitter == 1 then write_mbr >> halt (exit 0) else halt (exit 0)
ask_quit [] = halt undefined

unfoldable pub call : Function → List ℕ → Cmd Void
unfolding ask_new ask_del ask_quit
call list numbers = pure tt
call new numbers = ask_new numbers
call del numbers = ask_del numbers
call save numbers = write_mbr
call quit numbers = ask_quit numbers
call xit numbers = halt (exit 0)
call help numbers = pure tt
call unknown numbers = pure tt

unfoldable pub execute : (name : Bytes) → List ℕ → Cmd Void
unfolding lookup call
execute name numbers = call (lookup commands name) numbers

unfoldable pub loop : List (Bytes × List ℕ) → Cmd Void
unfolding execute
loop [] = pure tt
loop (line ∷ lines) = do execute line.0 line.1; loop lines

-- `main` behind `init_mbr`: the end of the input exits.
unfoldable pub dialogue : List (Bytes × List ℕ) → Cmd Void
unfolding loop
dialogue lines = do loop lines; halt (exit 0)
