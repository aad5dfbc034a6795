-- ===== src/Shell.antt =====
-- The command lines of the shell, src/shell.c, and its table of commands, src/builtins.c. A string is
-- the bytes before its NUL; the numbers in the table are the characters of the names in the comments.
pub mod Lines
pub mod Complete
use ase_plus_plus.Prelude.{
  ℕ, zero, suc, ◌+◌, List, [], ◌∷◌, ◌++◌, map, Bool, true, false, ◌||◌, ◌==◌, ltb, if◌then◌else◌,
  drop, length, Option, none, some,
}
use ase_plus_plus.Words.{Bytes}
use ase_plus_plus.Commons.{maxprompt}

-- The functions that the table of commands names; `leave` is `do_exit`.
pub data Command : Type 0 where
  cat : Command
  cd : Command
  clock : Command
  compute : Command
  cp : Command
  ed : Command
  help : Command
  ls : Command
  mkdir : Command
  mount : Command
  ps : Command
  rm : Command
  sleep : Command
  leave : Command

-- cat, cd, clock, compute, cp, ed, help, ?, ls, mkdir, mount, ps, rm, sleep, exit
abbrev pub commands : List (Bytes × Command)
commands =
    ((99 ∷ 97 ∷ 116 ∷ []), cat)
    ∷ ((99 ∷ 100 ∷ []), cd)
    ∷ ((99 ∷ 108 ∷ 111 ∷ 99 ∷ 107 ∷ []), clock)
    ∷ ((99 ∷ 111 ∷ 109 ∷ 112 ∷ 117 ∷ 116 ∷ 101 ∷ []), compute)
    ∷ ((99 ∷ 112 ∷ []), cp)
    ∷ ((101 ∷ 100 ∷ []), ed)
    ∷ ((104 ∷ 101 ∷ 108 ∷ 112 ∷ []), help)
    ∷ ((63 ∷ []), help)
    ∷ ((108 ∷ 115 ∷ []), ls)
    ∷ ((109 ∷ 107 ∷ 100 ∷ 105 ∷ 114 ∷ []), mkdir)
    ∷ ((109 ∷ 111 ∷ 117 ∷ 110 ∷ 116 ∷ []), mount)
    ∷ ((112 ∷ 115 ∷ []), ps)
    ∷ ((114 ∷ 109 ∷ []), rm)
    ∷ ((115 ∷ 108 ∷ 101 ∷ 101 ∷ 112 ∷ []), sleep)
    ∷ ((101 ∷ 120 ∷ 105 ∷ 116 ∷ []), leave)
    ∷ []

-- `strcmp(a, b) == 0`
abbrev pub same_string : Bytes → Bytes → Bool
same_string [] [] = true
same_string [] (d ∷ b) = false
same_string (c ∷ a) [] = false
same_string (c ∷ a) (d ∷ b) = elim (c == d) [ true ↦ same_string a b | false ↦ false ]

-- The loop of `find_command` over a table.
unfoldable pub find_in : List (Bytes × Command) → (name : Bytes) → Option Command
find_in [] name = none
find_in (c ∷ cs) name = elim (same_string name c.0) [ true ↦ some c.1 | false ↦ find_in cs name ]

unfoldable pub find_command : (name : Bytes) → Option Command
unfolding find_in
find_command name = find_in commands name

-- A space or a tab.
abbrev pub whitespace : ℕ → Bool
whitespace c = (c == 32) || (c == 9)

abbrev pub skip_blanks : Bytes → Bytes
skip_blanks [] = []
skip_blanks (c ∷ s) = elim (whitespace c) [ true ↦ skip_blanks s | false ↦ c ∷ s ]

abbrev pub until_blank : Bytes → Bytes
until_blank [] = []
until_blank (c ∷ s) = elim (whitespace c) [ true ↦ [] | false ↦ c ∷ until_blank s ]

-- Behind the blank that ends the word, which a NUL overwrites.
abbrev pub behind_blank : Bytes → Bytes
behind_blank [] = []
behind_blank (c ∷ s) = elim (whitespace c) [ true ↦ s | false ↦ behind_blank s ]

-- What `eval` makes of a line: the command word, and its argument.
unfoldable pub split_line : Bytes → Bytes × Bytes
split_line line = (until_blank (skip_blanks line), skip_blanks (behind_blank (skip_blanks line)))

-- `eval`: the command to call with its argument. `none` is the message that there is no such command.
unfoldable pub eval : Bytes → Option (Command × Bytes)
unfolding find_command split_line
eval line = elim (find_command (split_line line).0) [
  | some c ↦ some (c, (split_line line).1)
  | none ↦ none
]

-- `get_arguments`: what stands behind the first space.
abbrev pub get_arguments : Bytes → Bytes
get_arguments [] = []
get_arguments (c ∷ s) = elim (c == 32) [ true ↦ s | false ↦ get_arguments s ]

-- `strchr(command_line, '&')`
abbrev pub is_background : Bytes → Bool
is_background [] = false
is_background (c ∷ s) = elim (c == 38) [ true ↦ true | false ↦ is_background s ]

-- The prompt, a `>` behind the current directory. The first `none` is the result 1, the inner one a write
-- past the end of the buffer.
unfoldable pub construct_prompt : (cwd : Bytes) → (string_size : ℕ) → Option (Option Bytes)
construct_prompt cwd string_size =
    if ltb string_size maxprompt
    then none
    else if ltb (length cwd + 1) maxprompt
    then some (some (cwd ++ (62 ∷ [])))
    else some none

-- What a round of `shell_loop` does with the line that was read: the end of the loop, nothing, a context
-- that evaluates the line given, an evaluation, or a copy past the end of a buffer.
pub data Round : Type 0 where
  ends : Round
  nothing : Round
  background : Bytes → Round
  evaluates : Bytes → Round
  overflows : Round

unfoldable pub shell_round : Option Bytes → Round
shell_round none = ends
shell_round (some []) = nothing
shell_round (some (c ∷ s)) =
    if ltb (length (c ∷ s)) maxprompt
    then (if is_background (c ∷ s) then background s else evaluates (c ∷ s))
    else overflows

-- `strncmp (name, text, len) == 0`, with the length of the text.
abbrev pub is_prefix : (text name : Bytes) → Bool
is_prefix [] name = true
is_prefix (c ∷ t) [] = false
is_prefix (c ∷ t) (d ∷ n) = elim (c == d) [ true ↦ is_prefix t n | false ↦ false ]

-- The loop of `command_generator` over the names from an index on: a name, and the index behind it.
unfoldable pub next_match : List Bytes → (list_index : ℕ) → (text : Bytes) → Option Bytes × ℕ
next_match [] list_index text = (none, list_index)
next_match (n ∷ ns) list_index text = elim (is_prefix text n) [
  | true ↦ (some n, suc list_index)
  | false ↦ next_match ns (suc list_index) text
]

abbrev pub command_names : List Bytes
command_names = map (λ c. c.0) commands

-- A call of `command_generator`, with the index that it keeps: the first call of a word starts at 0.
unfoldable pub command_generator :
    (text : Bytes) → (state : ℕ) → (list_index : ℕ) → Option Bytes × ℕ
unfolding next_match
command_generator text state list_index =
    let start = if state == 0 then 0 else list_index in
    next_match (drop start command_names) start text

-- The test of `do_help`: all commands without an argument, and else those with that name.
abbrev pub is_helped : (arg name : Bytes) → Bool
is_helped [] name = true
is_helped (c ∷ arg) name = same_string (c ∷ arg) name

unfoldable pub helped : (arg : Bytes) → List Bytes → List Bytes
helped arg [] = []
helped arg (n ∷ ns) =
    let rest = helped arg ns in elim (is_helped arg n) [ true ↦ n ∷ rest | false ↦ rest ]

-- The names that `do_help` prints: all of them where none matches.
unfoldable pub do_help : (arg : Bytes) → List Bytes
unfolding helped
do_help arg =
    if length (helped arg command_names) == 0 then command_names else helped arg command_names
