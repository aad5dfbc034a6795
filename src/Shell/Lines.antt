-- ===== src/Shell/Lines.antt =====
-- How the shell takes a line apart (src/shell.c).
use ase_plus_plus.Prelude.{
  ℕ, zero, suc, ◌+◌, ◌<◌, ◌≡◌, refl, arith, List, [], ◌∷◌, ◌++◌, All, true, false, length, get_or,
  some,
}
use ase_plus_plus.Words.{Bytes}
use ase_plus_plus.Commons.{maxprompt}
use ase_plus_plus.Shell.{
  Command, cat, find_in, find_command, commands, whitespace, skip_blanks, until_blank, behind_blank,
  split_line, eval, is_background, background, shell_round,
}

abbrev IsBlank : ℕ → Type 0
IsBlank c = whitespace c ≡ true

abbrev IsPlain : ℕ → Type 0
IsPlain c = whitespace c ≡ false

-- A string that is empty or begins with a character that is not a blank.
abbrev pub StartsPlain : Bytes → Type 0
StartsPlain [] = Unit
StartsPlain (c ∷ s) = whitespace c ≡ false

skip_blanks-append : (bs s : Bytes) → All IsBlank bs → StartsPlain s → skip_blanks (bs ++ s) ≡ s
skip_blanks-append [] [] h p = refl
skip_blanks-append [] (c ∷ s) h p = ground (arith, p)
skip_blanks-append (b ∷ bs) s h p = ground (arith, h.0, skip_blanks-append bs s h.1 p)

until_blank-append :
    (w : Bytes) (b : ℕ) (s : Bytes)
    → All IsPlain w
    → whitespace b ≡ true
    → (until_blank (w ++ (b ∷ s)) ≡ w) × (behind_blank (w ++ (b ∷ s)) ≡ s)
until_blank-append [] b s h e = (ground (arith, e), ground (arith, e))
until_blank-append (c ∷ w) b s h e =
    let (word, rest) = until_blank-append w b s h.1 e in
    (ground (arith, h.0, word), ground (arith, h.0, rest))

StartsPlain-append : (w s : Bytes) → 0 < length w → All IsPlain w → StartsPlain (w ++ s)
StartsPlain-append [] s long h = absurd (omega arith)
StartsPlain-append (c ∷ w) s long h = h.0

-- A line made of blanks, a word, one blank or more and an argument that begins with none is taken apart
-- into the word and the argument, whatever blanks are in the argument.
pub split_line-append :
    (before word : Bytes) (b : ℕ) (between argument : Bytes)
    → All (λ c. whitespace c ≡ true) before
    → 0 < length word
    → All (λ c. whitespace c ≡ false) word
    → whitespace b ≡ true
    → All (λ c. whitespace c ≡ true) between
    → StartsPlain argument
    → split_line (before ++ (word ++ (b ∷ (between ++ argument)))) ≡ (word, argument)
unfolding split_line
split_line-append before word b between argument hb long hw e hm p =
    let rest = b ∷ (between ++ argument) in
    let trimmed =
      skip_blanks-append before (word ++ rest) hb (StartsPlain-append word rest long hw) in
    let (first, behind) = until_blank-append word b (between ++ argument) hw e in
    let argument_only = skip_blanks-append between argument hm p in
    rw (trimmed, first, behind, argument_only) refl

All-at {ℓ κ} :
    {A : Type ℓ} (P : A → Type κ) (xs : List A) (i : ℕ) (d : A)
    → All P xs
    → i < length xs
    → P (get_or xs i d)
All-at P [] i d h less = absurd (omega arith)
All-at P (x ∷ xs) zero d h less = h.0
All-at P (x ∷ xs) (suc i) d h less = All-at P xs i d h.1 (omega arith)

-- An entry of the table is found by its name, which is not empty and has no blank.
abbrev IsFound : Bytes × Command → Type 0
IsFound d = (find_command d.0 ≡ some d.1) × (0 < length d.0) × All (λ c. whitespace c ≡ false) d.0

commands-IsFound : All IsFound commands
unfolding find_command find_in
commands-IsFound = ground arith

-- A line with the name of a command of the table, behind blanks or not, calls that command with what
-- follows the blanks behind the name.
pub eval-commands :
    (i : ℕ) (before : Bytes) (b : ℕ) (between argument : Bytes)
    → i < length commands
    → All (λ c. whitespace c ≡ true) before
    → whitespace b ≡ true
    → All (λ c. whitespace c ≡ true) between
    → StartsPlain argument
    → let d = get_or commands i ([], cat) in
      eval (before ++ (d.0 ++ (b ∷ (between ++ argument)))) ≡ some (d.1, argument)
unfolding eval
eval-commands i before b between argument less hb e hm p =
    let d = get_or commands i ([], cat) in
    let (found, long, plain) = All-at IsFound commands i ([], cat) commands-IsFound less in
    let parts = split_line-append before d.0 b between argument hb long plain e hm p in
    ground (arith, parts, found)

is_background-append : (s t : Bytes) → is_background (s ++ (38 ∷ t)) ≡ true
is_background-append [] t = refl
is_background-append (c ∷ s) t = ground (arith, is_background-append s t)

-- An `&` anywhere in a line of fewer than 256 characters sends all of it but its first character to a new
-- context.
pub shell_round-background :
    (c : ℕ) (before after : Bytes)
    → length (before ++ (38 ∷ after)) + 1 < maxprompt
    → shell_round (some (c ∷ (before ++ (38 ∷ after)))) ≡ background (before ++ (38 ∷ after))
unfolding shell_round
shell_round-background c before after fits =
    let seen = is_background-append (c ∷ before) after in ground (arith, seen)
