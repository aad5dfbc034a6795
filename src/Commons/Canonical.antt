-- ===== src/Commons/Canonical.antt =====
-- The path that `canonical_path` (src/commons.c) makes, as a list of names.
use ase_plus_plus.Prelude.{
  ◌<◌, ◌≡◌, ◌≢◌, refl, arith, List, [], ◌∷◌, ◌++◌, All, true, ◌==◌, ltb, if◌then◌else◌, length,
  length-append, none, some, Bool-cases, inl, inr,
}
use ase_plus_plus.Words.{Bytes}
use ase_plus_plus.Commons.{
  maxprompt, slash, add_token, first_run, tokens, before_last, begins_with_dots, begins_with_dot,
  go_up, add_name, add_names, or_root, target_of, canonical_path,
}

-- A name in a directory: at least one character, and no slash.
abbrev pub IsName : Bytes → Type 0
IsName n = (0 < length n) × All (λ c. c ≢ slash) n

-- The names of a path from the last one to the first.
abbrev pub up_or_down : List Bytes → Bytes → List Bytes
up_or_down [] t = if begins_with_dots t then [] else if begins_with_dot t then [] else t ∷ []
up_or_down (n ∷ ns) t =
    if begins_with_dots t then ns else if begins_with_dot t then n ∷ ns else t ∷ n ∷ ns

-- Walking from a directory: `..` leaves it, `.` stays, and a name enters.
abbrev pub walk : List Bytes → List Bytes → List Bytes
walk ns [] = ns
walk ns (t ∷ ts) = walk (up_or_down ns t) ts

abbrev pub spelled : List Bytes → Bytes
spelled [] = []
spelled (n ∷ ns) = spelled ns ++ (slash ∷ n)

pub before_last-none : (n : Bytes) → All (λ c. c ≢ slash) n → before_last n ≡ none
before_last-none [] h = refl
before_last-none (c ∷ n) (h, hs) = let rest = before_last-none n hs in rw rest (ground arith)

before_last-append :
    (s n : Bytes) → All (λ c. c ≢ slash) n → before_last (s ++ (slash ∷ n)) ≡ some s
before_last-append [] n h = rw (before_last-none n h)
before_last-append (c ∷ s) n h = rw (before_last-append s n h)

go_up-spelled : (n : Bytes) (ns : List Bytes) → IsName n → go_up (spelled (n ∷ ns)) ≡ spelled ns
unfolding go_up
go_up-spelled n ns (long, free) =
    let l : 1 < length (spelled ns ++ (slash ∷ n)) =
      omega (arith, length-append (spelled ns) (slash ∷ n)) in
    rw (before_last-append (spelled ns) n free) (ground (arith, l))

add_name-spelled :
    (ns : List Bytes) (t : Bytes)
    → All IsName ns
    → add_name (spelled ns) t ≡ spelled (up_or_down ns t)
unfolding add_name go_up
add_name-spelled [] t h = elim (Bool-cases (begins_with_dots t)) [
  | inl up ↦ rw up refl
  | inr down ↦ elim (Bool-cases (begins_with_dot t)) [
    | inl here ↦ rw (down, here) refl
    | inr name ↦ rw (down, name) refl
  ]
]
add_name-spelled (n ∷ ns) t (h, hs) = elim (Bool-cases (begins_with_dots t)) [
  | inl up ↦ rw up (go_up-spelled n ns h)
  | inr down ↦ elim (Bool-cases (begins_with_dot t)) [
    | inl here ↦ rw (down, here) refl
    | inr name ↦ rw (down, name) refl
  ]
]

pub up_or_down-names :
    (ns : List Bytes) (t : Bytes) → All IsName ns → IsName t → All IsName (up_or_down ns t)
up_or_down-names [] t h k = elim (Bool-cases (begins_with_dots t)) [
  | inl up ↦ rw up tt
  | inr down ↦ elim (Bool-cases (begins_with_dot t)) [
    | inl here ↦ rw (down, here) tt
    | inr name ↦ rw (down, name) (k, tt)
  ]
]
up_or_down-names (n ∷ ns) t (h, hs) k = elim (Bool-cases (begins_with_dots t)) [
  | inl up ↦ rw up hs
  | inr down ↦ elim (Bool-cases (begins_with_dot t)) [
    | inl here ↦ rw (down, here) (h, hs)
    | inr name ↦ rw (down, name) (k, (h, hs))
  ]
]

add_names-spelled :
    (ns ts : List Bytes)
    → All IsName ns
    → All IsName ts
    → add_names (spelled ns) ts ≡ spelled (walk ns ts)
unfolding add_names
add_names-spelled ns [] h k = refl
add_names-spelled ns (t ∷ ts) h (k, ks) =
    rw (add_name-spelled ns t h)
      (add_names-spelled (up_or_down ns t) ts (up_or_down-names ns t h k) ks)

add_token-names :
    (r : Bytes) (ts : List Bytes)
    → All (λ c. c ≢ slash) r
    → All IsName ts
    → All IsName (add_token r ts)
add_token-names [] ts h k = k
add_token-names (c ∷ r) ts h k = ((omega arith, h), k)

first_run-names : (s : Bytes) → All (λ c. c ≢ slash) (first_run s).0 × All IsName (first_run s).1
first_run-names [] = (tt, tt)
first_run-names (c ∷ s) =
    let (h, k) = first_run-names s in
    elim (Bool-cases (c == slash)) [
      | inl e ↦ rw e (tt, add_token-names (first_run s).0 (first_run s).1 h k)
      | inr e ↦ rw e ((ground (arith, e), h), k)
    ]

-- Tokens are names.
pub tokens-names : (s : Bytes) → All IsName (tokens s)
tokens-names s =
    let (h, k) = first_run-names s in add_token-names (first_run s).0 (first_run s).1 h k

-- A path that fits the buffers is the walk from the root along the tokens of the target: a token that
-- begins with two dots leaves a directory, one that begins with one dot stays, any other enters. The root
-- alone is spelled as one slash.
pub canonical_path-walk :
    (cwd path : Bytes)
    → length (target_of cwd path) < maxprompt
    → canonical_path cwd path ≡ some (or_root (spelled (walk [] (tokens (target_of cwd path)))))
unfolding canonical_path
canonical_path-walk cwd path h =
    let same =
      add_names-spelled [] (tokens (target_of cwd path)) tt (tokens-names (target_of cwd path)) in
    let fits : ltb (length (target_of cwd path)) maxprompt ≡ true = ground (arith, h) in
    rw (fits, same) refl
