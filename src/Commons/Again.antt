-- ===== src/Commons/Again.antt =====
-- A canonical path (src/commons.c) is canonical again.
use ase_plus_plus.Prelude.{
  ℕ, suc, ◌+◌, ◌<◌, ◌≤◌, ◌≡◌, ◌≢◌, refl, ap, sym, ◌∙◌, subst, arith, List, [], ◌∷◌, ◌++◌, All,
  false, ◌==◌, length, length-append, some, Bool-cases, inl, inr,
}
use ase_plus_plus.Words.{Bytes}
use ase_plus_plus.Commons.{
  maxprompt, slash, add_token, first_run, tokens, begins_with_dots, begins_with_dot, or_root,
  target_of, canonical_path,
}
use ase_plus_plus.Commons.Canonical.{
  IsName, up_or_down, walk, spelled, tokens-names, canonical_path-walk,
}

-- A name that is neither of the two links.
abbrev IsPlain : Bytes → Type 0
IsPlain n = IsName n × (begins_with_dots n ≡ false) × (begins_with_dot n ≡ false)

up_or_down_enters : (ns : List Bytes) (n : Bytes) → IsPlain n → up_or_down ns n ≡ n ∷ ns
up_or_down_enters [] n (h, a, b) = rw (a, b) refl
up_or_down_enters (m ∷ ns) n (h, a, b) = rw (a, b) refl

up_or_down-IsPlain :
    (ns : List Bytes) (t : Bytes) → All IsPlain ns → IsName t → All IsPlain (up_or_down ns t)
up_or_down-IsPlain [] t h k = elim (Bool-cases (begins_with_dots t)) [
  | inl up ↦ rw up tt
  | inr down ↦ elim (Bool-cases (begins_with_dot t)) [
    | inl here ↦ rw (down, here) tt
    | inr name ↦
        subst (All IsPlain) (sym (up_or_down_enters [] t (k, down, name))) ((k, down, name), tt)
  ]
]
up_or_down-IsPlain (n ∷ ns) t (h, hs) k = elim (Bool-cases (begins_with_dots t)) [
  | inl up ↦ rw up hs
  | inr down ↦ elim (Bool-cases (begins_with_dot t)) [
    | inl here ↦ rw (down, here) (h, hs)
    | inr name ↦
        subst (All IsPlain) (sym (up_or_down_enters (n ∷ ns) t (k, down, name)))
          ((k, down, name), (h, hs))
  ]
]

walk-IsPlain : (ns ts : List Bytes) → All IsPlain ns → All IsName ts → All IsPlain (walk ns ts)
walk-IsPlain ns [] h k = h
walk-IsPlain ns (t ∷ ts) h (k, ks) =
    walk-IsPlain (up_or_down ns t) ts (up_or_down-IsPlain ns t h k) ks

-- The names of a path from the first one on.
in_order : List Bytes → List Bytes
in_order [] = []
in_order (n ∷ ns) = in_order ns ++ (n ∷ [])

first_run_name : (n : Bytes) → All (λ c. c ≢ slash) n → first_run n ≡ (n, [])
first_run_name [] h = refl
first_run_name (c ∷ n) (h, hs) =
    let e : (c == slash) ≡ false = ground (arith, h) in rw (first_run_name n hs, e) refl

add_token-append : (r : Bytes) (ts us : List Bytes) → add_token r (ts ++ us) ≡ add_token r ts ++ us
add_token-append [] ts us = refl
add_token-append (c ∷ r) ts us = refl

add_token_name : (n : Bytes) (ts : List Bytes) → 0 < length n → add_token n ts ≡ n ∷ ts
add_token_name [] ts h = absurd (omega arith)
add_token_name (c ∷ n) ts h = refl

first_run-append :
    (s n : Bytes)
    → IsName n
    → first_run (s ++ (slash ∷ n)) ≡ ((first_run s).0, (first_run s).1 ++ (n ∷ []))
first_run-append [] n (long, free) =
    rw (first_run_name n free) (ap (λ ts. ([], ts)) (add_token_name n [] long))
first_run-append (c ∷ s) n h =
    let rest = first_run-append s n h in
    elim (Bool-cases (c == slash)) [
      | inl e ↦
          rw (rest, e)
            (ap (λ ts. ([], ts)) (add_token-append (first_run s).0 (first_run s).1 (n ∷ [])))
      | inr e ↦ rw (rest, e) refl
    ]

tokens-spelled : (ns : List Bytes) → All IsPlain ns → tokens (spelled ns) ≡ in_order ns
unfolding in_order
tokens-spelled [] h = refl
tokens-spelled (n ∷ ns) (h, hs) = rw (first_run-append (spelled ns) n h.0) (
    add_token-append (first_run (spelled ns)).0 (first_run (spelled ns)).1 (n ∷ [])
    ∙ ap (λ ts. ts ++ (n ∷ [])) (tokens-spelled ns hs))

walk-append :
    (ms ts : List Bytes) (t : Bytes) → walk ms (ts ++ (t ∷ [])) ≡ up_or_down (walk ms ts) t
walk-append ms [] t = refl
walk-append ms (u ∷ ts) t = walk-append (up_or_down ms u) ts t

walk-in_order : (ns : List Bytes) → All IsPlain ns → walk [] (in_order ns) ≡ ns
unfolding in_order
walk-in_order [] h = refl
walk-in_order (n ∷ ns) (h, hs) =
    walk-append [] (in_order ns) n
    ∙ ap (λ ms. up_or_down ms n) (walk-in_order ns hs)
    ∙ up_or_down_enters ns n h

-- The length of a path from its names.
weight : List Bytes → ℕ
weight [] = 0
weight (t ∷ ts) = suc (length t) + weight ts

length-spelled-up_or_down :
    (ns : List Bytes) (t : Bytes)
    → length (spelled (up_or_down ns t)) ≤ length (spelled ns) + suc (length t)
length-spelled-up_or_down [] t = elim (Bool-cases (begins_with_dots t)) [
  | inl up ↦ rw up (omega arith)
  | inr down ↦ elim (Bool-cases (begins_with_dot t)) [
    | inl here ↦ rw (down, here) (omega arith)
    | inr name ↦ rw (down, name) (omega arith)
  ]
]
length-spelled-up_or_down (n ∷ ns) t =
    let l = length-append (spelled ns) (slash ∷ n) in
    elim (Bool-cases (begins_with_dots t)) [
      | inl up ↦ rw up (omega (arith, l))
      | inr down ↦ elim (Bool-cases (begins_with_dot t)) [
        | inl here ↦ rw (down, here) (omega arith)
        | inr name ↦
            rw (down, name) (omega (arith, length-append (spelled ns ++ (slash ∷ n)) (slash ∷ t)))
      ]
    ]

length-spelled-walk :
    (ns ts : List Bytes) → length (spelled (walk ns ts)) ≤ length (spelled ns) + weight ts
unfolding weight
length-spelled-walk ns [] = omega arith
length-spelled-walk ns (t ∷ ts) =
    omega (arith, length-spelled-walk (up_or_down ns t) ts, length-spelled-up_or_down ns t)

weight-add_token :
    (r : Bytes) (ts : List Bytes) → weight (add_token r ts) ≤ suc (length r) + weight ts
unfolding weight
weight-add_token [] ts = omega arith
weight-add_token (c ∷ r) ts = omega arith

weight-first_run : (s : Bytes) → length (first_run s).0 + weight (first_run s).1 ≤ length s
unfolding weight
weight-first_run [] = omega arith
weight-first_run (c ∷ s) =
    let rest = weight-first_run s in
    elim (Bool-cases (c == slash)) [
      | inl e ↦ rw e (omega (arith, rest, weight-add_token (first_run s).0 (first_run s).1))
      | inr e ↦ rw e (omega (arith, rest))
    ]

-- The canonical path is at most one slash longer than the target.
length-canonical : (s : Bytes) → length (or_root (spelled (walk [] (tokens s)))) ≤ length s + 1
unfolding weight
length-canonical s =
    let a = length-spelled-walk [] (tokens s) in
    let b = weight-add_token (first_run s).0 (first_run s).1 in
    let c = weight-first_run s in ground (arith, a, b, c)

or_root_cons : (c : ℕ) (s : Bytes) → or_root (c ∷ s) ≡ c ∷ s
or_root_cons c s = ground arith

-- A path of names begins with a slash.
spelled_first : (ns : List Bytes) (n : Bytes) → (r : Bytes) × (spelled (n ∷ ns) ≡ slash ∷ r)
spelled_first [] n = (n, refl)
spelled_first (m ∷ ns) n =
    let (r, e) = spelled_first ns m in (r ++ (slash ∷ n), ap (λ s. s ++ (slash ∷ n)) e)

-- A path that is made of names alone is its own target, and so is the root.
target_of-spelled :
    (cwd : Bytes) (ns : List Bytes) → target_of cwd (or_root (spelled ns)) ≡ or_root (spelled ns)
target_of-spelled cwd [] = refl
target_of-spelled cwd (n ∷ ns) =
    let (r, e) = spelled_first ns n in
    ap (λ s. target_of cwd (or_root s)) e
    ∙ ap (target_of cwd) (or_root_cons slash r)
    ∙ sym (ap or_root e ∙ or_root_cons slash r)

tokens-or_root : (s : Bytes) → tokens (or_root s) ≡ tokens s
tokens-or_root [] = refl
tokens-or_root (c ∷ s) = ap tokens (or_root_cons c s)

-- The canonical path of a path that fits the buffers, with a place left, is its own canonical path,
-- whatever the current directory is then.
pub canonical_path_again :
    (cwd cwd' path : Bytes)
    → length (target_of cwd path) + 1 < maxprompt
    → (c : Bytes) × (canonical_path cwd path ≡ some c) × (canonical_path cwd' c ≡ some c)
canonical_path_again cwd cwd' path h =
    let s = target_of cwd path in
    let ns = walk [] (tokens s) in
    let plain = walk-IsPlain [] (tokens s) tt (tokens-names s) in
    let c = or_root (spelled ns) in
    let same = target_of-spelled cwd' ns in
    let short : length (target_of cwd' c) < maxprompt =
      rw same (omega (arith, length-canonical s, h)) in
    let back : walk [] (tokens (target_of cwd' c)) ≡ ns =
      ap (λ t. walk [] (tokens t)) same
      ∙ ap (walk []) (tokens-or_root (spelled ns) ∙ tokens-spelled ns plain)
      ∙ walk-in_order ns plain in
    (
      c,
      canonical_path-walk cwd path (omega arith),
      canonical_path-walk cwd' c short ∙ ap (λ ms. some (or_root (spelled ms))) back,
    )
