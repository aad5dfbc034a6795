-- ===== src/Shell/Complete.antt =====
-- The completion of command names (src/shell.c).
use ase_plus_plus.Prelude.{
  ℕ, zero, suc, ◌<◌, ◌≡◌, refl, sym, ap, ◌∙◌, arith, List, [], ◌∷◌, true, false, length, drop,
  Option, none, some, Bool-cases, inl, inr,
}
use ase_plus_plus.Words.{Bytes}
use ase_plus_plus.Shell.{is_prefix, next_match, command_names, command_generator}

-- The names that the text begins.
unfoldable pub matches : (text : Bytes) → List Bytes → List Bytes
matches text [] = []
matches text (n ∷ ns) =
    let rest = matches text ns in elim (is_prefix text n) [ true ↦ n ∷ rest | false ↦ rest ]

-- The names of one completion: the generator is called until it has none, with a state that is 0 in the
-- first call alone.
unfoldable pub completions : (fuel state list_index : ℕ) → (text : Bytes) → List Bytes
completions zero state list_index text = []
completions (suc n) state list_index text =
    let r = command_generator text state list_index in
    elim r.0 [ some name ↦ name ∷ completions n 1 r.1 text | none ↦ [] ]

drop_next :
    (i : ℕ) (xs : List Bytes) (n : Bytes) (ns : List Bytes)
    → drop i xs ≡ n ∷ ns
    → drop (suc i) xs ≡ ns
drop_next zero [] n ns e = absurd (ground arith)
drop_next zero (x ∷ xs) n ns e = ground arith
drop_next (suc i) [] n ns e = absurd (ground arith)
drop_next (suc i) (x ∷ xs) n ns e = drop_next i xs n ns e

-- The next match from an index on, and what is left behind it.
data Next (text : Bytes) (all ns : List Bytes) (r : Option Bytes × ℕ) : Type 0 where
  no_more : r.0 ≡ none → matches text ns ≡ [] → Next text all ns r
  one_more :
      (name : Bytes)
      → r.0 ≡ some name
      → matches text ns ≡ name ∷ matches text (drop r.1 all)
      → length (drop r.1 all) < length ns
      → Next text all ns r

skip_one :
    (text : Bytes) (all ns : List Bytes) (n : Bytes) (r s : Option Bytes × ℕ)
    → s ≡ r
    → matches text (n ∷ ns) ≡ matches text ns
    → Next text all ns r
    → Next text all (n ∷ ns) s
skip_one text all ns n r s e same (no_more a b) = no_more (ap (λ x. x.0) e ∙ a) (same ∙ b)
skip_one text all ns n r s e same (one_more name a b l) =
    let at : drop r.1 all ≡ drop s.1 all = ap (λ x. drop x.1 all) (sym e) in
    one_more name (ap (λ x. x.0) e ∙ a) (same ∙ (b ∙ ap (λ d. name ∷ matches text d) at))
      (omega (arith, l, ap length at))

next_match-Next :
    (text : Bytes) (all ns : List Bytes) (i : ℕ)
    → drop i all ≡ ns
    → Next text all ns (next_match ns i text)
unfolding next_match matches
next_match-Next text all [] i e = no_more refl refl
next_match-Next text all (n ∷ ns) i e =
    let e' = drop_next i all n ns e in
    elim (Bool-cases (is_prefix text n)) [
      | inl t ↦ one_more n (ground (arith, t)) (ground (arith, t, e')) (ground (arith, t, e'))
      | inr f ↦
          skip_one text all ns n _ _ (ground (arith, f)) (ground (arith, f))
            (next_match-Next text all ns (suc i) e')
    ]

module _ (text : Bytes) where
  completions-later :
      (fuel i : ℕ)
      → length (drop i command_names) < fuel
      → completions fuel 1 i text ≡ matches text (drop i command_names)
  unfolding completions command_generator
  completions-later zero i big = absurd (omega arith)
  completions-later (suc n) i big =
      elim (next_match-Next text command_names (drop i command_names) i refl) [
        | no_more a b ↦ rw (a, b) refl
        | one_more name a b l ↦
            rw (a, b) (ap (λ d. name ∷ d) (completions-later n _ (omega (arith, l))))
      ]

  -- The calls of `command_generator` for a word give each command name that begins with it, in the
  -- order of the table, and end.
  pub completions-matches :
      (fuel : ℕ) → 15 < fuel → completions fuel 0 0 text ≡ matches text command_names
  unfolding completions command_generator
  completions-matches zero big = absurd (omega arith)
  completions-matches (suc n) big = completions-later (suc n) 0 (omega arith)
