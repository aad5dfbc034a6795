-- ===== src/Builtins/Directories.antt =====
-- The current directory of the shell (src/builtins.c, src/commons.c).
use ase_plus_plus.Prelude.{
  ◌<◌, ◌≡◌, refl, sym, ap, subst, ◌∙◌, arith, List, [], ◌∷◌, ◌++◌, true, ◌==◌, ltb, length, Option,
  none, some, Bool-cases, inl, inr,
}
use ase_plus_plus.Words.{Bytes}
use ase_plus_plus.System.{World}
use ase_plus_plus.System.Results.{Gives, Gives-and_then, Gives-after, Gives-if}
use ase_plus_plus.Commons.{slash, maxprompt, tokens, target_of, or_root, canonical_path}
use ase_plus_plus.Commons.Canonical.{walk, spelled, canonical_path-walk}
use ase_plus_plus.Directory.{inumber_of_path}
use ase_plus_plus.Builtins.{canonical, or_undefined, ends_with_slash, with_slash, do_cd}

abbrev pub StartsSlash : Bytes → Type 0
StartsSlash s = (r : Bytes) × (s ≡ slash ∷ r)

-- A current directory: a path from the root with a slash at the end, which fits its buffer.
pub record IsCwd (s : Bytes) : Type 0 where
  pub starts : StartsSlash s
  pub ends : ends_with_slash s ≡ true
  pub fits : length s < maxprompt

StartsSlash-append : (s t : Bytes) → StartsSlash s → StartsSlash (s ++ t)
StartsSlash-append s t (r, e) = (r ++ t, ap (λ x. x ++ t) e)

spelled-StartsSlash : (n : Bytes) (ns : List Bytes) → StartsSlash (spelled (n ∷ ns))
spelled-StartsSlash n [] = (n, refl)
spelled-StartsSlash n (m ∷ ns) =
    StartsSlash-append (spelled (m ∷ ns)) (slash ∷ n) (spelled-StartsSlash m ns)

or_root-StartsSlash : (ns : List Bytes) → StartsSlash (or_root (spelled ns))
or_root-StartsSlash [] = ([], refl)
or_root-StartsSlash (n ∷ ns) =
    let (r, e) = spelled-StartsSlash n ns in (r, ap or_root e ∙ ground arith)

-- A canonical path begins with a slash.
canonical_path-StartsSlash : (cwd path c : Bytes) → canonical_path cwd path ≡ some c → StartsSlash c
unfolding canonical_path
canonical_path-StartsSlash cwd path c e =
    let names = walk [] (tokens (target_of cwd path)) in
    elim (Bool-cases (ltb (length (target_of cwd path)) maxprompt)) [
      | inl t ↦
          let found = canonical_path-walk cwd path (ground arith) in
          let both : some (or_root (spelled names)) ≡ some c = sym found ∙ e in
          let same : or_root (spelled names) ≡ c = ground arith in
          subst StartsSlash same (or_root-StartsSlash names)
      | inr f ↦ absurd (ground arith)
    ]

ends_with_slash-append : (s : Bytes) → ends_with_slash (s ++ (slash ∷ [])) ≡ true
ends_with_slash-append [] = ground arith
ends_with_slash-append (c ∷ []) = ground arith
ends_with_slash-append (c ∷ d ∷ s) = ends_with_slash-append (d ∷ s)

with_slash-ends : (s : Bytes) → ends_with_slash (with_slash s) ≡ true
with_slash-ends s = elim (Bool-cases (ends_with_slash s)) [
  | inl t ↦ rw t t
  | inr f ↦ rw f (ends_with_slash-append s)
]

with_slash-StartsSlash : (s : Bytes) → StartsSlash s → StartsSlash (with_slash s)
with_slash-StartsSlash s h = elim (Bool-cases (ends_with_slash s)) [
  | inl t ↦ rw t h
  | inr f ↦ rw f (StartsSlash-append s (slash ∷ []) h)
]

or_undefined-StartsSlash :
    (o : Option Bytes) (w : World)
    → ((c : Bytes) → o ≡ some c → StartsSlash c)
    → Gives StartsSlash (or_undefined o w)
or_undefined-StartsSlash none w h = tt
or_undefined-StartsSlash (some c) w h = h c refl

-- Whatever `do_cd` is asked for, the current directory stays a path from the root with a slash at its
-- end, which fits its buffer.
pub do_cd-IsCwd :
    (raw cwd arguments : Bytes) (w : World) → IsCwd cwd → Gives IsCwd (do_cd raw cwd arguments w)
unfolding do_cd
do_cd-IsCwd raw cwd arguments w h =
    Gives-and_then StartsSlash IsCwd (canonical cwd arguments w) _
      (or_undefined-StartsSlash (canonical_path cwd arguments) w
        (canonical_path-StartsSlash cwd arguments))
      (λ target w1 starts.
        Gives-if IsCwd (ltb (length (with_slash target)) maxprompt) _ _ w1
          (λ fits. Gives-after IsCwd (inumber_of_path raw (with_slash target) w1) _ (λ i w2.
            Gives-if IsCwd (i == 0) _ _ w2 (λ e. h)
              (λ e. record {
                starts = with_slash-StartsSlash target starts;
                ends = with_slash-ends target;
                fits = ground arith;
              })))
          (λ long. tt))
