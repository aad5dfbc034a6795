-- ===== src/Directory/Lookup.antt =====
-- The lookup of a path against the tokens that it is made of (src/dir.c).
use ase_plus_plus.Prelude.{
  ℕ, zero, suc, ◌≤◌, ◌<◌, ◌≡◌, refl, sym, ap, ◌∙◌, arith, Bool, true, false, not, ◌==◌,
  if◌then◌else◌, Bool-cases, inl, inr, List, [], ◌∷◌, length,
}
use ase_plus_plus.Words.{Bytes}
use ase_plus_plus.System.{World, Run, stop, undefined, Cmd, pure, ◌>>=◌}
use ase_plus_plus.Commons.{slash, tokens, first_run}
use ase_plus_plus.Directory.{leading, behind, enter, may_end, walk, inumber_of_path}
use ase_plus_plus.System.Results.{then-same, if-same}

-- Names entered one after the other, until one is missing.
unfoldable pub resolve : (raw : Bytes) → (icurrent : ℕ) → List Bytes → Cmd ℕ
resolve raw icurrent [] = pure icurrent
resolve raw icurrent (t ∷ ts) = do
  i ← enter raw icurrent t
  if i == 0 then pure 0 else resolve raw i ts

tokens-leading : (s : Bytes) → (first_run s).0 ≡ leading s
tokens-leading [] = refl
tokens-leading (c ∷ s) = ground (arith, tokens-leading s)

tokens-behind : (s : Bytes) → (first_run s).1 ≡ tokens (behind s)
tokens-behind [] = refl
tokens-behind (c ∷ s) = ground (arith, tokens-behind s)

-- The tokens of a path that begins with a name, and of one that begins with a slash.
tokens-name :
    (c : ℕ) (s : Bytes)
    → c == slash ≡ false
    → tokens (c ∷ s) ≡ leading (c ∷ s) ∷ tokens (behind (c ∷ s))
tokens-name c s ne = ground (arith, ne, tokens-leading s, tokens-behind s)

tokens-slash : (c : ℕ) (s : Bytes) → c == slash ≡ true → tokens (c ∷ s) ≡ tokens s
tokens-slash c s e = ground (arith, e)

-- What is left behind a name is shorter, and begins with a slash.
length-behind : (s : Bytes) → length (behind s) ≤ length s
length-behind [] = omega arith
length-behind (c ∷ s) = ground (arith, length-behind s)

abbrev StartsSlash : Bytes → Type 0
StartsSlash [] = Unit
StartsSlash (d ∷ rest) = d == slash ≡ true

if-StartsSlash :
    (b : Bool) (r s : Bytes)
    → (b ≡ true → StartsSlash r)
    → StartsSlash s
    → StartsSlash (if b then r else s)
if-StartsSlash true r s hr hs = hr refl
if-StartsSlash false r s hr hs = hs

behind-StartsSlash : (s : Bytes) → StartsSlash (behind s)
behind-StartsSlash [] = tt
behind-StartsSlash (c ∷ s) =
    if-StartsSlash (c == slash) (c ∷ s) (behind s) (λ t. t) (behind-StartsSlash s)

behind-shorter : (c : ℕ) (s : Bytes) → c == slash ≡ false → length (behind (c ∷ s)) ≤ length s
behind-shorter c s f = ground (arith, f, length-behind s)

if-no :
    {A : Type 0} (b : Bool) (m n : Cmd A) (w : World) {r : Run A}
    → b ≡ false
    → n w ≡ r
    → (if b then m else n) w ≡ r
if-no true m n w f e = absurd (ground arith)
if-no false m n w f e = e

unless-same :
    {A : Type 0} (b : Bool) (m n o : Cmd A) (w : World)
    → (b ≡ true → n w ≡ o w)
    → (if not b then m else n) w ≡ (if b then o else m) w
unless-same true m n o w same = same refl
unless-same false m n o w same = refl

-- The loop of a path, with a round of fuel for each character and one more.
module _ (raw : Bytes) where
  may_end-resolve :
      (k : Bytes → Cmd ℕ) (i : ℕ) (b : Bytes) (w : World)
      → StartsSlash b
      → ((rest : Bytes) → suc (length rest) ≤ length b → k rest w ≡ resolve raw i (tokens rest) w)
      → may_end i k b w ≡ resolve raw i (tokens b) w
  unfolding resolve
  may_end-resolve k i [] w starts same = refl
  may_end-resolve k i (d ∷ rest) w starts same =
      same rest (omega arith) ∙ ap (λ ts. resolve raw i ts w) (sym (tokens-slash d rest starts))

  walk-resolve :
      (n icurrent : ℕ) (s : Bytes) (w : World)
      → length s < n
      → walk n raw icurrent s w ≡ resolve raw icurrent (tokens s) w
  unfolding walk resolve
  walk-resolve zero icurrent s w big = absurd (omega arith)
  walk-resolve (suc n) icurrent [] w big = refl
  walk-resolve (suc n) icurrent (c ∷ s) w big = elim (Bool-cases (c == slash)) [
    | inl t ↦ rw t (walk-resolve n icurrent s w (omega arith))
    | inr f ↦
        if-no (c == slash) _ _ w f (
          then-same (enter raw icurrent (leading (c ∷ s)) w) _
            (λ i. if i == 0 then pure 0 else resolve raw i (tokens (behind (c ∷ s))))
            (λ i w1. if-same (i == 0) _ _ _ w1 (λ there.
              may_end-resolve (walk n raw i) i (behind (c ∷ s)) w1 (behind-StartsSlash (c ∷ s))
                (λ rest less. walk-resolve n i rest w1 (omega (arith, behind-shorter c s f))))))
        ∙ ap (λ ts. resolve raw icurrent ts w) (sym (tokens-name c s f))
  ]

  -- The lookup of a path is the entering of its tokens, from the root on, one in the other: slashes
  -- that are doubled or stand at the end change nothing, and a path without a slash in front has the
  -- result 0. The loop needs no more rounds than the path has characters.
  pub inumber_of_path-resolve :
      (c : ℕ) (s : Bytes) (w : World)
      → inumber_of_path raw (c ∷ s) w
        ≡ (if c == slash then resolve raw w.super.root_inumber (tokens s) else pure 0) w
  unfolding inumber_of_path
  inumber_of_path-resolve c s w =
      let root = w.super.root_inumber in
      unless-same (c == slash) (pure 0) _ (resolve raw root (tokens s)) w (λ t.
        walk-resolve (suc (length (c ∷ s))) root (c ∷ s) w (omega arith)
        ∙ ap (λ ts. resolve raw root ts w) (tokens-slash c s t))

  -- The lookup of a path whose first name has 16 characters or more writes past the end of the name's
  -- buffer.
  pub inumber_of_path_long :
      (s t : Bytes) (ts : List Bytes) (w : World)
      → tokens s ≡ t ∷ ts
      → 16 ≤ length t
      → inumber_of_path raw (slash ∷ s) w ≡ stop undefined w
  unfolding resolve enter
  inumber_of_path_long s t ts w first long =
      inumber_of_path-resolve slash s w
      ∙ (ap (λ r. resolve raw w.super.root_inumber r w) first ∙ ground (arith, long))
