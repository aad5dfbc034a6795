-- ===== src/Superbloc/FreeList.antt =====
-- The list of free blocs of the current volume, linked through the blocs themselves
-- (src/superbloc.c).
use ase_plus_plus.Prelude.{
  ℕ, suc, ◌<◌, ◌≡◌, ◌≢◌, refl, sym, arith, List, [], ◌∷◌, length, take, All, ap, ◌∙◌, subst,
}
use ase_plus_plus.Words.{IsWord, word_at}
use ase_plus_plus.System.{Superbloc, World}
use ase_plus_plus.Mbr.Blocs.{bloc}
use ase_plus_plus.Mbr.Address.{Fits, nsectors}
use ase_plus_plus.Mbr.Frame.{IsMounted}
use ase_plus_plus.Superbloc.{bloc_magic, bloc_null, free_bloc_size}
use ase_plus_plus.Superbloc.Codec.{IsSuper}

-- `struct free_bloc_s` in a bloc.
abbrev pub magic_of : World → ℕ → ℕ → ℕ
magic_of w vol x = word_at (take free_bloc_size (bloc w vol x)) 0

abbrev pub next_of : World → ℕ → ℕ → ℕ
next_of w vol x = word_at (take free_bloc_size (bloc w vol x)) 1

-- From bloc `b` the links lead through the blocs `xs` of the volume to the end of the list.
abbrev pub Chain : World → ℕ → ℕ → List ℕ → Type 0
Chain w vol b [] = b ≡ bloc_null
Chain w vol b (x ∷ xs) =
    (b ≡ x)
    × (0 < x)
    × (x < nsectors w vol)
    × (magic_of w vol x ≡ bloc_magic)
    × Chain w vol (next_of w vol x) xs

-- The blocs of a volume but the first are the same in two states.
abbrev pub SameBlocs : World → World → ℕ → Type 0
SameBlocs w u vol = (k : ℕ) → 0 < k → k < nsectors w vol → bloc u vol k ≡ bloc w vol k

pub Chain-frame :
    (w u : World) (vol b : ℕ) (xs : List ℕ)
    → nsectors u vol ≡ nsectors w vol
    → SameBlocs w u vol
    → Chain w vol b xs
    → Chain u vol b xs
Chain-frame w u vol b [] same e c = c
Chain-frame w u vol b (x ∷ xs) same e (p, pos, inside, mg, rest) =
    let q = e x pos inside in
    (
      p,
      pos,
      rw same inside,
      ap (λ c. word_at (take free_bloc_size c) 0) q ∙ mg,
      Chain-frame w u vol (next_of u vol x) xs same e (
          subst (λ n. Chain w vol n xs) (sym (ap (λ c. word_at (take free_bloc_size c) 1) q)) rest),
    )

-- The free list of the current volume is `xs`, and the superbloc counts it.
pub record IsFree (w : World) (xs : List ℕ) : Type 0 where
  pub mounted : IsMounted w w.current_volume
  pub super : IsSuper w.super
  pub room : 0 < nsectors w w.current_volume
  pub chain : Chain w w.current_volume w.super.premier_libre xs
  pub count : w.super.nb_bloc_libre ≡ length xs

-- A change of the superbloc in memory alone leaves the volume mounted.
pub IsMounted-with_super :
    {w : World} {vol : ℕ} (s : Superbloc) → IsMounted w vol → IsMounted (record w { super = s }) vol
IsMounted-with_super s m = record {
  ready = record { formatted = m.ready.formatted; mutex = m.ready.mutex; free = m.ready.free };
  volume = m.volume;
  fits = record { sectors = m.fits.sectors; cylinders = m.fits.cylinders };
  disk = record { master = m.disk.master; cells = m.disk.cells };
}

-- The end of a chain, or the next bloc, is a bloc number.
pub chain_word : (w : World) (vol b : ℕ) (xs : List ℕ) → Fits w vol → Chain w vol b xs → IsWord b
chain_word w vol b [] f c = omega arith
chain_word w vol b (x ∷ xs) f c = let e = c.0 in let l = c.2 in let g = f.sectors in omega arith

-- Two chains from one bloc are equally long.
pub length-Chain :
    (w : World) (vol b : ℕ) (xs ys : List ℕ)
    → Chain w vol b xs
    → Chain w vol b ys
    → length xs ≡ length ys
length-Chain w vol b [] [] c d = refl
length-Chain w vol b [] (y ∷ ys) c (e, pos, i, m, d) = absurd (omega arith)
length-Chain w vol b (x ∷ xs) [] (e, pos, i, m, c) d = absurd (omega arith)
length-Chain w vol b (x ∷ xs) (y ∷ ys) (e, p, i, m, c) (e', p', i', m', d) =
    let same : y ≡ x = sym e' ∙ e in
    ap suc (
      length-Chain w vol (next_of w vol x) xs ys c
        (subst (λ n. Chain w vol (next_of w vol n) ys) same d))

pub Chain-avoids :
    (w : World) (vol b x n : ℕ) (ys : List ℕ)
    → ((zs : List ℕ) → Chain w vol x zs → length zs ≡ n)
    → Chain w vol b ys
    → length ys < n
    → All (λ y. y ≢ x) ys
Chain-avoids w vol b x n [] det c h = tt
Chain-avoids w vol b x n (y ∷ ys) det (e, p, i, m, c) h = (
  (λ same. absurd (let l = det (y ∷ ys) (sym same, p, i, m, c) in omega arith)),
  Chain-avoids w vol (next_of w vol y) x n ys det c (omega arith),
)
