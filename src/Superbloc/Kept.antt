-- ===== src/Superbloc/Kept.antt =====
-- The free list (src/superbloc.c) outlives the reads of blocs, and the writes to blocs in use.
use ase_plus_plus.Prelude.{
  ℕ, ◌≤◌, ◌<◌, ◌≡◌, ◌≢◌, refl, sym, ap, ◌∙◌, subst, List, [], ◌∷◌, length, take, All,
}
use ase_plus_plus.Words.{Bytes, word_at}
use ase_plus_plus.Storage.{sector_size}
use ase_plus_plus.System.{World}
use ase_plus_plus.Mbr.Blocs.{bloc, loaded, stored}
use ase_plus_plus.Mbr.Address.{nsectors}
use ase_plus_plus.Mbr.Frame.{loaded-IsMounted, stored-IsMounted, bloc-loaded, bloc-stored_ne}
use ase_plus_plus.Superbloc.{free_bloc_size}
use ase_plus_plus.Superbloc.FreeList.{next_of, Chain, IsFree}

-- A chain depends on its own blocs alone.
Chain-kept :
    (w u : World) (vol b : ℕ) (xs : List ℕ)
    → nsectors u vol ≡ nsectors w vol
    → All (λ k. k < nsectors w vol → bloc u vol k ≡ bloc w vol k) xs
    → Chain w vol b xs
    → Chain u vol b xs
Chain-kept w u vol b [] same e c = c
Chain-kept w u vol b (x ∷ xs) same (e, es) (p, pos, inside, mg, rest) =
    let q = e inside in
    (
      p,
      pos,
      rw same inside,
      ap (λ c. word_at (take free_bloc_size c) 0) q ∙ mg,
      Chain-kept w u vol (next_of u vol x) xs same es (
          subst (λ n. Chain w vol n xs) (sym (ap (λ c. word_at (take free_bloc_size c) 1) q)) rest),
    )

pub All-map {ℓ κ μ} :
    {A : Type ℓ} (P : A → Type κ) (Q : A → Type μ) (xs : List A)
    → ((x : A) → P x → Q x)
    → All P xs
    → All Q xs
All-map P Q [] f h = tt
All-map P Q (x ∷ xs) f (h, hs) = (f x h, All-map P Q xs f hs)

All-every {ℓ κ} : {A : Type ℓ} (P : A → Type κ) (xs : List A) → ((x : A) → P x) → All P xs
All-every P [] f = tt
All-every P (x ∷ xs) f = (f x, All-every P xs f)

module _ {w : World} {xs : List ℕ} (v : IsFree w xs) where
  pub loaded-IsFree : (n : ℕ) → IsFree (loaded w.current_volume n w) xs
  unfolding loaded
  loaded-IsFree n = record {
    mounted = loaded-IsMounted v.mounted n;
    super = v.super;
    room = v.room;
    chain =
        Chain-kept w (loaded w.current_volume n w) w.current_volume _ xs refl
          (All-every _ xs λ k h. bloc-loaded v.mounted n k) v.chain;
    count = v.count;
  }

  pub stored-IsFree :
      (n : ℕ) (b : Bytes)
      → n < nsectors w w.current_volume
      → length b ≤ sector_size
      → All (λ y. y ≢ n) xs
      → IsFree (stored w.current_volume n b w) xs
  unfolding stored
  stored-IsFree n b inside short off = record {
    mounted = stored-IsMounted v.mounted n b short;
    super = v.super;
    room = v.room;
    chain =
        Chain-kept w (stored w.current_volume n b w) w.current_volume _ xs refl
          (All-map _ _ xs (λ k ne h. bloc-stored_ne v.mounted n k b inside h ne) off) v.chain;
    count = v.count;
  }
