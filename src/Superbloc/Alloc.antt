-- ===== src/Superbloc/Alloc.antt =====
-- The allocation of a bloc by `new_bloc` (src/superbloc.c).
use ase_plus_plus.Prelude.{
  ◌<◌, ℕ, ◌≡◌, ◌≢◌, refl, sym, arith, List, [], ◌∷◌, length, All, subst, ◌==◌, not, if◌then◌else◌,
}
use ase_plus_plus.Words.{IsWord}
use ase_plus_plus.System.{Superbloc, World, ok}
use ase_plus_plus.Mbr.Blocs.{loaded, stored, read_nbloc-ok}
use ase_plus_plus.Mbr.Frame.{IsMounted, bloc-stored_ne, loaded-IsMounted}
use ase_plus_plus.Superbloc.{bloc_null, free_bloc_size, dec32, new_bloc, super_bytes}
use ase_plus_plus.Superbloc.Codec.{
  IsSuper, HasSuper, super_saved, save_super-ok, super_saved-IsMounted, super_saved-HasSuper,
}
use ase_plus_plus.Superbloc.FreeList.{
  next_of, Chain, SameBlocs, Chain-frame, IsFree, IsMounted-with_super, chain_word, length-Chain,
  Chain-avoids,
}

-- The link of bloc `x` as `new_bloc` takes it.
abbrev next : World → ℕ → ℕ
next w x = let n = next_of w w.current_volume x in if not (n == bloc_null) then n else bloc_null

abbrev shortened : World → ℕ → Superbloc
shortened w x = record (w.super) {
  premier_libre = next w x;
  nb_bloc_libre = dec32 w.super.nb_bloc_libre;
}

abbrev unlinked : World → ℕ → World
unlinked w x = record (loaded w.current_volume x w) { super = shortened w x }

-- The state after `new_bloc` has taken bloc `x`.
unfoldable pub taken : World → ℕ → World
unfolding loaded stored
taken w x = super_saved (unlinked w x)

module _ {w : World} {x : ℕ} {xs : List ℕ} (v : IsFree w (x ∷ xs)) where
  abbrev vol : ℕ
  vol = w.current_volume

  next-eq : (next w x) ≡ next_of w vol x
  next-eq = ground arith

  shortened-IsSuper : IsSuper (shortened w x)
  shortened-IsSuper =
      let (i, (p, (n, (r, _)))) = v.super.tail in
      let word : IsWord (next w x) =
        rw next-eq (chain_word w vol (next_of w vol x) xs v.mounted.fits v.chain.4) in
      record {
        magic = v.super.magic;
        name = v.super.name;
        head = v.super.head;
        tail = (i, (word, (omega arith, (r, tt))));
      }

  unlinked-IsMounted : IsMounted (unlinked w x) vol
  unlinked-IsMounted = IsMounted-with_super (shortened w x) (loaded-IsMounted v.mounted x)

  pub new_bloc-taken : new_bloc w ≡ ok x (taken w x)
  unfolding new_bloc taken
  new_bloc-taken =
      let (e, pos, inside, mg, _) = v.chain in
      let read =
        read_nbloc-ok vol x v.mounted.ready v.mounted.volume free_bloc_size (omega arith) in
      let save = save_super-ok unlinked-IsMounted shortened-IsSuper in ground (arith, read, save)

  pub taken-SameBlocs : SameBlocs w (taken w x) vol
  unfolding taken
  taken-SameBlocs k pos inside =
      bloc-stored_ne unlinked-IsMounted 0 k (super_bytes (shortened w x)) v.room inside
        (omega arith)

  pub taken-IsFree : IsFree (taken w x) xs
  unfolding taken
  taken-IsFree = record {
    mounted = super_saved-IsMounted unlinked-IsMounted shortened-IsSuper;
    super = shortened-IsSuper;
    room = v.room;
    chain =
        Chain-frame w (taken w x) vol (next w x) xs refl taken-SameBlocs
          (subst (λ n. Chain w vol n xs) (sym next-eq) v.chain.4);
    count = let (i, (p, (n, (r, _)))) = v.super.tail in omega (arith, v.count);
  }

  -- With a free bloc there is no failure: `new_bloc` returns the first bloc of the list, which is not
  -- the superbloc's, and the rest of the list is free after it. The new superbloc is on the disk, and
  -- every other bloc of the volume is unchanged, the one returned included.
  pub new_bloc-cons :
      (w' : World) × (new_bloc w ≡ ok x w')
      × (0 < x)
      × IsFree w' xs
      × SameBlocs w w' vol
      × HasSuper w' vol w'.super
      × (w'.mbr ≡ w.mbr)
      × (w'.current_volume ≡ vol)
  unfolding taken
  new_bloc-cons = (
    taken w x,
    new_bloc-taken,
    v.chain.1,
    taken-IsFree,
    taken-SameBlocs,
    super_saved-HasSuper unlinked-IsMounted shortened-IsSuper v.room,
    refl,
    refl,
  )

-- On a full volume `new_bloc` returns 0 and changes nothing.
pub new_bloc-nil : {w : World} → IsFree w [] → new_bloc w ≡ ok 0 w
unfolding new_bloc
new_bloc-nil v = rw v.chain

pub new_bloc_fresh : {w : World} {x : ℕ} {xs : List ℕ} → IsFree w (x ∷ xs) → All (λ y. y ≢ x) xs
new_bloc_fresh {w} {x} {xs} v =
    let vol = w.current_volume in
    let (e, p, i, m, c) = v.chain in
    Chain-avoids w vol (next_of w vol x) x (length (x ∷ xs)) xs
      (λ zs d. length-Chain w vol x zs (x ∷ xs) d (refl, p, i, m, c)) c (omega arith)

-- Two allocations in a row, with two free blocs, hand out distinct blocs: the first two of the list, whose
-- rest is free afterwards.
pub new_bloc_distinct :
    {w : World} {x y : ℕ} {xs : List ℕ}
    → IsFree w (x ∷ y ∷ xs)
    → (w' w'' : World) × (new_bloc w ≡ ok x w') × (new_bloc w' ≡ ok y w'') × (y ≢ x) × IsFree w'' xs
new_bloc_distinct {w} {x} {y} v =
    let w' = taken w x in
    let v' = taken-IsFree v in
    (w', taken w' y, new_bloc-taken v, new_bloc-taken v', (new_bloc_fresh v).0, taken-IsFree v')
