-- ===== src/Superbloc/Release.antt =====
-- What `free_bloc` (src/superbloc.c) does to the free list: it writes the link into the old head of the
-- list, not into the bloc that it frees.
use ase_plus_plus.Prelude.{
  subst, ℕ, suc, ◌+◌, ◌≤◌, ◌<◌, ◌≡◌, ◌≢◌, refl, arith, List, [], ◌∷◌, ◌++◌, length, take, drop, ap,
  ◌∙◌, length-append, length-take, length-drop,
}
use ase_plus_plus.Words.{words, Bytes, IsWord, word_at, unwords}
use ase_plus_plus.Storage.{sector_size}
use ase_plus_plus.System.{Superbloc, World, ok, stop, abort}
use ase_plus_plus.Mbr.{write_bloc, add32}
use ase_plus_plus.Mbr.Blocs.{bloc, loaded, stored, read_nbloc-ok, write_nbloc-ok}
use ase_plus_plus.Mbr.Address.{nsectors}
use ase_plus_plus.Mbr.Frame.{
  bloc-loaded, read_bloc_whole, length-bloc, IsMounted, bloc-stored_ne, bloc-stored_whole,
  loaded-IsMounted, stored-IsMounted,
}
use ase_plus_plus.Superbloc.{
  bloc_magic, free_bloc_size, set_next_free, free_bloc, new_bloc, super_bytes,
}
use ase_plus_plus.Superbloc.Codec.{IsSuper, super_saved, save_super-ok, super_saved-IsMounted}
use ase_plus_plus.Superbloc.FreeList.{magic_of, next_of, IsFree, IsMounted-with_super}

length-set_next_free :
    (x : ℕ) (b : Bytes) → length b ≡ sector_size → length (set_next_free x b) ≡ sector_size
unfolding unwords
length-set_next_free x b h = omega (
  arith,
  length-append (take 4 b) (unwords (x ∷ []) ++ drop 8 b),
  length-take 4 b,
  length-drop 8 b,
)

-- The link that is put into a buffer is found there.
next-set_next_free :
    (x : ℕ) (b : Bytes)
    → IsWord x
    → 4 ≤ length b
    → word_at (take free_bloc_size (set_next_free x b)) 1 ≡ x
unfolding words unwords
next-set_next_free x [] h l = absurd (omega arith)
next-set_next_free x (a ∷ []) h l = absurd (omega arith)
next-set_next_free x (a ∷ b ∷ []) h l = absurd (omega arith)
next-set_next_free x (a ∷ b ∷ c ∷ []) h l = absurd (omega arith)
next-set_next_free x (a ∷ b ∷ c ∷ d ∷ r) h l = omega arith

module _ {w : World} {x : ℕ} {xs : List ℕ} (b : ℕ) (v : IsFree w (x ∷ xs)) (pos : 0 < b)
    (inside : b < nsectors w w.current_volume) (other : b ≢ x)
    (small : w.super.nb_bloc_libre + 1 < 0x1_0000_0000) where
  abbrev vol : ℕ
  vol = w.current_volume

  abbrev p : ℕ
  p = w.super.premier_libre

  abbrev linked : Bytes
  linked = set_next_free p (bloc w vol b)

  abbrev grown : Superbloc
  grown = record (w.super) { premier_libre = b; nb_bloc_libre = add32 w.super.nb_bloc_libre 1 }

  abbrev relinked : World
  relinked = stored vol p linked (loaded vol b w)

  abbrev released : World
  released = record relinked { super = grown }

  length-linked : length linked ≡ sector_size
  length-linked = length-set_next_free p (bloc w vol b) (length-bloc v.mounted b)

  inside_head : p < nsectors w vol
  inside_head = rw (v.chain.0) (v.chain.2)

  other_head : b ≢ p
  other_head = let e = v.chain.0 in omega arith

  relinked-IsMounted : IsMounted relinked vol
  relinked-IsMounted =
      stored-IsMounted (loaded-IsMounted v.mounted b) p linked (omega (arith, length-linked))

  released-IsMounted : IsMounted released vol
  released-IsMounted = IsMounted-with_super grown relinked-IsMounted

  grown-IsSuper : IsSuper grown
  grown-IsSuper =
      let (i, (q, (n, (r, _)))) = v.super.tail in
      let f = v.mounted.fits.sectors in
      record {
        magic = v.super.magic;
        name = v.super.name;
        head = v.super.head;
        tail = (i, (omega arith, (omega arith, (r, tt))));
      }

  free_bloc-saved : free_bloc b w ≡ ok tt (super_saved released)
  unfolding free_bloc write_bloc loaded stored
  free_bloc-saved =
      let read = read_bloc_whole v.mounted b in
      let write =
        write_nbloc-ok {w = loaded vol b w} vol p (loaded-IsMounted v.mounted b).ready
          v.mounted.volume linked (omega (arith, length-linked)) in
      let save = save_super-ok released-IsMounted grown-IsSuper in ground (arith, read, write, save)

  -- the superbloc is written behind the link
  bloc-saved :
      (k : ℕ) → 0 < k → k < nsectors w vol → bloc (super_saved released) vol k ≡ bloc relinked vol k
  unfolding bloc loaded stored
  bloc-saved k h i =
      bloc-stored_ne released-IsMounted 0 k (super_bytes grown) v.room i (omega arith)

  bloc_freed : bloc (super_saved released) vol b ≡ bloc w vol b
  unfolding loaded
  bloc_freed =
      bloc-saved b pos inside
      ∙ bloc-stored_ne (loaded-IsMounted v.mounted b) p b linked inside_head inside other_head
      ∙ bloc-loaded v.mounted b b

  bloc_head : bloc (super_saved released) vol p ≡ linked
  unfolding loaded
  bloc_head =
      bloc-saved p (rw (v.chain.0) (v.chain.1)) inside_head
      ∙ bloc-stored_whole (loaded-IsMounted v.mounted b) p linked inside_head length-linked

  -- `free_bloc` of a bloc `b` that is not the head `p` of the free list makes `b` the head and counts
  -- it, but leaves `b` itself as it was: the link goes into `p`, which holds the bytes of `b` afterwards
  -- and is linked to itself.
  pub free_bloc_misplaced :
      (w' : World) × (free_bloc b w ≡ ok tt w')
      × (w'.super.premier_libre ≡ b)
      × (w'.super.nb_bloc_libre ≡ suc (suc (length xs)))
      × (bloc w' vol b ≡ bloc w vol b)
      × (bloc w' vol x ≡ set_next_free x (bloc w vol b))
      × (next_of w' vol x ≡ x)
  unfolding stored
  free_bloc_misplaced = (
    super_saved released,
    free_bloc-saved,
    refl,
    omega (arith, v.count),
    bloc_freed,
    subst (λ n. bloc (super_saved released) vol n ≡ set_next_free n (bloc w vol b)) v.chain.0
        bloc_head,
    (let f = v.mounted.fits.sectors in
        subst (λ n. next_of (super_saved released) vol n ≡ n) v.chain.0
          (ap (λ c. word_at (take free_bloc_size c) 1) bloc_head
            ∙ next-set_next_free p (bloc w vol b) (let i = inside_head in omega arith)
                (omega (arith, length-bloc v.mounted b)))),
  )

  -- After such a release the next allocation fails its assertion, unless the freed bloc happens to
  -- begin with the magic number of free blocs.
  pub new_bloc-free_bloc :
      magic_of w vol b ≢ bloc_magic
      → (w' w'' : World) × (free_bloc b w ≡ ok tt w') × (new_bloc w' ≡ stop abort w'')
  unfolding new_bloc loaded stored
  new_bloc-free_bloc used = (
    super_saved released,
    loaded vol b (super_saved released),
    free_bloc-saved,
    let m' = super_saved-IsMounted released-IsMounted grown-IsSuper in
        let read =
          read_nbloc-ok {w = super_saved released} vol b m'.ready v.mounted.volume free_bloc_size
            (omega arith) in
        let e : magic_of (super_saved released) vol b ≢ bloc_magic = rw bloc_freed used in
        ground (arith, read, e),
  )
