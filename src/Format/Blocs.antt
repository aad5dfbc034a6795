-- ===== src/Format/Blocs.antt =====
-- The loop of `init_super` (src/superbloc.c) links all blocs of the volume but the first into one list.
use ase_plus_plus.Prelude.{
  ℕ, zero, suc, ◌+◌, ◌-◌, ◌<◌, ◌≡◌, refl, sym, subst, arith, List, [], ◌∷◌, length, take, ap, ◌∙◌,
  ltb, if◌then◌else◌, get_or, take-append,
}
use ase_plus_plus.Words.{Bytes, IsWord, words, length-unwords, words-unwords}
use ase_plus_plus.System.{Mbr, World, ok}
use ase_plus_plus.Mbr.{no_volume, add32}
use ase_plus_plus.Mbr.Blocs.{bloc, stored, write_nbloc-ok}
use ase_plus_plus.Mbr.Address.{nsectors}
use ase_plus_plus.Mbr.Frame.{IsMounted, stored-IsMounted, bloc-stored_self, bloc-stored_ne}
use ase_plus_plus.Superbloc.{bloc_magic, bloc_null, free_bloc_size, free_bloc_bytes}
use ase_plus_plus.Superbloc.FreeList.{Chain, IsMounted-with_super}
use ase_plus_plus.Format.{chain_bloc, chain_blocs}

-- `n` numbers from `i` on.
abbrev pub count_up : (n i : ℕ) → List ℕ
count_up zero i = []
count_up (suc n) i = i ∷ count_up n (i + 1)

pub length-count_up : (n i : ℕ) → length (count_up n i) ≡ n
length-count_up zero i = refl
length-count_up (suc n) i = ap suc (length-count_up n (i + 1))

-- Where the list goes on from bloc `i`, with `n` blocs left.
abbrev pub head_of : (n i : ℕ) → ℕ
head_of zero i = bloc_null
head_of (suc n) i = i

abbrev counted : World → World
counted w = record w { super = record (w.super) { nb_bloc_libre = add32 w.super.nb_bloc_libre 1 } }

-- The state after bloc `i` has been linked, `n` being left behind it.
unfoldable linked : ℕ → (n i : ℕ) → World → World
unfolding stored
linked vol n i w = counted (stored vol i (free_bloc_bytes bloc_magic (head_of n (i + 1))) w)

-- What the loop has done from `w` to `u`.
pub record Linked (vol n i : ℕ) (w u : World) : Type 0 where
  pub mounted : IsMounted u vol
  pub volume : u.current_volume ≡ vol
  pub table : u.mbr ≡ w.mbr
  pub chain : Chain u vol (head_of n i) (count_up n i)
  pub before : (k : ℕ) → k < i → bloc u vol k ≡ bloc w vol k
  pub super : u.super ≡ record (w.super) { nb_bloc_libre = w.super.nb_bloc_libre + n }

free_bloc_words :
    (next : ℕ) → IsWord next → words (free_bloc_bytes bloc_magic next) ≡ bloc_magic ∷ next ∷ []
free_bloc_words next h = words-unwords (bloc_magic ∷ next ∷ []) (omega arith, (h, tt))

-- The link that the source computes.
next_link :
    (n i s : ℕ) → i + suc n ≡ s → (if ltb i (s - 1) then i + 1 else bloc_null) ≡ head_of n (i + 1)
next_link zero i s e = ground arith
next_link (suc n) i s e = ground arith

head_word : (n i s : ℕ) → i + suc n ≡ s → s < 0x1_0000_0000 → IsWord (head_of n (i + 1))
head_word zero i s e h = omega arith
head_word (suc n) i s e h = omega arith

module _ (n i : ℕ) {w : World} (m : IsMounted w w.current_volume)
    (e : i + suc n ≡ nsectors w w.current_volume) (pos : 0 < i) where
  abbrev vol : ℕ
  vol = w.current_volume

  abbrev link : Bytes
  link = free_bloc_bytes bloc_magic (head_of n (i + 1))

  short_link : length link ≡ free_bloc_size
  short_link = length-unwords (bloc_magic ∷ head_of n (i + 1) ∷ [])

  inside : i < nsectors w vol
  inside = omega arith

  chain_bloc-linked : chain_bloc i w ≡ ok tt (linked vol n i w)
  unfolding chain_bloc linked
  chain_bloc-linked = rw (
    next_link n i (nsectors w vol) e,
    write_nbloc-ok vol i m.ready m.volume link (omega (arith, short_link)),
  )

  linked-IsMounted : IsMounted (linked vol n i w) vol
  unfolding linked
  linked-IsMounted = IsMounted-with_super _ (stored-IsMounted m i link (omega (arith, short_link)))

  bloc-linked_self : take free_bloc_size (bloc (linked vol n i w) vol i) ≡ link
  unfolding linked bloc
  bloc-linked_self =
      ap (take free_bloc_size) (bloc-stored_self m i link inside)
      ∙ take-append free_bloc_size link _ short_link

  bloc-linked_ne : (k : ℕ) → k < i → bloc (linked vol n i w) vol k ≡ bloc w vol k
  unfolding linked bloc
  bloc-linked_ne k h = bloc-stored_ne m i k link inside (omega arith) (omega arith)

  linked_words : words link ≡ bloc_magic ∷ head_of n (i + 1) ∷ []
  linked_words =
      let f = m.fits.sectors in
      free_bloc_words (head_of n (i + 1)) (head_word n i (nsectors w vol) e (omega arith))

  -- A list that goes on from bloc `i` through later blocs, in a state that keeps bloc `i`.
  Chain-extended :
      (u : World)
      → nsectors u vol ≡ nsectors w vol
      → bloc u vol i ≡ bloc (linked vol n i w) vol i
      → Chain u vol (head_of n (i + 1)) (count_up n (i + 1))
      → Chain u vol i (i ∷ count_up n (i + 1))
  Chain-extended u same q c =
      let got = ap words (ap (take free_bloc_size) q ∙ bloc-linked_self) ∙ linked_words in
      (
        refl,
        pos,
        rw same inside,
        ap (λ ws. get_or ws 0 0) got,
        subst (λ b. Chain u vol b (count_up n (i + 1))) (sym (ap (λ ws. get_or ws 1 0) got)) c,
      )

-- The loop of `init_super` over the last `n` blocs of a volume, from bloc `i` on, succeeds: these blocs
-- are linked into one list in their order, the blocs before them are unchanged, and the superbloc in
-- memory counts `n` more.
pub chain_blocs-Linked :
    (n i : ℕ) (w : World)
    → IsMounted w w.current_volume
    → i + n ≡ nsectors w w.current_volume
    → 0 < i
    → w.super.nb_bloc_libre + n < 0x1_0000_0000
    → (u : World) × (chain_blocs n i w ≡ ok tt u) × Linked w.current_volume n i w u
unfolding chain_blocs linked
chain_blocs-Linked zero i w m e pos small = (
  w,
  refl,
  record {
    mounted = m;
    volume = refl;
    table = refl;
    chain = refl;
    before = λ k h. refl;
    super = ap (λ c. record (w.super) { nb_bloc_libre = c }) (omega arith);
  },
)
chain_blocs-Linked (suc n) i w m e pos small =
    let vol = w.current_volume in
    let w' = linked vol n i w in
    let (u, run, l) =
      chain_blocs-Linked n (i + 1) w' (linked-IsMounted n i m e pos) (omega arith) (omega arith)
        (omega arith) in
    (
      u,
      rw (chain_bloc-linked n i m e pos) run,
      record {
        mounted = l.mounted;
        volume = l.volume;
        table = l.table;
        chain =
            Chain-extended n i m e pos u
              (ap (λ (t : Mbr). (get_or t.mbr_vol vol no_volume).vol_nsectors) l.table)
              (l.before i (omega arith)) l.chain;
        before = λ k h. l.before k (omega arith) ∙ bloc-linked_ne n i m e pos k h;
        super = l.super ∙ ap (λ c. record (w.super) { nb_bloc_libre = c }) (omega arith);
      },
    )
