-- ===== src/Superbloc/Codec.antt =====
-- The superbloc on the disk (src/superbloc.c): what `save_super` writes, `load_super` reads back.
use ase_plus_plus.Prelude.{
  ℕ, ◌<◌, ◌≡◌, refl, arith, List, [], ◌∷◌, ◌++◌, length, take, drop, All, ap, ◌∙◌, length-append,
  take-append, drop-append, get_or, take-take, ◌==◌, if◌then◌else◌,
}
use ase_plus_plus.Words.{
  IsWord, words, unwords, words-unwords, words-unwords-append, length-unwords,
}
use ase_plus_plus.Storage.{Storage, sector_size}
use ase_plus_plus.System.{Superbloc, World, ok, stop, exit}
use ase_plus_plus.Mbr.Blocs.{bloc, bloc-eq, loaded, stored, write_nbloc-ok, read_bloc-ok}
use ase_plus_plus.Mbr.Address.{nsectors}
use ase_plus_plus.Mbr.Frame.{IsMounted, bloc-stored_self, stored-IsMounted}
use ase_plus_plus.Superbloc.{
  super_magic, super_bytes, super_size, super_of_bytes, load_super, save_super, super_bloc,
}
use ase_plus_plus.Mbr.{read_bloc}

-- A superbloc whose numbers are words, with its 32 characters.
pub record IsSuper (s : Superbloc) : Type 0 where
  pub magic : s.magic ≡ super_magic
  pub name : length s.nom ≡ 32
  pub head : All IsWord (s.magic ∷ s.numero ∷ [])
  pub tail : All IsWord (s.id ∷ s.premier_libre ∷ s.nb_bloc_libre ∷ s.root_inumber ∷ [])

pub length-super_bytes : {s : Superbloc} → IsSuper s → length (super_bytes s) ≡ super_size
unfolding super_bytes unwords
length-super_bytes {s} v = omega (
  arith,
  length-append s.nom (unwords (s.id ∷ s.premier_libre ∷ s.nb_bloc_libre ∷ s.root_inumber ∷ [])),
  v.name,
)

abbrev front : Superbloc → List ℕ
front s = s.magic ∷ s.numero ∷ []

abbrev back : Superbloc → List ℕ
back s = s.id ∷ s.premier_libre ∷ s.nb_bloc_libre ∷ s.root_inumber ∷ []

module _ {s : Superbloc} (v : IsSuper s) where
  front_words : words (super_bytes s) ≡ front s ++ words (s.nom ++ unwords (back s))
  unfolding super_bytes
  front_words = words-unwords-append (front s) (s.nom ++ unwords (back s)) v.head

  name_bytes : take 32 (drop 8 (super_bytes s)) ≡ s.nom
  unfolding super_bytes
  name_bytes =
      ap (take 32) (drop-append 8 (unwords (front s)) _ (length-unwords (front s)))
      ∙ take-append 32 s.nom _ v.name

  back_words : words (drop 40 (super_bytes s)) ≡ back s
  unfolding super_bytes unwords
  back_words = ap words (drop-append 32 s.nom _ v.name) ∙ words-unwords (back s) v.tail

  pub super_of_bytes-super_bytes : super_of_bytes (super_bytes s) ≡ s
  unfolding super_of_bytes
  super_of_bytes-super_bytes = λ i. record {
    magic = get_or (front_words i) 0 0;
    numero = get_or (front_words i) 1 0;
    nom = name_bytes i;
    id = get_or (back_words i) 0 0;
    premier_libre = get_or (back_words i) 1 0;
    nb_bloc_libre = get_or (back_words i) 2 0;
    root_inumber = get_or (back_words i) 3 0;
  }

-- The bloc that `save_super` leaves behind holds the superbloc.
abbrev pub HasSuper : World → ℕ → Superbloc → Type 0
HasSuper w vol s = take super_size (bloc w vol 0) ≡ super_bytes s

-- The state after `save_super`.
abbrev pub super_saved : World → World
super_saved w = stored w.current_volume 0 (super_bytes w.super) w

module _ {w : World} (m : IsMounted w w.current_volume) (v : IsSuper w.super) where
  pub save_super-ok : save_super w ≡ ok tt (super_saved w)
  unfolding save_super
  save_super-ok =
      let l = length-super_bytes v in
      let written =
        write_nbloc-ok w.current_volume 0 m.ready m.volume (super_bytes w.super) (omega arith) in
      ground (arith, written, v.magic)

  pub super_saved-IsMounted : IsMounted (super_saved w) w.current_volume
  super_saved-IsMounted =
      stored-IsMounted m 0 (super_bytes w.super) (omega (arith, length-super_bytes v))

  pub super_saved-HasSuper :
      0 < nsectors w w.current_volume → HasSuper (super_saved w) w.current_volume w.super
  super_saved-HasSuper h =
      ap (take super_size) (bloc-stored_self m 0 (super_bytes w.super) h)
      ∙ take-append super_size (super_bytes w.super) _ (length-super_bytes v)

-- The superbloc in the first bloc of a volume.
abbrev pub super_on : World → ℕ → Superbloc
super_on w vol = super_of_bytes (take super_size (bloc w vol super_bloc))

-- The state after `load_super`.
abbrev pub super_loaded : ℕ → World → World
super_loaded vol w = record (loaded vol super_bloc (record w { current_volume = vol })) {
  super = super_on w vol;
}

module _ {w : World} (vol : ℕ) (m : IsMounted w vol) where
  load_super_read :
      read_bloc vol super_bloc (record w { current_volume = vol })
      ≡ ok
          (take sector_size (bloc w vol super_bloc))
          (loaded vol super_bloc (record w { current_volume = vol }))
  unfolding bloc
  load_super_read =
      read_bloc-ok vol super_bloc
        (record { formatted = m.ready.formatted; mutex = m.ready.mutex; free = m.ready.free })
        m.volume

  super_taken :
      super_of_bytes (take super_size (take sector_size (bloc w vol super_bloc))) ≡ super_on w vol
  super_taken = ap super_of_bytes (take-take super_size sector_size _ (omega arith))

  -- `load_super` succeeds exactly when the first bloc of the volume has the superbloc's magic number;
  -- otherwise it exits with status 2. In both cases the superbloc in memory is the one found there, the
  -- volume is the current one, and the disk is unchanged.
  pub load_super-cases : load_super vol w ≡ (
      if (super_on w vol).magic == super_magic
      then ok 0 (super_loaded vol w)
      else stop (exit 2) (super_loaded vol w))
  unfolding load_super
  load_super-cases = rw (load_super_read, super_taken) (ground arith)

-- The superbloc that `save_super` writes is the one that `load_super` finds on that volume in any later
-- state with the same disk and the same volume table, whatever superbloc and current volume that state
-- had in memory.
pub load_super-save_super :
    {w u : World}
    → IsMounted w w.current_volume
    → IsSuper w.super
    → 0 < nsectors w w.current_volume
    → IsMounted u w.current_volume
    → u.storage ≡ (super_saved w).storage
    → u.mbr ≡ w.mbr
    → (save_super w ≡ ok tt (super_saved w))
      × (u' : World) × (load_super w.current_volume u ≡ ok 0 u')
      × (u'.super ≡ w.super)
      × (u'.current_volume ≡ w.current_volume)
      × (u'.storage.cells ≡ (super_saved w).storage.cells)
unfolding loaded stored
load_super-save_super {w} {u} m v h mu same table =
    let vol = w.current_volume in
    let there : super_on u vol ≡ w.super =
      ap (λ b. super_of_bytes (take super_size b))
        (bloc-eq u (super_saved w) vol super_bloc same table)
      ∙ ap super_of_bytes (super_saved-HasSuper m v h)
      ∙ super_of_bytes-super_bytes v in
    (
      save_super-ok m v,
      super_loaded vol u,
      load_super-cases vol mu ∙ ground (arith, there, v.magic),
      there,
      refl,
      ap (λ (d : Storage). d.cells) same,
    )
