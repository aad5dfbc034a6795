-- ===== src/Format/Volume.antt =====
-- The file system that `init_super` (src/superbloc.c) makes on a volume.
use ase_plus_plus.Prelude.{
  ℕ, suc, ◌+◌, ◌-◌, ◌≤◌, ◌<◌, ◌≡◌, refl, sym, subst, arith, List, ◌∷◌, length, take, replicate, ap,
  ◌∙◌, get_or, length-append, length-take, length-replicate,
}
use ase_plus_plus.Words.{Bytes, IsWord, words}
use ase_plus_plus.System.{Superbloc, Mbr, World, ok}
use ase_plus_plus.Mbr.{no_volume, maxvol, mbr_magic, read_mbr}
use ase_plus_plus.Mbr.Blocs.{bloc, stored}
use ase_plus_plus.Mbr.Address.{nsectors, Fits}
use ase_plus_plus.Mbr.Frame.{IsMounted, IsDisk}
use ase_plus_plus.Mbr.Layout.{table_on, with_table, read_mbr_found}
use ase_plus_plus.Mutex.{sem_init}
use ase_plus_plus.Superbloc.{super_magic}
use ase_plus_plus.Superbloc.Codec.{
  IsSuper, HasSuper, super_saved, save_super-ok, super_saved-HasSuper,
}
use ase_plus_plus.Superbloc.FreeList.{IsFree, Chain, SameBlocs}
use ase_plus_plus.Superbloc.Root.{with_root, saved-IsFree, saved-SameBlocs, with_root-IsFree}
use ase_plus_plus.Inode.{inode_of_words, file_directory, new_inode}
use ase_plus_plus.Inode.Codec.{inode_at}
use ase_plus_plus.Inode.Create.{create_inode-cons}
use ase_plus_plus.Format.{strncpy, create_ifile, chain_blocs, first_super, init_super}
use ase_plus_plus.Superbloc.{save_super}
use ase_plus_plus.Format.Blocs.{count_up, length-count_up, Linked, chain_blocs-Linked}

length-strncpy : (n : ℕ) (s : Bytes) → length (strncpy n s) ≡ n
length-strncpy n s = omega (
  arith,
  length-append (take n s) (replicate (n - length s) 0),
  length-take n s,
  length-replicate {0} {A = ℕ} (n - length s) 0,
)

-- The directory that a free bloc becomes, with its bloc the root of the volume.
create_root :
    {w : World} {x : ℕ} {xs : List ℕ}
    → IsFree w (x ∷ xs)
    → (u : World) × (create_ifile file_directory w ≡ ok x u)
      × IsFree u xs
      × (inode_at u x ≡ new_inode file_directory)
      × (u.mbr ≡ w.mbr)
      × (u.current_volume ≡ w.current_volume)
      × (u.super.numero ≡ w.super.numero)
unfolding create_ifile
create_root v =
    let (u, made, node, free, _, table, volume, number) =
      create_inode-cons v file_directory (omega arith) in
    let pos = v.chain.1 in (u, ground (arith, made), free, node, table, volume, number)

-- The end of `init_super`: the root is entered and the superbloc saved.
save_root :
    {w : World} {xs : List ℕ} (r : ℕ)
    → IsFree w xs
    → IsWord r
    → let u = super_saved (with_root w r) in
      IsFree u xs × HasSuper u u.current_volume u.super × SameBlocs w u w.current_volume
unfolding stored bloc
save_root {w} r v h =
    let v' = with_root-IsFree v r h in
    (saved-IsFree v', super_saved-HasSuper v'.mounted v'.super v.room, saved-SameBlocs v')

-- What `init_super` needs of the disk and of its volume table: a volume of two blocs at least.
pub record IsFormattable (w : World) (vol : ℕ) : Type 0 where
  pub magic : (table_on w.storage).magic_number ≡ mbr_magic
  pub disk : IsDisk w
  pub volume : vol < maxvol
  pub fits : Fits (with_table w (table_on w.storage)) vol
  pub two : 2 ≤ nsectors (with_table w (table_on w.storage)) vol

-- The state in which the loop starts.
abbrev pub started : World → (vol num : ℕ) → Bytes → World
started w vol num nom = record (with_table w (table_on w.storage)) {
  super = first_super num nom;
  current_volume = vol;
}

pub started-IsMounted :
    (w : World) (vol num : ℕ) (nom : Bytes)
    → IsFormattable w vol
    → IsMounted (started w vol num nom) vol
unfolding sem_init
started-IsMounted w vol num nom f = record {
  ready = record { formatted = f.magic; mutex = refl; free = omega arith };
  volume = f.volume;
  fits = record { sectors = f.fits.sectors; cylinders = f.fits.cylinders };
  disk = record { master = f.disk.cells 0 0; cells = f.disk.cells };
}

-- The free list that the loop leaves.
linked-IsFree :
    (w : World) (vol num n : ℕ) (nom : Bytes) (u : World)
    → Linked vol (suc n) 1 (started w vol num nom) u
    → IsWord num
    → suc n < nsectors u vol
    → IsFree u (count_up (suc n) 1)
linked-IsFree w vol num n nom u l h inside =
    let first = ap (λ (s : Superbloc). s.premier_libre) l.super in
    let number = ap (λ (s : Superbloc). s.nb_bloc_libre) l.super in
    let f = l.mounted.fits.sectors in
    let new = record (first_super num nom) { nb_bloc_libre = 0 + suc n } in
    let fine : IsSuper new = record {
      magic = refl;
      name = length-strncpy 32 nom;
      head = (omega arith, (h, tt));
      tail = (omega arith, (omega arith, (omega arith, (omega arith, tt))));
    } in
    record {
      mounted = subst (λ v. IsMounted u v) (sym l.volume) l.mounted;
      super = subst IsSuper (sym l.super) fine;
      room = rw l.volume (omega arith);
      chain =
          subst (λ v. Chain u v u.super.premier_libre (count_up (suc n) 1)) (sym l.volume)
            (subst (λ b. Chain u vol b (count_up (suc n) 1)) (sym first) l.chain);
      count = number ∙ omega (arith, length-count_up n 2);
    }

-- The steps of `init_super`, one after the other.
init_super_steps :
    (vol num : ℕ) (nom : Bytes) (w a u p r q : World) (x : ℕ)
    → read_mbr w ≡ ok tt a
    → chain_blocs
        ((get_or a.mbr.mbr_vol vol no_volume).vol_nsectors - 1)
        1
        (record a { super = first_super num nom; current_volume = vol })
      ≡ ok tt u
    → save_super u ≡ ok tt p
    → create_ifile file_directory p ≡ ok x r
    → save_super (with_root r x) ≡ ok tt q
    → q.super.magic ≡ super_magic
    → init_super vol num nom w ≡ ok tt q
unfolding init_super
init_super_steps vol num nom w a u p r q x e1 e2 e3 e4 e5 e6 =
    ground (arith, e1, e2, e3, e4, e5, e6)

-- What is known of `init_super` on a volume once it is done.
abbrev pub IsMade : (vol n : ℕ) → World → Type 0
IsMade vol n w =
    IsFree w (count_up n 2)
    × (w.current_volume ≡ vol)
    × (w.super.root_inumber ≡ 1)
    × HasSuper w w.current_volume w.super
    × (inode_at w 1 ≡ new_inode file_directory)

-- The part of `init_super` behind its loop.
init_super_end :
    (w : World) (vol num n : ℕ) (nom : Bytes)
    → IsFormattable w vol
    → nsectors (with_table w (table_on w.storage)) vol ≡ suc (suc n)
    → (u : World) → chain_blocs (suc n) 1 (started w vol num nom) ≡ ok tt u
    → u.current_volume ≡ vol
    → u.mbr ≡ table_on w.storage
    → IsFree u (count_up (suc n) 1)
    → u.super.numero ≡ num
    → (w' : World) × (init_super vol num nom w ≡ ok tt w')
      × IsMade vol n w'
      × (w'.mbr ≡ table_on w.storage)
      × (w'.super.numero ≡ num)
unfolding stored
init_super_end w vol num n nom f e u run volume table free number =
    let save = save_super-ok free.mounted free.super in
    let (r, made, free', node, table', volume', number') = create_root (saved-IsFree free) in
    let (free'', there, same) = save_root 1 free' (omega arith) in
    let v = with_root-IsFree free' 1 (omega arith) in
    let save' = save_super-ok v.mounted v.super in
    let rounds : nsectors (with_table w (table_on w.storage)) vol - 1 ≡ suc n = omega arith in
    let size : nsectors r r.current_volume ≡ suc (suc n) =
      (λ i. (get_or ((table' ∙ table) i).mbr_vol ((volume' ∙ volume) i) no_volume).vol_nsectors)
      ∙ e in
    (
      super_saved (with_root r 1),
      init_super_steps vol num nom w (with_table w (table_on w.storage)) u (super_saved u) r
          (super_saved (with_root r 1)) 1 (read_mbr_found w f.magic)
          (ap (λ k. chain_blocs k 1 (started w vol num nom)) rounds ∙ run) save made save'
          v.super.magic,
      (
        free'',
        volume' ∙ volume,
        refl,
        there,
        ap (λ b. inode_of_words (words b)) (same 1 (omega arith) (omega (arith, size))) ∙ node,
      ),
      table' ∙ table,
      number' ∙ number,
    )

-- `init_super` on a volume of at least two blocs succeeds. The current volume is that one; the
-- superbloc in memory, which is also on the disk, has the serial number given and bloc 1 as its root; that bloc holds the inode of an
-- empty directory; and the free list is made of all blocs behind it, in their order.
pub init_super-IsFree :
    (w : World) (vol num n : ℕ) (nom : Bytes)
    → IsFormattable w vol
    → IsWord num
    → nsectors (with_table w (table_on w.storage)) vol ≡ suc (suc n)
    → (w' : World) × (init_super vol num nom w ≡ ok tt w')
      × IsMade vol n w'
      × (w'.mbr ≡ table_on w.storage)
      × (w'.super.numero ≡ num)
init_super-IsFree w vol num n nom f h e =
    let s = started w vol num nom in
    let (u, run, l) =
      chain_blocs-Linked (suc n) 1 s (started-IsMounted w vol num nom f) (omega arith) (omega arith)
        (let g = f.fits.sectors in omega arith) in
    let size = ap (λ (t : Mbr). (get_or t.mbr_vol vol no_volume).vol_nsectors) l.table ∙ e in
    init_super_end w vol num n nom f e u run l.volume l.table
      (linked-IsFree w vol num n nom u l h (omega arith)) (ap (λ (s : Superbloc). s.numero) l.super)
