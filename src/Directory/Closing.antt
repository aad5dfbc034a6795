-- ===== src/Directory/Closing.antt =====
-- Closing a directory of one bloc once an entry is written (src/dir.c): the directory that is left.
use ase_plus_plus.Prelude.{
  ℕ, ◌+◌, ◌*◌, ◌≤◌, ◌<◌, ◌≡◌, refl, sym, ap, ◌∙◌, subst, arith, List, ◌∷◌, All, ◌⊎◌, inl, inr,
  length, get_or,
}
use ase_plus_plus.Words.{Bytes, IsWord}
use ase_plus_plus.System.{World, ok}
use ase_plus_plus.Mbr.Blocs.{bloc, loaded}
use ase_plus_plus.Mbr.Address.{nsectors}
use ase_plus_plus.Mbr.Frame.{loaded-IsMounted}
use ase_plus_plus.Inode.{Inode}
use ase_plus_plus.Inode.Codec.{IsInode, inode_at}
use ase_plus_plus.Inode.Direct.{direct}
use ase_plus_plus.Ifile.{FileDesc, close_ifile}
use ase_plus_plus.Ifile.RoundTrip.{sized-IsInode}
use ase_plus_plus.Directory.{Entry}
use ase_plus_plus.Directory.Reading.{IsChar}
use ase_plus_plus.Directory.Finding.{entries, HasEnd}
use ase_plus_plus.Directory.Names.{IsDirectory, buffer, seen, full}
use ase_plus_plus.Directory.Splicing.{splice, length-splice, All-splice, grown, grown-cases}
use ase_plus_plus.Directory.Writing.{sized}
use ase_plus_plus.Directory.Added.{IsApart, seen-IsMounted, done, close_written}

-- The entries of a directory of one bloc.
abbrev pub listing : (w : World) → (n count : ℕ) → List Entry
listing w n count = entries count 0 (bloc w w.current_volume (direct w n 0))

sized-cases :
    (size last : ℕ)
    → (size ≤ sized size last)
      × (last ≤ sized size last)
      × ((sized size last ≡ size) ⊎ (sized size last ≡ last))
sized-cases size last = ground arith

-- How many entries the directory has, once the entry at place `k` is written.
abbrev pub HasSize : (size m : ℕ) → Type 0
HasSize size m = (size ≤ 20 * m) × (20 * m ≤ size + 1) × (20 * m < 512)

pub sized-HasSize :
    (size count k : ℕ)
    → HasSize size count
    → k ≤ count
    → 20 * count + 20 < 512
    → HasSize (sized size (20 * k + 19)) (grown count k)
sized-HasSize size count k (low, high, less) p room =
    let (a, b, which) = sized-cases size (20 * k + 19) in
    elim (grown-cases count k p) [
      | inl (l, e) ↦ elim which [
        | inl f ↦ (omega arith, omega arith, omega arith)
        | inr f ↦ (omega arith, omega arith, omega arith)
      ]
      | inr (l, e) ↦ elim which [
        | inl f ↦ (omega arith, omega arith, omega arith)
        | inr f ↦ (omega arith, omega arith, omega arith)
      ]
    ]

pub sized-HasSize_inside :
    (size count k : ℕ) → HasSize size count → k < count → HasSize (sized size (20 * k + 19)) count
sized-HasSize_inside size count k (low, high, less) p =
    let (a, b, which) = sized-cases size (20 * k + 19) in
    elim which [
      | inl f ↦ (omega arith, omega arith, omega arith)
      | inr f ↦ (omega arith, omega arith, omega arith)
    ]

module _ {w : World} (n count : ℕ) (d : IsDirectory w n count) (a : IsApart w n) (k : ℕ)
    (small : 20 * k + 20 < 512) (c : ℕ) (cs : Bytes) (long : length cs ≡ 19)
    (chars : All IsChar (c ∷ cs)) where
  -- Closing the directory with an entry written at place `k`, where the bloc then has the entries `es`.
  pub close_ifile-IsDirectory :
      (m : ℕ) (es : List Entry)
      → HasSize (sized (inode_at w n).size (20 * k + 19)) m
      → entries m 0 (splice (buffer n count d) (20 * k) (c ∷ cs)) ≡ es
      → All (λ e. HasEnd e.ent_basename) es
      → (fd' : FileDesc) × (w' : World) × (close_ifile
            (done n count d k small c cs long)
            (loaded w.current_volume n (seen n count d))
          ≡ ok fd' w')
        × IsDirectory w' n m
        × IsApart w' n
        × (listing w' n m ≡ es)
  unfolding loaded bloc
  close_ifile-IsDirectory m es (low, high, less) list ends =
      let fd = done n count d k small c cs long in
      let x = direct w n 0 in
      let buf = buffer n count d in
      let word : IsWord fd.fds_size = omega (arith, less, high) in
      let wide = length-splice buf (20 * k) (c ∷ cs) in
      let (fd', w', close, mounted, node, held, sectors) =
        close_written {w = loaded w.current_volume n (seen n count d)} fd x
          (loaded-IsMounted (seen-IsMounted n count d) n) d.inode word (omega (arith, small)) refl
          d.there (wide ∙ full n count d) refl a.inode_inside a.bloc_inside a.apart in
      let named : direct w' n 0 ≡ x = ap (λ (i : Inode). get_or i.blocs_directs 0 0) node in
      let bytes : bloc w' w'.current_volume (direct w' n 0) ≡ splice buf (20 * k) (c ∷ cs) =
        ap (λ y. bloc w' w'.current_volume y) named ∙ held in
      let size : (inode_at w' n).size ≡ fd.fds_size = ap (λ (i : Inode). i.size) node in
      let list' = ap (λ b. entries m 0 b) bytes ∙ list in
      let inside = a.inode_inside in
      let bloc_inside = a.bloc_inside in
      (
        fd',
        w',
        close,
        record {
          mounted = mounted;
          inode = subst IsInode (sym node) (sized-IsInode (inode_at w n) fd.fds_size d.inode word);
          type = ap (λ (i : Inode). i.type) node ∙ d.type;
          there = λ e. d.there (sym named ∙ e);
          low = omega (arith, size, low);
          high = omega (arith, size, high);
          small = less;
          chars =
              subst (All IsChar) (sym bytes)
                (All-splice IsChar buf (20 * k) (c ∷ cs) d.chars chars);
          ends = subst (All (λ e. HasEnd e.ent_basename)) (sym list') ends;
        },
        record {
          inode_inside = subst (λ y. n < y) (sym sectors) inside;
          bloc_inside =
              subst (λ y. direct w' n 0 < y) (sym sectors)
                (subst (λ y. y < nsectors w w.current_volume) (sym named) bloc_inside);
          apart = λ e. a.apart (sym named ∙ e);
        },
        list',
      )

pub loaded-IsApart : {w : World} (n : ℕ) → IsApart w n → IsApart (loaded w.current_volume n w) n
unfolding bloc loaded
loaded-IsApart n a = record {
  inode_inside = a.inode_inside;
  bloc_inside = a.bloc_inside;
  apart = a.apart;
}
