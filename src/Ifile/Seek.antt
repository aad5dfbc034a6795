-- ===== src/Ifile/Seek.antt =====
-- Moving the cursor of an open file to another bloc (src/ifile.c).
use ase_plus_plus.Prelude.{
  ℕ, ◌<◌, ◌≡◌, ◌≢◌, refl, sym, ap, ◌∙◌, subst, arith, List, All, true, false, length, get_or,
}
use ase_plus_plus.Storage.{sector_size}
use ase_plus_plus.System.{World, ok}
use ase_plus_plus.Mbr.{add32}
use ase_plus_plus.Mbr.Blocs.{bloc, loaded}
use ase_plus_plus.Mbr.Address.{nsectors}
use ase_plus_plus.Mbr.Frame.{IsMounted, loaded-IsMounted, read_bloc_whole}
use ase_plus_plus.Superbloc.FreeList.{IsFree}
use ase_plus_plus.Inode.{Inode, nb_directs, vbloc_of_fbloc}
use ase_plus_plus.Inode.Direct.{direct, vbloc_of_fbloc_present}
use ase_plus_plus.Ifile.{FileDesc, bloc_of_pos, load_buf, seek_ifile}
use ase_plus_plus.Ifile.Write.{flushed_all}

pub load_present :
    {w : World} (y : ℕ)
    → IsMounted w w.current_volume
    → y ≢ 0
    → load_buf y w ≡ ok (bloc w w.current_volume y) (loaded w.current_volume y w)
unfolding load_buf
load_present y m h = ground (arith, read_bloc_whole m y)

-- Reading the bloc that a file has at an index changes no bloc.
reload :
    {w : World} (n fbloc y : ℕ)
    → IsMounted w w.current_volume
    → fbloc < nb_directs
    → direct w n fbloc ≡ y
    → y ≢ 0
    → (u w' : World) × (vbloc_of_fbloc n fbloc false w ≡ ok y u)
      × (load_buf y u ≡ ok (bloc w w.current_volume y) w')
      × ((k : ℕ) → bloc w' w.current_volume k ≡ bloc w w.current_volume k)
unfolding loaded bloc
reload {w} n fbloc y m small there pos =
    let vol = w.current_volume in
    let u = loaded vol n w in
    (
      u,
      loaded vol y u,
      vbloc_of_fbloc_present m n fbloc small false (λ e. pos (sym there ∙ e))
          ∙ ap (λ b. ok b u) there,
      load_present {w = u} y (loaded-IsMounted m n) pos,
      λ k. refl,
    )

module _ {w : World} {xs : List ℕ} (v : IsFree w xs) (fd : FileDesc) (offset y : ℕ)
    (full : length fd.fds_buf ≡ sector_size) (inside : y < nsectors w w.current_volume)
    (inside_n : fd.fds_inumber < nsectors w w.current_volume) (ne : fd.fds_inumber ≢ y)
    (used : All (λ x. x ≢ y) xs) (pos : y ≢ 0) where
  abbrev moved : FileDesc
  moved = record fd { fds_pos = add32 fd.fds_pos offset }

  -- The cursor of a dirty buffer goes to another of the first 124 blocs of the file, which is on bloc
  -- `y` of the volume. The buffer is written over that bloc, and not to the one it came from: `y` then
  -- holds the buffer, the buffer stays as it is, and all other blocs of the volume are unchanged.
  pub seek_ifile_misplaced :
      fd.fds_dirty ≡ true
      → bloc_of_pos (add32 fd.fds_pos offset) < nb_directs
      → bloc_of_pos (add32 fd.fds_pos offset) ≢ bloc_of_pos fd.fds_pos
      → direct w fd.fds_inumber (bloc_of_pos (add32 fd.fds_pos offset)) ≡ y
      → (w' : World) × (seek_ifile fd offset w
          ≡ ok (record fd { fds_pos = add32 fd.fds_pos offset; fds_dirty = false }) w')
        × (bloc w' w.current_volume y ≡ fd.fds_buf)
        × ((k : ℕ)
            → k < nsectors w w.current_volume
            → k ≢ y
            → bloc w' w.current_volume k ≡ bloc w w.current_volume k)
  unfolding seek_ifile
  seek_ifile_misplaced dirty small jump there =
      let (w1, flush, held, node, free, volume, _, rest) =
        flushed_all v.mounted moved y small there pos full dirty v inside inside_n ne used in
      let vol = w1.current_volume in
      let fb = bloc_of_pos (add32 fd.fds_pos offset) in
      let there' : direct w1 fd.fds_inumber fb ≡ y =
        ap (λ (i : Inode). get_or i.blocs_directs fb 0) node ∙ there in
      let (u, w', found, load, same) = reload fd.fds_inumber fb y free.mounted small there' pos in
      let same' : (k : ℕ) → bloc w' w.current_volume k ≡ bloc w1 w.current_volume k =
        subst (λ c. (k : ℕ) → bloc w' c k ≡ bloc w1 c k) volume same in
      let held' : bloc w1 vol y ≡ fd.fds_buf =
        subst (λ c. bloc w1 c y ≡ fd.fds_buf) (sym volume) held in
      let load' = load ∙ ap (λ b. ok b w') held' in
      (
        w',
        ground (arith, flush, found, load', jump),
        same' y ∙ held,
        λ k hk nk. same' k ∙ rest k hk nk,
      )
