-- ===== src/Files/Created.antt =====
-- Creating a file in the root directory (src/file.c), when its name is not there and the volume has a free
-- bloc.
use ase_plus_plus.Prelude.{
  ℕ, ◌+◌, ◌*◌, ◌<◌, ◌≡◌, ◌≢◌, refl, sym, ap, ◌∙◌, subst, arith, List, ◌∷◌, All, false, length,
  get_or, none,
}
use ase_plus_plus.Words.{Bytes, IsWord}
use ase_plus_plus.System.{World, ok}
use ase_plus_plus.Mbr.{no_volume}
use ase_plus_plus.Mbr.Blocs.{bloc, loaded}
use ase_plus_plus.Mbr.Address.{nsectors}
use ase_plus_plus.Mbr.Frame.{IsMounted}
use ase_plus_plus.Superbloc.FreeList.{IsFree}
use ase_plus_plus.Superbloc.Kept.{loaded-IsFree}
use ase_plus_plus.Inode.Direct.{direct}
use ase_plus_plus.Inode.Create.{create_inode-cons}
use ase_plus_plus.Format.{create_ifile}
use ase_plus_plus.Commons.{slash}
use ase_plus_plus.Shell.{same_string}
use ase_plus_plus.Inode.{create_inode}
use ase_plus_plus.Directory.{inumber_of_basename, inumber_of_path}
use ase_plus_plus.Directory.Reading.{IsChar}
use ase_plus_plus.Directory.Finding.{first_named}
use ase_plus_plus.Directory.Lookup.{resolve, inumber_of_path-resolve}
use ase_plus_plus.Directory.Names.{
  IsDirectory, seen, loaded-IsDirectory, inumber_of, inumber_of_basename-first_named,
}
use ase_plus_plus.Directory.Adding.{IsName, IsNumber}
use ase_plus_plus.Directory.Added.{IsApart}
use ase_plus_plus.Directory.Closing.{listing}
use ase_plus_plus.Directory.Insert.{add_entry-first_named}
use ase_plus_plus.Files.{create_file}
use ase_plus_plus.Files.Root.{IsEntryName, dinumber_of_path-root, resolve_one, tokens_name}
use ase_plus_plus.Directory.Kept.{kept-IsDirectory, inumber_of_basename_absent}

module _ {w : World} (count : ℕ) (raw name : Bytes) (d : IsDirectory w w.super.root_inumber count)
    (a : IsApart w w.super.root_inumber) (room : 20 * count + 20 < 512)
    (root : 0 < w.super.root_inumber) (long : length raw ≡ 20) (plain : IsEntryName name)
    (chars : All IsChar name) {x : ℕ} {xs : List ℕ} (v : IsFree w (x ∷ xs)) (number : IsNumber x)
    (free_root : x ≢ w.super.root_inumber) (free_data : x ≢ direct w w.super.root_inumber 0) where
  -- The lookup of the path that `create_file` makes leaves the volume and its blocs as they are.
  looked :
      first_named (listing w w.super.root_inumber count) 0 name ≡ none
      → (w' : World) × (inumber_of_path raw
            (slash ∷ name)
            (loaded w.current_volume w.super.root_inumber w)
          ≡ ok 0 w')
        × IsFree w' (x ∷ xs)
        × (w'.current_volume ≡ w.current_volume)
        × (nsectors w' w.current_volume ≡ nsectors w w.current_volume)
        × ((k : ℕ) → bloc w' w.current_volume k ≡ bloc w w.current_volume k)
  unfolding bloc loaded
  looked absent =
      let n = w.super.root_inumber in
      let vol = w.current_volume in
      let one = loaded vol n w in
      let d1 = loaded-IsDirectory n count d in
      let d2 = loaded-IsDirectory n count d1 in
      let found = inumber_of_basename_absent n count raw name d1 long plain.no_end absent in
      let path =
        inumber_of_path-resolve raw slash name one
        ∙ ap (λ ts. resolve raw n ts one) (tokens_name name plain) in
      (
        seen n count d2,
        path ∙ resolve_one raw n name 0 one (seen n count d2) plain.short found,
        loaded-IsFree (loaded-IsFree (loaded-IsFree (loaded-IsFree (loaded-IsFree v n) n) n) n)
            (direct w n 0),
        refl,
        refl,
        λ k. refl,
      )

  -- The volume once the inode of the file is made: the root is as before.
  made :
      (type : ℕ)
      → IsWord type
      → first_named (listing w w.super.root_inumber count) 0 name ≡ none
      → (w1 w2 : World) × (inumber_of_path raw
            (slash ∷ name)
            (loaded w.current_volume w.super.root_inumber w)
          ≡ ok 0 w1)
        × (create_inode type w1 ≡ ok x w2)
        × IsDirectory w2 w.super.root_inumber count
        × IsApart w2 w.super.root_inumber
        × (listing w2 w.super.root_inumber count ≡ listing w w.super.root_inumber count)
  made type word absent =
      let n = w.super.root_inumber in
      let (w1, path, v1, volume1, sectors1, blocs1) = looked absent in
      let (w2, make, node, v2, blocs2, table2, volume2, _) = create_inode-cons v1 type word in
      let volume : w2.current_volume ≡ w.current_volume = volume2 ∙ volume1 in
      let same1 : nsectors w1 w1.current_volume ≡ nsectors w w.current_volume =
        ap (λ u. nsectors w1 u) volume1 ∙ sectors1 in
      let same2 : nsectors w2 w2.current_volume ≡ nsectors w w.current_volume =
        (λ i. (get_or (table2 i).mbr_vol (volume2 i) no_volume).vol_nsectors) ∙ same1 in
      let kept : (k : ℕ)
          → 0 < k
          → k < nsectors w w.current_volume
          → k ≢ x
          → bloc w2 w.current_volume k ≡ bloc w w.current_volume k =
        λ k pos inside ne.
          subst (λ u. bloc w2 u k ≡ bloc w1 u k) volume1
            (blocs2 k pos (subst (λ y. k < y) (sym same1) inside) ne)
          ∙ blocs1 k in
      let (d2, list, named) =
        kept-IsDirectory w2 n count d (subst (λ u. IsMounted w2 u) volume v2.mounted) volume
          (kept n root a.inode_inside (λ e. free_root (sym e)))
          (kept (direct w n 0) (let t = d.there in omega arith) a.bloc_inside
            (λ e. free_data (sym e))) in
      let a2 : IsApart w2 n = record {
        inode_inside = omega (arith, same2, a.inode_inside);
        bloc_inside = omega (arith, same2, named, a.bloc_inside);
        apart = λ e. a.apart (sym named ∙ e);
      } in
      (w1, w2, path, make, d2, a2, list)

  -- In the root, a directory of one bloc with room for one more entry, none of whose bytes is 254, a file is
  -- created under a name that is not there, of 1 to 15 characters, none of which is a slash, the NUL or 254,
  -- when the first bloc of the free list, which is not one of the root's two blocs, has a number without a byte
  -- 254: the creation succeeds, and the inode number is that bloc. Then the lookup of the name in the root gives
  -- it, and the lookup of any other name what it gave before.
  pub create_file-first_named :
      (type : ℕ)
      → IsWord type
      → first_named (listing w w.super.root_inumber count) 0 name ≡ none
      → (w' : World) × (create_file raw (slash ∷ name) type w ≡ ok x w')
        × ((u : World) × (inumber_of_basename raw w.super.root_inumber name w' ≡ ok x u))
        × ((other : Bytes)
            → All (λ c. c ≢ 0) other
            → same_string name other ≡ false
            → (u u' : World) × (i : ℕ) × (inumber_of_basename raw w.super.root_inumber other w
                ≡ ok i u)
              × (inumber_of_basename raw w.super.root_inumber other w' ≡ ok i u'))
  unfolding create_file create_ifile
  create_file-first_named type word absent =
      let n = w.super.root_inumber in
      let dir =
        dinumber_of_path-root count raw name d (λ e. absurd (omega (arith, root, e))) long plain in
      let (w1, w2, path, make, d2, a2, list) = made type word absent in
      let good : IsName name = record {
        short = plain.short;
        plain = plain.no_end;
        chars = chars;
      } in
      let (w3, add, look, others) =
        add_entry-first_named n count d2 a2 room raw long number good
          (ap (λ es. first_named es 0 name) list ∙ absent) in
      let used = number.used in
      (
        w3,
        ground (arith, dir, root, path, make, used, add),
        look,
        λ other ends ne.
            let (u, old) = inumber_of_basename-first_named n count raw other d long ends in
            let (u', found) = others other ends ne in
            (
              u,
              u',
              inumber_of (first_named (listing w n count) 0 other),
              old,
              found ∙ ap (λ es. ok (inumber_of (first_named es 0 other)) u') list,
            ),
      )
