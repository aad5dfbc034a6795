-- ===== src/Inode/Limits.antt =====
-- The blocs of a file behind the first 124 (src/inode.c): the single indirect table that is never
-- allocated, and the limit that the macros set.
use ase_plus_plus.Prelude.{ℕ, ◌+◌, ◌-◌, ◌≤◌, ◌<◌, ◌≡◌, ◌≢◌, arith, ap, ◌∙◌, Bool, some}
use ase_plus_plus.Words.{word_at}
use ase_plus_plus.System.{World, ok}
use ase_plus_plus.Mbr.Blocs.{bloc, loaded}
use ase_plus_plus.Mbr.Frame.{IsMounted, loaded-IsMounted, read_bloc_whole}
use ase_plus_plus.Inode.{
  nb_directs, nb_blocs_by_bloc, too_big, vbloc_of_fbloc, table_entry, indirect_bloc,
}
use ase_plus_plus.Inode.Codec.{inode_at, read_inode-ok}

-- An entry of a table that is not 0 is found, and the state is the one after reading the table.
table_entry_present :
    {w : World} (t i : ℕ) (do_allocate : Bool)
    → IsMounted w w.current_volume
    → word_at (bloc w w.current_volume t) i ≢ 0
    → table_entry t i do_allocate w
      ≡ ok (some (word_at (bloc w w.current_volume t) i)) (loaded w.current_volume t w)
unfolding table_entry
table_entry_present t i do_allocate m h = ground (arith, read_bloc_whole m t)

module _ {w : World} (m : IsMounted w w.current_volume) (n : ℕ) where
  -- A file holds 888 blocs at most: for any bloc behind them the result is -1, as an unsigned number,
  -- though two levels of tables of 128 entries would reach 16636. No bloc is allocated.
  pub vbloc_of_fbloc_limit :
      (fbloc : ℕ) (do_allocate : Bool)
      → 888 ≤ fbloc
      → vbloc_of_fbloc n fbloc do_allocate w ≡ ok too_big (loaded w.current_volume n w)
  unfolding vbloc_of_fbloc
  vbloc_of_fbloc_limit fbloc do_allocate h = ground (arith, read_inode-ok m n)

  abbrev table : ℕ
  table = (inode_at w n).blocs_indirect

  abbrev entry : ℕ → ℕ
  entry index = word_at (bloc w w.current_volume table) index

  indirect_found :
      (index : ℕ) (do_allocate : Bool)
      → entry index ≢ 0
      → table_entry table index do_allocate (loaded w.current_volume n w)
        ≡ ok (some (entry index)) (loaded w.current_volume table (loaded w.current_volume n w))
  unfolding loaded bloc
  indirect_found index do_allocate there =
      table_entry_present {w = loaded w.current_volume n w} table index do_allocate
        (loaded-IsMounted m n) there

  indirect_lookup :
      (index : ℕ) (do_allocate : Bool)
      → index < nb_blocs_by_bloc
      → entry index ≢ 0
      → vbloc_of_fbloc n (nb_directs + index) do_allocate w
        ≡ ok (entry index) (loaded w.current_volume table (loaded w.current_volume n w))
  unfolding vbloc_of_fbloc indirect_bloc
  indirect_lookup index do_allocate small there =
      let same : nb_directs + index - nb_directs ≡ index = omega arith in
      ground (arith, read_inode-ok m n, indirect_found index do_allocate there)

  -- A file without a single indirect table never gets one: its blocs from 124 to 251 are looked up in the
  -- first bloc of the volume, which holds the superbloc. Where the word found there is not 0, it is the
  -- result, whether or not blocs are to be allocated.
  pub vbloc_of_fbloc_superbloc :
      (index : ℕ) (do_allocate : Bool)
      → index < nb_blocs_by_bloc
      → (inode_at w n).blocs_indirect ≡ 0
      → word_at (bloc w w.current_volume 0) index ≢ 0
      → vbloc_of_fbloc n (nb_directs + index) do_allocate w
        ≡ ok
            (word_at (bloc w w.current_volume 0) index)
            (loaded w.current_volume 0 (loaded w.current_volume n w))
  vbloc_of_fbloc_superbloc index do_allocate small none_yet there =
      indirect_lookup index do_allocate small (rw none_yet there)
      ∙ ap
          (λ t.
            ok (word_at (bloc w w.current_volume t) index)
              (loaded w.current_volume t (loaded w.current_volume n w)))
          none_yet
