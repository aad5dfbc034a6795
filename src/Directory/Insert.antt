-- ===== src/Directory/Insert.antt =====
-- `add_entry` on a directory of one bloc as the insertion of a name (src/dir.c).
use ase_plus_plus.Prelude.{
  ℕ, ◌+◌, ◌*◌, ◌%◌, ◌<◌, ◌≡◌, ◌≢◌, ap, ◌∙◌, arith, ◌∷◌, All, false, length, drop, none,
}
use ase_plus_plus.Words.{Bytes, unwords}
use ase_plus_plus.System.{World, ok}
use ase_plus_plus.Mbr.Blocs.{bloc, loaded}
use ase_plus_plus.Inode.Codec.{inode_at, read_inode-ok}
use ase_plus_plus.Shell.{same_string}
use ase_plus_plus.Directory.{entry_bytes, entry_pos, add_entry, inumber_of_basename}
use ase_plus_plus.Directory.Reading.{seek2_ifile-within}
use ase_plus_plus.Directory.Finding.{first_named}
use ase_plus_plus.Directory.Names.{
  IsDirectory, buffer, opened, seen, full, open_ifile-opened, loaded-IsDirectory, inumber_of,
  inumber_of_basename-first_named,
}
use ase_plus_plus.Directory.Splicing.{first_free-entries, added, grown, entries-splice}
use ase_plus_plus.Directory.Adding.{
  entry_for, IsName, IsNumber, length-entry_bytes, entry_bytes-IsChar, entry_of_bytes-entry_bytes,
  entry_for-HasEnd, is_named-entry_for, same_string_self, All-added, first_named-added_other,
  first_named-added_self,
}
use ase_plus_plus.Directory.Added.{IsApart, place, new_entry-place, write_ifile-done}
use ase_plus_plus.Directory.Closing.{
  listing, sized-HasSize, close_ifile-IsDirectory, loaded-IsApart,
}

module _ {w : World} (n count : ℕ) (d : IsDirectory w n count) (a : IsApart w n)
    (room : 20 * count + 20 < 512) (raw : Bytes) (long : length raw ≡ 20) {inumber : ℕ}
    {name : Bytes} (number : IsNumber inumber) (good : IsName name) where
  pub add_entry-added :
      (w' : World) × (m : ℕ) × (add_entry raw n inumber name w ≡ ok 0 w')
      × IsDirectory w' n m
      × IsApart w' n
      × (listing w' n m ≡ added (listing w n count) (entry_for inumber name))
  unfolding add_entry entry_bytes unwords bloc loaded
  add_entry-added =
      let d1 = loaded-IsDirectory n count d in
      let a1 = loaded-IsApart n a in
      let c = inumber % 256 in
      let cs = drop 1 (entry_bytes (entry_for inumber name)) in
      let all : length (c ∷ cs) ≡ 20 = length-entry_bytes number good in
      let rest : length cs ≡ 19 = omega (arith, all) in
      let same = entry_of_bytes-entry_bytes number good in
      let k = place n count d1 in
      let p = first_free-entries count 0 (buffer n count d1) in
      let inode = read_inode-ok d.mounted n in
      let type = d.type in
      let open_run = open_ifile-opened n count d1 in
      let (to, less, find) = new_entry-place n count d1 raw long in
      let offset : entry_pos k ≡ 20 * k = omega (arith, p, room) in
      let seek =
        seek2_ifile-within (opened n count d1) (seen n count d1) (full n count d1) d1.chars to
          (20 * k) less (omega (arith, p, room)) in
      let small : 20 * k + 20 < 512 = omega (arith, p, room) in
      let write = write_ifile-done n count d1 k small c cs rest in
      let list =
        entries-splice count 0 (buffer n count d1) (c ∷ cs) (20 * k) all (omega arith)
          (omega (arith, room, full n count d1))
        ∙ ap (λ e. added (listing w n count) e) same in
      let (fd', w', close, d', a', list') =
        close_ifile-IsDirectory n count d1 a1 k small c cs rest (entry_bytes-IsChar number good)
          (grown count k) (added (listing w n count) (entry_for inumber name))
          (sized-HasSize (inode_at w n).size count k (d.low, d.high, d.small) p room) list
          (All-added (listing w n count) (entry_for inumber name) d.ends
            (entry_for-HasEnd number good)) in
      (
        w',
        grown count k,
        ground (arith, inode, type, open_run, find, offset, seek, write, close),
        d',
        a',
        list',
      )

  -- The names in the directory once the name is added.
  pub add_entry-first_named :
      first_named (listing w n count) 0 name ≡ none
      → (w' : World) × (add_entry raw n inumber name w ≡ ok 0 w')
        × ((w'' : World) × (inumber_of_basename raw n name w' ≡ ok inumber w''))
        × ((other : Bytes)
            → All (λ c. c ≢ 0) other
            → same_string name other ≡ false
            → (u : World) × (inumber_of_basename raw n other w'
                ≡ ok (inumber_of (first_named (listing w n count) 0 other)) u))
  add_entry-first_named absent =
      let (w', m, add, d', _, list) = add_entry-added in
      let e = entry_for inumber name in
      let named = is_named-entry_for number good in
      let (k, found) =
        first_named-added_self (listing w n count) e 0 name (named name ∙ same_string_self name)
          absent in
      let (w'', look) = inumber_of_basename-first_named n m raw name d' long good.plain in
      (
        w',
        add,
        (
          w'',
          look
              ∙ ap (λ es. ok (inumber_of (first_named es 0 name)) w'') list
              ∙ ap (λ r. ok (inumber_of r) w'') found,
        ),
        λ other plain ne.
            let (u, look_other) = inumber_of_basename-first_named n m raw other d' long plain in
            (
              u,
              look_other
                  ∙ ap (λ es. ok (inumber_of (first_named es 0 other)) u) list
                  ∙ ap (λ r. ok (inumber_of r) u)
                      (first_named-added_other (listing w n count) e 0 other (named other ∙ ne)),
            ),
      )

  -- In a directory of one bloc with room for one more entry, none of whose bytes is 254, a name of fewer than
  -- 16 characters, none of which is the NUL or 254, that is not there is added, with a number that is not 0 and
  -- has no byte 254: `add_entry` succeeds. Then the lookup of the name gives its number, and the lookup of any
  -- other name what it gave before.
  pub inumber_of_basename-add_entry :
      first_named (listing w n count) 0 name ≡ none
      → (w' : World) × (add_entry raw n inumber name w ≡ ok 0 w')
        × ((w'' : World) × (inumber_of_basename raw n name w' ≡ ok inumber w''))
        × ((other : Bytes)
            → All (λ c. c ≢ 0) other
            → same_string name other ≡ false
            → (u u' : World) × (i : ℕ) × (inumber_of_basename raw n other w ≡ ok i u)
              × (inumber_of_basename raw n other w' ≡ ok i u'))
  inumber_of_basename-add_entry absent =
      let (w', add, look, others) = add_entry-first_named absent in
      (
        w',
        add,
        look,
        λ other plain ne.
            let (u, old) = inumber_of_basename-first_named n count raw other d long plain in
            let (u', found) = others other plain ne in
            (u, u', inumber_of (first_named (listing w n count) 0 other), old, found),
      )
