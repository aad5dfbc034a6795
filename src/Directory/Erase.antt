-- ===== src/Directory/Erase.antt =====
-- `del_entry` on a directory of one bloc as the removal of a name (src/dir.c).
use ase_plus_plus.Prelude.{
  ℕ, zero, suc, ◌+◌, ◌*◌, ◌≤◌, ◌<◌, ◌≡◌, ◌≢◌, refl, sym, ap, ap₂, ◌∙◌, arith, List, [], ◌∷◌, All,
  true, ◌==◌, Bool-cases, inl, inr, length, set, take, drop, replicate, none, some,
}
use ase_plus_plus.Words.{Bytes, words}
use ase_plus_plus.System.{World, ok}
use ase_plus_plus.Mbr.Blocs.{bloc, loaded}
use ase_plus_plus.Inode.Codec.{inode_at, read_inode-ok}
use ase_plus_plus.Directory.{
  Entry, entry_of_bytes, find_entry, add_entry, del_entry, inumber_of_basename,
}
use ase_plus_plus.Directory.Reading.{at_pos}
use ase_plus_plus.Directory.Finding.{
  entries, is_named, first_named, first_named-entry, status_of, HasEnd,
}
use ase_plus_plus.Directory.Names.{
  IsDirectory, buffer, opened, seen, full, open_ifile-opened, loaded-IsDirectory, inumber_of,
  find_entry-first_named, read_entry, inumber_of_basename-first_named,
}
use ase_plus_plus.Directory.Splicing.{
  splice, added, entries-splice_behind, drop-splice_self, drop-splice_before,
}
use ase_plus_plus.Directory.Adding.{
  entry_for, IsName, IsNumber, is_named-entry_for, same_string_self, zeros-IsChar,
}
use ase_plus_plus.Directory.Added.{IsApart, write_ifile-done}
use ase_plus_plus.Directory.Insert.{add_entry-added}
use ase_plus_plus.Directory.Closing.{
  listing, sized-HasSize_inside, close_ifile-IsDirectory, loaded-IsApart,
}

-- The entry of zeros.
abbrev pub free_entry : Entry
free_entry = record { ent_inumber = 0; ent_basename = replicate 16 0 }

zeros-free_entry : entry_of_bytes (replicate 20 0) ≡ free_entry
unfolding entry_of_bytes words
zeros-free_entry = refl

entries-splice_at :
    (m pos k : ℕ) (bs cs : Bytes) (at : ℕ)
    → length cs ≡ 20
    → k < m
    → at ≡ pos + 20 * k
    → pos + 20 * m ≤ length bs
    → entries m pos (splice bs at cs) ≡ set (entries m pos bs) k (entry_of_bytes cs)
entries-splice_at zero pos k bs cs at long less same room = absurd (omega arith)
entries-splice_at (suc m) pos zero bs cs at long less same room =
    let here : at ≡ pos = omega arith in
    let mine : take 20 (drop pos (splice bs at cs)) ≡ cs =
      ap₂ (λ n p. take n (drop pos (splice bs p cs))) (sym long) here
      ∙ drop-splice_self bs pos cs (omega arith) in
    ap₂ (λ r es. entry_of_bytes r ∷ es) mine
      (entries-splice_behind m (pos + 20) bs at cs (omega arith))
entries-splice_at (suc m) pos (suc k) bs cs at long less same room =
    ap₂ (λ r es. entry_of_bytes r ∷ es) (drop-splice_before 20 pos bs at cs (omega arith))
      (entries-splice_at m (pos + 20) k bs cs at long (omega arith) (omega arith) (omega arith))

All-erased :
    (es : List Entry) (k : ℕ)
    → All (λ f. HasEnd f.ent_basename) es
    → All (λ f. HasEnd f.ent_basename) (set es k free_entry)
All-erased [] k h = tt
All-erased (f ∷ es) zero h = (([], refl), h.1)
All-erased (f ∷ es) (suc k) h = (h.0, All-erased es k h.1)

-- Where a name is found after it was added, and the names that are found once it is removed from there.
erased-added :
    (es : List Entry) (e : Entry) (i : ℕ) (name : Bytes)
    → is_named e name ≡ true
    → first_named es i name ≡ none
    → (j k : ℕ) × (k ≡ i + j)
      × (first_named (added es e) i name ≡ some (k, e))
      × ((other : Bytes)
          → first_named (set (added es e) j free_entry) i other ≡ first_named es i other)
unfolding first_named
erased-added [] e i name hit miss = (0, i, omega arith, rw hit refl, λ other. refl)
erased-added (f ∷ es) e i name hit miss = elim (Bool-cases (f.ent_inumber == 0)) [
  | inl t ↦ (0, i, omega arith, ground (arith, t, hit), λ other. ground (arith, t))
  | inr n ↦ elim (Bool-cases (is_named f name)) [
    | inl m ↦ absurd (ground (arith, m, miss))
    | inr m ↦
        let later : first_named es (i + 1) name ≡ none = ground (arith, m, miss) in
        let (j, k, at, found, others) = erased-added es e (i + 1) name hit later in
        (
          suc j,
          k,
          omega arith,
          ground (arith, n, m, found),
          λ other. let rest = others other in rw n (ground (arith, rest)),
        )
  ]
]

module _ {w : World} (n count : ℕ) (d : IsDirectory w n count) (a : IsApart w n) (raw : Bytes)
    (long : length raw ≡ 20) (name : Bytes) (plain : All (λ c. c ≢ 0) name) where
  -- The name of an entry is removed: its entry is made one of zeros. The result is the number of bytes of an
  -- entry.
  pub del_entry-erased :
      (r : ℕ × Entry)
      → first_named (listing w n count) 0 name ≡ some r
      → (w' : World) × (del_entry raw n name w ≡ ok 20 w')
        × IsDirectory w' n count
        × (listing w' n count ≡ set (listing w n count) r.0 free_entry)
  unfolding del_entry bloc loaded
  del_entry-erased r found =
      let d1 = loaded-IsDirectory n count d in
      let a1 = loaded-IsApart n a in
      let k = r.0 in
      let (j, inside, at, _) = first_named-entry count 0 0 (buffer n count d1) name r found in
      let less : k < count = omega (arith, inside, at) in
      let inode = read_inode-ok d.mounted n in
      let type = d.type in
      let open_run = open_ifile-opened n count d1 in
      let (to, near, find) = find_entry-first_named n count d1 raw name long plain in
      let found_run : find_entry raw (opened n count d1) name (seen n count d1)
          ≡ ok (k, at_pos (opened n count d1) to) (seen n count d1) =
        find ∙ ap (λ o. ok (status_of o, at_pos (opened n count d1) to) (seen n count d1)) found in
      let (low, seek, _, _) = read_entry n count d1 raw to r long near name found in
      let small : 20 * k + 20 < 512 = omega (arith, less, d.small) in
      let write = write_ifile-done n count d1 k small 0 (replicate 19 0) refl in
      let list =
        entries-splice_at count 0 k (buffer n count d1) (replicate 20 0) (20 * k) refl less
          (omega arith) (omega (arith, d.small, full n count d1))
        ∙ ap (λ e. set (listing w n count) k e) zeros-free_entry in
      let (fd', w', close, d', _, list') =
        close_ifile-IsDirectory n count d1 a1 k small 0 (replicate 19 0) refl (zeros-IsChar 20)
          count (set (listing w n count) k free_entry)
          (sized-HasSize_inside (inode_at w n).size count k (d.low, d.high, d.small) less) list
          (All-erased (listing w n count) k d.ends) in
      (w', ground (arith, inode, type, open_run, found_run, low, seek, write, close), d', list')

module _ {w : World} (n count : ℕ) (d : IsDirectory w n count) (a : IsApart w n)
    (room : 20 * count + 20 < 512) (raw : Bytes) (long : length raw ≡ 20) {inumber : ℕ}
    {name : Bytes} (number : IsNumber inumber) (good : IsName name) where
  -- In a directory of one bloc with room for one more entry, none of whose bytes is 254, a name of fewer than
  -- 16 characters, none of which is the NUL or 254, that is not there is added, with a number that is not 0 and
  -- has no byte 254, and then removed: both succeed, `del_entry` with the number of bytes of an entry as its
  -- result, and the lookup of any name gives what it gave before.
  pub del_entry-add_entry :
      first_named (listing w n count) 0 name ≡ none
      → (w1 w2 : World) × (add_entry raw n inumber name w ≡ ok 0 w1)
        × (del_entry raw n name w1 ≡ ok 20 w2)
        × ((other : Bytes)
            → All (λ c. c ≢ 0) other
            → (u u' : World) × (i : ℕ) × (inumber_of_basename raw n other w ≡ ok i u)
              × (inumber_of_basename raw n other w2 ≡ ok i u'))
  del_entry-add_entry absent =
      let e = entry_for inumber name in
      let es = listing w n count in
      let (w1, m, add, d1, a1, list) = add_entry-added n count d a room raw long number good in
      let hit = is_named-entry_for number good name ∙ same_string_self name in
      let (j, k, at, found, kept) = erased-added es e 0 name hit absent in
      let place : k ≡ j = omega (arith, at) in
      let (w2, del, d2, list2) =
        del_entry-erased n m d1 a1 raw long name good.plain (k, e)
          (ap (λ l. first_named l 0 name) list ∙ found) in
      let all : listing w2 n m ≡ set (added es e) j free_entry =
        list2 ∙ ap₂ (λ l i. set l i free_entry) list place in
      (
        w1,
        w2,
        add,
        del,
        λ other plain.
            let (u, old) = inumber_of_basename-first_named n count raw other d long plain in
            let (u', new) = inumber_of_basename-first_named n m raw other d2 long plain in
            (
              u,
              u',
              inumber_of (first_named es 0 other),
              old,
              new
                  ∙ ap (λ l. ok (inumber_of (first_named l 0 other)) u') all
                  ∙ ap (λ r. ok (inumber_of r) u') (kept other),
            ),
      )
