-- ===== src/Files/Root.antt =====
-- Files of the root directory by their paths (src/file.c, src/dir.c).
use ase_plus_plus.Prelude.{
  ℕ, ◌<◌, ◌≡◌, ◌≢◌, refl, ap, ◌∙◌, arith, List, [], ◌∷◌, All, length, none, some,
}
use ase_plus_plus.Words.{Bytes}
use ase_plus_plus.System.{World, ok}
use ase_plus_plus.Mbr.Blocs.{bloc, loaded}
use ase_plus_plus.Inode.Direct.{direct}
use ase_plus_plus.Inode.Codec.{read_inode-ok}
use ase_plus_plus.Ifile.{return_failure}
use ase_plus_plus.Commons.{slash, tokens, first_run, add_token}
use ase_plus_plus.Commons.Canonical.{before_last-none}
use ase_plus_plus.Directory.{
  Entry, dinumber_of_path, inumber_of_path, inumber_of_basename, enter, del_entry,
}
use ase_plus_plus.Directory.Lookup.{resolve, inumber_of_path-resolve}
use ase_plus_plus.Directory.Finding.{entries, first_named, first_named_used}
use ase_plus_plus.Directory.Names.{
  IsDirectory, loaded-IsDirectory, inumber_of, inumber_of_basename-first_named, open_ifile-opened,
  close_ifile-opened, find_entry-first_named,
}
use ase_plus_plus.Files.{create_file, delete_file}

-- A name of a directory: neither empty nor too long for an entry, without a slash or a NUL.
pub record IsEntryName (name : Bytes) : Type 0 where
  pub long : 0 < length name
  pub short : length name < 16
  pub no_slash : All (λ c. c ≢ slash) name
  pub no_end : All (λ c. c ≢ 0) name

first_run_plain : (s : Bytes) → All (λ c. c ≢ slash) s → first_run s ≡ (s, [])
first_run_plain [] h = refl
first_run_plain (c ∷ s) h = let rest = first_run_plain s h.1 in ground (arith, rest, h.0)

add_token_long : (s : Bytes) → 0 < length s → add_token s [] ≡ s ∷ []
add_token_long [] h = absurd (omega arith)
add_token_long (c ∷ s) h = refl

pub tokens_name : (s : Bytes) → IsEntryName s → tokens s ≡ s ∷ []
tokens_name s h =
    ap (λ (r : Bytes × List Bytes). add_token r.0 r.1) (first_run_plain s h.no_slash)
    ∙ add_token_long s h.long

-- The lookup of one name.
pub resolve_one :
    (raw : Bytes) (r : ℕ) (name : Bytes) (i : ℕ) (u w : World)
    → length name < 16
    → inumber_of_basename raw r name u ≡ ok i w
    → resolve raw r (name ∷ []) u ≡ ok i w
unfolding resolve enter
resolve_one raw r name i u w short found = ground (arith, short, found)

-- The entries of the root, a directory of one bloc.
abbrev pub root_entries : World → (count : ℕ) → List Entry
root_entries w count = entries count 0 (bloc w w.current_volume (direct w w.super.root_inumber 0))

module _ {w : World} (count : ℕ) (raw name : Bytes) (d : IsDirectory w w.super.root_inumber count)
    (root : w.super.root_inumber ≢ 0) (long : length raw ≡ 20) (plain : IsEntryName name) where
  abbrev one : World
  one = loaded w.current_volume w.super.root_inumber w

  pub dinumber_of_path-root :
      dinumber_of_path raw (slash ∷ name) w ≡ ok (w.super.root_inumber, name) one
  unfolding dinumber_of_path resolve
  dinumber_of_path-root =
      let last = before_last-none name plain.no_slash in
      let dir = inumber_of_path-resolve raw slash [] w in
      let inode = read_inode-ok d.mounted w.super.root_inumber in
      let type = d.type in ground (arith, last, dir, inode, type, root)

  -- The lookup of the name in the root, after that of its directory.
  inumber_of_path-root :
      (w' : World) × (inumber_of_path raw (slash ∷ name) one
        ≡ ok (inumber_of (first_named (root_entries w count) 0 name)) w')
  unfolding bloc loaded
  inumber_of_path-root =
      let d1 = loaded-IsDirectory w.super.root_inumber count d in
      let (w', found) =
        inumber_of_basename-first_named w.super.root_inumber count raw name d1 long plain.no_end in
      let path =
        inumber_of_path-resolve raw slash name one
        ∙ ap (λ ts. resolve raw w.super.root_inumber ts one) (tokens_name name plain) in
      (w', path ∙ resolve_one raw w.super.root_inumber name _ one w' plain.short found)

  -- Creating a file whose name is in the root fails. (The root is a directory of one bloc.)
  pub create_file_refused :
      (type : ℕ) (r : ℕ × Entry)
      → first_named (root_entries w count) 0 name ≡ some r
      → (w' : World) × (create_file raw (slash ∷ name) type w ≡ ok return_failure w')
  unfolding create_file
  create_file_refused type r e =
      let dir = dinumber_of_path-root in
      let (w', path) = inumber_of_path-root in
      let used = first_named_used (root_entries w count) 0 name r e in
      (w', ground (arith, dir, path, e, used, root))

  -- Deleting a file whose name is not in the root fails.
  delete_file_refused :
      first_named (root_entries w count) 0 name ≡ none
      → (w' : World) × (delete_file raw (slash ∷ name) w ≡ ok return_failure w')
  unfolding delete_file del_entry bloc loaded
  delete_file_refused e =
      let n = w.super.root_inumber in
      let d1 = loaded-IsDirectory n count d in
      let d2 = loaded-IsDirectory n count d1 in
      let dir = dinumber_of_path-root in
      let inode = read_inode-ok d1.mounted n in
      let type = d1.type in
      let open_run = open_ifile-opened n count d2 in
      let (to, less, find) = find_entry-first_named n count d2 raw name long plain.no_end in
      let (w', close) = close_ifile-opened n count d2 to in
      (w', ground (arith, dir, root, inode, type, open_run, find, e, close))
