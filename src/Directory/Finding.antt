-- ===== src/Directory/Finding.antt =====
-- What `find_entry` finds in a directory of one bloc (src/dir.c).
use ase_plus_plus.Prelude.{
  ℕ, zero, suc, ◌+◌, ◌*◌, ◌≤◌, ◌<◌, ◌≡◌, ◌≢◌, sym, ap, ◌∙◌, arith, List, [], ◌∷◌, All, Bool, false,
  not, ◌&&◌, ◌==◌, if◌then◌else◌, Bool-cases, Option-cases, ◌⊎◌, inl, inr, length, length-take,
  length-drop, take, drop, Option, none, some,
}
use ase_plus_plus.Words.{Bytes}
use ase_plus_plus.System.{World, ok}
use ase_plus_plus.Ifile.{FileDesc, return_failure}
use ase_plus_plus.Files.{c_string}
use ase_plus_plus.Shell.{same_string}
use ase_plus_plus.Directory.{Entry, entry_of_bytes, same_name, is_entry, find_entry_from}
use ase_plus_plus.Directory.Reading.{IsChar, at_pos, read_ifile-within, read_ifile-end}

-- The `n` entries of a bloc from a byte on.
abbrev pub entries : (n pos : ℕ) → Bytes → List Entry
entries zero pos bs = []
entries (suc n) pos bs = entry_of_bytes (take 20 (drop pos bs)) ∷ entries n (pos + 20) bs

-- An entry in use with that name, where a name is the characters before its NUL.
abbrev pub is_named : Entry → (name : Bytes) → Bool
is_named e name =
    not (e.ent_inumber == 0)
    && elim (c_string e.ent_basename) [ some s ↦ same_string s name | none ↦ false ]

-- The first of the entries with a name, counted from `i`.
unfoldable pub first_named : List Entry → (i : ℕ) → (name : Bytes) → Option (ℕ × Entry)
first_named [] i name = none
first_named (e ∷ es) i name =
    let rest = first_named es (i + 1) name in if is_named e name then some (i, e) else rest

-- A name that ends inside its array.
abbrev pub HasEnd : Bytes → Type 0
HasEnd a = (s : Bytes) × (c_string a ≡ some s)

c_string-cases :
    (c : ℕ) (a s : Bytes)
    → c_string (c ∷ a) ≡ some s
    → ((c ≡ 0) × (s ≡ [])) ⊎ ((c ≢ 0) × (r : Bytes) × (c_string a ≡ some r) × (s ≡ c ∷ r))
c_string-cases c a s e = elim (Bool-cases (c == 0)) [
  | inl t ↦ inl (ground arith, ground (arith, t, e))
  | inr f ↦ elim (Option-cases (c_string a)) [
    | inl n ↦ absurd (ground (arith, f, n, e))
    | inr (r, m) ↦ inr (ground arith, r, m, ground (arith, f, m, e))
  ]
]

-- The comparison of `find_entry` is that of strings.
same_name-c_string :
    (a s name : Bytes)
    → c_string a ≡ some s
    → All (λ c. c ≢ 0) name
    → same_name a name ≡ some (same_string s name)
same_name-c_string [] s name e plain = absurd (ground arith)
same_name-c_string (c ∷ a) s [] e plain = elim (c_string-cases c a s e) [
  | inl (z, n) ↦ rw n (ground (arith, z))
  | inr (nz, r, m, n) ↦ rw n (ground (arith, nz))
]
same_name-c_string (c ∷ a) s (d ∷ name) e plain = elim (c_string-cases c a s e) [
  | inl (z, n) ↦ rw n (ground (arith, z, plain.0))
  | inr (nz, r, m, n) ↦
      let rest = same_name-c_string a r name m plain.1 in rw n (ground (arith, rest))
]

-- The test of `find_entry` on an entry whose name ends inside its array.
is_entry-is_named :
    (e : Entry) (name : Bytes) (w : World)
    → HasEnd e.ent_basename
    → All (λ c. c ≢ 0) name
    → is_entry e name w ≡ ok (is_named e name) w
unfolding is_entry
is_entry-is_named e name w (s, m) plain =
    let same = same_name-c_string e.ent_basename s name m plain in ground (arith, same, m)

abbrev pub status_of : Option (ℕ × Entry) → ℕ
status_of none = return_failure
status_of (some r) = r.0

-- Where the search leaves the cursor: behind the entry, or at the end.
module _ (fd : FileDesc) (w : World) (name : Bytes) (full : length fd.fds_buf ≡ 512)
    (chars : All IsChar fd.fds_buf) (plain : All (λ c. c ≢ 0) name) where
  -- The loop over the entries that are left, from a byte on.
  pub find_entry_from-first_named :
      (m i pos fuel : ℕ) (buf : Bytes)
      → pos + 20 * m < 512
      → fd.fds_size ≤ pos + 20 * m
      → pos + 20 * m ≤ fd.fds_size + 1
      → All (λ e. HasEnd e.ent_basename) (entries m pos fd.fds_buf)
      → length buf ≡ 20
      → m < fuel
      → (to : ℕ) × (to < 512)
        × (find_entry_from fuel (at_pos fd pos) buf i name w
            ≡ ok (status_of (first_named (entries m pos fd.fds_buf) i name), at_pos fd to) w)
  unfolding find_entry_from first_named
  find_entry_from-first_named m i pos zero buf small low high ends long big = absurd (omega arith)
  find_entry_from-first_named zero i pos (suc fuel) buf small low high ends long big =
      let read = read_ifile-end fd w full chars pos buf (omega arith) in
      (pos, omega arith, ground (arith, read))
  find_entry_from-first_named (suc m) i pos (suc fuel) buf small low high ends long big =
      let read = read_ifile-within fd w full chars pos buf (omega arith) (omega arith) long in
      let bytes = take 20 (drop pos fd.fds_buf) in
      let e = entry_of_bytes bytes in
      let test = is_entry-is_named e name w ends.0 plain in
      let size : length bytes ≡ 20 =
        length-take 20 (drop pos fd.fds_buf) ∙ omega (arith, length-drop pos fd.fds_buf) in
      elim (Bool-cases (is_named e name)) [
        | inl t ↦ (pos + 20, omega arith, ground (arith, read, test, t))
        | inr f ↦
            let (to, less, rest) =
              find_entry_from-first_named m (i + 1) (pos + 20) fuel bytes (omega arith)
                (omega arith) (omega arith) ends.1 size (omega arith) in
            (to, less, ground (arith, read, test, f, rest))
      ]

-- The entry found is one of those searched, at its place.
pub first_named-entry :
    (m pos i : ℕ) (bs name : Bytes) (r : ℕ × Entry)
    → first_named (entries m pos bs) i name ≡ some r
    → (j : ℕ) × (j < m) × (r.0 ≡ i + j) × (r.1 ≡ entry_of_bytes (take 20 (drop (pos + 20 * j) bs)))
unfolding first_named
first_named-entry zero pos i bs name r e = absurd (ground arith)
first_named-entry (suc m) pos i bs name r e =
    let first = entry_of_bytes (take 20 (drop pos bs)) in
    elim (Bool-cases (is_named first name)) [
      | inl t ↦
          let found : some (i, first) ≡ some r = ground (arith, t, e) in
          let same : (i, first) ≡ r = ground arith in
          let start : pos ≡ pos + 20 * 0 = omega arith in
          (
            0,
            omega arith,
            sym (ap (λ x. x.0) same) ∙ omega arith,
            sym (ap (λ x. x.1) same) ∙ ap (λ p. entry_of_bytes (take 20 (drop p bs))) start,
          )
      | inr f ↦
          let later : first_named (entries m (pos + 20) bs) (i + 1) name ≡ some r =
            ground (arith, f, e) in
          let (j, less, at, same) = first_named-entry m (pos + 20) (i + 1) bs name r later in
          let place : pos + 20 + 20 * j ≡ pos + 20 * suc j = omega arith in
          (
            suc j,
            omega arith,
            omega (arith, at),
            same ∙ ap (λ p. entry_of_bytes (take 20 (drop p bs))) place,
          )
    ]

-- An entry that is found is in use.
pub first_named_used :
    (es : List Entry) (i : ℕ) (name : Bytes) (r : ℕ × Entry)
    → first_named es i name ≡ some r
    → r.1.ent_inumber ≢ 0
unfolding first_named
first_named_used [] i name r e = absurd (ground arith)
first_named_used (f ∷ es) i name r e = elim (Bool-cases (is_named f name)) [
  | inl t ↦
      let found : some (i, f) ≡ some r = ground (arith, t, e) in
      let same : (i, f) ≡ r = ground arith in
      let used : f.ent_inumber ≢ 0 = ground arith in λ z. used (ap (λ x. x.1.ent_inumber) same ∙ z)
  | inr n ↦ first_named_used es (i + 1) name r (ground (arith, n, e))
]
