-- ===== src/Directory/Adding.antt =====
-- The entry that `add_entry` makes (src/dir.c), and how a name is found once it is there.
use ase_plus_plus.Prelude.{
  ℕ, zero, suc, ◌+◌, ◌*◌, ◌/◌, ◌%◌, ◌≤◌, ◌<◌, ◌≡◌, ◌≢◌, refl, ◌∙◌, arith, List, [], ◌∷◌, ◌++◌, All,
  All-append, true, false, ◌==◌, Bool-cases, inl, inr, length, take, take_all, replicate,
  length-take, length-append, length-replicate, none, some,
}
use ase_plus_plus.Words.{Bytes, IsWord, words, unwords}
use ase_plus_plus.Files.{c_string}
use ase_plus_plus.Shell.{same_string}
use ase_plus_plus.Directory.{Entry, entry_bytes, entry_of_bytes, entry_name}
use ase_plus_plus.Directory.Reading.{IsChar}
use ase_plus_plus.Directory.Finding.{is_named, first_named, HasEnd}
use ase_plus_plus.Directory.Splicing.{added}

-- The entry of a file with that inode number and name.
abbrev pub entry_for : (inumber : ℕ) → (basename : Bytes) → Entry
entry_for inumber basename = record { ent_inumber = inumber; ent_basename = entry_name basename }

-- A name that fits in an entry, none of whose bytes is 254 or the NUL.
pub record IsName (name : Bytes) : Type 0 where
  pub short : length name < 16
  pub plain : All (λ c. c ≢ 0) name
  pub chars : All IsChar name

-- An inode number none of whose bytes is 254.
pub record IsNumber (inumber : ℕ) : Type 0 where
  pub word : IsWord inumber
  pub used : inumber ≢ 0
  pub chars : All IsChar (unwords (inumber ∷ []))

padded-c_string :
    (m k : ℕ) (name : Bytes)
    → length name ≤ m
    → All (λ c. c ≢ 0) name
    → c_string (take m (name ++ replicate k 0) ++ (0 ∷ [])) ≡ some name
padded-c_string zero k [] h plain = refl
padded-c_string (suc m) zero [] h plain = refl
padded-c_string (suc m) (suc k) [] h plain = refl
padded-c_string zero k (c ∷ name) h plain = absurd (omega arith)
padded-c_string (suc m) k (c ∷ name) h plain =
    let rest = padded-c_string m k name (omega arith) plain.1 in ground (arith, rest, plain.0)

pub zeros-IsChar : (k : ℕ) → All IsChar (replicate k 0)
zeros-IsChar zero = tt
zeros-IsChar (suc k) = ((omega arith, omega arith), zeros-IsChar k)

take-IsChar : (m : ℕ) (bs : Bytes) → All IsChar bs → All IsChar (take m bs)
take-IsChar zero bs h = tt
take-IsChar (suc m) [] h = tt
take-IsChar (suc m) (b ∷ bs) h = (h.0, take-IsChar m bs h.1)

module _ {inumber : ℕ} {name : Bytes} (number : IsNumber inumber) (good : IsName name) where
  ends : c_string (entry_name name) ≡ some name
  ends = padded-c_string 15 15 name (let s = good.short in omega arith) good.plain

  length-entry_name : length (entry_name name) ≡ 16
  length-entry_name =
      let a = length-append name (replicate 15 0) in
      let b = length-replicate {A = ℕ} 15 0 in
      let c = length-take 15 (name ++ replicate 15 0) in
      length-append (take 15 (name ++ replicate 15 0)) (0 ∷ []) ∙ omega (arith, a, b, c)

  pub length-entry_bytes : length (entry_bytes (entry_for inumber name)) ≡ 20
  unfolding entry_bytes unwords
  length-entry_bytes = let l = length-entry_name in omega (arith, l)

  pub entry_bytes-IsChar : All IsChar (entry_bytes (entry_for inumber name))
  unfolding entry_bytes
  entry_bytes-IsChar = All-append IsChar (unwords (inumber ∷ [])) (entry_name name) number.chars (
      All-append IsChar (take 15 (name ++ replicate 15 0)) (0 ∷ [])
        (take-IsChar 15 (name ++ replicate 15 0)
          (All-append IsChar name (replicate 15 0) good.chars (zeros-IsChar 15)))
        ((omega arith, omega arith), tt))

  pub entry_of_bytes-entry_bytes :
      entry_of_bytes (entry_bytes (entry_for inumber name)) ≡ entry_for inumber name
  unfolding entry_of_bytes entry_bytes unwords words
  entry_of_bytes-entry_bytes =
      let word = number.word in
      let same : inumber % 256
            + 256 * (inumber / 256 % 256)
            + 65536 * (inumber / 65536 % 256)
            + 16777216 * (inumber / 16777216 % 256)
          ≡ inumber =
        omega arith in
      let all = take_all 16 (entry_name name) (let l = length-entry_name in omega arith) in
      λ t. record { ent_inumber = same t; ent_basename = all t }

  pub entry_for-HasEnd : HasEnd (entry_for inumber name).ent_basename
  entry_for-HasEnd = (name, ends)

  -- The names by which the entry is found.
  pub is_named-entry_for :
      (other : Bytes) → is_named (entry_for inumber name) other ≡ same_string name other
  is_named-entry_for other = let u = number.used in let e = ends in ground (arith, u, e)

pub same_string_self : (a : Bytes) → same_string a a ≡ true
same_string_self [] = refl
same_string_self (c ∷ a) = let rest = same_string_self a in ground (arith, rest)

pub All-added :
    (es : List Entry) (e : Entry)
    → All (λ f. HasEnd f.ent_basename) es
    → HasEnd e.ent_basename
    → All (λ f. HasEnd f.ent_basename) (added es e)
All-added [] e h p = (p, tt)
All-added (f ∷ es) e h p = elim (Bool-cases (f.ent_inumber == 0)) [
  | inl t ↦ rw t (p, h.1)
  | inr n ↦ rw n (h.0, All-added es e h.1 p)
]

free-is_named : (f : Entry) (name : Bytes) → f.ent_inumber == 0 ≡ true → is_named f name ≡ false
free-is_named f name t = rw t refl

-- A name that is not that of the new entry is found where it was.
pub first_named-added_other :
    (es : List Entry) (e : Entry) (i : ℕ) (name : Bytes)
    → is_named e name ≡ false
    → first_named (added es e) i name ≡ first_named es i name
unfolding first_named
first_named-added_other [] e i name miss = rw miss refl
first_named-added_other (f ∷ es) e i name miss =
    let rest = first_named-added_other es e (i + 1) name miss in
    elim (Bool-cases (f.ent_inumber == 0)) [
      | inl t ↦ let free = free-is_named f name t in ground (arith, t, free, miss)
      | inr n ↦ ground (arith, n, rest)
    ]

-- The name of the new entry, which miss other entry has, is found there.
pub first_named-added_self :
    (es : List Entry) (e : Entry) (i : ℕ) (name : Bytes)
    → is_named e name ≡ true
    → first_named es i name ≡ none
    → (k : ℕ) × (first_named (added es e) i name ≡ some (k, e))
unfolding first_named
first_named-added_self [] e i name hit miss = (i, rw hit refl)
first_named-added_self (f ∷ es) e i name hit miss = elim (Bool-cases (f.ent_inumber == 0)) [
  | inl t ↦ (i, ground (arith, t, hit))
  | inr n ↦ elim (Bool-cases (is_named f name)) [
    | inl m ↦ absurd (ground (arith, m, miss))
    | inr m ↦
        let later : first_named es (i + 1) name ≡ none = ground (arith, m, miss) in
        let (k, found) = first_named-added_self es e (i + 1) name hit later in
        (k, ground (arith, n, m, found))
  ]
]
