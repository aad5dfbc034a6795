-- ===== src/Directory/Splicing.antt =====
-- Bytes written over those of a buffer, and the entries that a directory of one bloc then has (src/dir.c).
use ase_plus_plus.Prelude.{
  ℕ, zero, suc, ◌+◌, ◌*◌, ◌≤◌, ◌<◌, ◌≡◌, refl, sym, ap, ap₂, ◌∙◌, arith, List, [], ◌∷◌, All, ◌==◌,
  if◌then◌else◌, Bool-cases, ◌⊎◌, inl, inr, length, set, take, drop,
}
use ase_plus_plus.Words.{Bytes}
use ase_plus_plus.Directory.{Entry, entry_of_bytes}
use ase_plus_plus.Directory.Finding.{entries}

-- The bytes `cs` written over those of `bs` from `i` on.
abbrev pub splice : Bytes → ℕ → Bytes → Bytes
splice bs i [] = bs
splice [] i (c ∷ cs) = []
splice (x ∷ bs) zero (c ∷ cs) = c ∷ splice bs zero cs
splice (x ∷ bs) (suc i) (c ∷ cs) = x ∷ splice bs i (c ∷ cs)

splice-nil : (i : ℕ) (cs : Bytes) → splice [] i cs ≡ []
splice-nil i [] = refl
splice-nil i (c ∷ cs) = refl

splice-suc :
    (x : ℕ) (bs : Bytes) (i : ℕ) (cs : Bytes) → splice (x ∷ bs) (suc i) cs ≡ x ∷ splice bs i cs
splice-suc x bs i [] = refl
splice-suc x bs i (c ∷ cs) = refl

-- Byte by byte.
pub splice-set :
    (bs : Bytes) (i c : ℕ) (cs : Bytes) → splice (set bs i c) (suc i) cs ≡ splice bs i (c ∷ cs)
splice-set [] i c cs = splice-nil (suc i) cs
splice-set (x ∷ bs) zero c cs = splice-suc c bs zero cs
splice-set (x ∷ bs) (suc i) c cs =
    splice-suc x (set bs i c) (suc i) cs ∙ ap (λ r. x ∷ r) (splice-set bs i c cs)

pub length-splice : (bs : Bytes) (i : ℕ) (cs : Bytes) → length (splice bs i cs) ≡ length bs
length-splice bs i [] = refl
length-splice [] i (c ∷ cs) = refl
length-splice (x ∷ bs) zero (c ∷ cs) = ap suc (length-splice bs zero cs)
length-splice (x ∷ bs) (suc i) (c ∷ cs) = ap suc (length-splice bs i (c ∷ cs))

pub All-splice :
    (P : ℕ → Type 0) (bs : Bytes) (i : ℕ) (cs : Bytes)
    → All P bs
    → All P cs
    → All P (splice bs i cs)
All-splice P bs i [] h g = h
All-splice P [] i (c ∷ cs) h g = tt
All-splice P (x ∷ bs) zero (c ∷ cs) h g = (g.0, All-splice P bs zero cs h.1 g.1)
All-splice P (x ∷ bs) (suc i) (c ∷ cs) h g = (h.0, All-splice P bs i (c ∷ cs) h.1 g)

-- What was written, what is before it and what is behind it.
take-splice : (bs cs : Bytes) → length cs ≤ length bs → take (length cs) (splice bs 0 cs) ≡ cs
take-splice bs [] h = refl
take-splice [] (c ∷ cs) h = absurd (omega arith)
take-splice (x ∷ bs) (c ∷ cs) h = ap (λ r. c ∷ r) (take-splice bs cs (omega arith))

pub drop-splice_self :
    (bs : Bytes) (i : ℕ) (cs : Bytes)
    → i + length cs ≤ length bs
    → take (length cs) (drop i (splice bs i cs)) ≡ cs
drop-splice_self bs zero cs h = take-splice bs cs (omega arith)
drop-splice_self bs (suc i) [] h = refl
drop-splice_self [] (suc i) (c ∷ cs) h = absurd (omega arith)
drop-splice_self (x ∷ bs) (suc i) (c ∷ cs) h = drop-splice_self bs i (c ∷ cs) (omega arith)

take-splice_before :
    (m : ℕ) (bs : Bytes) (i : ℕ) (cs : Bytes) → m ≤ i → take m (splice bs i cs) ≡ take m bs
take-splice_before m bs i [] h = refl
take-splice_before m [] i (c ∷ cs) h = refl
take-splice_before zero (x ∷ bs) i (c ∷ cs) h = refl
take-splice_before (suc m) (x ∷ bs) zero (c ∷ cs) h = absurd (omega arith)
take-splice_before (suc m) (x ∷ bs) (suc i) (c ∷ cs) h =
    ap (λ r. x ∷ r) (take-splice_before m bs i (c ∷ cs) (omega arith))

pub drop-splice_before :
    (m j : ℕ) (bs : Bytes) (i : ℕ) (cs : Bytes)
    → j + m ≤ i
    → take m (drop j (splice bs i cs)) ≡ take m (drop j bs)
drop-splice_before m zero bs i cs h = take-splice_before m bs i cs (omega arith)
drop-splice_before m (suc j) bs zero cs h = absurd (omega arith)
drop-splice_before m (suc j) bs (suc i) [] h = refl
drop-splice_before m (suc j) [] (suc i) (c ∷ cs) h = refl
drop-splice_before m (suc j) (x ∷ bs) (suc i) (c ∷ cs) h =
    drop-splice_before m j bs i (c ∷ cs) (omega arith)

drop-splice_behind :
    (j : ℕ) (bs : Bytes) (i : ℕ) (cs : Bytes)
    → i + length cs ≤ j
    → drop j (splice bs i cs) ≡ drop j bs
drop-splice_behind j bs i [] h = refl
drop-splice_behind j [] i (c ∷ cs) h = refl
drop-splice_behind zero (x ∷ bs) i (c ∷ cs) h = absurd (omega arith)
drop-splice_behind (suc j) (x ∷ bs) zero (c ∷ cs) h = drop-splice_behind j bs zero cs (omega arith)
drop-splice_behind (suc j) (x ∷ bs) (suc i) (c ∷ cs) h =
    drop-splice_behind j bs i (c ∷ cs) (omega arith)

-- The place of a new entry: the first that is free, or the one behind the entries.
abbrev pub first_free : List Entry → ℕ
first_free [] = 0
first_free (e ∷ es) = let rest = first_free es in if e.ent_inumber == 0 then 0 else suc rest

-- The entries with a new one.
abbrev pub added : List Entry → Entry → List Entry
added [] e = e ∷ []
added (f ∷ es) e = let rest = added es e in if f.ent_inumber == 0 then e ∷ es else f ∷ rest

-- How many entries there are once there is one at place `k`.
abbrev pub grown : (m k : ℕ) → ℕ
grown zero k = 1
grown (suc m) zero = suc m
grown (suc m) (suc k) = suc (grown m k)

pub grown-cases : (m k : ℕ) → k ≤ m → ((k < m) × (grown m k ≡ m)) ⊎ ((k ≡ m) × (grown m k ≡ suc m))
grown-cases zero k h = inr (omega arith, refl)
grown-cases (suc m) zero h = inl (omega arith, refl)
grown-cases (suc m) (suc k) h = elim (grown-cases m k (omega arith)) [
  | inl (l, e) ↦ inl (omega arith, ap suc e)
  | inr (l, e) ↦ inr (ap suc l, ap suc e)
]

pub first_free-entries : (m pos : ℕ) (bs : Bytes) → first_free (entries m pos bs) ≤ m
first_free-entries zero pos bs = omega arith
first_free-entries (suc m) pos bs =
    let rest = first_free-entries m (pos + 20) bs in
    let e = entry_of_bytes (take 20 (drop pos bs)) in
    elim (Bool-cases (e.ent_inumber == 0)) [
      | inl t ↦ rw t (omega arith)
      | inr f ↦ rw f (omega arith)
    ]

-- The entries behind what is written are as before.
pub entries-splice_behind :
    (m pos : ℕ) (bs : Bytes) (i : ℕ) (cs : Bytes)
    → i + length cs ≤ pos
    → entries m pos (splice bs i cs) ≡ entries m pos bs
entries-splice_behind zero pos bs i cs h = refl
entries-splice_behind (suc m) pos bs i cs h =
    ap₂ (λ r es. entry_of_bytes (take 20 r) ∷ es) (drop-splice_behind pos bs i cs h)
      (entries-splice_behind m (pos + 20) bs i cs (omega arith))

-- An entry written at the place of a new one.
pub entries-splice :
    (m pos : ℕ) (bs cs : Bytes) (at : ℕ)
    → length cs ≡ 20
    → at ≡ pos + 20 * first_free (entries m pos bs)
    → pos + 20 * m + 20 ≤ length bs
    → entries (grown m (first_free (entries m pos bs))) pos (splice bs at cs)
      ≡ added (entries m pos bs) (entry_of_bytes cs)
entries-splice zero pos bs cs at long place room =
    let same : at ≡ pos = omega arith in
    let mine : take 20 (drop pos (splice bs at cs)) ≡ cs =
      ap₂ (λ n p. take n (drop pos (splice bs p cs))) (sym long) same
      ∙ drop-splice_self bs pos cs (omega arith) in
    ap (λ r. entry_of_bytes r ∷ []) mine
entries-splice (suc m) pos bs cs at long place room =
    let e = entry_of_bytes (take 20 (drop pos bs)) in
    elim (Bool-cases (e.ent_inumber == 0)) [
      | inl t ↦
          let same : at ≡ pos = ground (arith, t, place) in
          let mine : take 20 (drop pos (splice bs at cs)) ≡ cs =
            ap₂ (λ n p. take n (drop pos (splice bs p cs))) (sym long) same
            ∙ drop-splice_self bs pos cs (omega arith) in
          let others = entries-splice_behind m (pos + 20) bs at cs (omega arith) in
          rw t (ap₂ (λ r es. entry_of_bytes r ∷ es) mine others)
      | inr f ↦
          let place' : at ≡ pos + 20 + 20 * first_free (entries m (pos + 20) bs) =
            ground (arith, f, place) in
          let rest = entries-splice m (pos + 20) bs cs at long place' (omega arith) in
          let mine = drop-splice_before 20 pos bs at cs (omega arith) in
          rw f (ap₂ (λ r es. entry_of_bytes r ∷ es) mine rest)
    ]
