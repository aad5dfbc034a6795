-- ===== src/Scheduler/Order.antt =====
-- The order of a ring seen from another of its contexts.
use ase_plus_plus.Prelude.{ℕ, ◌≢◌, sym, List, [], ◌∷◌, ◌++◌, All, All-append, All-split}
use ase_plus_plus.Scheduler.Ring.{Heap, Linked, IsDistinct, IsRing, All_both}

-- No number of the one list is in the other.
abbrev pub Apart : List ℕ → List ℕ → Type 0
Apart xs ys = All (λ x. All (λ y. y ≢ x) ys) xs

All_unit : (xs : List ℕ) → All (λ x. Unit {0}) xs
All_unit [] = tt
All_unit (x ∷ xs) = (tt, All_unit xs)

Apart-sym : (xs ys : List ℕ) → Apart xs ys → Apart ys xs
Apart-sym [] ys h = All_unit ys
Apart-sym (x ∷ xs) ys h =
    All_both ys (λ y ne rest. (λ e. ne (sym e), rest)) h.0 (Apart-sym xs ys h.1)

pub IsDistinct-split :
    (xs ys : List ℕ) → IsDistinct (xs ++ ys) → IsDistinct xs × IsDistinct ys × Apart xs ys
IsDistinct-split [] ys d = (tt, d, tt)
IsDistinct-split (x ∷ xs) ys d =
    let (dx, dy, apart) = IsDistinct-split xs ys d.1 in
    let (near, far) = All-split (λ y. y ≢ x) xs ys d.0 in ((near, dx), dy, (far, apart))

IsDistinct-append :
    (xs ys : List ℕ) → IsDistinct xs → IsDistinct ys → Apart xs ys → IsDistinct (xs ++ ys)
IsDistinct-append [] ys dx dy apart = dy
IsDistinct-append (x ∷ xs) ys dx dy apart =
    (All-append (λ y. y ≢ x) xs ys dx.0 apart.0, IsDistinct-append xs ys dx.1 dy apart.1)

pub IsDistinct-swap : (xs ys : List ℕ) → IsDistinct (xs ++ ys) → IsDistinct (ys ++ xs)
IsDistinct-swap xs ys d =
    let (dx, dy, apart) = IsDistinct-split xs ys d in
    IsDistinct-append ys xs dy dx (Apart-sym xs ys apart)

pub Linked-split :
    (h : Heap) (a : ℕ) (xs : List ℕ) (b : ℕ) (ys : List ℕ) (z : ℕ)
    → Linked h a (xs ++ (b ∷ ys)) z
    → Linked h a xs b × Linked h b ys z
Linked-split h a [] b ys z l = l
Linked-split h a (x ∷ xs) b ys z l =
    let (to_b, rest) = Linked-split h x xs b ys z l.1 in ((l.0, to_b), rest)

Linked-append :
    (h : Heap) (a : ℕ) (xs : List ℕ) (b : ℕ) (ys : List ℕ) (z : ℕ)
    → Linked h a xs b
    → Linked h b ys z
    → Linked h a (xs ++ (b ∷ ys)) z
Linked-append h a [] b ys z l m = (l, m)
Linked-append h a (x ∷ xs) b ys z l m = (l.0, Linked-append h x xs b ys z l.1 m)

-- The same ring from a later context on.
pub IsRing-rotate :
    (h : Heap) (c : ℕ) (ps : List ℕ) (b : ℕ) (qs : List ℕ)
    → IsRing h c (ps ++ (b ∷ qs))
    → IsRing h b (qs ++ (c ∷ ps))
IsRing-rotate h c ps b qs ring =
    let (to_b, to_c) = Linked-split h c ps b qs c ring.links in
    record {
      links = Linked-append h b qs c ps b to_c to_b;
      distinct = IsDistinct-swap (c ∷ ps) (b ∷ qs) ring.distinct;
    }
