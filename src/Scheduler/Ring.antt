-- ===== src/Scheduler/Ring.antt =====
-- The ring that the contexts of a core form in memory, and `create_ctx` (src/ctx.c).
use ase_plus_plus.Prelude.{
  ℕ, ◌≡◌, ◌≢◌, refl, sym, ap, ◌∙◌, arith, List, [], ◌∷◌, All, Option, none, some, Bool-cases, ◌==◌,
  inl, inr,
}
use ase_plus_plus.Scheduler.{
  activable, Context, Kernel, done, update, canary_value, new_ctx, create_ctx,
}

abbrev pub Heap : Type 0
Heap = ℕ → Option Context

-- The context at `a` has the one at `b` as its next.
abbrev pub Link : Heap → (a b : ℕ) → Type 0
Link h a b = (x : Context) × (h a ≡ some x) × (x.next ≡ b)

-- From `a` along the links through the contexts of the list to `z`.
abbrev pub Linked : Heap → (a : ℕ) → List ℕ → (z : ℕ) → Type 0
Linked h a [] z = Link h a z
Linked h a (b ∷ xs) z = Link h a b × Linked h b xs z

abbrev pub IsDistinct : List ℕ → Type 0
IsDistinct [] = Unit
IsDistinct (x ∷ xs) = All (λ y. y ≢ x) xs × IsDistinct xs

-- The contexts of the ring behind the context `c`, in their order.
pub record IsRing (h : Heap) (c : ℕ) (xs : List ℕ) : Type 0 where
  pub links : Linked h c xs c
  pub distinct : IsDistinct (c ∷ xs)

pub update_self : {A : Type 0} (f : ℕ → A) (a : ℕ) (v : A) → update f a v a ≡ v
update_self f a v = ground arith

pub update_ne : {A : Type 0} (f : ℕ → A) (a b : ℕ) (v : A) → b ≢ a → update f a v b ≡ f b
update_ne f a b v ne = ground arith

pub Link-frame : (h g : Heap) (a b : ℕ) → g a ≡ h a → Link h a b → Link g a b
Link-frame h g a b e (x, s, n) = (x, e ∙ s, n)

pub Linked-frame :
    (h g : Heap) (a : ℕ) (xs : List ℕ) (z : ℕ)
    → All (λ y. g y ≡ h y) (a ∷ xs)
    → Linked h a xs z
    → Linked g a xs z
Linked-frame h g a [] z e l = Link-frame h g a z e.0 l
Linked-frame h g a (b ∷ xs) z e l = (Link-frame h g a b e.0 l.0, Linked-frame h g b xs z e.1 l.1)

-- A context that is stored again with its link leaves the links as they are.
Link-store :
    (h : Heap) (c : ℕ) (x y : Context) (a z : ℕ)
    → h c ≡ some x
    → y.next ≡ x.next
    → Link h a z
    → Link (update h c (some y)) a z
Link-store h c x y a z e n (v, at_a, to_z) = elim (Bool-cases (a == c)) [
  | inl t ↦ let same : a ≡ c = ground arith in (y, ground arith, ground (arith, ap h same))
  | inr f ↦ (v, ground arith, to_z)
]

pub Linked-store :
    (h : Heap) (c : ℕ) (x y : Context) (a : ℕ) (xs : List ℕ) (z : ℕ)
    → h c ≡ some x
    → y.next ≡ x.next
    → Linked h a xs z
    → Linked (update h c (some y)) a xs z
Linked-store h c x y a [] z e n l = Link-store h c x y a z e n l
Linked-store h c x y a (b ∷ xs) z e n l =
    (Link-store h c x y a b e n l.0, Linked-store h c x y b xs z e n l.1)

-- Each context of a list is allocated.
pub Linked-All :
    (h : Heap) (a : ℕ) (xs : List ℕ) (z : ℕ)
    → Linked h a xs z
    → All (λ y. (x : Context) × (h y ≡ some x)) (a ∷ xs)
Linked-All h a [] z l = ((l.0, l.1), tt)
Linked-All h a (b ∷ xs) z l = ((l.0.0, l.0.1), Linked-All h b xs z l.1)

pub All-map {κ λ'} :
    {P : ℕ → Type κ} {Q : ℕ → Type λ'} (xs : List ℕ) → ((y : ℕ) → P y → Q y) → All P xs → All Q xs
All-map [] f h = tt
All-map (x ∷ xs) f h = (f x h.0, All-map xs f h.1)

-- Allocated contexts are not where nothing is.
pub All-fresh :
    (h : Heap) (n : ℕ) (xs : List ℕ)
    → h n ≡ none
    → All (λ y. (x : Context) × (h y ≡ some x)) xs
    → All (λ y. y ≢ n) xs
All-fresh h n xs e =
    All-map xs (λ y (x, s) same. let clash : some x ≡ none = sym s ∙ ap h same ∙ e in ground arith)

-- The first link of the ring, changed to pass through `n`.
abbrev pub inserted : Heap → (n a : ℕ) → (c x : Context) → Heap
inserted h n a c x =
    update (update h n (some (record c { next = x.next }))) a (some (record x { next = n }))

pub All-update :
    (h : Heap) (a : ℕ) (v : Option Context) (xs : List ℕ)
    → All (λ y. y ≢ a) xs
    → All (λ y. update h a v y ≡ h y) xs
All-update h a v xs = All-map xs (λ y ne. update_ne h a y v ne)

-- The next one of `a` on a way to `z`.
abbrev pub head_or : List ℕ → (z : ℕ) → ℕ
head_or [] z = z
head_or (b ∷ xs) z = b

pub Linked-head :
    (h : Heap) (a : ℕ) (xs : List ℕ) (z : ℕ) → Linked h a xs z → Link h a (head_or xs z)
Linked-head h a [] z l = l
Linked-head h a (b ∷ xs) z l = l.0

-- A context whose next one is the same has the same way before it.
pub Linked-same :
    (h g : Heap) (a n : ℕ) (xs : List ℕ) (z : ℕ)
    → All (λ y. g y ≡ h y) xs
    → Link g n (head_or xs z)
    → Linked h a xs z
    → Linked g n xs z
Linked-same h g a n [] z e first l = first
Linked-same h g a n (b ∷ xs) z e first l = (first, Linked-frame h g b xs z e l.1)

pub All_both {κ} :
    {P Q R : ℕ → Type κ} (xs : List ℕ)
    → ((y : ℕ) → P y → Q y → R y)
    → All P xs
    → All Q xs
    → All R xs
All_both [] f p q = tt
All_both (x ∷ xs) f p q = (f x p.0 q.0, All_both xs f p.1 q.1)

module _ (core a n : ℕ) (xs : List ℕ) (raw : Context) (f p q : ℕ) (k : Kernel)
    (cur : k.current_ctx core ≡ some a) (ring : IsRing k.heap a xs) (fresh : k.heap n ≡ none) where
  fresh_all : All (λ y. y ≢ n) (a ∷ xs)
  fresh_all = All-fresh k.heap n (a ∷ xs) fresh (Linked-All k.heap a xs a ring.links)

  -- A context created while others run stands in the ring right behind the current one, and can be run:
  -- the others keep their order and the current context stays.
  pub create_ctx-IsRing :
      (k' : Kernel) × (create_ctx core n raw f p q k ≡ done n k')
      × IsRing k'.heap a (n ∷ xs)
      × (k'.current_ctx core ≡ some a)
      × ((c : Context) × (k'.heap n ≡ some c)
          × (c.state ≡ activable)
          × (c.function ≡ f)
          × (c.canary ≡ canary_value))
  unfolding create_ctx
  create_ctx-IsRing =
      let (x, there, next) = Linked-head k.heap a xs a ring.links in
      let c = new_ctx f p q raw in
      let h' = inserted k.heap n a c x in
      let ne : n ≢ a = λ e. fresh_all.0 (sym e) in
      let at_n : h' n ≡ some (record c { next = x.next }) = ground arith in
      let at_a : h' a ≡ some (record x { next = n }) = ground arith in
      let frame : All (λ y. h' y ≡ k.heap y) xs =
        All_both xs (λ y off on. ground arith) ring.distinct.0 fresh_all.1 in
      (
        record k { current_core = core; heap = h' },
        ground (arith, there, cur),
        record {
          links =
              ((_, at_a, refl), Linked-same k.heap h' a n xs a frame (_, at_n, next) ring.links);
          distinct = ((ne, ring.distinct.0), (fresh_all.1, ring.distinct.1));
        },
        cur,
        (_, at_n, refl, refl, refl),
      )
