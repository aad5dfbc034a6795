-- ===== src/System/Results.antt =====
-- What is known of the result of a command that may stop, and commands that agree on it.
use ase_plus_plus.Prelude.{◌≡◌, refl, Bool, true, false, if◌then◌else◌}
use ase_plus_plus.System.{World, Run, ok, stop, Cmd, and_then}

-- A property of the result of a run, if it has one.
abbrev pub Gives : {A : Type 0} → (A → Type 0) → Run A → Type 0
Gives P (ok a w) = P a
Gives P (stop s w) = Unit

pub Gives-and_then :
    {A B : Type 0} (P : A → Type 0) (Q : B → Type 0) (r : Run A) (k : A → Cmd B)
    → Gives P r
    → ((a : A) (w : World) → P a → Gives Q (k a w))
    → Gives Q (and_then r k)
Gives-and_then P Q (ok a w) k h next = next a w h
Gives-and_then P Q (stop s w) k h next = tt

-- A first command of whose result nothing is known.
pub Gives-after :
    {A B : Type 0} (Q : B → Type 0) (r : Run A) (k : A → Cmd B)
    → ((a : A) (w : World) → Gives Q (k a w))
    → Gives Q (and_then r k)
Gives-after Q (ok a w) k next = next a w
Gives-after Q (stop s w) k next = tt

pub Gives-if :
    {A : Type 0} (Q : A → Type 0) (b : Bool) (m n : Cmd A) (w : World)
    → (b ≡ true → Gives Q (m w))
    → (b ≡ false → Gives Q (n w))
    → Gives Q ((if b then m else n) w)
Gives-if Q true m n w t f = t refl
Gives-if Q false m n w t f = f refl

pub Gives-weaken :
    {A : Type 0} (P Q : A → Type 0) (r : Run A) → Gives P r → ((a : A) → P a → Q a) → Gives Q r
Gives-weaken P Q (ok a w) h imp = imp a h
Gives-weaken P Q (stop s w) h imp = tt

-- Two commands that agree on what a run can give.
pub and_then-same :
    {A B : Type 0} (P : A → Type 0) (r : Run A) (k l : A → Cmd B)
    → Gives P r
    → ((a : A) (w : World) → P a → k a w ≡ l a w)
    → and_then r k ≡ and_then r l
and_then-same P (ok a w) k l h same = same a w h
and_then-same P (stop s w) k l h same = refl

pub if-same :
    {A : Type 0} (b : Bool) (m n o : Cmd A) (w : World)
    → (b ≡ false → n w ≡ o w)
    → (if b then m else n) w ≡ (if b then m else o) w
if-same true m n o w h = refl
if-same false m n o w h = h refl

pub then-same :
    {A B : Type 0} (r : Run A) (k l : A → Cmd B)
    → ((a : A) (w : World) → k a w ≡ l a w)
    → and_then r k ≡ and_then r l
then-same (ok a w) k l same = same a w
then-same (stop s w) k l same = refl
