-- ===== src/Manager/Dialogue.antt =====
-- A dialogue with the volume manager (src/vm.c).
use ase_plus_plus.Prelude.{
  ℕ, zero, suc, ◌+◌, ◌-◌, ◌≤◌, ◌≡◌, refl, subst, ◌∙◌, arith, List, [], ◌∷◌, ◌++◌, All, All-set,
  Bool, true, false, ◌==◌, ltb, leb, if◌then◌else◌, length, length-set, get_or, set,
}
use ase_plus_plus.Words.{Bytes, IsWord}
use ase_plus_plus.System.{Volume, Mbr, World, Run, ok, stop, exit, Cmd, Void, and_then}
use ase_plus_plus.Mbr.{maxvol, mbr_magic, no_volume, volume_words, write_mbr, read_mbr}
use ase_plus_plus.Mbr.Layout.{IsTable, saved, read_mbr-write_mbr}
use ase_plus_plus.Volumes.{create_volume, add_volume, delete_volume, shift_volumes}
use ase_plus_plus.Manager.{
  Function, list, new, del, save, quit, xit, help, unknown, commands, lookup, ask_new, ask_del,
  ask_quit, call, execute, loop, dialogue,
}

-- A volume table that can be written: it fits its sector and has its magic number.
pub record IsKept (m : Mbr) : Type 0 where
  pub table : IsTable m
  pub magic : m.magic_number ≡ mbr_magic
  pub taken : m.nbvols ≤ maxvol

abbrev IsVolume : Volume → Type 0
IsVolume v = All IsWord (volume_words v)

-- A property of the result of a run and the state that it leaves.
abbrev pub Leaves : {A : Type 0} → (A → World → Type 0) → Run A → Type 0
Leaves P (ok a w) = P a w
Leaves P (stop s w) = Unit

Leaves-and_then :
    {A B : Type 0} (P : A → World → Type 0) (Q : B → World → Type 0) (r : Run A) (k : A → Cmd B)
    → Leaves P r
    → ((a : A) (w : World) → P a w → Leaves Q (k a w))
    → Leaves Q (and_then r k)
Leaves-and_then P Q (ok a w) k h next = next a w h
Leaves-and_then P Q (stop s w) k h next = tt

Leaves-if :
    {A : Type 0} (P : A → World → Type 0) (b : Bool) (m n : Cmd A) (w : World)
    → (b ≡ true → Leaves P (m w))
    → (b ≡ false → Leaves P (n w))
    → Leaves P ((if b then m else n) w)
Leaves-if P true m n w t f = t refl
Leaves-if P false m n w t f = f refl

abbrev pub Kept : Void → World → Type 0
Kept u w = IsKept w.mbr

pub create_volume-IsKept :
    (c s n type : ℕ) (w : World)
    → All IsWord (c ∷ s ∷ n ∷ type ∷ [])
    → IsKept w.mbr
    → Leaves Kept (create_volume c s n type w)
unfolding create_volume add_volume
create_volume-IsKept c s n type w h kept =
    let v : Volume = record {
      vol_cylinder = c;
      vol_sector = s;
      vol_nsectors = n;
      vol_type = type;
      valide = 0;
    } in
    let words : IsVolume v = (h.0, (h.1.0, (h.1.1.0, (h.1.1.1.0, (omega arith, tt))))) in
    let t = kept.table in
    Leaves-if Kept (w.mbr.nbvols == maxvol) _ _ w (λ e. kept)
      (λ room.
        Leaves-if Kept (ltb w.mbr.nbvols maxvol) _ _ w
          (λ less. record {
            table = record {
              size = length-set w.mbr.mbr_vol w.mbr.nbvols v ∙ t.size;
              words = All-set IsVolume w.mbr.mbr_vol w.mbr.nbvols v t.words words;
              count = ground arith;
              magic = t.magic;
            };
            magic = kept.magic;
            taken = ground arith;
          })
          (λ more. tt))

All-get_or : (vs : List Volume) (i : ℕ) → All IsVolume vs → IsVolume (get_or vs i no_volume)
All-get_or [] i h = ground arith
All-get_or (v ∷ vs) zero h = h.0
All-get_or (v ∷ vs) (suc i) h = All-get_or vs i h.1

abbrev Shifted : World → List Volume → World → Type 0
Shifted w vs w' = (length vs ≡ maxvol) × All IsVolume vs × (w' ≡ w)

shift_volumes-Shifted :
    (n i : ℕ) (vs : List Volume) (w : World)
    → length vs ≡ maxvol
    → All IsVolume vs
    → Leaves (Shifted w) (shift_volumes n i vs w)
unfolding shift_volumes
shift_volumes-Shifted zero i vs w long h = (long, h, refl)
shift_volumes-Shifted (suc n) i vs w long h =
    let v = get_or vs i no_volume in
    Leaves-if (Shifted w) (ltb i maxvol) _ _ w
      (λ inside.
        shift_volumes-Shifted n (i + 1) (set vs (i - 1) v) w (length-set vs (i - 1) v ∙ long)
          (All-set IsVolume vs (i - 1) v h (All-get_or vs i h)))
      (λ outside. tt)

delete_volume-IsKept :
    (number : ℕ) (w : World) → IsKept w.mbr → Leaves Kept (delete_volume number w)
unfolding delete_volume
delete_volume-IsKept number w kept =
    let t = kept.table in
    Leaves-if Kept (leb w.mbr.nbvols number) _ _ w (λ e. kept)
      (λ there.
        Leaves-and_then (Shifted w) Kept
          (shift_volumes (w.mbr.nbvols - number) (number + 1) w.mbr.mbr_vol w) _
          (shift_volumes-Shifted (w.mbr.nbvols - number) (number + 1) w.mbr.mbr_vol w t.size
            t.words)
          (λ vs w1 (long, h, same). record {
            table = record {
              size = long;
              words = h;
              count = omega (arith, t.count);
              magic = t.magic;
            };
            magic = kept.magic;
            taken = omega (arith, kept.taken);
          }))

pub write_mbr-saved : (w : World) → IsKept w.mbr → write_mbr w ≡ ok tt (saved w)
write_mbr-saved w kept = (read_mbr-write_mbr w (saved w) kept.table kept.magic refl).0

write_mbr-IsKept : (w : World) → IsKept w.mbr → Leaves Kept (write_mbr w)
write_mbr-IsKept w kept = rw (write_mbr-saved w kept) kept

ask_new-IsKept :
    (numbers : List ℕ) (w : World)
    → All IsWord numbers
    → IsKept w.mbr
    → Leaves Kept (ask_new numbers w)
unfolding ask_new
ask_new-IsKept [] w h kept = tt
ask_new-IsKept (a ∷ []) w h kept = tt
ask_new-IsKept (a ∷ b ∷ []) w h kept = tt
ask_new-IsKept (a ∷ b ∷ c ∷ []) w h kept = tt
ask_new-IsKept (a ∷ b ∷ c ∷ d ∷ more) w h kept =
    create_volume-IsKept a b c d w (h.0, (h.1.0, (h.1.1.0, (h.1.1.1.0, tt)))) kept

ask_del-IsKept : (numbers : List ℕ) (w : World) → IsKept w.mbr → Leaves Kept (ask_del numbers w)
unfolding ask_del
ask_del-IsKept [] w kept = tt
ask_del-IsKept (a ∷ more) w kept = delete_volume-IsKept a w kept

ask_quit-IsKept : (numbers : List ℕ) (w : World) → IsKept w.mbr → Leaves Kept (ask_quit numbers w)
unfolding ask_quit
ask_quit-IsKept [] w kept = tt
ask_quit-IsKept (a ∷ more) w kept =
    Leaves-if Kept (a == 1) _ _ w (λ yes'. rw (write_mbr-saved w kept) tt) (λ no'. tt)

call-IsKept :
    (f : Function) (numbers : List ℕ) (w : World)
    → All IsWord numbers
    → IsKept w.mbr
    → Leaves Kept (call f numbers w)
unfolding call
call-IsKept list numbers w h kept = kept
call-IsKept new numbers w h kept = ask_new-IsKept numbers w h kept
call-IsKept del numbers w h kept = ask_del-IsKept numbers w kept
call-IsKept save numbers w h kept = write_mbr-IsKept w kept
call-IsKept quit numbers w h kept = ask_quit-IsKept numbers w kept
call-IsKept xit numbers w h kept = tt
call-IsKept help numbers w h kept = kept
call-IsKept unknown numbers w h kept = kept

-- However the dialogue goes, with numbers of 32 bits: while it goes on, the table can be written.
pub loop-IsKept :
    (lines : List (Bytes × List ℕ)) (w : World)
    → All (λ line. All IsWord line.1) lines
    → IsKept w.mbr
    → Leaves (λ u w'. IsKept w'.mbr) (loop lines w)
unfolding loop execute
loop-IsKept [] w h kept = kept
loop-IsKept (line ∷ lines) w h kept =
    Leaves-and_then Kept Kept (execute line.0 line.1 w) _
      (call-IsKept (lookup commands line.0) line.1 w h.0 kept)
      (λ u w1 kept'. loop-IsKept lines w1 h.1 kept')

-- `quit`
abbrev pub quit_name : Bytes
quit_name = 113 ∷ 117 ∷ 105 ∷ 116 ∷ []

-- A run that goes on with `k` to a result goes on with `l` where that agrees behind `k`.
after-same :
    (r : Run Void) (k l : Void → Cmd Void) (o : Run Void) (w1 : World)
    → and_then r k ≡ ok tt w1
    → ((u : Void) (w : World) → k u w ≡ ok tt w1 → l u w ≡ o)
    → and_then r l ≡ o
after-same (ok a w) k l o w1 e same = same a w e
after-same (stop s w) k l o w1 e same = absurd (ground arith)

loop-append :
    (lines more : List (Bytes × List ℕ)) (w w1 : World)
    → loop lines w ≡ ok tt w1
    → loop (lines ++ more) w ≡ loop more w1
unfolding loop
loop-append [] more w w1 e = ground (arith, e)
loop-append (line ∷ lines) more w w1 e =
    after-same (execute line.0 line.1 w) _ _ (loop more w1) w1 e
      (λ u w2 e'. loop-append lines more w2 w1 e')

-- A dialogue that comes to `quit` and the answer 1 ends with status 0, and the table that was made is the
-- one that the next program finds on the disk.
pub dialogue-read_mbr :
    (lines : List (Bytes × List ℕ)) (w w1 : World)
    → All (λ line. All IsWord line.1) lines
    → IsKept w.mbr
    → loop lines w ≡ ok tt w1
    → (w2 : World) × (dialogue (lines ++ ((quit_name, 1 ∷ []) ∷ [])) w ≡ stop (exit 0) w2)
      × ((u : World)
          → u.storage ≡ w2.storage
          → (u' : World) × (read_mbr u ≡ ok tt u') × (u'.mbr ≡ w1.mbr))
unfolding dialogue execute call ask_quit lookup loop
dialogue-read_mbr lines w w1 h kept run =
    let kept1 : IsKept w1.mbr =
      subst (Leaves (λ u w'. IsKept w'.mbr)) run (loop-IsKept lines w h kept) in
    let quits = loop-append lines ((quit_name, 1 ∷ []) ∷ []) w w1 run in
    let write = write_mbr-saved w1 kept1 in
    (
      saved w1,
      ground (arith, quits, write),
      λ u same.
          let (_, u', read, found, _) = read_mbr-write_mbr w1 u kept1.table kept1.magic same in
          (u', read, found),
    )
