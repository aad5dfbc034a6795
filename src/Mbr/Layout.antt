-- ===== src/Mbr/Layout.antt =====
-- `struct mbr_s` on the disk (src/mbr.c): what `write_mbr` writes, `read_mbr` reads back.
use ase_plus_plus.Prelude.{
  get_or-append, ℕ, zero, suc, ◌-◌, ◌*◌, ◌≡◌, ◌≢◌, ◌==◌, if◌then◌else◌, refl, arith, List, [], ◌∷◌,
  ◌++◌, length, take, replicate, All, ap, ◌∙◌, length-append, length-replicate, take-append,
}
use ase_plus_plus.Words.{Bytes, IsWord, unwords, words-unwords, length-unwords}
use ase_plus_plus.Storage
use ase_plus_plus.Storage.{Storage, sector_size}
use native.Mathlib.Decide.{ℕ_discrete}
use ase_plus_plus.System.{Volume, Mbr, World, ok}
use ase_plus_plus.Mutex.{sem_init}
use ase_plus_plus.Mbr.{
  maxvol, mbr_magic, mbr_size, empty_mbr, volume_words, volumes_words, volumes_of_words, mbr_words,
  mbr_of_bytes, read_mbr, write_mbr,
}

-- A table whose numbers are 32-bit words, with all its eight entries.
pub record IsTable (m : Mbr) : Type 0 where
  pub size : length m.mbr_vol ≡ maxvol
  pub words : All (λ v. All IsWord (volume_words v)) m.mbr_vol
  pub count : IsWord m.nbvols
  pub magic : IsWord m.magic_number

length-volumes_words : (vs : List Volume) → length (volumes_words vs) ≡ 5 * length vs
unfolding volumes_words
length-volumes_words [] = refl
length-volumes_words (v ∷ vs) = omega (arith, length-volumes_words vs)

volumes_words-words :
    (vs : List Volume)
    → All (λ v. All IsWord (volume_words v)) vs
    → (ws : List ℕ) → All IsWord ws
    → All IsWord (volumes_words vs ++ ws)
unfolding volumes_words
volumes_words-words [] h ws k = k
volumes_words-words (v ∷ vs) (h, hs) ws k =
    let (a, (b, (c, (d, (e, t))))) = h in (a, (b, (c, (d, (e, volumes_words-words vs hs ws k)))))

volumes_of_words-volumes_words :
    (n : ℕ) (vs : List Volume) (ws : List ℕ)
    → length vs ≡ n
    → volumes_of_words n (volumes_words vs ++ ws) ≡ vs
unfolding volumes_words volumes_of_words
volumes_of_words-volumes_words zero [] ws h = refl
volumes_of_words-volumes_words zero (v ∷ vs) ws h = absurd (omega arith)
volumes_of_words-volumes_words (suc n) [] ws h = absurd (omega arith)
volumes_of_words-volumes_words (suc n) (v ∷ vs) ws h =
    ap (λ r. v ∷ r) (volumes_of_words-volumes_words n vs ws (omega arith))

-- The words of a table are words.
mbr_words-words : (m : Mbr) → IsTable m → All IsWord (mbr_words m)
unfolding mbr_words
mbr_words-words m t =
    volumes_words-words m.mbr_vol t.words (m.nbvols ∷ m.magic_number ∷ []) (t.count, (t.magic, tt))

mbr_of_bytes-mbr_words : (m : Mbr) → IsTable m → mbr_of_bytes (unwords (mbr_words m)) ≡ m
unfolding mbr_of_bytes mbr_words
mbr_of_bytes-mbr_words m t =
    let tail = m.nbvols ∷ m.magic_number ∷ [] in
    let n : length (volumes_words m.mbr_vol) ≡ 40 =
      omega (arith, length-volumes_words m.mbr_vol, t.size) in
    rw (words-unwords (mbr_words m) (mbr_words-words m t)) (λ i. record {
      mbr_vol = volumes_of_words-volumes_words maxvol m.mbr_vol tail t.size i;
      nbvols = get_or-append (volumes_words m.mbr_vol) tail 0 40 0 (omega arith) i;
      magic_number = get_or-append (volumes_words m.mbr_vol) tail 1 41 0 (omega arith) i;
    })

length-mbr_words : (m : Mbr) → IsTable m → length (unwords (mbr_words m)) ≡ mbr_size
unfolding mbr_words
length-mbr_words m t = omega (
  arith,
  length-unwords (mbr_words m),
  length-append (volumes_words m.mbr_vol) (m.nbvols ∷ m.magic_number ∷ []),
  length-volumes_words m.mbr_vol,
  t.size,
)

-- What `write_mbr` leaves in the first sector.
abbrev pub mbr_sector : Mbr → Bytes
mbr_sector m = unwords (mbr_words m) ++ replicate (sector_size - mbr_size) 0

-- The table in the first sector of a disk.
abbrev pub table_on : Storage → Mbr
table_on d = mbr_of_bytes (take mbr_size (take sector_size (d.cells 0 0)))

-- The state after `read_mbr`.
abbrev pub with_table : World → Mbr → World
with_table w m = record w {
  storage = record (w.storage) { master = w.storage.cells 0 0 };
  mbr = m;
  mbr_mutex = sem_init 1;
}

pub read_mbr_found :
    (w : World)
    → (table_on w.storage).magic_number ≡ mbr_magic
    → read_mbr w ≡ ok tt (with_table w (table_on w.storage))
unfolding read_mbr Storage.read_nsector
read_mbr_found w e = ground arith

read_mbr_absent :
    (w : World)
    → (table_on w.storage).magic_number ≢ mbr_magic
    → read_mbr w ≡ ok tt (with_table w empty_mbr)
unfolding read_mbr Storage.read_nsector
read_mbr_absent w e = ground arith

-- The state after `write_mbr`.
abbrev pub saved : World → World
saved w = record w { storage = Storage.write_nsector 0 0 (mbr_sector w.mbr) w.storage }

pub length-mbr_sector : (m : Mbr) → IsTable m → length (mbr_sector m) ≡ sector_size
length-mbr_sector m t =
    let zeros : List ℕ = replicate (sector_size - mbr_size) 0 in
    omega (
      arith,
      length-append (unwords (mbr_words m)) zeros,
      length-mbr_words m t,
      length-replicate {0} {A = ℕ} (sector_size - mbr_size) 0,
    )

write_mbr-ok :
    (w : World) → IsTable w.mbr → w.mbr.magic_number ≡ mbr_magic → write_mbr w ≡ ok tt (saved w)
unfolding write_mbr
write_mbr-ok w t e = let l = length-mbr_sector w.mbr t in ground (arith, l)

pub table_on-saved : (w : World) → IsTable w.mbr → table_on (saved w).storage ≡ w.mbr
unfolding Storage.write_nsector
table_on-saved w t =
    ap (λ b. mbr_of_bytes (take mbr_size b))
      (take-append sector_size (mbr_sector w.mbr) _ (length-mbr_sector w.mbr t))
    ∙ ap mbr_of_bytes
        (take-append mbr_size (unwords (mbr_words w.mbr)) _ (length-mbr_words w.mbr t))
    ∙ mbr_of_bytes-mbr_words w.mbr t

-- A table with its magic number that `write_mbr` writes is the table that `read_mbr` finds in any
-- later state on that disk, whatever that state had in memory, with the semaphore set to one.
pub read_mbr-write_mbr :
    (w u : World)
    → IsTable w.mbr
    → w.mbr.magic_number ≡ mbr_magic
    → u.storage ≡ (saved w).storage
    → (write_mbr w ≡ ok tt (saved w))
      × (u' : World) × (read_mbr u ≡ ok tt u')
      × (u'.mbr ≡ w.mbr)
      × (u'.mbr_mutex ≡ sem_init 1)
read_mbr-write_mbr w u t e same =
    let there : table_on u.storage ≡ w.mbr = ap table_on same ∙ table_on-saved w t in
    (
      write_mbr-ok w t e,
      with_table u (table_on u.storage),
      read_mbr_found u (ap (λ (m : Mbr). m.magic_number) there ∙ e),
      there,
      refl,
    )

-- `read_mbr` never fails and does not change the disk. The table in memory is the one in the first
-- sector, if that has the magic number, and else a table of no volume with the magic number.
pub read_mbr_total :
    (w : World)
    → (w' : World) × (read_mbr w ≡ ok tt w')
      × (w'.storage.cells ≡ w.storage.cells)
      × (w'.mbr.magic_number ≡ mbr_magic)
      × (w'.mbr ≡ (
          if (table_on w.storage).magic_number == mbr_magic then table_on w.storage else empty_mbr))
read_mbr_total w = elim (ℕ_discrete (table_on w.storage).magic_number mbr_magic) [
  | yes e ↦ (with_table w (table_on w.storage), read_mbr_found w e, refl, e, ground arith)
  | no n ↦ (with_table w empty_mbr, read_mbr_absent w n, refl, refl, ground arith)
]
