-- ===== src/Mbr/Address.antt =====
-- Where src/mbr.c puts the blocs of a volume: on consecutive sectors, counted along the cylinders.
use ase_plus_plus.Prelude.{ℕ, ◌+◌, ◌*◌, ◌/◌, ◌<◌, ◌≡◌, arith}
use ase_plus_plus.System.{World, ok}
use ase_plus_plus.Mbr.{maxvol, ncyl_of_nbloc, nsec_of_nbloc, max_sector, volume_at}
use ase_plus_plus.Mbr.Blocs.{IsReady, sector_of, cylinder_of}

-- A sector's number on the whole disk.
abbrev pub linear : ℕ → ℕ → ℕ
linear c s = c * max_sector + s

abbrev pub start_of : World → ℕ → ℕ
start_of w vol = let v = volume_at w vol in linear v.vol_cylinder v.vol_sector

abbrev pub nsectors : World → ℕ → ℕ
nsectors w vol = (volume_at w vol).vol_nsectors

-- The arithmetic on the addresses of a volume does not wrap.
pub record Fits (w : World) (vol : ℕ) : Type 0 where
  pub sectors : (volume_at w vol).vol_sector + nsectors w vol < 0x1_0000_0000
  pub cylinders :
      (volume_at w vol).vol_cylinder + ((volume_at w vol).vol_sector + nsectors w vol) / max_sector
      < 0x1_0000_0000

module _ {w : World} {vol : ℕ} (f : Fits w vol) where
  pub address-linear :
      (n : ℕ)
      → n < nsectors w vol
      → (linear (cylinder_of w vol n) (sector_of w vol n) ≡ start_of w vol + n)
        × (sector_of w vol n < max_sector)
  address-linear n h = omega arith

  -- Distinct blocs of a volume have distinct addresses.
  pub address-injective :
      (n m : ℕ)
      → n < nsectors w vol
      → m < nsectors w vol
      → cylinder_of w vol n ≡ cylinder_of w vol m
      → sector_of w vol n ≡ sector_of w vol m
      → n ≡ m
  address-injective n m hn hm ec es = omega (arith, address-linear n hn, address-linear m hm)

-- With a volume table in memory, the functions that place a bloc of the volume succeed and change
-- nothing. Bloc `n` is the `n`-th sector from the first one of the volume, and its sector number is one
-- that a cylinder has.
pub nbloc_address :
    {w : World} {vol : ℕ} (n : ℕ)
    → IsReady w
    → vol < maxvol
    → Fits w vol
    → n < nsectors w vol
    → (c s : ℕ) × (ncyl_of_nbloc vol n w ≡ ok c w)
      × (nsec_of_nbloc vol n w ≡ ok s w)
      × (linear c s ≡ start_of w vol + n)
      × (s < max_sector)
unfolding ncyl_of_nbloc nsec_of_nbloc
nbloc_address {w} {vol} n r v f h =
    let (place, small) = address-linear f n h in
    (
      cylinder_of w vol n,
      sector_of w vol n,
      ground (arith, r.formatted),
      ground (arith, r.formatted),
      place,
      small,
    )
