-- ===== src/Superbloc/Root.antt =====
-- Saving the superbloc (src/superbloc.c) keeps the free list, also with a new root inode.
use ase_plus_plus.Prelude.{ℕ, refl, arith, List}
use ase_plus_plus.Words.{IsWord}
use ase_plus_plus.System.{World}
use ase_plus_plus.Mbr.Blocs.{bloc, stored}
use ase_plus_plus.Mbr.Frame.{bloc-stored_ne}
use ase_plus_plus.Superbloc.{super_bytes}
use ase_plus_plus.Superbloc.Codec.{super_saved, super_saved-IsMounted}
use ase_plus_plus.Superbloc.FreeList.{SameBlocs, Chain-frame, IsFree, IsMounted-with_super}

-- The superbloc in memory with another root.
abbrev pub with_root : World → ℕ → World
with_root w r = record w { super = record (w.super) { root_inumber = r } }

module _ {w : World} {xs : List ℕ} (v : IsFree w xs) where
  pub saved-SameBlocs : SameBlocs w (super_saved w) w.current_volume
  saved-SameBlocs k pos inside =
      bloc-stored_ne v.mounted 0 k (super_bytes w.super) v.room inside (omega arith)

  pub saved-IsFree : IsFree (super_saved w) xs
  unfolding stored
  saved-IsFree = record {
    mounted = super_saved-IsMounted v.mounted v.super;
    super = v.super;
    room = v.room;
    chain = Chain-frame w (super_saved w) w.current_volume _ xs refl saved-SameBlocs v.chain;
    count = v.count;
  }

  pub with_root-IsFree : (r : ℕ) → IsWord r → IsFree (with_root w r) xs
  unfolding bloc
  with_root-IsFree r h = record {
    mounted = IsMounted-with_super _ v.mounted;
    super =
        (let (i, (p, (n, _))) = v.super.tail in
          record {
            magic = v.super.magic;
            name = v.super.name;
            head = v.super.head;
            tail = (i, (p, (n, (h, tt))));
          });
    room = v.room;
    chain = Chain-frame w (with_root w r) w.current_volume _ xs refl (λ k pos inside. refl) v.chain;
    count = v.count;
  }
