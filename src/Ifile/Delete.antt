-- ===== src/Ifile/Delete.antt =====
-- What becomes of `delete_ifile` (src/ifile.c), which wants another result of `delete_inode` (src/inode.c)
-- than that function gives.
use ase_plus_plus.Prelude.{ℕ, ◌≡◌, ◌≢◌, refl, arith, not, ◌==◌, if◌then◌else◌}
use ase_plus_plus.System.{World, Run, ok, stop, exit, Cmd, Void, and_then, halt, undefined, pure}
use ase_plus_plus.Inode.{read_inode, free_blocs, delete_inode}
use ase_plus_plus.Superbloc.{free_bloc}
use ase_plus_plus.Ifile.{delete_ifile}

-- A result, if there is one, is `n`.
Gives : ℕ → Run ℕ → Type 0
Gives n (ok a w) = a ≡ n
Gives n (stop why w) = Unit

-- What holds of every continuation holds of the whole run.
and_then-Gives :
    {A : Type 0} (n : ℕ) (r : Run A) (k : A → Cmd ℕ)
    → ((a : A) (w : World) → Gives n (k a w))
    → Gives n (and_then r k)
unfolding Gives
and_then-Gives n (ok a w) k h = h a w
and_then-Gives n (stop why w) k h = tt

pure-Gives : (n : ℕ) (w : World) → Gives n (pure n w)
unfolding Gives
pure-Gives n w = refl

-- What `delete_inode` does with the number of a table.
abbrev must_be_null : ℕ → Cmd Void
must_be_null b = if not (b == 0) then halt undefined else pure tt

-- `delete_inode` returns the inode's number, if it returns.
delete_inode-Gives : (n : ℕ) (w : World) → Gives n (delete_inode n w)
unfolding delete_inode
delete_inode-Gives n w = and_then-Gives n (read_inode n w) _ λ inode w1.
    and_then-Gives n (free_blocs inode.blocs_directs w1) _ λ u w2.
      and_then-Gives n (must_be_null inode.blocs_indirect w2) _ λ u w3.
        and_then-Gives n (must_be_null inode.blocs_double_indirect w3) _ λ u w4.
          and_then-Gives n (free_bloc inode.blocs_double_indirect w4) _
            λ u w5. and_then-Gives n (free_bloc n w5) _ λ u w6. pure-Gives n w6

never :
    (n : ℕ) (r : Run ℕ) (m : ℕ) (u : World)
    → n ≢ 0
    → Gives n r
    → and_then r (λ status. if status == 0 then pure 0 else halt (exit 1)) ≢ ok m u
unfolding Gives
never n (ok a w) m u h g e = absurd (ground arith)
never n (stop why w) m u h g e = absurd (ground arith)

-- `delete_ifile` never succeeds: it takes the inode's number, which `delete_inode` returns, for a failure.
pub delete_ifile_fails :
    (n : ℕ) (w : World) → n ≢ 0 → (m : ℕ) (u : World) → delete_ifile n w ≢ ok m u
unfolding delete_ifile
delete_ifile_fails n w h m u = never n (delete_inode n w) m u h (delete_inode-Gives n w)
