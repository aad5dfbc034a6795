-- ===== src/Tests/Paths.antt =====
-- The theorems on paths at concrete ones.
use ase_plus_plus.Prelude.{◌≡◌, refl, some, [], ◌∷◌, arith}
use ase_plus_plus.Words.{Bytes}
use ase_plus_plus.Commons.{tokens, or_root, target_of, canonical_path}
use ase_plus_plus.Commons.Canonical.{walk, spelled, canonical_path-walk}

-- `a/../bc`, from `/d/`
abbrev path : Bytes
path = 97 ∷ 47 ∷ 46 ∷ 46 ∷ 47 ∷ 98 ∷ 99 ∷ []

abbrev cwd : Bytes
cwd = 47 ∷ 100 ∷ 47 ∷ []

-- It is `/d/bc`.
there : or_root (spelled (walk [] (tokens (target_of cwd path)))) ≡ 47 ∷ 100 ∷ 47 ∷ 98 ∷ 99 ∷ []
there = refl

canonical_path-walk_example : canonical_path cwd path ≡ some (47 ∷ 100 ∷ 47 ∷ 98 ∷ 99 ∷ [])
canonical_path-walk_example = canonical_path-walk cwd path (omega arith)
