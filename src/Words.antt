-- ===== src/Words.antt =====
-- Bytes and 32-bit words as the structures of the sources hold them in memory: little-endian words
-- of four bytes, one after the other, with no padding.
use ase_plus_plus.Prelude.{
  ℕ, ◌+◌, ◌*◌, ◌/◌, ◌%◌, ◌<◌, ◌≡◌, refl, ap₂, List, [], ◌∷◌, ◌++◌, arith, length, All, get_or,
}

abbrev pub Bytes : Type 0
Bytes = List ℕ

abbrev pub IsWord : ℕ → Type 0
IsWord w = w < 0x1_0000_0000

-- The word of four bytes.
abbrev pub word : ℕ → ℕ → ℕ → ℕ → ℕ
word a b c d = a + 256 * b + 65536 * c + 16777216 * d

-- The words that a memory area holds.
unfoldable pub words : Bytes → List ℕ
words (a ∷ b ∷ c ∷ d ∷ r) = word a b c d ∷ words r
words (a ∷ b ∷ c ∷ []) = []
words (a ∷ b ∷ []) = []
words (a ∷ []) = []
words [] = []

-- The memory area that holds these words.
unfoldable pub unwords : List ℕ → Bytes
unwords [] = []
unwords (w ∷ ws) = w % 256 ∷ w / 256 % 256 ∷ w / 65536 % 256 ∷ w / 16777216 % 256 ∷ unwords ws

-- The word at an index of an area seen as an array of words.
abbrev pub word_at : Bytes → ℕ → ℕ
word_at b i = get_or (words b) i 0

pub words-unwords-append :
    (ws : List ℕ) (r : Bytes) → All IsWord ws → words (unwords ws ++ r) ≡ ws ++ words r
unfolding words unwords
words-unwords-append [] r h = refl
words-unwords-append (w ∷ ws) r h = ap₂ ◌∷◌ (omega arith) (words-unwords-append ws r h.1)

pub words-unwords : (ws : List ℕ) → All IsWord ws → words (unwords ws) ≡ ws
unfolding words unwords
words-unwords [] h = refl
words-unwords (w ∷ ws) h = ap₂ ◌∷◌ (omega arith) (words-unwords ws h.1)

pub length-unwords : (ws : List ℕ) → length (unwords ws) ≡ 4 * length ws
unfolding unwords
length-unwords [] = omega arith
length-unwords (w ∷ ws) = omega (arith, length-unwords ws)
