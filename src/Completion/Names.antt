-- ===== src/Completion/Names.antt =====
-- Names without a slash are not completed (src/shell.c).
use ase_plus_plus.Prelude.{
  ℕ, zero, suc, ◌+◌, ◌-◌, ◌≡◌, ◌≢◌, refl, ◌∙◌, arith, List, [], ◌∷◌, All, none,
}
use ase_plus_plus.Words.{Bytes}
use ase_plus_plus.System.{World, pure, ◌>>=◌}
use ase_plus_plus.System.Results.{Gives, Gives-and_then, Gives-after}
use ase_plus_plus.Files.{list_directory}
use ase_plus_plus.Commons.{slash}
use ase_plus_plus.Completion.{
  Listing, slash_from, listed, start_listing, next_entry, list_generator,
}

slash_from_plain : (s : Bytes) (i last : ℕ) → All (λ c. c ≢ slash) s → slash_from i s last ≡ last
slash_from_plain [] i last h = refl
slash_from_plain (c ∷ s) i last h =
    let rest = slash_from_plain s (suc i) last h.1 in ground (arith, rest, h.0)

next_entry-none :
    (n c : ℕ) (s : Bytes) (l : Listing)
    → c ≢ slash
    → l.last_slash ≡ 0
    → (next_entry n (c ∷ s) l).0 ≡ none
unfolding next_entry
next_entry-none zero c s l ne zero' = refl
next_entry-none (suc n) c s l ne zero' =
    let rest = next_entry-none n c s (record l { list_index = l.list_index + 1 }) ne zero' in
    ground (arith, rest, zero')

start_listing-last :
    (raw cwd text : Bytes) (l : Listing) (w : World)
    → Gives (λ l'. l'.last_slash ≡ slash_from 0 text l.last_slash) (start_listing raw cwd text l w)
unfolding start_listing
start_listing-last raw cwd text l w =
    let last = slash_from 0 text l.last_slash in
    let P = λ (l' : Listing). l'.last_slash ≡ last in
    let list = λ (target : Bytes). list_directory raw l.subentries 1024 target in
    let result = λ (r : ℕ × List Bytes).
      pure {A = Listing}
        (record { list_index = 0; last_slash = last; subentries = r.1; entry_lenght = r.0 }) in
    Gives-after P (listed cwd text last w) (λ target. list target >>= result)
      (λ target w1. Gives-after P (list target w1) result (λ r w2. refl))

-- Before a text with a slash was completed, the generator has no name for a text without one, whatever
-- the directory holds: the names that it compares begin with a slash.
pub list_generator-none :
    (raw cwd : Bytes) (c : ℕ) (s : Bytes) (l : Listing) (w : World)
    → All (λ d. d ≢ slash) (c ∷ s)
    → l.last_slash ≡ 0
    → Gives (λ r. r.0 ≡ none) (list_generator raw cwd (c ∷ s) 0 l w)
unfolding list_generator start_listing
list_generator-none raw cwd c s l w plain fresh =
    let kept = slash_from_plain (c ∷ s) 0 l.last_slash plain in
    Gives-and_then (λ (l' : Listing). l'.last_slash ≡ slash_from 0 (c ∷ s) l.last_slash)
      (λ r. r.0 ≡ none) (start_listing raw cwd (c ∷ s) l w) _
      (start_listing-last raw cwd (c ∷ s) l w)
      (λ l' w1 at.
        next_entry-none (l'.entry_lenght - l'.list_index) c s l' plain.0 (at ∙ (kept ∙ fresh)))
