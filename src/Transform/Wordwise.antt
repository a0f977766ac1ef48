-- ===== src/Transform/Wordwise.antt =====
-- src/transform/mod.rs: the loop that the word transforms share. It walks the input by maximal runs
-- of letters; each transform says what it writes for a word and for a byte that is no letter.
pub mod Loop
pub mod Escaped
use zentropy.Prelude.{
  ℕ, zero, suc, Bool, true, false, List, [], ◌∷◌, ◌++◌, take, drop, length, leb, ◌&&◌,
}
use zentropy.Ir.Scan.{is_letter, run}

-- `b.is_ascii_alphabetic()`
unfoldable pub is_word_byte : ℕ → Bool
is_word_byte b = is_letter b

-- The rest of the input from `i` on is a list; `j - i` is the length of the run at its front. A round
-- consumes a byte at least, so the length of the input is enough fuel.
module _ {S : Type 0} (word : S → List ℕ → List ℕ × S) (other : ℕ → List ℕ) where
  unfoldable pub wordwise_loop : ℕ → S → List ℕ → List ℕ
  wordwise_loop zero s input = []
  wordwise_loop (suc fuel) s [] = []
  wordwise_loop (suc fuel) s (b ∷ rest) = elim (is_word_byte b) [
    | true ↦
        let j = run is_word_byte (b ∷ rest) in
        let done = word s (take j (b ∷ rest)) in
        done.0 ++ wordwise_loop fuel done.1 (drop j (b ∷ rest))
    | false ↦ other b ++ wordwise_loop fuel s rest
  ]

  unfoldable pub wordwise : S → List ℕ → List ℕ
  wordwise s input = wordwise_loop (length input) s input

-- No run of letters is longer than `bound`.
unfoldable pub words_fit : ℕ → List ℕ → Bool
words_fit bound [] = true
words_fit bound (b ∷ rest) = leb (run is_word_byte (b ∷ rest)) bound && words_fit bound rest
