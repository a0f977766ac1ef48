-- ===== src/Archive/Coder/Bytes.antt =====
-- A byte as its eight bits, highest first.
use zentropy.Prelude.{none}
use zentropy.Prelude.{counterexample-none}
use zentropy.Prelude.{counterexample}
use zentropy.Prelude.{ℕ, ◌%◌, ◌^◌, ◌≡◌, refl, List, [], ◌∷◌, ◌++◌, ◌==◌, ==→eq, arith, All}
use mathlib.Core.List.{foldl}
use zentropy.Entropy.{IsBit, IsByte}
use zentropy.Archive.Coder.{bit_at, push_bit}

abbrev pub bits_of : ℕ → List ℕ
bits_of b =
    bit_at b 128
    ∷ bit_at b 64
    ∷ bit_at b 32
    ∷ bit_at b 16
    ∷ bit_at b 8
    ∷ bit_at b 4
    ∷ bit_at b 2
    ∷ bit_at b 1
    ∷ []

abbrev pub bits_of_all : List ℕ → List ℕ
bits_of_all [] = []
bits_of_all (b ∷ bs) = bits_of b ++ bits_of_all bs

bit_at-IsBit : (b m : ℕ) → IsBit (bit_at b m)
unfolding bit_at
bit_at-IsBit b m = ground arith

pub bits_of_all-IsBit : (bs : List ℕ) → All IsBit (bits_of_all bs)
bits_of_all-IsBit [] = tt
bits_of_all-IsBit (b ∷ bs) = (
  bit_at-IsBit b 128,
  (
    bit_at-IsBit b 64,
    (
      bit_at-IsBit b 32,
      (
        bit_at-IsBit b 16,
        (
          bit_at-IsBit b 8,
          (bit_at-IsBit b 4, (bit_at-IsBit b 2, (bit_at-IsBit b 1, bits_of_all-IsBit bs))),
        ),
      ),
    ),
  ),
)

byte_table : counterexample (λ b. foldl push_bit 0 (bits_of b) % 2 ^ 8 == b) 256 ≡ none
unfolding counterexample bit_at push_bit
byte_table = refl

-- Pushing the bits of a byte one by one gives the byte.
pub foldl-bits_of : (b : ℕ) → IsByte b → foldl push_bit 0 (bits_of b) % 2 ^ 8 ≡ b
foldl-bits_of b h = ==→eq _ b (counterexample-none _ 256 byte_table b h)
