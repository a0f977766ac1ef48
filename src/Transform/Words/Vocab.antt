-- ===== src/Transform/Words/Vocab.antt =====
-- What `build_word_vocab` takes into the vocabulary.
use zentropy.Prelude.Sort.{length-perm, sort_by, sort_by-perm, All-perm}
use zentropy.Prelude.{
  length-take, ℕ, zero, suc, ◌≤◌, ◌≡◌, refl, ap, ◌∙◌, Bool, true, false, List, [], ◌∷◌, map, length,
  take, drop, All, All-filter_by, All-take, All-map, if◌then◌else◌, arith, Bool-cases, inl, inr,
  filter_by,
}
use mathlib.Core.List.{reverse}
use mathlib.Core.List.Permᴰ
use zentropy.Ir.Scan.{run}
use zentropy.Transform.WordMap.{WordMap, add_one, same}
use zentropy.Transform.Wordwise.{is_word_byte, words_fit}
use zentropy.Transform.Wordwise.Loop.{run-le}
use zentropy.Transform.Words.{
  max_tokens, word_counts_loop, word_counts, is_candidate, ranks_before, candidates,
  build_word_vocab,
}

words_fit-cons :
    (bound b : ℕ) (rest : List ℕ)
    → words_fit bound (b ∷ rest) ≡ true
    → (run is_word_byte (b ∷ rest) ≤ bound) × (words_fit bound rest ≡ true)
unfolding words_fit
words_fit-cons bound b rest h = ground arith

words_fit-drop :
    (bound j : ℕ) (s : List ℕ) → words_fit bound s ≡ true → words_fit bound (drop j s) ≡ true
words_fit-drop bound zero s h = h
words_fit-drop bound (suc j) [] h = h
words_fit-drop bound (suc j) (b ∷ s) h = words_fit-drop bound j s (words_fit-cons bound b s h).1

-- An entry of a word of at most `bound` letters.
abbrev pub Short : ℕ → List ℕ × ℕ → Type 0
Short bound e = length e.0 ≤ bound

add_one-Short :
    (bound : ℕ) (m : WordMap) (w : List ℕ)
    → length w ≤ bound
    → All (Short bound) m
    → All (Short bound) (add_one m w)
unfolding add_one
add_one-Short bound [] w h a = (h, tt)
add_one-Short bound (e ∷ m) w h a = elim (Bool-cases (same e.0 w)) [
  | inl y ↦ rw y a
  | inr n ↦ rw n (a.0, add_one-Short bound m w h a.1)
]

word_counts_loop-Short :
    (bound fuel : ℕ) (m : WordMap) (input : List ℕ)
    → words_fit bound input ≡ true
    → All (Short bound) m
    → All (Short bound) (word_counts_loop fuel m input)
unfolding word_counts_loop
word_counts_loop-Short bound zero m input h a = a
word_counts_loop-Short bound (suc fuel) m [] h a = a
word_counts_loop-Short bound (suc fuel) m (b ∷ rest) h a =
    elim (is_word_byte b)
      as (λ t. All (Short bound) (elim t [
        | true ↦
            let j = run is_word_byte (b ∷ rest) in
            word_counts_loop fuel (add_one m (take j (b ∷ rest))) (drop j (b ∷ rest))
        | false ↦ word_counts_loop fuel m rest
      ])) [
        | true ↦
            let j = run is_word_byte (b ∷ rest) in
            word_counts_loop-Short bound fuel (add_one m (take j (b ∷ rest))) (drop j (b ∷ rest))
              (words_fit-drop bound j (b ∷ rest) h)
              (add_one-Short bound m (take j (b ∷ rest))
                (omega (
                  arith,
                  length-take j (b ∷ rest) (run-le (b ∷ rest)),
                  (words_fit-cons bound b rest h).0,
                ))
                a)
        | false ↦ word_counts_loop-Short bound fuel m rest (words_fit-cons bound b rest h).1 a
      ]

length-take_le {ℓ} : {A : Type ℓ} (n : ℕ) (xs : List A) → length (take n xs) ≤ n
length-take_le zero xs = omega arith
length-take_le (suc n) [] = omega arith
length-take_le (suc n) (x ∷ xs) = omega (arith, length-take_le n xs)

length-map {ℓ κ} :
    {A : Type ℓ} {B : Type κ} (f : A → B) (xs : List A) → length (map f xs) ≡ length xs
length-map f [] = refl
length-map f (x ∷ xs) = ap (λ (n : ℕ). suc n) (length-map f xs)

All-reversed {ℓ κ} :
    {A : Type ℓ} (P : A → Type κ) (reversed : Bool) (xs : List A)
    → All P xs
    → All P (if reversed then reverse xs else xs)
All-reversed P true xs h = All-perm P (Permᴰ.symm (Permᴰ.reverse xs)) h
All-reversed P false xs h = h

length-reversed {ℓ} :
    {A : Type ℓ} (reversed : Bool) (xs : List A)
    → length (if reversed then reverse xs else xs) ≡ length xs
length-reversed true xs = length-perm (Permᴰ.reverse xs)
length-reversed false xs = refl

-- What holds of all counts holds of those that are taken.
All-candidates {κ} :
    (P : List ℕ × ℕ → Type κ) (input : List ℕ) (reversed : Bool)
    → All P (filter_by is_candidate (word_counts input))
    → All P (candidates input reversed)
unfolding candidates
All-candidates P input reversed h =
    All-reversed P reversed _
      (All-take P max_tokens _ (All-perm P (Permᴰ.symm (sort_by-perm ranks_before _)) h))

-- If no run of letters of the input is longer than 255 bytes, then the vocabulary has at most 255
-- words, of at most 255 bytes each.
pub build_word_vocab_fits :
    (input : List ℕ) (reversed : Bool)
    → words_fit 255 input ≡ true
    → (length (build_word_vocab input reversed) ≤ max_tokens)
      × All (λ w. length w ≤ 255) (build_word_vocab input reversed)
unfolding build_word_vocab word_counts candidates
build_word_vocab_fits input reversed h = (
  omega (
    arith,
    length-map (λ (e : List ℕ × ℕ). e.0) (candidates input reversed)
        ∙ length-reversed reversed
            (take max_tokens (sort_by ranks_before (filter_by is_candidate (word_counts input)))),
    length-take_le max_tokens (sort_by ranks_before (filter_by is_candidate (word_counts input))),
  ),
  All-map (λ w. length w ≤ 255) (λ e. e.0) _
      (All-candidates (Short 255) input reversed (
        All-filter_by (Short 255) is_candidate _
          (word_counts_loop-Short 255 (length input) [] input h tt))),
)
