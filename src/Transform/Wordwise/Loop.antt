-- ===== src/Transform/Wordwise/Loop.antt =====
-- A decoder that undoes each word and each other byte undoes the whole loop.
use zentropy.Prelude.{
  length-take, ℕ, zero, suc, ◌≤◌, ◌≡◌, refl, true, false, List, [], ◌∷◌, ◌++◌, take, drop, length,
  All, arith, Bool-cases, inl, inr, take-append-drop, length-drop,
}
use mathlib.Core.Path.{subst}
use native.Mathlib.Nat.{le_refl}
use zentropy.Ir.Scan.{run}
use zentropy.Transform.Wordwise.{is_word_byte, wordwise_loop, wordwise}

-- A list that does not go on with a letter.
abbrev pub Stops : List ℕ → Type 0
Stops s = run is_word_byte s ≡ 0

abbrev pub IsWord : List ℕ → Type 0
IsWord w = All (λ b. is_word_byte b ≡ true) w

run-hit :
    (b : ℕ) (s : List ℕ)
    → is_word_byte b ≡ true
    → run is_word_byte (b ∷ s) ≡ suc (run is_word_byte s)
unfolding run
run-hit b s h = rw h (omega arith)

pub Stops-cons : (b : ℕ) (s : List ℕ) → is_word_byte b ≡ false → Stops (b ∷ s)
unfolding run
Stops-cons b s h = rw h refl

run-nil : run is_word_byte [] ≡ 0
unfolding run
run-nil = refl

take-run : (s : List ℕ) → IsWord (take (run is_word_byte s) s)
take-run [] = rw run-nil tt
take-run (b ∷ s) = elim (Bool-cases (is_word_byte b)) [
  | inl y ↦ rw (run-hit b s y) (y, take-run s)
  | inr n ↦ rw (Stops-cons b s n) tt
]

drop-run : (s : List ℕ) → Stops (drop (run is_word_byte s) s)
drop-run [] = rw run-nil run-nil
drop-run (b ∷ s) = elim (Bool-cases (is_word_byte b)) [
  | inl y ↦ rw (run-hit b s y) (drop-run s)
  | inr n ↦ rw (Stops-cons b s n) (Stops-cons b s n)
]

pub run-le : (s : List ℕ) → run is_word_byte s ≤ length s
run-le [] = omega (arith, run-nil)
run-le (b ∷ s) = elim (Bool-cases (is_word_byte b)) [
  | inl y ↦ omega (arith, run-hit b s y, run-le s)
  | inr n ↦ omega (arith, Stops-cons b s n)
]

-- `Undoes d out input`: in the state `d` the decoder turns `out` into `input`.
module _ {S D : Type 0} (word : S → List ℕ → List ℕ × S) (other : ℕ → List ℕ)
    (InStep : S → D → Type 0) (Undoes : D → List ℕ → List ℕ → Type 0)
    (end : (d : D) → Undoes d [] [])
    (stops : (b : ℕ) (out : List ℕ) → is_word_byte b ≡ false → Stops (other b ++ out))
    (undo_other : (d : D) (b : ℕ) (out rest : List ℕ)
      → is_word_byte b ≡ false
      → Undoes d out rest
      → Undoes d (other b ++ out) (b ∷ rest))
    (undo_word : (s : S) (d : D) (w out rest : List ℕ)
      → InStep s d
      → IsWord w
      → 1 ≤ length w
      → Stops out
      → ((d' : D) → InStep (word s w).1 d' → Undoes d' out rest)
      → Undoes d ((word s w).0 ++ out) (w ++ rest)) where
  round-word :
      (fuel : ℕ) (s : S) (b : ℕ) (rest : List ℕ) (j : ℕ)
      → is_word_byte b ≡ true
      → run is_word_byte (b ∷ rest) ≡ j
      → wordwise_loop word other (suc fuel) s (b ∷ rest)
        ≡ (word s (take j (b ∷ rest))).0
          ++ wordwise_loop word other fuel (word s (take j (b ∷ rest))).1 (drop j (b ∷ rest))
  unfolding wordwise_loop
  round-word fuel s b rest j h e = rw (h, wordwise_loop, e) refl

  round-other :
      (fuel : ℕ) (s : S) (b : ℕ) (rest : List ℕ)
      → is_word_byte b ≡ false
      → wordwise_loop word other (suc fuel) s (b ∷ rest)
        ≡ other b ++ wordwise_loop word other fuel s rest
  unfolding wordwise_loop
  round-other fuel s b rest h = rw (h, wordwise_loop) refl

  loop-Stops :
      (fuel : ℕ) (s : S) (input : List ℕ)
      → Stops input
      → Stops (wordwise_loop word other fuel s input)
  loop-Stops zero s input h = unfold wordwise_loop in run-nil
  loop-Stops (suc fuel) s [] h = unfold wordwise_loop in run-nil
  loop-Stops (suc fuel) s (b ∷ rest) h = elim (Bool-cases (is_word_byte b)) [
    | inl y ↦ absurd (omega (arith, run-hit b rest y))
    | inr n ↦ rw (round-other fuel s b rest n) (stops b _ n)
  ]

  undo_loop :
      (fuel : ℕ) (s : S) (d : D) (input : List ℕ)
      → length input ≤ fuel
      → InStep s d
      → Undoes d (wordwise_loop word other fuel s input) input
  undo_loop zero s d [] h i = unfold wordwise_loop in end d
  undo_loop zero s d (b ∷ rest) h i = absurd (omega arith)
  undo_loop (suc fuel) s d [] h i = unfold wordwise_loop in end d
  undo_loop (suc fuel) s d (b ∷ rest) h i = elim (Bool-cases (is_word_byte b)) [
    | inl y ↦
        let j = run is_word_byte (b ∷ rest) in
        let w = take j (b ∷ rest) in
        let after = drop j (b ∷ rest) in
        let positive : j ≡ suc (run is_word_byte rest) = run-hit b rest y in
        let long : length w ≡ j = length-take j (b ∷ rest) (run-le (b ∷ rest)) in
        let fewer : length after ≤ fuel = omega (arith, length-drop j (b ∷ rest)) in
        subst (λ l. Undoes d (wordwise_loop word other (suc fuel) s (b ∷ rest)) l)
          (take-append-drop j (b ∷ rest))
          (rw (round-word fuel s b rest j y refl) (
            undo_word s d w _ after i (take-run (b ∷ rest)) (omega arith)
              (loop-Stops fuel (word s w).1 after (drop-run (b ∷ rest)))
              (λ d' i'. undo_loop fuel (word s w).1 d' after fewer i')))
    | inr n ↦
        rw (round-other fuel s b rest n)
          (undo_other d b _ rest n (undo_loop fuel s d rest (omega arith) i))
  ]

  pub undo-wordwise :
      (s : S) (d : D) (input : List ℕ) → InStep s d → Undoes d (wordwise word other s input) input
  unfolding wordwise
  undo-wordwise s d input i = undo_loop (length input) s d input (le_refl _) i
