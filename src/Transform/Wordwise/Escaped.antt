-- ===== src/Transform/Wordwise/Escaped.antt =====
-- Decoders for the transforms that write marks in front of words, and escape the bytes up to the
-- last mark: what case factoring and stemming have in common.
use zentropy.Prelude.{
  ℕ, zero, suc, ◌≤◌, ◌<◌, ◌≡◌, refl, ap, ◌∙◌, Bool, true, false, List, [], ◌∷◌, ◌++◌, take, drop,
  length, All, leb, if◌then◌else◌, arith, Bool-cases, inl, inr, length-append, take-append_self,
  drop-append_self,
}
use zentropy.Ir.Scan.{run, is_letter}
use zentropy.Transform.Wordwise.{is_word_byte, wordwise}
use zentropy.Transform.Wordwise.Loop.{IsWord, Stops, Stops-cons, undo-wordwise}

pub run-append :
    (test : ℕ → Bool) (w out : List ℕ)
    → All (λ b. test b ≡ true) w
    → run test out ≡ 0
    → run test (w ++ out) ≡ length w
unfolding run
run-append test [] out h stop = stop
run-append test (b ∷ w) out h stop = rw h.0 (omega (arith, run-append test w out h.1 stop))

module _ (loop : ℕ → List ℕ → List ℕ) (mark : ℕ) (low : mark < 0x41)
    (nil : (fuel : ℕ) → loop fuel [] ≡ [])
    (esc : (fuel b : ℕ) (s : List ℕ) → loop (suc fuel) (0 ∷ b ∷ s) ≡ b ∷ loop fuel s)
    (plain : (fuel b : ℕ) (s : List ℕ)
      → leb b mark ≡ false
      → loop (suc fuel) (b ∷ s) ≡ b ∷ loop fuel s) where
  -- The decoder turns `out` into `input`, with whatever fuel is enough.
  abbrev pub Undone : List ℕ → List ℕ → Type 0
  Undone out input = (fuel : ℕ) → length out ≤ fuel → loop fuel out ≡ input

  Undone-plain :
      (b : ℕ) (out input : List ℕ)
      → leb b mark ≡ false
      → Undone out input
      → Undone (b ∷ out) (b ∷ input)
  Undone-plain b out input h u zero enough = absurd (omega arith)
  Undone-plain b out input h u (suc fuel) enough =
      plain fuel b out h ∙ ap (λ s. b ∷ s) (u fuel (omega arith))

  Undone-esc : (b : ℕ) (out input : List ℕ) → Undone out input → Undone (0 ∷ b ∷ out) (b ∷ input)
  Undone-esc b out input u zero enough = absurd (omega arith)
  Undone-esc b out input u (suc fuel) enough =
      esc fuel b out ∙ ap (λ s. b ∷ s) (u fuel (omega arith))

  abbrev pub escape : ℕ → List ℕ
  escape b = if leb b mark then 0 ∷ b ∷ [] else b ∷ []

  Undone-escape :
      (b : ℕ) (out input : List ℕ) → Undone out input → Undone (escape b ++ out) (b ∷ input)
  Undone-escape b out input u = elim (Bool-cases (leb b mark)) [
    | inl y ↦ rw y (Undone-esc b out input u)
    | inr n ↦ rw n (Undone-plain b out input n u)
  ]

  letter_plain : (b : ℕ) → is_word_byte b ≡ true → leb b mark ≡ false
  unfolding is_word_byte is_letter
  letter_plain b h = ground (arith, low)

  pub Undone-word :
      (w out input : List ℕ) → IsWord w → Undone out input → Undone (w ++ out) (w ++ input)
  Undone-word [] out input h u = u
  Undone-word (b ∷ w) out input h u =
      Undone-plain b (w ++ out) (w ++ input) (letter_plain b h.0) (Undone-word w out input h.1 u)

  -- A mark that says what to do with the letters behind it.
  pub Undone-marked :
      (front : List ℕ) (test : ℕ → Bool) (change : List ℕ → List ℕ) (w out input : List ℕ)
      → 1 ≤ length front
      → ((fuel : ℕ) (s : List ℕ)
          → loop (suc fuel) (front ++ s)
            ≡ change (take (run test s) s) ++ loop fuel (drop (run test s) s))
      → All (λ b. test b ≡ true) w
      → run test out ≡ 0
      → Undone out input
      → Undone (front ++ (w ++ out)) (change w ++ input)
  Undone-marked front test change w out input long does h stop u zero enough =
      absurd (omega (arith, length-append front (w ++ out)))
  Undone-marked front test change w out input long does h stop u (suc fuel) enough =
      does fuel (w ++ out)
      ∙ rw (run-append test w out h stop, take-append_self w out, drop-append_self w out)
          (ap (λ s. change w ++ s)
            (u fuel (omega (arith, length-append front (w ++ out), length-append w out))))

  escape-Stops : (b : ℕ) (out : List ℕ) → is_word_byte b ≡ false → Stops (escape b ++ out)
  escape-Stops b out h = elim (Bool-cases (leb b mark)) [
    | inl y ↦ rw y (Stops-cons 0 (b ∷ out) (unfold is_word_byte is_letter in refl))
    | inr n ↦ rw n (Stops-cons b out h)
  ]

  -- If every word is undone in front of what follows it, the whole input is.
  pub Undone-wordwise :
      (word : List ℕ → List ℕ)
      → ((w out rest : List ℕ)
          → IsWord w
          → 1 ≤ length w
          → Stops out
          → Undone out rest
          → Undone (word w ++ out) (w ++ rest))
      → (input : List ℕ) → Undone (wordwise {S = Unit} (λ s w. (word w, tt)) escape tt input) input
  Undone-wordwise word words input =
      undo-wordwise {S = Unit} {D = Unit} (λ s w. (word w, tt)) escape (λ s d. Unit) (λ d. Undone)
        (λ d fuel enough. nil fuel) (λ b out h. escape-Stops b out h)
        (λ d b out rest h u. Undone-escape b out rest u)
        (λ s d w out rest i letters long stop next. words w out rest letters long stop (next tt tt))
        tt tt input tt
