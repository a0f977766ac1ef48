-- ===== src/Transform/Stem/RoundTrip.antt =====
-- `stem_decode` undoes `stem_encode`.
use zentropy.Prelude.{
  ◌<◌, All-take, ℕ, zero, suc, ◌+◌, ◌-◌, ◌%◌, ◌^◌, ◌≤◌, ◌≡◌, refl, sym, ap, ◌∙◌, true, false,
  Option, none, some, List, [], ◌∷◌, ◌++◌, length, take, drop, get_or, leb, ◌==◌, arith, Bool-cases,
  Option-cases, inl, inr, take-append-drop,
}
use mathlib.Core.Path.{subst}
use native.Mathlib.Nat.{le_refl, zero-add}
use zentropy.Ir.Scan.{run}
use zentropy.Transform.WordMap.{same, same→eq}
use zentropy.Transform.Wordwise.{is_word_byte}
use zentropy.Transform.Wordwise.Loop.{IsWord, Stops}
use zentropy.Transform.Wordwise.Escaped.{Undone, Undone-word, Undone-marked, Undone-wordwise}
use zentropy.Transform.Stem.{
  stem_mark, suffixes, fits, stem_step, stem_loop, stem_split, stem_word, stem_byte, stem_encode,
  stem_decode_loop, stem_decode,
}

stem-nil : (fuel : ℕ) → stem_decode_loop fuel [] ≡ []
unfolding stem_decode_loop
stem-nil zero = refl
stem-nil (suc fuel) = refl

stem-esc :
    (fuel b : ℕ) (s : List ℕ)
    → stem_decode_loop (suc fuel) (0 ∷ b ∷ s) ≡ b ∷ stem_decode_loop fuel s
unfolding stem_decode_loop
stem-esc fuel b s = refl

stem-plain :
    (fuel b : ℕ) (s : List ℕ)
    → leb b stem_mark ≡ false
    → stem_decode_loop (suc fuel) (b ∷ s) ≡ b ∷ stem_decode_loop fuel s
unfolding stem_decode_loop
stem-plain fuel b s h =
    let e0 : (b == 0) ≡ false = ground arith in
    let e1 : (b == 1) ≡ false = ground arith in rw (e0, stem_decode_loop, e1, stem_decode_loop) refl

stem-marked :
    (code fuel : ℕ) (s : List ℕ)
    → stem_decode_loop (suc fuel) (stem_mark ∷ code ∷ s)
      ≡ (take (run is_word_byte s) s ++ get_or suffixes code [])
        ++ stem_decode_loop fuel (drop (run is_word_byte s) s)
unfolding stem_decode_loop
stem-marked code fuel s = refl

-- The suffix that a code stands for ends the word.
abbrev Ends : List ℕ → Option (ℕ × ℕ) → Type 0
Ends w none = Unit
Ends w (some (l, code)) = (l + 2 ≤ length w) × (drop (length w - l) w ≡ get_or suffixes code [])

module _ (w : List ℕ) where
  fits-Ends :
      (i : ℕ) (suf : List ℕ)
      → i < 256
      → get_or suffixes i [] ≡ suf
      → fits w suf ≡ true
      → Ends w (some (length suf, i % 2 ^ 8))
  unfolding fits
  fits-Ends i suf small at h =
      let number : i % 2 ^ 8 ≡ i = omega arith in
      let ends : same (drop (length w - length suf) w) suf ≡ true = ground arith in
      (ground arith, same→eq _ _ ends ∙ sym at ∙ ap (λ (k : ℕ). get_or suffixes k []) (sym number))

  stem_step-Ends :
      (i : ℕ) (suf : List ℕ) (best : Option (ℕ × ℕ))
      → i < 256
      → get_or suffixes i [] ≡ suf
      → Ends w best
      → Ends w (stem_step w i suf best)
  unfolding stem_step
  stem_step-Ends i suf none small at h = elim (Bool-cases (fits w suf)) [
    | inl y ↦ rw y (fits-Ends i suf small at y)
    | inr n ↦ rw n h
  ]
  stem_step-Ends i suf (some (bl, code)) small at h = elim (Bool-cases (fits w suf)) [
    | inr n ↦ rw n h
    | inl y ↦ rw y (elim (Bool-cases (leb (length suf) bl)) [
      | inl shorter ↦ rw shorter h
      | inr longer ↦ rw longer (fits-Ends i suf small at y)
    ])
  ]

  stem_loop-Ends :
      (i : ℕ) (sufs : List (List ℕ)) (best : Option (ℕ × ℕ))
      → i + length sufs ≤ 256
      → ((k : ℕ) → k < length sufs → get_or suffixes (i + k) [] ≡ get_or sufs k [])
      → Ends w best
      → Ends w (stem_loop w i sufs best)
  unfolding stem_loop
  stem_loop-Ends i [] best small at h = h
  stem_loop-Ends i (suf ∷ sufs) best small at h =
      let here : i + 0 ≡ i = omega arith in
      stem_loop-Ends (i + 1) sufs (stem_step w i suf best) (omega arith)
        (λ k below.
          let next : i + 1 + k ≡ i + suc k = omega arith in
          ap (λ (j : ℕ). get_or suffixes j []) next ∙ at (suc k) (omega arith))
        (stem_step-Ends i suf best (omega arith)
          (ap (λ (j : ℕ). get_or suffixes j []) (sym here) ∙ at 0 (omega arith)) h)

  stem_split-Ends : Ends w (stem_split w)
  unfolding stem_split
  stem_split-Ends =
      stem_loop-Ends 0 suffixes none (omega arith)
        (λ k below. ap (λ (j : ℕ). get_or suffixes j []) (zero-add k)) tt

abbrev StemUndone : List ℕ → List ℕ → Type 0
StemUndone = Undone stem_decode_loop stem_mark (omega arith) stem-nil stem-esc stem-plain

take-IsWord : (n : ℕ) (w : List ℕ) → IsWord w → IsWord (take n w)
take-IsWord n w h = All-take (λ b. is_word_byte b ≡ true) n w h

stem_word-none : (w : List ℕ) → stem_split w ≡ none → stem_word w ≡ w
unfolding stem_word
stem_word-none w h = rw (h, stem_word) refl

stem_word-some :
    (w : List ℕ) (l code : ℕ)
    → stem_split w ≡ some (l, code)
    → stem_word w ≡ stem_mark ∷ code ∷ take (length w - l) w
unfolding stem_word
stem_word-some w l code h = rw (h, stem_word) refl

stem_word-undone :
    (w out rest : List ℕ)
    → IsWord w
    → Stops out
    → StemUndone out rest
    → StemUndone (stem_word w ++ out) (w ++ rest)
stem_word-undone w out rest letters stop u = elim (Option-cases (stem_split w)) [
  | inl missing ↦ rw (stem_word-none w missing) (
      Undone-word stem_decode_loop stem_mark (omega arith) stem-nil stem-esc stem-plain w out rest
        letters u)
  | inr ((l, code), found) ↦
      let stem = take (length w - l) w in
      let (long, ends) : Ends w (some (l, code)) = rw found at (stem_split-Ends w) in
      let whole : stem ++ get_or suffixes code [] ≡ w =
        ap (λ r. stem ++ r) (sym ends) ∙ take-append-drop (length w - l) w in
      rw (stem_word-some w l code found) (
        subst (λ v. StemUndone (stem_mark ∷ code ∷ stem ++ out) (v ++ rest)) whole
          (Undone-marked stem_decode_loop stem_mark (omega arith) stem-nil stem-esc stem-plain
            (stem_mark ∷ code ∷ []) is_word_byte (λ v. v ++ get_or suffixes code []) stem out rest
            (omega arith) (stem-marked code) (take-IsWord (length w - l) w letters) stop u))
]

-- Stemming is lossless: the decoder gives back every input, whatever bytes it has.
pub stem_decode-stem_encode : (input : List ℕ) → stem_decode (stem_encode input) ≡ input
unfolding stem_decode stem_encode stem_byte
stem_decode-stem_encode input =
    Undone-wordwise stem_decode_loop stem_mark (omega arith) stem-nil stem-esc stem-plain stem_word
      (λ w out rest letters long stop u. stem_word-undone w out rest letters stop u) input
      (length (stem_encode input)) (le_refl _)
