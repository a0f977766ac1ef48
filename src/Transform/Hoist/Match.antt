-- ===== src/Transform/Hoist/Match.antt =====
-- The dictionary search of `encode`: what it finds, and that nothing longer fits.
use zentropy.Prelude.{
  ℕ, suc, ◌+◌, ◌-◌, ◌%◌, ◌^◌, ◌≤◌, ◌<◌, ◌≡◌, refl, ap, true, false, Option, none, some, List, [],
  ◌∷◌, leb, length, drop, get_elem?, All, starts_with, arith, Bool-cases, inl, inr, drop-eq-cons,
  length-drop,
}
use zentropy.Transform.Hoist.{dict, match_step, match_loop, best_match}

-- Stated for any dictionary of at most 255 entries, none of them empty.
module _ (words : List (List ℕ)) (input : List ℕ) where
  -- A candidate is an entry that the input starts with, by its length and its code.
  abbrev pub Fits : Option (ℕ × ℕ) → Type 0
  Fits none = Unit
  Fits (some (l, code)) =
      (entry : List ℕ) × (get_elem? words (code - 1) ≡ some entry)
      × (l ≡ length entry)
      × (starts_with input entry ≡ true)
      × (1 ≤ code)
      × (code ≤ length words)
      × (1 ≤ l)

  -- If the input starts with the entry, the candidate is at least as long.
  abbrev pub Covers : Option (ℕ × ℕ) → List ℕ → Type 0
  Covers none entry = starts_with input entry ≡ false
  Covers (some (l, code)) entry = starts_with input entry ≡ true → length entry ≤ l

  module _ (idx : ℕ) (entry : List ℕ) where
    fresh-Fits :
        get_elem? words idx ≡ some entry
        → idx < length words
        → length words < 256
        → 1 ≤ length entry
        → starts_with input entry ≡ true
        → Fits (some (length entry, (idx + 1) % 2 ^ 8))
    fresh-Fits at lt short pos fits =
        let code : (idx + 1) % 2 ^ 8 - 1 ≡ idx = omega arith in
        (entry, rw code at, refl, fits, omega arith, omega arith, pos)

    match_step-Fits :
        (best : Option (ℕ × ℕ))
        → (starts_with input entry ≡ true → Fits (some (length entry, (idx + 1) % 2 ^ 8)))
        → Fits best
        → Fits (match_step input idx entry best)
    unfolding match_step
    match_step-Fits none new fits = elim (Bool-cases (starts_with input entry)) [
      | inl y ↦ rw y (new y)
      | inr n ↦ rw n tt
    ]
    match_step-Fits (some (bl, code)) new fits = elim (Bool-cases (starts_with input entry)) [
      | inl y ↦ elim (Bool-cases (leb (length entry) bl)) [
        | inl short ↦ rw (y, short) fits
        | inr long ↦ rw (y, long) (new y)
      ]
      | inr n ↦ rw n fits
    ]

    match_step-Covers : (best : Option (ℕ × ℕ)) → Covers (match_step input idx entry best) entry
    unfolding match_step
    match_step-Covers none = elim (Bool-cases (starts_with input entry)) [
      | inl y ↦ rw y (λ _. omega arith)
      | inr n ↦ rw n n
    ]
    match_step-Covers (some (bl, code)) = elim (Bool-cases (starts_with input entry)) [
      | inl y ↦ elim (Bool-cases (leb (length entry) bl)) [
        | inl short ↦ rw (y, short) (λ _. ground arith)
        | inr long ↦ rw (y, long) (λ _. omega arith)
      ]
      | inr n ↦ rw n (λ y. cc)
    ]

    match_step-keeps_Covers :
        (best : Option (ℕ × ℕ)) (other : List ℕ)
        → Covers best other
        → Covers (match_step input idx entry best) other
    unfolding match_step
    match_step-keeps_Covers none other c = elim (Bool-cases (starts_with input entry)) [
      | inl y ↦ rw y (λ z. cc)
      | inr n ↦ rw n c
    ]
    match_step-keeps_Covers (some (bl, code)) other c =
        elim (Bool-cases (starts_with input entry)) [
          | inl y ↦ elim (Bool-cases (leb (length entry) bl)) [
            | inl short ↦ rw (y, short) c
            | inr long ↦ rw (y, long) (λ z. ground (arith, c z))
          ]
          | inr n ↦ rw n c
        ]

module _ (words : List (List ℕ)) (input : List ℕ) where
  pub match_loop-Fits :
      (entries : List (List ℕ)) (idx : ℕ) (best : Option (ℕ × ℕ))
      → drop idx words ≡ entries
      → length words < 256
      → All (λ e. 1 ≤ length e) entries
      → Fits words input best
      → Fits words input (match_loop input idx entries best)
  unfolding match_loop
  match_loop-Fits [] idx best e short pos fits = fits
  match_loop-Fits (entry ∷ entries) idx best e short pos fits =
      let (at, rest) = drop-eq-cons idx words entry entries e in
      let inside : idx < length words = omega (arith, length-drop idx words, ap length e) in
      let next : idx + 1 ≡ suc idx = omega arith in
      match_loop-Fits entries (idx + 1) (match_step input idx entry best) (rw next rest) short pos.1
        (match_step-Fits words input idx entry best
          (fresh-Fits words input idx entry at inside short pos.0) fits)

  pub match_loop-keeps_Covers :
      (entries : List (List ℕ)) (idx : ℕ) (best : Option (ℕ × ℕ)) (other : List ℕ)
      → Covers words input best other
      → Covers words input (match_loop input idx entries best) other
  unfolding match_loop
  match_loop-keeps_Covers [] idx best other c = c
  match_loop-keeps_Covers (entry ∷ entries) idx best other c =
      match_loop-keeps_Covers entries (idx + 1) _ other
        (match_step-keeps_Covers words input idx entry best other c)

  pub match_loop-Covers :
      (entries : List (List ℕ)) (idx : ℕ) (best : Option (ℕ × ℕ))
      → All (Covers words input (match_loop input idx entries best)) entries
  unfolding match_loop
  match_loop-Covers [] idx best = tt
  match_loop-Covers (entry ∷ entries) idx best = (
    match_loop-keeps_Covers entries (idx + 1) _ entry
        (match_step-Covers words input idx entry best),
    match_loop-Covers entries (idx + 1) (match_step input idx entry best),
  )

-- What the search finds is an entry that the input starts with, by its length and its code, and no
-- entry that the input starts with is longer; if it finds nothing, the input starts with none.
pub best_match_lem :
    (input : List ℕ)
    → Fits dict input (best_match input) × All (Covers dict input (best_match input)) dict
unfolding best_match
best_match_lem input = (
  match_loop-Fits dict input dict 0 none refl (omega arith) (omega arith) tt,
  match_loop-Covers dict input dict 0 none,
)
