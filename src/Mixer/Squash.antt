-- ===== src/Mixer/Squash.antt =====
-- src/mixer/mod.rs: `squash`. An `i32` is kept with 2 ^ 31 added, so that `d & 127` and `d >> 7` are a
-- remainder and a quotient; the result is not negative.
use mathlib.Core.Path.{subst}
use native.Mathlib.Nat.{le_refl}
use zentropy.Prelude.{
  zero, suc, ◌⊎◌, ltb→lt, ltb→le, ℕ, ◌+◌, ◌-◌, ◌*◌, ◌/◌, ◌%◌, ◌^◌, ◌≤◌, ◌<◌, ◌≡◌, refl, Bool, true,
  none, List, [], ◌∷◌, get_or, leb, ltb, if◌then◌else◌, arith, Bool-cases, inl, inr, counterexample,
  counterexample-none,
}

abbrev pub bias : ℕ
bias = 2 ^ 31

abbrev pub curve : List ℕ
curve =
    1 ∷ 2 ∷ 3 ∷ 6 ∷ 10 ∷ 16 ∷ 27 ∷ 45 ∷ 73 ∷ 120 ∷ 194 ∷ 310 ∷ 488 ∷ 747 ∷ 1101 ∷ 1546 ∷ 2047 ∷ 2549
    ∷ 2994 ∷ 3348 ∷ 3607 ∷ 3785 ∷ 3901 ∷ 3975 ∷ 4024 ∷ 4050 ∷ 4068 ∷ 4079 ∷ 4085 ∷ 4089 ∷ 4092
    ∷ 4093 ∷ 4094 ∷ []

-- The interpolation between two entries of the curve.
unfoldable pub interpolate : ℕ → ℕ
interpolate d =
    let w = d % 128 in
    let k = d / 128 + 16 - 2 ^ 24 in
    (get_or curve k 0 * (128 - w) + get_or curve (k + 1) 0 * w + 64) / 128

unfoldable pub squash : ℕ → ℕ
squash d =
    let inside = interpolate d in
    if ltb (bias + 2047) d then 4095 else if ltb d (bias - 2047) then 0 else inside

-- The table of the curve between -2047 and 2047 goes up, within 1 and 4094.
rises : ℕ → Bool
rises i = leb (interpolate (bias - 2047 + i)) (interpolate (bias - 2047 + i + 1))

rises_table : counterexample rises 4094 ≡ none
unfolding counterexample rises interpolate
rises_table = refl

rises-le :
    (d : ℕ) → leb (interpolate d) (interpolate (d + 1)) ≡ true → interpolate d ≤ interpolate (d + 1)
rises-le d h = ground arith

interpolate-rises :
    (d : ℕ) → bias - 2047 ≤ d → d < bias + 2047 → interpolate d ≤ interpolate (d + 1)
interpolate-rises d low high =
    let at : bias - 2047 + (d - (bias - 2047)) ≡ d = omega arith in
    let step = counterexample-none rises 4094 rises_table (d - (bias - 2047)) (omega arith) in
    rises-le d (
      subst (λ (e : ℕ). leb (interpolate e) (interpolate (e + 1)) ≡ true) at (unfold rises in step))

interpolate_mono :
    (n d : ℕ) → bias - 2047 ≤ d → d + n ≤ bias + 2047 → interpolate d ≤ interpolate (d + n)
interpolate_mono zero d low high = let e : d + 0 ≡ d = omega arith in rw e (le_refl _)
interpolate_mono (suc n) d low high =
    let e : d + suc n ≡ d + n + 1 = omega arith in
    rw e (
      omega (
        arith,
        interpolate_mono n d low (omega arith),
        interpolate-rises (d + n) (omega arith) (omega arith),
      ))

first_entry : interpolate (bias - 2047) ≡ 1
unfolding interpolate
first_entry = refl

last_entry : interpolate (bias + 2047) ≡ 4094
unfolding interpolate
last_entry = refl

squash-inside : (d : ℕ) → bias - 2047 ≤ d → d ≤ bias + 2047 → squash d ≡ interpolate d
unfolding squash
squash-inside d low high = ground arith

interpolate-between :
    (d : ℕ) → bias - 2047 ≤ d → d ≤ bias + 2047 → (1 ≤ interpolate d) × (interpolate d ≤ 4094)
interpolate-between d low high =
    let below : bias - 2047 + (d - (bias - 2047)) ≡ d = omega arith in
    let above : d + (bias + 2047 - d) ≡ bias + 2047 = omega arith in
    let up =
      rw below at
        (interpolate_mono (d - (bias - 2047)) (bias - 2047) (omega arith) (omega arith)) in
    let down = rw above at (interpolate_mono (bias + 2047 - d) d low (omega arith)) in
    (omega (arith, up, first_entry), omega (arith, down, last_entry))

squash-cases :
    (d : ℕ)
    → ((d < bias - 2047) × (squash d ≡ 0))
      ⊎ (((bias - 2047 ≤ d) × (d ≤ bias + 2047) × (squash d ≡ interpolate d))
          ⊎ ((bias + 2047 < d) × (squash d ≡ 4095)))
squash-cases d = elim (Bool-cases (ltb (bias + 2047) d)) [
  | inl over ↦ inr (inr (ltb→lt _ _ over, unfold squash in rw over refl))
  | inr fits ↦ elim (Bool-cases (ltb d (bias - 2047))) [
    | inl under ↦ inl (ltb→lt _ _ under, unfold squash in rw (fits, under) refl)
    | inr inside ↦
        let low = ltb→le _ _ inside in
        let high = ltb→le _ _ fits in inr (inl (low, high, squash-inside d low high))
  ]
]

-- A 12-bit probability, and never 0 or 4095 between the two ends of the curve.
pub squash-bound :
    (d : ℕ)
    → (squash d ≤ 4095) × (bias - 2047 ≤ d → d ≤ bias + 2047 → (1 ≤ squash d) × (squash d ≤ 4094))
squash-bound d = elim (squash-cases d) [
  | inl (under, e) ↦ (omega (arith, e), λ low high. absurd (omega arith))
  | inr (inl (low', high', e)) ↦
      let (one, top) = interpolate-between d low' high' in
      (omega (arith, e, top), λ low high. (omega (arith, e, one), omega (arith, e, top)))
  | inr (inr (over, e)) ↦ (omega (arith, e), λ low high. absurd (omega arith))
]

-- The curve goes up on the whole range of an `i32`.
pub squash_mono : (d e : ℕ) → d ≤ e → squash d ≤ squash e
squash_mono d e h = elim (squash-cases d) [
  | inl (under, v) ↦ omega (arith, v)
  | inr (inr (over, v)) ↦ elim (squash-cases e) [
    | inl (under', w) ↦ absurd (omega arith)
    | inr (inl (low', high', w)) ↦ absurd (omega arith)
    | inr (inr (over', w)) ↦ omega (arith, v, w)
  ]
  | inr (inl (low, high, v)) ↦ elim (squash-cases e) [
    | inl (under', w) ↦ absurd (omega arith)
    | inr (inr (over', w)) ↦ omega (arith, w, (squash-bound d).0)
    | inr (inl (low', high', w)) ↦
        let whole : d + (e - d) ≡ e = omega arith in
        let step = rw whole at (interpolate_mono (e - d) d low (omega arith)) in
        omega (arith, v, w, step)
  ]
]
