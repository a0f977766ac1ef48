-- ===== src/Mixer/Apm/InRange.antt =====
-- The entries of an `Apm` stay 16-bit numbers, and its indices inside the table.
use zentropy.Prelude.{
  All-every, All-set, All-map, All-get_or, All-append, ℕ, zero, suc, ◌+◌, ◌-◌, ◌*◌, ◌/◌, ◌%◌, ◌^◌,
  ◌≤◌, ◌<◌, ◌≡◌, refl, ◌∙◌, List, length, get_or, All, ◌==◌, arith, length-append, length-set, ap,
  min, false,
}
use zentropy.Prelude.Int.{
  ℤ, pos, negsuc, ◌+ℤ◌, ◌*ℤ◌, shift_right, to_i32-pos, to_i32-negsuc, add-pos, add-negsuc, sub-pos,
  sub-pos_below, mul-pos,
}
use native.Mathlib.Nat.{
  div-lt_iff_lt-mul, le-mul_of_pos_right, one-le-pow, mul-le-mul_right, mod-lt, suc-mul,
  div-le_self, pow-le-pow_right,
}
use zentropy.Reorder.Shuffle.{upto}
use zentropy.Mixer.Squash.{bias, squash, squash-bound}
use zentropy.Mixer.Apm.{
  Apm, identity_row, rows, new, interpolated, clamp_12, predict, one_shifted, adapt, goal, adapt_at,
  update,
}

-- A 16-bit number that is not negative.
abbrev pub Entry : ℤ → Type 0
Entry (pos x) = x ≤ 65535
Entry (negsuc x) = ⊥

abbrev Small : List ℤ → Type 0
Small t = All Entry t

-- `n` rows of 33 entries below 2 ^ 16, and an index whose upper neighbour is in the table too.
pub record InRange (a : Apm) : Type 0 where
  pub size : length a.t ≡ a.n * 33
  pub small : Small a.t
  pub inside : a.idx + 1 < length a.t

part-le : (u r : ℕ) → 1 ≤ r → (u + r - 1) / r ≤ u
part-le u r positive =
    let wide : u ≤ u * r = le-mul_of_pos_right u positive in
    let both : (u + 1) * r ≡ u * r + r = omega (arith, suc-mul u r) in
    let less : (u + r - 1) / r < u + 1 =
      (div-lt_iff_lt-mul positive).1 (omega (arith, wide, both)) in
    omega (arith, less)

pow-bounds : (rate : ℕ) → rate < 31 → (1 ≤ 2 ^ rate) × (2 ^ rate ≤ 2 ^ 30)
pow-bounds rate h =
    (one-le-pow rate 2 (omega arith), pow-le-pow_right {n = 2} (omega arith) {j = 30} (omega arith))

goal-zero : (rate : ℕ) → goal rate 0 ≡ pos 0
unfolding goal
goal-zero rate = refl

goal-one : (rate y : ℕ) → rate < 31 → (y == 0) ≡ false → goal rate y ≡ pos (2 ^ 16 + 2 ^ rate - 2)
unfolding goal one_shifted
goal-one rate y h e =
    let (low, high) = pow-bounds rate h in
    let amount : rate % 32 ≡ rate = omega arith in
    rw
      (
        e,
        amount,
        to_i32-pos (2 ^ rate) (omega (arith, high)),
        add-pos (2 ^ 16) (2 ^ rate),
        to_i32-pos (2 ^ 16 + 2 ^ rate) (omega (arith, high)),
      )
      (rw
        (
          sub-pos (2 ^ 16 + 2 ^ rate) 2 (omega arith),
          to_i32-pos (2 ^ 16 + 2 ^ rate - 2) (omega (arith, high)),
        )
        refl)

module _ (rate x : ℕ) (h : rate < 31) (small : x ≤ 65535) where
  amount : rate % 32 ≡ rate
  amount = omega arith

  -- Towards a goal that is not below, the entry does not pass 65535 if the step does not.
  adapt-up :
      (g : ℕ)
      → x ≤ g
      → g < 2 ^ 31
      → (g - x) / 2 ^ rate ≤ 65535 - x
      → Entry (adapt rate (pos g) (pos x))
  unfolding adapt shift_right
  adapt-up g low high part =
      rw
        (
          amount,
          sub-pos g x low,
          to_i32-pos (g - x) (omega arith),
          add-pos x ((g - x) / 2 ^ rate),
          to_i32-pos (x + (g - x) / 2 ^ rate) (omega (arith, part)),
        )
        (omega (arith, part))

  adapt-down : 0 < x → Entry (adapt rate (pos 0) (pos x))
  unfolding adapt shift_right
  adapt-down positive =
      let q = (x - 0 - 1) / 2 ^ rate in
      let part : q ≤ x - 0 - 1 = div-le_self (x - 0 - 1) (2 ^ rate) in
      rw
        (
          amount,
          sub-pos_below 0 x positive,
          to_i32-negsuc (x - 0 - 1) (omega arith),
          add-negsuc x q (omega (arith, part)),
          to_i32-pos (x - suc q) (omega arith),
        )
        (omega arith)

  adapt-one : Entry (adapt rate (pos (2 ^ 16 + 2 ^ rate - 2)) (pos x))
  adapt-one =
      let (low, high) = pow-bounds rate h in
      let gap : 2 ^ 16 + 2 ^ rate - 2 - x ≡ 65535 - x + 2 ^ rate - 1 = omega (arith, low) in
      adapt-up (2 ^ 16 + 2 ^ rate - 2) (omega (arith, low)) (omega (arith, high))
        (rw gap (part-le (65535 - x) (2 ^ rate) low))

adapt-zero : (rate x : ℕ) → rate < 31 → x ≤ 65535 → Entry (adapt rate (pos 0) (pos x))
adapt-zero rate zero h small =
    adapt-up rate 0 h small 0 (omega arith) (omega arith) (omega (arith, div-le_self 0 (2 ^ rate)))
adapt-zero rate (suc x) h small = adapt-down rate (suc x) h small (omega arith)

adapt-goal : (rate y : ℕ) → rate < 31 → (z : ℤ) → Entry z → Entry (adapt rate (goal rate y) z)
adapt-goal rate y h (negsuc x) small = absurd small
adapt-goal rate zero h (pos x) small = rw (goal-zero rate) (adapt-zero rate x h small)
adapt-goal rate (suc y) h (pos x) small =
    rw (goal-one rate (suc y) h (ground arith)) (adapt-one rate x h small)

adapt_at-Small :
    (rate y i : ℕ) (t : List ℤ) → rate < 31 → Small t → Small (adapt_at rate (goal rate y) i t)
unfolding adapt_at
adapt_at-Small rate y i t h s =
    All-set Entry t i _ s
      (adapt-goal rate y h (get_or t i (pos 0)) (All-get_or Entry t i (pos 0) s (omega arith)))

row-Small : Small identity_row
unfolding identity_row
row-Small =
    All-map Entry (λ j. pos (squash (bias + j * 128 - 16 * 128) * 16)) (upto 0 33)
      (All-every (λ j. squash (bias + j * 128 - 16 * 128) * 16 ≤ 65535) (upto 0 33)
        (λ j. omega (arith, (squash-bound (bias + j * 128 - 16 * 128)).0)))

row_length : length identity_row ≡ 33
unfolding identity_row upto
row_length = refl

rows-length : (k : ℕ) → length (rows k) ≡ k * 33
unfolding rows
rows-length zero = refl
rows-length (suc k) = omega (arith, length-append identity_row (rows k), row_length, rows-length k)

rows-Small : (k : ℕ) → Small (rows k)
unfolding rows
rows-Small zero = tt
rows-Small (suc k) = All-append Entry identity_row (rows k) row-Small (rows-Small k)

-- A new map is in range, for one context at least.
pub new-InRange : (n rate : ℕ) → 1 ≤ n → InRange (new n rate)
unfolding new
new-InRange n rate h = record {
  size = rows-length n;
  small = rows-Small n;
  inside = omega (arith, rows-length n);
}

adapt_at-length : (rate k : ℕ) (g : ℤ) (t : List ℤ) → length (adapt_at rate g k t) ≡ length t
unfolding adapt_at
adapt_at-length rate k g t = length-set t k _

-- Between two entries, the interpolation is a 12-bit number.
interpolated-at :
    (a b : ℤ) (w : ℕ)
    → Entry a
    → Entry b
    → w < 128
    → (v : ℕ) × (shift_right (a *ℤ pos (128 - w) +ℤ b *ℤ pos w) 11 ≡ pos v) × (v ≤ 4095)
unfolding shift_right
interpolated-at (negsuc a) b w h k less = absurd h
interpolated-at (pos a) (negsuc b) w h k less = absurd k
interpolated-at (pos a) (pos b) w h k less = (
  (a * (128 - w) + b * w) / 2 ^ 11,
  rw (mul-pos a (128 - w), mul-pos b w, add-pos (a * (128 - w)) (b * w)) refl,
  omega (arith, mul-le-mul_right (128 - w) h, mul-le-mul_right w k),
)

interpolated-clamp :
    (t : List ℤ) (i w : ℕ)
    → Small t
    → w < 128
    → (pos (clamp_12 (interpolated t i w)) ≡ interpolated t i w)
      × (clamp_12 (interpolated t i w) ≤ 4095)
unfolding interpolated clamp_12
interpolated-clamp t i w h less =
    let a = All-get_or Entry t i (pos 0) h (omega arith) in
    let b = All-get_or Entry t (i + 1) (pos 0) h (omega arith) in
    let (v, e, top) = interpolated-at _ _ w a b less in
    let low : min v 4095 ≡ v = omega arith in rw e (ap pos low, omega arith)

-- One coded bit: the prediction is a 12-bit number without the clamp, and the entries that are then
-- adapted are in the table, whose entries stay 16-bit numbers. This holds for each prediction of
-- 12 bits, each context and bit, and each rate below 31, so that `1 << rate` is positive.
pub update-predict-InRange :
    (a : Apm) (pr cxt y : ℕ)
    → pr ≤ 4095
    → a.rate < 31
    → InRange a
    → (pos (predict a pr cxt).0 ≡ interpolated a.t (cxt % a.n * 33 + pr / 128) (pr % 128))
      × ((predict a pr cxt).0 ≤ 4095)
      × InRange (predict a pr cxt).1
      × InRange (update (predict a pr cxt).1 y)
unfolding predict update
update-predict-InRange a pr cxt y h slow r =
    let i = cxt % a.n * 33 + pr / 128 in
    let (plain, top) = interpolated-clamp a.t i (pr % 128) r.small (omega arith) in
    let some_row : 1 ≤ a.n = omega (arith, r.size, r.inside) in
    let row : cxt % a.n < a.n = mod-lt cxt some_row in
    let at : i + 1 < length a.t = omega (arith, row, r.size) in
    let g = goal a.rate y in
    let first = adapt_at-Small a.rate y i a.t slow r.small in
    let same =
      adapt_at-length a.rate (i + 1) g (adapt_at a.rate g i a.t) ∙ adapt_at-length a.rate i g a.t in
    (
      plain,
      top,
      record { size = r.size; small = r.small; inside = at },
      record {
        size = same ∙ r.size;
        small = adapt_at-Small a.rate y (i + 1) _ slow first;
        inside = omega (arith, at, same);
      },
    )
