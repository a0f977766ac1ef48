-- ===== src/Mixer/Apm.antt =====
-- src/mixer/mod.rs: `Apm`, the adaptive map from a prediction to a better one. Its entries are
-- `i32`s, whose sums wrap around and whose shifts take the amount modulo 32, as in a build without
-- overflow checks.
pub mod InRange
use zentropy.Prelude.{
  ℕ, zero, suc, ◌+◌, ◌-◌, ◌*◌, ◌/◌, ◌%◌, ◌^◌, min, List, [], ◌∷◌, ◌++◌, map, get_or, set, ◌==◌,
  if◌then◌else◌,
}
use zentropy.Prelude.Int.{ℤ, pos, negsuc, sub_ℕ, ◌+ℤ◌, ◌-ℤ◌, ◌*ℤ◌, shift_right, to_i32}
use zentropy.Reorder.Shuffle.{upto}
use zentropy.Mixer.Squash.{bias, squash}

pub record Apm : Type 0 where
  pub t : List ℤ
  pub n : ℕ
  pub idx : ℕ
  pub rate : ℕ

-- The identity curve: `squash((j as i32 - 16) * 128) << 4` for `j` from 0 to 32.
unfoldable pub identity_row : List ℤ
identity_row = map (λ j. pos (squash (bias + j * 128 - 16 * 128) * 16)) (upto 0 33)

unfoldable pub rows : ℕ → List ℤ
rows zero = []
rows (suc n) = identity_row ++ rows n

unfoldable pub new : ℕ → ℕ → Apm
new n rate = record { t = rows n; n = n; idx = 0; rate = rate }

-- `(t[i] * (128 - w) + t[i + 1] * w) >> 11`, in 64 bits.
unfoldable pub interpolated : List ℤ → ℕ → ℕ → ℤ
interpolated t i w =
    shift_right (get_or t i (pos 0) *ℤ pos (128 - w) +ℤ get_or t (i + 1) (pos 0) *ℤ pos w) 11

-- `v.clamp(0, 4095)`
unfoldable pub clamp_12 : ℤ → ℕ
clamp_12 (pos v) = min v 4095
clamp_12 (negsuc v) = 0

-- `predict(pr, cxt)` for a prediction that is not negative.
unfoldable pub predict : Apm → ℕ → ℕ → ℕ × Apm
predict a pr cxt =
    let i = cxt % a.n * 33 + pr / 128 in
    (clamp_12 (interpolated a.t i (pr % 128)), record a { idx = i })

-- `1 << rate` on an `i32`.
unfoldable pub one_shifted : ℕ → ℤ
one_shifted rate = to_i32 (pos (2 ^ (rate % 32)))

-- `(1 << 16) + (1 << rate) - 2`, or 0.
unfoldable pub goal : ℕ → ℕ → ℤ
goal rate y = if y == 0 then pos 0 else to_i32 (to_i32 (pos (2 ^ 16) +ℤ one_shifted rate) -ℤ pos 2)

-- `x += (g - x) >> rate`, where the shift of a negative number rounds away from 0.
unfoldable pub adapt : ℕ → ℤ → ℤ → ℤ
adapt rate g x = to_i32 (x +ℤ shift_right (to_i32 (g -ℤ x)) (rate % 32))

unfoldable pub adapt_at : ℕ → ℤ → ℕ → List ℤ → List ℤ
adapt_at rate g i t = set t i (adapt rate g (get_or t i (pos 0)))

unfoldable pub update : Apm → ℕ → Apm
update a y =
    let g = goal a.rate y in
    record a { t = adapt_at a.rate g (a.idx + 1) (adapt_at a.rate g a.idx a.t) }
