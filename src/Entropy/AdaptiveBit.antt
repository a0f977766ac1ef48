-- ===== src/Entropy/AdaptiveBit.antt =====
-- src/entropy/mod.rs: `AdaptiveBit`, a 16-bit probability with an exponential update. The shift takes
-- its amount modulo 32, as in a build without overflow checks.
use zentropy.Prelude.{false}
use zentropy.Prelude.{ap}
use zentropy.Prelude.{
  ℕ, zero, suc, ◌+◌, ◌-◌, ◌*◌, ◌/◌, ◌%◌, ◌^◌, ◌<◌, ◌≤◌, ◌≡◌, arith, if◌then◌else◌, ◌==◌,
}
use zentropy.Prelude.Bits.{two-pow_pos}
use native.Mathlib.Nat.{
  div-le_self, lt-div-mul-add, mul-le-mul_left, div-lt_iff_lt-mul, mod-eq_of_lt, add-mul,
}
use zentropy.Entropy.Range.{clamp_prob}

pub record AdaptiveBit : Type 0 where
  pub p : ℕ
  pub rate : ℕ

unfoldable pub new : ℕ → AdaptiveBit
new rate = record { p = 32768; rate = rate }

-- `(self.p as u32 >> 4).clamp(1, PROB_SCALE - 1)`
unfoldable pub predict : AdaptiveBit → ℕ
predict m = clamp_prob (m.p / 2 ^ 4)

-- `p + ((target - p) >> rate)`, where the shift of a negative difference rounds away from 0.
toward_one : ℕ → ℕ → ℕ
toward_one p rate = p + (65535 - p) / 2 ^ (rate % 32)

toward_zero : ℕ → ℕ → ℕ
toward_zero p rate = p - (p + (2 ^ (rate % 32) - 1)) / 2 ^ (rate % 32)

pub update : ℕ → AdaptiveBit → AdaptiveBit
update bit m = record m {
  p = (if bit == 0 then toward_zero m.p m.rate else toward_one m.p m.rate) % 2 ^ 16;
}

-- The quotient rounded up is not above the number, and at least the exact value.
ceil_bounds : (p d : ℕ) → 0 < d → ((p + (d - 1)) / d ≤ p) × (p ≤ (p + (d - 1)) / d * d)
ceil_bounds p d h =
    let q = (p + (d - 1)) / d in
    let small : p + (d - 1) < (p + 1) * d = omega (arith, mul-le-mul_left p h, add-mul p 1 d) in
    let below : q < p + 1 = (div-lt_iff_lt-mul h).1 small in
    let reach : p + (d - 1) < q * d + d = lt-div-mul-add h in (omega arith, omega arith)

-- What one update with a bit leaves of the distance to 0 or to 65535.
pub Tracks : ℕ → AdaptiveBit → AdaptiveBit → Type 0
Tracks zero m n = n.p * 2 ^ (m.rate % 32) + m.p ≤ m.p * 2 ^ (m.rate % 32)
Tracks (suc _) m n =
    (65535 - n.p) * 2 ^ (m.rate % 32) + (65535 - m.p)
    < (65535 - m.p) * 2 ^ (m.rate % 32) + 2 ^ (m.rate % 32)

-- From a 16-bit probability, an update makes a 16-bit probability. A bit 0 takes at least one part
-- in `2 ^ (rate % 32)` of the distance to 0 away, a bit 1 that part of the distance to 65535, rounded
-- down.
pub update-Tracks :
    (bit : ℕ) (m : AdaptiveBit)
    → m.p < 2 ^ 16
    → ((update bit m).p < 2 ^ 16) × Tracks bit m (update bit m)
unfolding update Tracks toward_one toward_zero
update-Tracks zero m h =
    let d = 2 ^ (m.rate % 32) in
    let q = (m.p + (d - 1)) / d in
    let (below, reach) = ceil_bounds m.p d (two-pow_pos (m.rate % 32)) in
    let whole : m.p - q + q ≡ m.p = omega arith in
    let fits : m.p - q < 2 ^ 16 = omega arith in
    let split = add-mul (m.p - q) q d in
    rw (mod-eq_of_lt fits) (fits, omega (arith, split, ap (λ (t : ℕ). t * d) whole))
update-Tracks (suc b) m h =
    let d = 2 ^ (m.rate % 32) in
    let gap = 65535 - m.p in
    let q = gap / d in
    let below : q ≤ gap = div-le_self gap d in
    let reach : gap < q * d + d = lt-div-mul-add (two-pow_pos (m.rate % 32)) in
    let fits : m.p + q < 2 ^ 16 = omega arith in
    let left : 65535 - (m.p + q) ≡ gap - q = omega arith in
    let whole : gap - q + q ≡ gap = omega arith in
    let split = add-mul (gap - q) q d in
    let one : (suc b == 0) ≡ false = ground arith in
    rw (one, mod-eq_of_lt fits) (fits, rw left (omega (arith, split, ap (λ (t : ℕ). t * d) whole)))
