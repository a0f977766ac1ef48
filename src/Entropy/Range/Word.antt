-- ===== src/Entropy/Range/Word.antt =====
-- The word operations of the range coder in plain arithmetic.
use zentropy.Prelude.{
  ℕ, ◌+◌, ◌-◌, ◌*◌, ◌/◌, ◌%◌, ◌^◌, ◌≤◌, ◌<◌, ◌≡◌, ap, true, arith, ==→eq, eq→==, bit_and, bit_xor,
}
use zentropy.Prelude.Bits.{
  bit_and_high, bit_and_low, bit_or_disjoint, bit_xor-div, bit_xor-mod_eq, bit_xor_self,
}
use native.Mathlib.Nat.{le_refl, mul-le-mul_left}
use zentropy.Entropy.{IsWord}
use zentropy.Entropy.Range.{same_top, shift_byte, shift_in, clamp_prob, midpoint}

pub shift_in-eq : (x b : ℕ) → b < 256 → shift_in x b ≡ x % 2 ^ 24 * 256 + b
unfolding shift_in
shift_in-eq x b h =
    let e : x * 2 ^ 8 % 2 ^ 32 ≡ x % 2 ^ 24 * 2 ^ 8 = omega arith in
    rw e (bit_or_disjoint 8 (x % 2 ^ 24) b h)

pub shift_byte-eq : (x : ℕ) → shift_byte x ≡ x % 2 ^ 24 * 256
unfolding shift_byte
shift_byte-eq x = omega arith

top_bits :
    (x1 x2 : ℕ)
    → bit_and (bit_xor x1 x2) 0xff00_0000 ≡ bit_xor (x1 / 2 ^ 24) (x2 / 2 ^ 24) % 2 ^ 8 * 2 ^ 24
top_bits x1 x2 = omega (
  arith,
  bit_and_high 24 (bit_xor x1 x2) 0xff,
  bit_and_low 8 (bit_xor x1 x2 / 2 ^ 24),
  ap (λ (t : ℕ). t % 2 ^ 8) (bit_xor-div 24 x1 x2),
)

-- The loops' test says that the top bytes of the two words agree.
pub same_top-true :
    (x1 x2 : ℕ) → IsWord x1 → IsWord x2 → same_top x1 x2 ≡ true → x1 / 2 ^ 24 ≡ x2 / 2 ^ 24
unfolding same_top
same_top-true x1 x2 h1 h2 e = omega (
  arith,
  top_bits x1 x2,
  ==→eq _ _ e,
  bit_xor-mod_eq 8 (x1 / 2 ^ 24) (x2 / 2 ^ 24) (omega (arith, top_bits x1 x2, ==→eq _ _ e)),
)

pub same_top_of_tops : (x1 x2 : ℕ) → x1 / 2 ^ 24 ≡ x2 / 2 ^ 24 → same_top x1 x2 ≡ true
unfolding same_top
same_top_of_tops x1 x2 e = eq→== _ _ (
    omega (
      arith,
      top_bits x1 x2,
      ap (bit_xor (x1 / 2 ^ 24)) e,
      bit_xor_self (x1 / 2 ^ 24) (x1 / 2 ^ 24) (le_refl _),
    ))

pub clamp_prob_bounds : (p : ℕ) → (1 ≤ clamp_prob p) × (clamp_prob p < 4096)
unfolding clamp_prob
clamp_prob_bounds p = ground arith

-- The interval arithmetic never wraps, and the midpoint stays below the upper end.
pub midpoint_bounds :
    (x1 x2 p : ℕ)
    → x1 < x2
    → IsWord x2
    → p < 4096
    → (midpoint x1 x2 p ≡ x1 + (x2 - x1) / 4096 * p)
      × (x1 ≤ midpoint x1 x2 p)
      × (midpoint x1 x2 p < x2)
unfolding midpoint
midpoint_bounds x1 x2 p lt w hp =
    let r : (x2 + 2 ^ 32 - x1) % 2 ^ 32 ≡ x2 - x1 = omega arith in
    let part : (x2 - x1) / 4096 * p ≤ (x2 - x1) / 4096 * 4095 = mul-le-mul_left _ (omega arith) in
    rw r (omega arith)
