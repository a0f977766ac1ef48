-- ===== src/Entropy/Rans/Slot.antt =====
-- The arithmetic of one rANS symbol: the decoder's slot and state after the encoder's step.
use zentropy.Prelude.{ℕ, ◌+◌, ◌*◌, ◌/◌, ◌%◌, ◌^◌, ◌<◌, ◌≤◌, ◌≡◌, arith, bit_and}
use zentropy.Prelude.Bits.{bit_and_low}
use native.Mathlib.Nat.{mod-lt, div-add-mod, div-lt_iff_lt-mul, le-div_iff_mul-le}
use zentropy.Entropy.Rans.{rans_l, place, advance}

-- Take a symbol of frequency `f` from 1 and cumulative frequency `c` within the scale, and a state
-- from `2 ^ 11 * f` and below `2 ^ 19 * f`, the range to which the encoder shrinks. The encoder's
-- step leaves a state from `rans_l` and below `2 ^ 31`; its slot is one of the symbol's slots, and
-- the decoder's step leads back to the state before.
pub advance-place :
    (f c x : ℕ)
    → 0 < f
    → f + c ≤ 4096
    → 2 ^ 11 * f ≤ x
    → x < 2 ^ 19 * f
    → (rans_l ≤ place f c x)
      × (place f c x < 2 ^ 31)
      × (c ≤ bit_and (place f c x) 0xfff)
      × (bit_and (place f c x) 0xfff < c + f)
      × (advance f c (bit_and (place f c x) 0xfff) (place f c x) ≡ x)
unfolding place advance
advance-place f c x pos fits low high =
    let q = x / f in
    let r = x % f in
    let small : r < f = mod-lt x pos in
    let whole : f * q + r ≡ x = div-add-mod x f in
    let above : q < 2 ^ 19 = (div-lt_iff_lt-mul pos).1 high in
    let below : 2 ^ 11 ≤ q = (le-div_iff_mul-le pos).1 low in
    let state : (q * 2 ^ 12 % 2 ^ 32 + r + c) % 2 ^ 32 ≡ q * 2 ^ 12 + (r + c) = omega arith in
    let slot : bit_and (q * 2 ^ 12 + (r + c)) 0xfff ≡ r + c =
      omega (arith, bit_and_low 12 (q * 2 ^ 12 + (r + c))) in
    let rest : (q * 2 ^ 12 + (r + c)) / 2 ^ 12 ≡ q = omega arith in
    rw (state, slot, rest) (omega arith, omega arith, omega arith, omega arith, omega arith)
