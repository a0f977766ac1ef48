-- ===== src/Prelude/Bits.antt =====
-- The bit operations at variables: their lowest digit, and what they do to disjoint bit fields.
use Prim.Native.Nat.{
  ℕ, zero, suc, ◌+◌, ◌-◌, ◌*◌, ◌/◌, ◌%◌, ◌^◌, ◌≤◌, ◌<◌, min, max, bit_and, bit_or, bit_xor, digits,
  differ, bit_and-bitwise, bit_or-bitwise, bit_xor-bitwise,
}
use mathlib.Core.Path.{◌≡◌, refl, ap, ◌∙◌, sym}
use native.Mathlib.Nat.{le_refl, pow-suc, one-le-pow, div-div-eq-div-mul, mul_comm, mod-add-div'}
use native.Mathlib.Omega.{arith}

-- The native operations run on binary digits with fuel: any two sufficient amounts agree.
module _ (z : ℕ → ℕ) (op : ℕ → ℕ → ℕ) (b : ℕ) where
  same_zero : (m : ℕ) → digits z op m 0 b ≡ z b
  same_zero zero = refl
  same_zero (suc m) = refl

same_digits :
    (z : ℕ → ℕ) (op : ℕ → ℕ → ℕ) (n m a b : ℕ)
    → a ≤ n
    → a ≤ m
    → digits z op n a b ≡ digits z op m a b
same_digits z op n m zero b _ _ = same_zero z op b n ∙ sym (same_zero z op b m)
same_digits z op zero m (suc a) b p q = absurd (omega arith)
same_digits z op (suc n) zero (suc a) b p q = absurd (omega arith)
same_digits z op (suc n) (suc m) (suc a) b p q =
    ap (λ (r : ℕ). r * 2 + op (suc a % 2) (b % 2))
      (same_digits z op n m (suc a / 2) (b / 2) (omega arith) (omega arith))

pub bit_and_digit : (a b : ℕ) → bit_and a b ≡ bit_and (a / 2) (b / 2) * 2 + min (a % 2) (b % 2)
bit_and_digit zero b = omega (arith, bit_and-bitwise 0 b, bit_and-bitwise 0 (b / 2))
bit_and_digit (suc a) b = omega (
  arith,
  bit_and-bitwise (suc a) b,
  bit_and-bitwise (suc a / 2) (b / 2),
  same_digits (λ _. zero) min a (suc a / 2) (suc a / 2) (b / 2) (omega arith) (omega arith),
)

pub bit_or_digit : (a b : ℕ) → bit_or a b ≡ bit_or (a / 2) (b / 2) * 2 + max (a % 2) (b % 2)
bit_or_digit zero b = omega (arith, bit_or-bitwise 0 b, bit_or-bitwise 0 (b / 2))
bit_or_digit (suc a) b = omega (
  arith,
  bit_or-bitwise (suc a) b,
  bit_or-bitwise (suc a / 2) (b / 2),
  same_digits (λ y. y) max a (suc a / 2) (suc a / 2) (b / 2) (omega arith) (omega arith),
)

pub bit_xor_digit : (a b : ℕ) → bit_xor a b ≡ bit_xor (a / 2) (b / 2) * 2 + differ (a % 2) (b % 2)
bit_xor_digit zero b = omega (arith, bit_xor-bitwise 0 b, bit_xor-bitwise 0 (b / 2))
bit_xor_digit (suc a) b = omega (
  arith,
  bit_xor-bitwise (suc a) b,
  bit_xor-bitwise (suc a / 2) (b / 2),
  same_digits (λ y. y) differ a (suc a / 2) (suc a / 2) (b / 2) (omega arith) (omega arith),
)

-- A power of two is never 0, and `2 ^ suc k` is twice `2 ^ k`, also under a product.
pub two-pow_pos : (k : ℕ) → 0 < 2 ^ k
two-pow_pos k = one-le-pow k 2 (omega arith)

mul-two-pow : (q k : ℕ) → q * 2 ^ suc k ≡ 2 * (q * 2 ^ k)
mul-two-pow q k = omega (arith, ap (λ (t : ℕ). q * t) (pow-suc 2 k))

pub div-two-pow : (a k : ℕ) → a / 2 ^ suc k ≡ a / 2 / 2 ^ k
div-two-pow a k = rw (div-div-eq-div-mul, pow-suc, mul_comm (2 ^ k) 2)

pub mod-two-pow : (k a : ℕ) → a % 2 ^ suc k ≡ a / 2 % 2 ^ k * 2 + a % 2
mod-two-pow k a = omega (
  arith,
  mod-add-div' a (2 ^ suc k),
  mod-add-div' (a / 2) (2 ^ k),
  ap (λ (t : ℕ). t * 2 ^ suc k) (div-two-pow a k),
  mul-two-pow (a / 2 / 2 ^ k) k,
)

-- One round of each operation at a doubled argument.
bit_and_double : (a d : ℕ) → bit_and a (2 * d) ≡ bit_and (a / 2) d * 2
bit_and_double a d =
    let half : 2 * d / 2 ≡ d = omega arith in
    omega (arith, bit_and_digit a (2 * d), ap (bit_and (a / 2)) half)

bit_and_double_one : (a d : ℕ) → bit_and a (2 * d + 1) ≡ bit_and (a / 2) d * 2 + a % 2
bit_and_double_one a d =
    let half : (2 * d + 1) / 2 ≡ d = omega arith in
    omega (arith, bit_and_digit a (2 * d + 1), ap (bit_and (a / 2)) half)

bit_or_double : (d r : ℕ) → bit_or (2 * d) r ≡ bit_or d (r / 2) * 2 + r % 2
bit_or_double d r =
    let half : 2 * d / 2 ≡ d = omega arith in
    omega (arith, bit_or_digit (2 * d) r, ap (λ (t : ℕ). bit_or t (r / 2)) half)

-- What 0 does, from the digits of the other argument.
with_zero : (bound x : ℕ) → x ≤ bound → (bit_and x 0 ≡ 0) × (bit_or x 0 ≡ x)
with_zero bound zero fits = (refl, refl)
with_zero zero (suc x) fits = absurd (omega arith)
with_zero (suc bound) (suc x) fits =
    let (conj, disj) = with_zero bound (suc x / 2) (omega arith) in
    (omega (arith, bit_and_digit (suc x) 0), omega (arith, bit_or_digit (suc x) 0))

bit_and-zero : (x : ℕ) → bit_and x 0 ≡ 0
bit_and-zero x = (with_zero x x (le_refl x)).0

bit_or-zero : (x : ℕ) → bit_or x 0 ≡ x
bit_or-zero x = (with_zero x x (le_refl x)).1

-- A mask above bit `k` reads what stands above bit `k`.
pub bit_and_high : (k a m : ℕ) → bit_and a (m * 2 ^ k) ≡ bit_and (a / 2 ^ k) m * 2 ^ k
bit_and_high zero a m =
    let same : a / 1 ≡ a = omega arith in
    let unit : m * 1 ≡ m = omega arith in
    omega (arith, ap (bit_and a) unit, ap (λ (t : ℕ). bit_and t m) same)
bit_and_high (suc k) a m = omega (
  arith,
  ap (bit_and a) (mul-two-pow m k),
  bit_and_double a (m * 2 ^ k),
  bit_and_high k (a / 2) m,
  ap (λ (t : ℕ). bit_and t m * 2 ^ suc k) (div-two-pow a k),
  mul-two-pow (bit_and (a / 2 / 2 ^ k) m) k,
)

-- The lowest `k` bits of `a`, by the mask of `k` ones.
pub bit_and_low : (k a : ℕ) → bit_and a (2 ^ k - 1) ≡ a % 2 ^ k
bit_and_low zero a = rw bit_and-zero (omega arith)
bit_and_low (suc k) a =
    let mask : 2 ^ suc k - 1 ≡ 2 * (2 ^ k - 1) + 1 = omega (arith, pow-suc 2 k, two-pow_pos k) in
    omega (
      arith,
      ap (bit_and a) mask,
      bit_and_double_one a (2 ^ k - 1),
      bit_and_low k (a / 2),
      mod-two-pow k a,
    )

-- The union of disjoint bit fields is their sum.
pub bit_or_disjoint : (k q r : ℕ) → r < 2 ^ k → bit_or (q * 2 ^ k) r ≡ q * 2 ^ k + r
bit_or_disjoint zero q r h = ground (arith, bit_or-zero q)
bit_or_disjoint (suc k) q r h = omega (
  arith,
  ap (λ (t : ℕ). bit_or t r) (mul-two-pow q k),
  bit_or_double (q * 2 ^ k) r,
  bit_or_disjoint k q (r / 2) (omega (arith, pow-suc 2 k)),
  mul-two-pow q k,
)

differ_small : (a b : ℕ) → differ a b ≡ (a - b) + (b - a)
differ_small zero b = omega arith
differ_small (suc a) zero = omega arith
differ_small (suc a) (suc b) = omega (arith, differ_small a b)

pub bit_xor-div : (k a b : ℕ) → bit_xor a b / 2 ^ k ≡ bit_xor (a / 2 ^ k) (b / 2 ^ k)
bit_xor-div zero a b =
    let same : (t : ℕ) → t / 1 ≡ t = λ t. omega arith in rw (same a, same b, same (bit_xor a b))
bit_xor-div (suc k) a b =
    let half : bit_xor a b / 2 ≡ bit_xor (a / 2) (b / 2) =
      omega (arith, bit_xor_digit a b, differ_small (a % 2) (b % 2)) in
    rw (div-two-pow a k, div-two-pow b k, div-two-pow (bit_xor a b) k, half)
      (bit_xor-div k (a / 2) (b / 2))

pub bit_xor_self : (n a : ℕ) → a ≤ n → bit_xor a a ≡ 0
bit_xor_self n zero h = refl
bit_xor_self zero (suc a) h = absurd (omega arith)
bit_xor_self (suc n) (suc a) h = omega (
  arith,
  bit_xor_digit (suc a) (suc a),
  differ_small (suc a % 2) (suc a % 2),
  bit_xor_self n (suc a / 2) (omega arith),
)

-- Where the exclusive or has its low `k` bits clear, the low `k` bits agree.
pub bit_xor-mod_eq : (k a b : ℕ) → bit_xor a b % 2 ^ k ≡ 0 → a % 2 ^ k ≡ b % 2 ^ k
bit_xor-mod_eq zero a b h = omega arith
bit_xor-mod_eq (suc k) a b h =
    let half : bit_xor a b / 2 ≡ bit_xor (a / 2) (b / 2) =
      omega (arith, bit_xor_digit a b, differ_small (a % 2) (b % 2)) in
    let clear : bit_xor (a / 2) (b / 2) % 2 ^ k ≡ 0 =
      omega (arith, mod-two-pow k (bit_xor a b), ap (λ (t : ℕ). t % 2 ^ k) half) in
    omega (
      arith,
      bit_xor-mod_eq k (a / 2) (b / 2) clear,
      mod-two-pow k a,
      mod-two-pow k b,
      mod-two-pow k (bit_xor a b),
      bit_xor_digit a b,
      differ_small (a % 2) (b % 2),
    )

pub bit_or_comm : (n a b : ℕ) → a ≤ n → b ≤ n → bit_or a b ≡ bit_or b a
bit_or_comm zero zero zero h k = refl
bit_or_comm zero (suc a) b h k = absurd (omega arith)
bit_or_comm zero zero (suc b) h k = absurd (omega arith)
bit_or_comm (suc n) a b h k = omega (
  arith,
  bit_or_digit a b,
  bit_or_digit b a,
  bit_or_comm n (a / 2) (b / 2) (omega arith) (omega arith),
)
