-- ===== src/Prelude/Int.antt =====
-- Signed integers over the native numbers, under the library's names, with the shifts and the
-- truncations of the machine's signed words.
use zentropy.Prelude.{
  ℕ, suc, ◌+◌, ◌-◌, ◌*◌, ◌/◌, ◌%◌, ◌^◌, ◌≤◌, ◌<◌, ◌≡◌, leb, if◌then◌else◌, arith,
}

-- `negsuc n` is -(n + 1).
pub data ℤ : Type 0 where
  pos : ℕ → ℤ
  negsuc : ℕ → ℤ

abbrev pub pos_part : ℤ → ℕ
pos_part (pos n) = n
pos_part (negsuc n) = 0

abbrev pub neg_part : ℤ → ℕ
neg_part (pos n) = 0
neg_part (negsuc n) = suc n

-- a - b, as an integer.
abbrev pub sub_ℕ : ℕ → ℕ → ℤ
sub_ℕ a b = if leb b a then pos (a - b) else negsuc (b - a - 1)

infixl 65 ◌+ℤ◌ ◌-ℤ◌
infixl 70 ◌*ℤ◌
unfoldable pub ◌+ℤ◌ : ℤ → ℤ → ℤ
a +ℤ b = sub_ℕ (pos_part a + pos_part b) (neg_part a + neg_part b)

unfoldable pub ◌-ℤ◌ : ℤ → ℤ → ℤ
a -ℤ b = sub_ℕ (pos_part a + neg_part b) (neg_part a + pos_part b)

unfoldable pub ◌*ℤ◌ : ℤ → ℤ → ℤ
a *ℤ b =
    sub_ℕ (pos_part a * pos_part b + neg_part a * neg_part b)
      (pos_part a * neg_part b + neg_part a * pos_part b)

-- `a >> k`, which rounds down.
unfoldable pub shift_right : ℤ → ℕ → ℤ
shift_right (pos n) k = pos (n / 2 ^ k)
shift_right (negsuc n) k = negsuc (n / 2 ^ k)

-- `a mod m`, from 0 on.
unfoldable pub modulo : ℤ → ℕ → ℕ
modulo (pos n) m = n % m
modulo (negsuc n) m = m - 1 - n % m

-- `a as i32`: the number of the range that is equal modulo 2 ^ 32.
unfoldable pub to_i32 : ℤ → ℤ
to_i32 a = sub_ℕ (modulo (a +ℤ pos (2 ^ 31)) (2 ^ 32)) (2 ^ 31)

-- A number of the range stays what it is.
pub to_i32-pos : (n : ℕ) → n < 2 ^ 31 → to_i32 (pos n) ≡ pos n
unfolding to_i32 modulo ◌+ℤ◌
to_i32-pos n h = ground arith

pub to_i32-negsuc : (n : ℕ) → n < 2 ^ 31 → to_i32 (negsuc n) ≡ negsuc n
unfolding to_i32 modulo ◌+ℤ◌
to_i32-negsuc n h = ground arith

pub add-pos : (a b : ℕ) → pos a +ℤ pos b ≡ pos (a + b)
unfolding ◌+ℤ◌
add-pos a b = ground arith

pub add-negsuc : (a b : ℕ) → b < a → pos a +ℤ negsuc b ≡ pos (a - suc b)
unfolding ◌+ℤ◌
add-negsuc a b h = ground arith

pub sub-pos : (a b : ℕ) → b ≤ a → pos a -ℤ pos b ≡ pos (a - b)
unfolding ◌-ℤ◌
sub-pos a b h = ground arith

pub sub-pos_below : (a b : ℕ) → a < b → pos a -ℤ pos b ≡ negsuc (b - a - 1)
unfolding ◌-ℤ◌
sub-pos_below a b h = ground arith

pub mul-pos : (a b : ℕ) → pos a *ℤ pos b ≡ pos (a * b)
unfolding ◌*ℤ◌
mul-pos a b = ground arith
