-- ===== src/Entropy.antt =====
-- src/entropy/mod.rs: the constants of the entropy backends, and the interface of the model.
pub mod Range
pub mod Rans
pub mod AdaptiveBit
use zentropy.Prelude.{ℕ, ◌^◌, ◌<◌}

-- `PROB_BITS` and `PROB_SCALE`.
abbrev pub prob_bits : ℕ
prob_bits = 12

abbrev pub prob_scale : ℕ
prob_scale = 2 ^ prob_bits

abbrev pub IsByte : ℕ → Type 0
IsByte b = b < 256

abbrev pub IsBit : ℕ → Type 0
IsBit b = b < 2

abbrev pub IsWord : ℕ → Type 0
IsWord x = x < 2 ^ 32
