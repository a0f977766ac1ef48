-- ===== src/Mixer/Mix.antt =====
-- src/mixer/mod.rs: `Mixer`. Weights, inputs and the learning rate are signed; a weight is an `i32`
-- that wraps around, as in a build without overflow checks. The sums of products are exact here:
-- where the code's 64 bits wrap around, bits 16 to 47, all that is used of them, are the same.
pub mod Isolation
use zentropy.Prelude.{
  ℕ, zero, suc, ◌+◌, ◌-◌, ◌*◌, ◌/◌, ◌%◌, ◌^◌, min, max, List, [], ◌∷◌, replicate, get_or, set, leb,
  ltb, ◌==◌, ◌&&◌, Bool, Option, some, none, length, if◌then◌else◌,
}
use zentropy.Prelude.Int.{ℤ, pos, negsuc, sub_ℕ, ◌+ℤ◌, ◌*ℤ◌, shift_right, to_i32}
use zentropy.Mixer.Squash.{bias, squash}

pub record Mixer : Type 0 where
  pub weights : List ℤ
  pub n : ℕ
  pub n_ctx : ℕ
  pub cx : ℕ
  pub inputs : List ℤ
  pub pr : ℕ
  pub lr : ℤ

-- `n` experts, `n_ctx` weight sets, all weights 1/n.
unfoldable pub new : ℕ → ℕ → Mixer
new n n_ctx = record {
  weights = replicate (n * n_ctx) (pos (max (65536 / max n 1) 1));
  n = n;
  n_ctx = n_ctx;
  cx = 0;
  inputs = replicate n (pos 0);
  pr = 2048;
  lr = pos 12;
}

unfoldable pub set_learning_rate : Mixer → ℤ → Mixer
set_learning_rate m lr = record m { lr = lr }

-- `for i in 0..n { dot += weights[base + i] * inputs[i] }`, `k` rounds from `i` on.
unfoldable pub dot_loop : ℕ → ℕ → ℕ → List ℤ → List ℤ → ℤ → ℤ
dot_loop zero base i weights inputs dot = dot
dot_loop (suc k) base i weights inputs dot =
    dot_loop k base (i + 1) weights inputs
      (dot +ℤ get_or weights (base + i) (pos 0) *ℤ get_or inputs i (pos 0))

-- `d.clamp(-2047, 2047)`, with 2 ^ 31 added.
unfoldable pub clamped : ℤ → ℕ
clamped (pos d) = bias + min d 2047
clamped (negsuc d) = bias - min (suc d) 2047

-- The weight set lies in the weights: the code panics on a set outside, and with no set at all.
unfoldable pub has_set : Mixer → ℕ → Bool
has_set m cx = ltb 0 m.n_ctx && leb (cx * m.n + m.n) (length m.weights)

unfoldable pub mixed : Mixer → List ℤ → ℕ → ℕ × Mixer
mixed m inputs cx =
    let dot = dot_loop m.n (cx * m.n) 0 m.weights inputs (pos 0) in
    let pr = squash (clamped (to_i32 (shift_right dot 16))) in
    (pr, record m { inputs = inputs; cx = cx; pr = pr })

-- `none` is a panic: `copy_from_slice` wants as many inputs as the mixer has.
unfoldable pub mix : Mixer → List ℤ → ℕ → Option (ℕ × Mixer)
mix m inputs cx =
    let cx' = cx % m.n_ctx in
    if length inputs == length m.inputs && length inputs == m.n && has_set m cx'
    then some (mixed m inputs cx')
    else none

-- `weights[base + i] += (inputs[i] * err * lr) >> 16`, for `i` from 0 to `n - 1`.
unfoldable pub learn_loop : ℕ → ℕ → ℕ → List ℤ → ℤ → ℤ → List ℤ → List ℤ
learn_loop zero base i inputs err lr weights = weights
learn_loop (suc k) base i inputs err lr weights =
    let delta = to_i32 (shift_right (get_or inputs i (pos 0) *ℤ err *ℤ lr) 16) in
    learn_loop k base (i + 1) inputs err lr
      (set weights (base + i) (to_i32 (get_or weights (base + i) (pos 0) +ℤ delta)))

unfoldable pub learnt : Mixer → ℕ → Mixer
learnt m y =
    let err = sub_ℕ (y * 2 ^ 12) m.pr in
    record m { weights = learn_loop m.n (m.cx * m.n) 0 m.inputs err m.lr m.weights }

unfoldable pub update : Mixer → ℕ → Option Mixer
update m y = if leb m.n (length m.inputs) && has_set m m.cx then some (learnt m y) else none
