-- ===== src/Mixer/Mix/Isolation.antt =====
-- What one coded bit does to a mixer: a probability that is never certain, and a change of no weight
-- set but the selected one.
use zentropy.Prelude.{
  ℕ, zero, suc, ◌+◌, ◌-◌, ◌*◌, ◌%◌, ◌≤◌, ◌<◌, ◌≡◌, refl, ◌∙◌, sym, ◌⊎◌, List, replicate, true, some,
  leb, ◌==◌, eq→==, length, get_or, arith, length-set, get_or-set_other,
}
use native.Mathlib.Nat.{mod-lt, mul-le-mul_right, suc-mul, mul_comm}
use zentropy.Prelude.Int.{ℤ, pos, negsuc}
use zentropy.Mixer.Squash.{bias, squash-bound}
use zentropy.Mixer.Mix.{Mixer, new, clamped, has_set, mixed, mix, learn_loop, learnt, update}

length-replicate : {A : Type 0} (n : ℕ) (a : A) → length (replicate n a) ≡ n
length-replicate zero a = refl
length-replicate (suc n) a = omega (arith, length-replicate n a)

clamped-inside : (d : ℤ) → (bias - 2047 ≤ clamped d) × (clamped d ≤ bias + 2047)
unfolding clamped
clamped-inside (pos d) = (omega arith, omega arith)
clamped-inside (negsuc d) = (omega arith, omega arith)

learn_loop-length :
    (k base i : ℕ) (inputs : List ℤ) (err lr : ℤ) (weights : List ℤ)
    → length (learn_loop k base i inputs err lr weights) ≡ length weights
unfolding learn_loop
learn_loop-length zero base i inputs err lr weights = refl
learn_loop-length (suc k) base i inputs err lr weights =
    learn_loop-length k base (i + 1) inputs err lr _ ∙ length-set weights (base + i) _

learn_loop-outside :
    (k base i : ℕ) (inputs : List ℤ) (err lr : ℤ) (weights : List ℤ) (j : ℕ)
    → (j < base) ⊎ (base + i + k ≤ j)
    → get_or (learn_loop k base i inputs err lr weights) j (pos 0) ≡ get_or weights j (pos 0)
unfolding learn_loop
learn_loop-outside zero base i inputs err lr weights j h = refl
learn_loop-outside (suc k) base i inputs err lr weights j h =
    learn_loop-outside k base (i + 1) inputs err lr _ j (ground arith)
    ∙ get_or-set_other weights (base + i) j _ (pos 0) (ground arith)

-- Every weight set of the mixer lies in its weights, and so does the selected one.
pub record IsValid (m : Mixer) : Type 0 where
  pub size : length m.weights ≡ m.n * m.n_ctx
  pub some_set : 1 ≤ m.n_ctx
  pub wide : length m.inputs ≡ m.n

set-inside : (n n_ctx cx : ℕ) → cx < n_ctx → cx * n + n ≤ n * n_ctx
set-inside n n_ctx cx h =
    let whole : (cx + 1) * n ≤ n_ctx * n = mul-le-mul_right n (omega arith) in
    omega (arith, whole, suc-mul cx n, mul_comm n n_ctx)

module _ (m : Mixer) (v : IsValid m) where
  has_set-true : (cx : ℕ) → cx < m.n_ctx → has_set m cx ≡ true
  unfolding has_set
  has_set-true cx h = ground (arith, set-inside m.n m.n_ctx cx h, v.size, v.some_set)

  mix-some :
      (inputs : List ℤ) (cx : ℕ)
      → length inputs ≡ m.n
      → mix m inputs cx ≡ some (mixed m inputs (cx % m.n_ctx))
  unfolding mix
  mix-some inputs cx e =
      let inside = has_set-true (cx % m.n_ctx) (mod-lt cx v.some_set) in
      let kept : (length inputs == length m.inputs) ≡ true = eq→== _ _ (e ∙ sym v.wide) in
      rw (kept, eq→== _ _ e, inside) refl

  update-some : (y : ℕ) → m.cx < m.n_ctx → update m y ≡ some (learnt m y)
  unfolding update
  update-some y h =
      let enough : leb m.n (length m.inputs) ≡ true = ground (arith, v.wide) in
      rw (enough, has_set-true m.cx h) refl

  mixed-IsValid : (inputs : List ℤ) (cx : ℕ) → length inputs ≡ m.n → IsValid (mixed m inputs cx).1
  unfolding mixed
  mixed-IsValid inputs cx e = record { size = v.size; some_set = v.some_set; wide = e }

  learnt-IsValid : (y : ℕ) → IsValid (learnt m y)
  unfolding learnt
  learnt-IsValid y = record {
    size = learn_loop-length m.n (m.cx * m.n) 0 m.inputs _ m.lr m.weights ∙ v.size;
    some_set = v.some_set;
    wide = v.wide;
  }

pub new-IsValid : (n n_ctx : ℕ) → 1 ≤ n_ctx → IsValid (new n n_ctx)
unfolding new
new-IsValid n n_ctx h = record {
  size = length-replicate (n * n_ctx) _;
  some_set = h;
  wide = length-replicate n _;
}

mixed-between :
    (m : Mixer) (inputs : List ℤ) (cx : ℕ)
    → (1 ≤ (mixed m inputs cx).0) × ((mixed m inputs cx).0 ≤ 4094)
unfolding mixed
mixed-between m inputs cx = let (low, high) = clamped-inside _ in (squash-bound _).1 low high

-- `m'` is valid, and differs from `m` in no weight outside the set `cx`.
pub record Isolated (cx : ℕ) (m m' : Mixer) : Type 0 where
  pub valid : IsValid m'
  pub others :
      (j : ℕ)
      → (j < cx * m.n) ⊎ (cx * m.n + m.n ≤ j)
      → get_or m'.weights j (pos 0) ≡ get_or m.weights j (pos 0)

mixed-Isolated :
    (m : Mixer) (inputs : List ℤ) (cx y : ℕ)
    → IsValid m
    → length inputs ≡ m.n
    → Isolated cx m (learnt (mixed m inputs cx).1 y)
mixed-Isolated m inputs cx y v e = record {
  valid = learnt-IsValid (mixed m inputs cx).1 (mixed-IsValid m v inputs cx e) y;
  others = λ j h.
      unfold mixed learnt in
      learn_loop-outside m.n (cx * m.n) 0 inputs _ m.lr m.weights j (ground arith);
}

-- Coding a bit with a valid mixer and an input for each expert: neither step panics; the mixed
-- probability is between 1 and 4094, for whatever weights and inputs; and learning from the bit keeps
-- the mixer valid, and every weight outside the selected set.
pub update-mix-Isolated :
    (m : Mixer) (inputs : List ℤ) (cx y : ℕ)
    → IsValid m
    → length inputs ≡ m.n
    → (p : ℕ) × (m' : Mixer) × (m'' : Mixer) × (mix m inputs cx ≡ some (p, m'))
      × (update m' y ≡ some m'')
      × (1 ≤ p)
      × (p ≤ 4094)
      × Isolated (cx % m.n_ctx) m m''
update-mix-Isolated m inputs cx y v e =
    let cx' = cx % m.n_ctx in
    let less : cx' < m.n_ctx = mod-lt cx v.some_set in
    let r = mixed m inputs cx' in
    let (one, top) = mixed-between m inputs cx' in
    (
      r.0,
      r.1,
      learnt r.1 y,
      mix-some m v inputs cx e,
      update-some r.1 (mixed-IsValid m v inputs cx' e) y (unfold mixed in less),
      one,
      top,
      mixed-Isolated m inputs cx' y v e,
    )
