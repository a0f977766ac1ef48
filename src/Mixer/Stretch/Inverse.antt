-- ===== src/Mixer/Stretch/Inverse.antt =====
-- The table that the loops fill_entries is the inverse of the curve.
use zentropy.Prelude.{
  ◌==◌, ltb→le, ==→eq, ltb→lt, ℕ, zero, suc, ◌+◌, ◌-◌, ◌≤◌, ◌<◌, ◌≡◌, refl, ◌∙◌, ◌⊎◌, inl, inr, min,
  ◌&&◌, true, false, List, length, get_or, set, replicate, ltb, leb, arith, Bool-cases, length-set,
  get_or-set, get_or-set_other,
}
use mathlib.Core.Path.{subst}
use zentropy.Mixer.Squash.{bias, squash, squash_mono}
use zentropy.Mixer.Stretch.{fill_entries, fill_all, stretch_table, stretch}

fill_entries-hit :
    (fuel p x j : ℕ) (t : List ℕ)
    → j ≤ p
    → j < 4096
    → fill_entries (suc fuel) p x j t ≡ fill_entries fuel p x (j + 1) (set t j x)
unfolding fill_entries
fill_entries-hit fuel p x j t a b =
    let y : (leb j p && ltb j 4096) ≡ true = ground arith in rw (y, fill_entries) refl

fill_entries-miss :
    (fuel p x j : ℕ) (t : List ℕ) → (p < j) ⊎ (4096 ≤ j) → fill_entries fuel p x j t ≡ t
unfolding fill_entries
fill_entries-miss zero p x j t h = refl
fill_entries-miss (suc fuel) p x j t h =
    let n : (leb j p && ltb j 4096) ≡ false = ground arith in rw (n, fill_entries) refl

fill_entries-length : (fuel p x j : ℕ) (t : List ℕ) → length (fill_entries fuel p x j t) ≡ length t
unfolding fill_entries
fill_entries-length zero p x j t = refl
fill_entries-length (suc fuel) p x j t = elim (Bool-cases (leb j p && ltb j 4096)) [
  | inl y ↦
      rw (y, fill_entries) (fill_entries-length fuel p x (j + 1) (set t j x) ∙ length-set t j x)
  | inr n ↦ rw (n, fill_entries) refl
]

-- The round: what stands in front of `j` or behind `p` stays, the rest becomes `x`.
fill_entries-outside :
    (fuel p x j : ℕ) (t : List ℕ) (i : ℕ)
    → (i < j) ⊎ (p < i)
    → get_or (fill_entries fuel p x j t) i bias ≡ get_or t i bias
unfolding fill_entries
fill_entries-outside zero p x j t i h = refl
fill_entries-outside (suc fuel) p x j t i h = elim (Bool-cases (leb j p && ltb j 4096)) [
  | inl y ↦
      let le : j ≤ p = ground arith in
      rw (y, fill_entries)
        (fill_entries-outside fuel p x (j + 1) (set t j x) i (ground arith)
          ∙ get_or-set_other t j i x bias (ground arith))
  | inr n ↦ rw (n, fill_entries) refl
]

fill_entries-inside :
    (fuel p x j : ℕ) (t : List ℕ) (i : ℕ)
    → 4096 ≤ fuel + j
    → length t ≡ 4096
    → j ≤ i
    → i ≤ p
    → i < 4096
    → get_or (fill_entries fuel p x j t) i bias ≡ x
fill_entries-inside zero p x j t i enough whole low high less = absurd (omega arith)
fill_entries-inside (suc fuel) p x j t i enough whole low high less =
    rw (fill_entries-hit fuel p x j t (omega arith) (omega arith)) (elim (Bool-cases (j == i)) [
      | inl y ↦
          fill_entries-outside fuel p x (j + 1) (set t j x) i (inl (ground arith))
          ∙ get_or-set t j i x bias (omega (arith, whole)) (==→eq j i y)
      | inr n ↦
          fill_entries-inside fuel p x (j + 1) (set t j x) i (omega arith)
            (length-set t j x ∙ whole) (ground arith) high less
    ])

-- `x` is the least value of the range whose probability reaches `p`, or the last one if none does.
pub record Least (p x : ℕ) : Type 0 where
  pub low : bias - 2047 ≤ x
  pub high : x ≤ bias + 2047
  pub before : (y : ℕ) → bias - 2047 ≤ y → y < x → squash y < p
  pub reached : (p ≤ squash x) ⊎ (x ≡ bias + 2047)

-- Before the round of `x`: the table is right below `pi`, and no earlier value reaches `pi`.
record Filled (x pi : ℕ) (t : List ℕ) : Type 0 where
  whole : length t ≡ 4096
  right : (j : ℕ) → j < pi → j < 4096 → Least j (get_or t j bias)
  passed : (y : ℕ) → bias - 2047 ≤ y → y < x → squash y < pi

round :
    (x pi : ℕ) (t : List ℕ)
    → bias - 2047 ≤ x
    → x ≤ bias + 2047
    → Filled x pi t
    → Filled (x + 1) (squash x + 1) (fill_entries 4096 (squash x) x pi t)
round x pi t low high f = record {
  whole = fill_entries-length 4096 (squash x) x pi t ∙ f.whole;
  right = λ j less inside. elim (Bool-cases (ltb j pi)) [
    | inl y ↦
        rw (fill_entries-outside 4096 (squash x) x pi t j (inl (ltb→lt j pi y)))
          (f.right j (ltb→lt j pi y) inside)
    | inr n ↦
        rw
          (fill_entries-inside 4096 (squash x) x pi t j (omega arith) f.whole (ltb→le j pi n)
            (omega arith) inside)
          (record {
            low = low;
            high = high;
            before = λ y l h. omega (arith, f.passed y l h, ltb→le j pi n);
            reached = inl (omega arith);
          })
  ];
  passed = λ y l h. omega (arith, squash_mono y x (omega arith));
}

last_fill :
    (pi : ℕ) (t : List ℕ)
    → Filled (bias + 2048) pi t
    → (j : ℕ) → j < 4096
    → Least j (get_or (fill_entries 4096 4095 (bias + 2047) pi t) j bias)
last_fill pi t f j inside = elim (Bool-cases (ltb j pi)) [
  | inl y ↦
      rw (fill_entries-outside 4096 4095 (bias + 2047) pi t j (inl (ltb→lt j pi y)))
        (f.right j (ltb→lt j pi y) inside)
  | inr n ↦
      rw
        (fill_entries-inside 4096 4095 (bias + 2047) pi t j (omega arith) f.whole (ltb→le j pi n)
          (omega arith) inside)
        (record {
          low = omega arith;
          high = omega arith;
          before = λ y l h. omega (arith, f.passed y l (omega arith), ltb→le j pi n);
          reached = inr refl;
        })
]

fill_all-Least :
    (n x pi : ℕ) (t : List ℕ)
    → bias - 2047 ≤ x
    → x + n ≡ bias + 2048
    → Filled x pi t
    → (j : ℕ) → j < 4096
    → Least j (get_or (fill_all n x pi t) j bias)
unfolding fill_all
fill_all-Least zero x pi t low last f =
    let e : x ≡ bias + 2048 = omega arith in last_fill pi t (subst (λ (v : ℕ). Filled v pi t) e f)
fill_all-Least (suc n) x pi t low last f =
    fill_all-Least n (x + 1) (squash x + 1) (fill_entries 4096 (squash x) x pi t) (omega arith)
      (omega arith) (round x pi t low (omega arith) f)

-- For every 12-bit probability the table holds the least value between -2047 and 2047 whose `squash`
-- reaches the probability, or 2047 if none does.
pub stretch-Least : (p : ℕ) → p ≤ 4095 → Least p (stretch stretch_table p)
unfolding stretch stretch_table
stretch-Least p h =
    let e : min p 4095 ≡ p = omega arith in
    rw e (
      fill_all-Least 4095 (bias - 2047) 0 (replicate 4096 bias) (omega arith) (omega arith)
        (record {
          whole = refl;
          right = λ j a b. absurd (omega arith);
          passed = λ y a b. absurd (omega arith);
        })
        p (omega arith))
