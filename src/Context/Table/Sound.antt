-- ===== src/Context/Table/Sound.antt =====
-- A table of probabilities: the slot of a bit lies in the table, and once it was used it never holds
-- the mark of an unused slot again.
use zentropy.Prelude.{
  if-both, suc, ℕ, ◌+◌, ◌-◌, ◌*◌, ◌/◌, ◌%◌, ◌^◌, ◌≤◌, ◌<◌, ◌≡◌, refl, ◌∙◌, max, true, List, length,
  get_or, set, leb, ◌==◌, if◌then◌else◌, arith, Bool-cases, inl, inr, length-set, get_or-set,
  bit_and, bit_or,
}
use native.Mathlib.Nat.{one-le-pow, mod-lt, pow-suc}
use zentropy.Prelude.Bits.{bit_and_low, bit_or_disjoint}
use zentropy.Prelude.Int.{ℤ, pos, negsuc}
use zentropy.Mixer.Apm.{adapt}
use zentropy.Context.Table.{
  ContextModel, scrambled, nibble_base, ready_low, locate, checksum, verified, seeded, selected,
  predict, real, update,
}

-- The shape of a table with `2 ^ bits` slots.
pub record Shaped (bits : ℕ) (m : ContextModel) : Type 0 where
  pub size : length m.table ≡ 2 ^ bits
  pub masked : m.mask ≡ 2 ^ bits - 1
  pub enough : m.is_nibble ≡ true → 4 ≤ bits
  pub high : (m.hi_base % 16 ≡ 0) × (m.hi_base < 2 ^ bits)
  pub low : (m.lo_base % 16 ≡ 0) × (m.lo_base < 2 ^ bits)

module _ (bits : ℕ) where
  pow_16 : 4 ≤ bits → 2 ^ bits % 16 ≡ 0
  pow_16 h =
      let d = bits - 4 in
      let e : bits ≡ suc (suc (suc (suc d))) = omega arith in
      rw e (
        omega (
          arith,
          pow-suc 2 d,
          pow-suc 2 (suc d),
          pow-suc 2 (suc (suc d)),
          pow-suc 2 (suc (suc (suc d))),
        ))

  masked-lt : (x mask : ℕ) → mask ≡ 2 ^ bits - 1 → bit_and x mask < 2 ^ bits
  masked-lt x mask e =
      rw e (omega (arith, bit_and_low bits x, mod-lt x (one-le-pow bits 2 (omega arith))))

  bucket : (x : ℕ) → x % 16 ≡ 0 → x < 2 ^ bits → 4 ≤ bits → (r : ℕ) → r < 16 → bit_or x r < 2 ^ bits
  bucket x even less h r small =
      let whole : x / 16 * 2 ^ 4 ≡ x = omega arith in
      let sum : bit_or x r ≡ x + r = rw whole at (bit_or_disjoint 4 (x / 16) r small) in
      omega (arith, sum, pow_16 h)

  nibble_base-aligned :
      (m : ContextModel) (k : ℕ)
      → m.mask ≡ 2 ^ bits - 1
      → (nibble_base m k % 16 ≡ 0) × (nibble_base m k < 2 ^ bits)
  unfolding nibble_base
  nibble_base-aligned m k e =
      let inside = masked-lt (scrambled m.ctx k) m.mask e in (omega arith, omega (arith, inside))

  ready_low-Shaped : (m : ContextModel) (c0 : ℕ) → Shaped bits m → Shaped bits (ready_low m c0)
  unfolding ready_low
  ready_low-Shaped m c0 s =
      if-both (Shaped bits) m.lo_ready m _ (λ y. s)
        (λ n0. record {
          size = s.size;
          masked = s.masked;
          enough = s.enough;
          high = s.high;
          low = nibble_base-aligned m (c0 % 16 + 1) s.masked;
        })

  locate-Shaped :
      (m : ContextModel) (c0 : ℕ)
      → Shaped bits m
      → Shaped bits (locate m c0).2 × ((locate m c0).1 < 2 ^ bits)
  unfolding locate
  locate-Shaped m c0 s =
      let P : ℕ × ℕ × ContextModel → Type 0 = λ r. Shaped bits r.2 × (r.1 < 2 ^ bits) in
      let t = ready_low-Shaped m c0 s in
      if-both P m.is_nibble _ _
        (λ y.
          if-both P (leb 16 c0) _ _
            (λ late. (t, bucket _ t.low.0 t.low.1 (s.enough y) (c0 / 16 % 16) (omega arith)))
            (λ early. (s, bucket _ s.high.0 s.high.1 (s.enough y) (c0 % 16) (omega arith))))
        (λ n0. (s, masked-lt (scrambled m.ctx c0) m.mask s.masked))

  -- A table whose last slot lies in it.
  record Placed (m : ContextModel) : Type 0 where
    shaped : Shaped bits m
    inside : m.idx < 2 ^ bits

  verified-Placed : (m : ContextModel) (h : ℕ) → Placed m → Placed (verified m h)
  unfolding verified
  verified-Placed m h p = elim (Bool-cases (m.verify == 0)) [
    | inl off ↦ rw off p
    | inr on ↦ elim (Bool-cases (get_or m.chk m.idx 0 == checksum m h)) [
      | inl same ↦ rw (on, same) p
      | inr other ↦
          rw (on, other)
            (record {
              shaped = record {
                size = length-set m.table m.idx 0 ∙ p.shaped.size;
                masked = p.shaped.masked;
                enough = p.shaped.enough;
                high = p.shaped.high;
                low = p.shaped.low;
              };
              inside = p.inside;
            })
    ]
  ]

  selected-Placed : (m : ContextModel) (c0 : ℕ) → Shaped bits m → Placed (selected m c0)
  unfolding selected
  selected-Placed m c0 s =
      let (t, less) = locate-Shaped m c0 s in
      verified-Placed _ (locate m c0).0 (record {
        shaped = record {
          size = t.size;
          masked = t.masked;
          enough = t.enough;
          high = t.high;
          low = t.low;
        };
        inside = less;
      })

  -- The slot of the bit is in use: it holds the prediction, which is not the mark.
  pub record Used (m : ContextModel) : Type 0 where
    pub shaped : Shaped bits m
    pub inside : m.idx < length m.table
    pub holds : get_or m.table m.idx 0 ≡ m.last_p
    pub real_p : 1 ≤ m.last_p

  seeded-Used : (m : ContextModel) (seed : ℕ) → Placed m → Used (seeded m seed)
  unfolding seeded
  seeded-Used m seed p = elim (Bool-cases (get_or m.table m.idx 0 == 0)) [
    | inl cold ↦ rw cold (record {
      shaped = record {
        size = length-set m.table m.idx _ ∙ p.shaped.size;
        masked = p.shaped.masked;
        enough = p.shaped.enough;
        high = p.shaped.high;
        low = p.shaped.low;
      };
      inside = omega (arith, p.inside, p.shaped.size, length-set m.table m.idx (max seed 1));
      holds =
          get_or-set m.table m.idx m.idx (max seed 1) 0 (omega (arith, p.inside, p.shaped.size))
            refl;
      real_p = omega arith;
    })
    | inr warm ↦ rw warm (record {
      shaped = record {
        size = p.shaped.size;
        masked = p.shaped.masked;
        enough = p.shaped.enough;
        high = p.shaped.high;
        low = p.shaped.low;
      };
      inside = omega (arith, p.inside, p.shaped.size);
      holds = refl;
      real_p = ground arith;
    })
  ]

  real-range : (p : ℤ) → (1 ≤ real p) × (real p ≤ 65535)
  unfolding real
  real-range (pos p) = (omega arith, omega arith)
  real-range (negsuc p) = (omega arith, omega arith)

  -- After the bit: the same slot, which holds a 16-bit probability that is not the mark.
  abbrev pub Learnt : ContextModel → ContextModel → Type 0
  Learnt m m' = Shaped bits m' × (1 ≤ get_or m'.table m.idx 0) × (get_or m'.table m.idx 0 ≤ 65535)

  update-Learnt : (m : ContextModel) (bit : ℕ) → Used m → Learnt m (update m bit)
  unfolding update
  update-Learnt m bit u =
      let p = adapt m.rate (pos (if bit == 0 then 0 else 65535)) (pos (get_or m.table m.idx 0)) in
      let at : get_or (set m.table m.idx (real p)) m.idx 0 ≡ real p =
        get_or-set m.table m.idx m.idx (real p) 0 u.inside refl in
      (
        record {
          size = length-set m.table m.idx (real p) ∙ u.shaped.size;
          masked = u.shaped.masked;
          enough = u.shaped.enough;
          high = u.shaped.high;
          low = u.shaped.low;
        },
        omega (arith, at, (real-range p).0),
        omega (arith, at, (real-range p).1),
      )

-- One bit, in both layouts and with each way of verification: the slot that is selected lies in the
-- table, it holds the probability that is used, and neither before nor after learning is this the 0
-- that marks an unused slot. The table keeps its shape.
pub update-predict-Used :
    (bits : ℕ) (m : ContextModel) (c0 : ℕ) (st : List ℕ) (seed bit : ℕ)
    → Shaped bits m
    → Used bits (predict m c0 st seed).1
      × Learnt bits (predict m c0 st seed).1 (update (predict m c0 st seed).1 bit)
unfolding predict
update-predict-Used bits m c0 st seed bit s =
    let u = seeded-Used bits (selected m c0) seed (selected-Placed bits m c0 s) in
    (u, update-Learnt bits (seeded (selected m c0) seed) bit u)
