-- ===== src/Transform/IdList/IsOrder.antt =====
-- The two tables of an `IdList` stay inverse to one another, so an id leads back to its token.
use zentropy.Prelude.{
  ℕ, zero, suc, ◌+◌, ◌-◌, ◌%◌, ◌^◌, ◌<◌, ◌≤◌, ◌≡◌, refl, sym, ap, ◌∙◌, length, get_or, min, ◌==◌,
  arith, Bool-cases, inl, inr, length-set,
}
use mathlib.Core.Path.{subst}
use native.Mathlib.Nat.{zero-add}
use zentropy.Reorder.Shuffle.{upto}
use zentropy.Transform.IdList.{IdList, IdMode, new, id, resolve, put_at, promote, touch}
use zentropy.Transform.IdList.Hole.{Hole, shift_loop-Hole, put_at-there, put_at-back}

-- Both tables hold `n` entries and are inverse to one another.
pub record IsOrder (n : ℕ) (l : IdList) : Type 0 where
  pub orders : length l.order ≡ n
  pub places : length l.pos ≡ n
  pub there : (v : ℕ) → v < n → (get_or l.pos v 0 < n) × (get_or l.order (get_or l.pos v 0) 0 ≡ v)
  pub back : (p : ℕ) → p < n → (get_or l.order p 0 < n) × (get_or l.pos (get_or l.order p 0) 0 ≡ p)

IsOrder-Hole : (n vi : ℕ) (l : IdList) → vi < n → IsOrder n l → Hole n vi (get_or l.pos vi 0) l
IsOrder-Hole n vi l below o = record {
  orders = o.orders;
  places = o.places;
  there = λ v h ne. (
    (o.there v h).0,
    λ same.
        ne (sym (o.there v h).1 ∙ ap (λ (q : ℕ). get_or l.order q 0) same ∙ (o.there vi below).1),
    (o.there v h).1,
  );
  back = λ p h ne. (
    (o.back p h).0,
    λ same. ne (sym (o.back p h).1 ∙ ap (λ (q : ℕ). get_or l.pos q 0) same),
    (o.back p h).1,
  );
}

promote-IsOrder :
    (n vi target : ℕ) (l : IdList)
    → n ≤ 255
    → vi < n
    → target ≤ get_or l.pos vi 0
    → IsOrder n l
    → IsOrder n (promote l vi (get_or l.pos vi 0) target)
unfolding promote
promote-IsOrder n vi target l bound inside front o =
    let p = get_or l.pos vi 0 in
    let below = (o.there vi inside).0 in
    let whole : p ≡ target + (p - target) = omega arith in
    let hole =
      shift_loop-Hole n vi target (p - target) l bound (omega arith)
        (subst (λ (h : ℕ). Hole n vi h l) whole (IsOrder-Hole n vi l inside o)) in
    elim (Bool-cases (p == target)) [
      | inl y ↦ rw y o
      | inr n0 ↦ rw n0 (record {
        orders = unfold put_at in (length-set _ target vi ∙ hole.orders);
        places = unfold put_at in (length-set _ vi _ ∙ hole.places);
        there = put_at-there n vi target _ bound inside (omega arith) hole;
        back = put_at-back n vi target _ bound inside (omega arith) hole;
      })
    ]

-- Whatever the mode, a promotion keeps the two tables inverse to one another, for at most 255 tokens.
pub touch-IsOrder :
    (n vi : ℕ) (mode : IdMode) (l : IdList)
    → n ≤ 255
    → vi < n
    → IsOrder n l
    → IsOrder n (touch l vi mode)
unfolding touch
touch-IsOrder n vi IdMode.static l bound inside o = o
touch-IsOrder n vi IdMode.mtf l bound inside o =
    promote-IsOrder n vi 0 l bound inside (omega arith) o
touch-IsOrder n vi IdMode.move_to_second l bound inside o =
    promote-IsOrder n vi (min 1 (get_or l.pos vi 0)) l bound inside (omega arith) o

get_or-upto : (i n k : ℕ) → k < n → get_or (upto i n) k 0 ≡ i + k
unfolding upto
get_or-upto i zero k h = absurd (omega arith)
get_or-upto i (suc n) zero h = omega arith
get_or-upto i (suc n) (suc k) h = omega (arith, get_or-upto (suc i) n k (omega arith))

length-upto : (i n : ℕ) → length (upto i n) ≡ n
unfolding upto
length-upto i zero = refl
length-upto i (suc n) = ap (λ (k : ℕ). suc k) (length-upto (suc i) n)

pub new-IsOrder : (n : ℕ) → n ≤ 255 → IsOrder n (new n)
unfolding new
new-IsOrder n bound =
    let m : min n 255 % 2 ^ 8 ≡ n = omega arith in
    let at = λ (k : ℕ) (h : k < n). get_or-upto 0 n k h ∙ zero-add k in
    rw m (record {
      orders = length-upto 0 n;
      places = length-upto 0 n;
      there = λ v h. (omega (arith, at v h), rw (at v h) (at v h));
      back = λ v h. (omega (arith, at v h), rw (at v h) (at v h));
    })

-- While the tables are inverse to one another, and there are at most 255 tokens, the id of a token is
-- from 1 to their number, and resolves to that token.
pub resolve-id :
    (n vi : ℕ) (l : IdList)
    → n ≤ 255
    → vi < n
    → IsOrder n l
    → (1 ≤ id l vi) × (id l vi ≤ n) × (resolve l (id l vi) ≡ vi)
unfolding id resolve
resolve-id n vi l bound inside o =
    let at = o.there vi inside in
    let wide : (get_or l.pos vi 0 + 1) % 2 ^ 8 ≡ get_or l.pos vi 0 + 1 = omega (arith, at.0) in
    let less : (get_or l.pos vi 0 + 1) % 2 ^ 8 - 1 ≡ get_or l.pos vi 0 = omega (arith, at.0) in
    (omega (arith, wide), omega (arith, wide, at.0), ap (λ (q : ℕ). get_or l.order q 0) less ∙ at.1)
