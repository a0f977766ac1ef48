-- ===== src/Transform/IdList/Hole.antt =====
-- The tables of an `IdList` while a token moves to the front: all entries fit but one.
use zentropy.Prelude.{
  ℕ, zero, suc, ◌+◌, ◌%◌, ◌^◌, ◌<◌, ◌≤◌, ◌≡◌, ◌≢◌, refl, sym, ap, ◌∙◌, length, get_or, ◌==◌, arith,
  Bool-cases, inl, inr, ==→eq, ==→ne, length-set, get_or-set, get_or-set_other,
}
use mathlib.Core.Path.{subst}
use zentropy.Transform.IdList.{IdList, shift, shift_loop, put_at}

-- The tables hold `n` entries and are inverse to one another, but for the token `vi` and the position `h`, which is free.
pub record Hole (n vi h : ℕ) (l : IdList) : Type 0 where
  pub orders : length l.order ≡ n
  pub places : length l.pos ≡ n
  pub there :
      (v : ℕ)
      → v < n
      → v ≢ vi
      → (get_or l.pos v 0 < n) × (get_or l.pos v 0 ≢ h) × (get_or l.order (get_or l.pos v 0) 0 ≡ v)
  pub back :
      (p : ℕ)
      → p < n
      → p ≢ h
      → (get_or l.order p 0 < n)
        × (get_or l.order p 0 ≢ vi)
        × (get_or l.pos (get_or l.order p 0) 0 ≡ p)

small : (n k : ℕ) → k < n → n ≤ 255 → k % 2 ^ 8 ≡ k
small n k h b = omega arith

-- What the tables hold after a round.
shift-moved :
    (n vi k : ℕ) (l : IdList)
    → n ≤ 255
    → k + 1 < n
    → Hole n vi (k + 1) l
    → get_or (shift l k).pos (get_or l.order k 0) 0 ≡ k + 1
unfolding shift
shift-moved n vi k l bound below o =
    get_or-set l.pos _ _ _ 0 (omega (arith, (o.back k (omega arith) (omega arith)).0, o.places))
      refl
    ∙ small n (k + 1) below bound

shift-there :
    (n vi k : ℕ) (l : IdList)
    → n ≤ 255
    → k + 1 < n
    → Hole n vi (k + 1) l
    → (u : ℕ) → u < n
    → u ≢ vi
    → (get_or (shift l k).pos u 0 < n)
      × (get_or (shift l k).pos u 0 ≢ k)
      × (get_or (shift l k).order (get_or (shift l k).pos u 0) 0 ≡ u)
unfolding shift
shift-there n vi k l bound below o u h ne = elim (Bool-cases (get_or l.order k 0 == u)) [
  | inl y ↦
      let same : get_or l.order k 0 ≡ u = ==→eq _ _ y in
      let moved : get_or (shift l k).pos u 0 ≡ k + 1 =
        ap (λ (x : ℕ). get_or (shift l k).pos x 0) (sym same)
        ∙ shift-moved n vi k l bound below o in
      (
        omega (arith, moved),
        λ e. omega (arith, moved, e),
        ap (λ (q : ℕ). get_or (shift l k).order q 0) moved
            ∙ get_or-set l.order (k + 1) (k + 1) _ 0 (omega (arith, o.orders)) refl
            ∙ same,
      )
  | inr n0 ↦
      let apart : get_or l.order k 0 ≢ u = ==→ne _ _ n0 in
      let kept : get_or (shift l k).pos u 0 ≡ get_or l.pos u 0 =
        get_or-set_other l.pos _ u _ 0 apart in
      let old = o.there u h ne in
      (
        omega (arith, kept, old.0),
        λ e. apart (ap (λ (q : ℕ). get_or l.order q 0) (sym e ∙ kept) ∙ old.2),
        ap (λ (q : ℕ). get_or (shift l k).order q 0) kept
            ∙ get_or-set_other l.order (k + 1) _ _ 0 (λ e. old.1 (sym e))
            ∙ old.2,
      )
]

shift-back :
    (n vi k : ℕ) (l : IdList)
    → n ≤ 255
    → k + 1 < n
    → Hole n vi (k + 1) l
    → (p : ℕ) → p < n
    → p ≢ k
    → (get_or (shift l k).order p 0 < n)
      × (get_or (shift l k).order p 0 ≢ vi)
      × (get_or (shift l k).pos (get_or (shift l k).order p 0) 0 ≡ p)
unfolding shift
shift-back n vi k l bound below o p h ne =
    let at = o.back k (omega arith) (omega arith) in
    elim (Bool-cases (k + 1 == p)) [
      | inl y ↦
          let same : k + 1 ≡ p = ==→eq _ _ y in
          let here : get_or (shift l k).order p 0 ≡ get_or l.order k 0 =
            get_or-set l.order (k + 1) p _ 0 (omega (arith, o.orders)) same in
          (
            omega (arith, here, at.0),
            λ e. at.1 (sym here ∙ e),
            ap (λ (x : ℕ). get_or (shift l k).pos x 0) here
                ∙ shift-moved n vi k l bound below o
                ∙ same,
          )
      | inr n0 ↦
          let apart : k + 1 ≢ p = ==→ne _ _ n0 in
          let kept : get_or (shift l k).order p 0 ≡ get_or l.order p 0 =
            get_or-set_other l.order (k + 1) p _ 0 apart in
          let old = o.back p h (λ e. apart (sym e)) in
          let other : get_or l.order k 0 ≢ get_or l.order p 0 =
            λ e. ne (sym old.2 ∙ ap (λ (x : ℕ). get_or l.pos x 0) (sym e) ∙ at.2) in
          (
            omega (arith, kept, old.0),
            λ e. old.1 (sym kept ∙ e),
            ap (λ (x : ℕ). get_or (shift l k).pos x 0) kept
                ∙ get_or-set_other l.pos _ _ _ 0 other
                ∙ old.2,
          )
    ]

shift-Hole :
    (n vi k : ℕ) (l : IdList) → n ≤ 255 → k + 1 < n → Hole n vi (k + 1) l → Hole n vi k (shift l k)
unfolding shift
shift-Hole n vi k l bound below o = record {
  orders = length-set l.order (k + 1) _ ∙ o.orders;
  places = length-set l.pos _ _ ∙ o.places;
  there = shift-there n vi k l bound below o;
  back = shift-back n vi k l bound below o;
}

pub shift_loop-Hole :
    (n vi target d : ℕ) (l : IdList)
    → n ≤ 255
    → target + d < n
    → Hole n vi (target + d) l
    → Hole n vi target (shift_loop target d l)
unfolding shift_loop
shift_loop-Hole n vi target zero l bound below o =
    let e : target + 0 ≡ target = omega arith in subst (λ (h : ℕ). Hole n vi h l) e o
shift_loop-Hole n vi target (suc d) l bound below o =
    let e : target + suc d ≡ target + d + 1 = omega arith in
    shift_loop-Hole n vi target d (shift l (target + d)) bound (omega arith)
      (shift-Hole n vi (target + d) l bound (omega arith) (subst (λ (h : ℕ). Hole n vi h l) e o))

pub put_at-there :
    (n vi h : ℕ) (l : IdList)
    → n ≤ 255
    → vi < n
    → h < n
    → Hole n vi h l
    → (v : ℕ) → v < n
    → (get_or (put_at l vi h).pos v 0 < n)
      × (get_or (put_at l vi h).order (get_or (put_at l vi h).pos v 0) 0 ≡ v)
unfolding put_at
put_at-there n vi h l bound inside below o v less = elim (Bool-cases (vi == v)) [
  | inl y ↦
      let same : vi ≡ v = ==→eq _ _ y in
      let here : get_or (put_at l vi h).pos v 0 ≡ h =
        get_or-set l.pos vi v _ 0 (omega (arith, o.places)) same ∙ small n h below bound in
      (
        omega (arith, here),
        ap (λ (q : ℕ). get_or (put_at l vi h).order q 0) here
            ∙ get_or-set l.order h h vi 0 (omega (arith, o.orders)) refl
            ∙ same,
      )
  | inr n0 ↦
      let apart : vi ≢ v = ==→ne _ _ n0 in
      let kept : get_or (put_at l vi h).pos v 0 ≡ get_or l.pos v 0 =
        get_or-set_other l.pos vi v _ 0 apart in
      let old = o.there v less (λ e. apart (sym e)) in
      (
        omega (arith, kept, old.0),
        ap (λ (q : ℕ). get_or (put_at l vi h).order q 0) kept
            ∙ get_or-set_other l.order h _ vi 0 (λ e. old.1 (sym e))
            ∙ old.2,
      )
]

pub put_at-back :
    (n vi h : ℕ) (l : IdList)
    → n ≤ 255
    → vi < n
    → h < n
    → Hole n vi h l
    → (p : ℕ) → p < n
    → (get_or (put_at l vi h).order p 0 < n)
      × (get_or (put_at l vi h).pos (get_or (put_at l vi h).order p 0) 0 ≡ p)
unfolding put_at
put_at-back n vi h l bound inside below o p less = elim (Bool-cases (h == p)) [
  | inl y ↦
      let same : h ≡ p = ==→eq _ _ y in
      let here : get_or (put_at l vi h).order p 0 ≡ vi =
        get_or-set l.order h p vi 0 (omega (arith, o.orders)) same in
      (
        omega (arith, here),
        ap (λ (x : ℕ). get_or (put_at l vi h).pos x 0) here
            ∙ get_or-set l.pos vi vi _ 0 (omega (arith, o.places)) refl
            ∙ small n h below bound
            ∙ same,
      )
  | inr n0 ↦
      let apart : h ≢ p = ==→ne _ _ n0 in
      let kept : get_or (put_at l vi h).order p 0 ≡ get_or l.order p 0 =
        get_or-set_other l.order h p vi 0 apart in
      let old = o.back p less (λ e. apart (sym e)) in
      (
        omega (arith, kept, old.0),
        ap (λ (x : ℕ). get_or (put_at l vi h).pos x 0) kept
            ∙ get_or-set_other l.pos vi _ _ 0 (λ e. old.1 (sym e))
            ∙ old.2,
      )
]
