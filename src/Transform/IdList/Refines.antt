-- ===== src/Transform/IdList/Refines.antt =====
-- src/transform/mod.rs: `IdList::touch`, beside a description of it on the tokens alone, for which the
-- table `pos` and the positions are a matter of the implementation.
use zentropy.Prelude.{
  take, drop, length-set, ne→==, ℕ, zero, suc, ◌+◌, ◌-◌, ◌<◌, ◌≤◌, ◌≡◌, ◌≢◌, refl, sym, ap, ◌∙◌,
  min, true, false, List, [], ◌∷◌, ◌++◌, length, get_or, set, ◌==◌, if◌then◌else◌, arith,
  Bool-cases, inl, inr, ==→eq,
}
use zentropy.Transform.IdList.{IdList, IdMode, shift, shift_loop, put_at, promote, touch}
use zentropy.Transform.IdList.IsOrder.{IsOrder}

-- The first occurrence of a token is taken out.
pub remove : ℕ → List ℕ → List ℕ
remove v [] = []
remove v (x ∷ xs) = let rest = remove v xs in if x == v then xs else x ∷ rest

-- Move-to-front, and move-to-second, which leaves the first token where it is.
pub moved : IdMode → ℕ → List ℕ → List ℕ
moved IdMode.static v tokens = tokens
moved IdMode.mtf v tokens = v ∷ remove v tokens
moved IdMode.move_to_second v [] = []
moved IdMode.move_to_second v (x ∷ tokens) = if x == v then x ∷ tokens else x ∷ v ∷ remove v tokens

-- The loop on the tokens alone.
shift_order : ℕ → ℕ → List ℕ → List ℕ
shift_order t zero xs = xs
shift_order t (suc d) xs = shift_order t d (set xs (t + d + 1) (get_or xs (t + d) 0))

shift_loop-order : (t d : ℕ) (l : IdList) → (shift_loop t d l).order ≡ shift_order t d l.order
unfolding shift_loop shift_order shift
shift_loop-order t zero l = refl
shift_loop-order t (suc d) l = shift_loop-order t d (shift l (t + d))

shift_order-cons :
    (t d x : ℕ) (xs : List ℕ) → shift_order (suc t) d (x ∷ xs) ≡ x ∷ shift_order t d xs
unfolding shift_order
shift_order-cons t zero x xs = refl
shift_order-cons t (suc d) x xs =
    let e : suc t + d ≡ suc (t + d) = omega arith in
    let f : suc (t + d) + 1 ≡ suc (t + d + 1) = omega arith in
    rw (e, f) (shift_order-cons t d x (set xs (t + d + 1) (get_or xs (t + d) 0)))

take-set : (d i v : ℕ) (xs : List ℕ) → d ≤ i → take d (set xs i v) ≡ take d xs
take-set zero i v xs h = refl
take-set (suc d) zero v xs h = absurd (omega arith)
take-set (suc d) (suc i) v [] h = refl
take-set (suc d) (suc i) v (x ∷ xs) h = ap (λ r. x ∷ r) (take-set d i v xs (omega arith))

drop-set : (i v : ℕ) (xs : List ℕ) → i < length xs → drop i (set xs i v) ≡ v ∷ drop (suc i) xs
drop-set i v [] h = absurd (omega arith)
drop-set zero v (x ∷ xs) h = refl
drop-set (suc i) v (x ∷ xs) h = drop-set i v xs (omega arith)

take_next :
    (d : ℕ) (xs ys : List ℕ)
    → d < length xs
    → take d xs ++ (get_or xs d 0 ∷ ys) ≡ take (suc d) xs ++ ys
take_next d [] ys h = absurd (omega arith)
take_next zero (x ∷ xs) ys h = refl
take_next (suc d) (x ∷ xs) ys h = ap (λ r. x ∷ r) (take_next d xs ys (omega arith))

-- The first `d` tokens move back by one.
shift_order-front :
    (d v : ℕ) (xs : List ℕ)
    → d < length xs
    → set (shift_order 0 d xs) 0 v ≡ v ∷ (take d xs ++ drop (suc d) xs)
unfolding shift_order
shift_order-front zero v [] h = absurd (omega arith)
shift_order-front zero v (x ∷ xs) h = refl
shift_order-front (suc d) v xs h =
    let e : 0 + d ≡ d = omega arith in
    let f : d + 1 ≡ suc d = omega arith in
    let ys = set xs (suc d) (get_or xs d 0) in
    rw (e, f)
      (shift_order-front d v ys (omega (arith, length-set xs (suc d) (get_or xs d 0)))
        ∙ rw
            (
              take-set d (suc d) (get_or xs d 0) xs (omega arith),
              drop-set (suc d) (get_or xs d 0) xs h,
            )
            (ap (λ r. v ∷ r) (take_next d xs (drop (suc (suc d)) xs) (omega arith))))

remove-at :
    (p v : ℕ) (xs : List ℕ)
    → p < length xs
    → get_or xs p 0 ≡ v
    → ((i : ℕ) → i < p → get_or xs i 0 ≢ v)
    → remove v xs ≡ take p xs ++ drop (suc p) xs
unfolding remove
remove-at p v [] h at earlier = absurd (omega arith)
remove-at zero v (x ∷ xs) h at earlier = let y : (x == v) ≡ true = ground arith in rw y refl
remove-at (suc p) v (x ∷ xs) h at earlier =
    let n0 : (x == v) ≡ false = ne→== x v (earlier 0 (omega arith)) in
    rw n0 (
      ap (λ r. x ∷ r) (remove-at p v xs (omega arith) at (λ i less. earlier (suc i) (omega arith))))

head_at : (v : ℕ) (xs : List ℕ) → 0 < length xs → get_or xs 0 0 ≡ v → v ∷ drop 1 xs ≡ xs
head_at v [] h at = absurd (omega arith)
head_at v (x ∷ xs) h at = rw at refl

-- What `promote` leaves of the tokens, when the token is at `p`.
promoted : ℕ → ℕ → ℕ → List ℕ → List ℕ
promoted v p target xs =
    let shifted = set (shift_order target (p - target) xs) target v in
    if p == target then xs else shifted

promote-order :
    (vi p target : ℕ) (l : IdList) → (promote l vi p target).order ≡ promoted vi p target l.order
unfolding promote promoted put_at
promote-order vi p target l = elim (Bool-cases (p == target)) [
  | inl y ↦ rw y refl
  | inr n0 ↦ rw n0 (ap (λ xs. set xs target vi) (shift_loop-order target (p - target) l))
]

-- A list in which `v` stands at `p` and not before.
module _ (p v : ℕ) (xs : List ℕ) (h : p < length xs) (at : get_or xs p 0 ≡ v)
    (earlier : (i : ℕ) → i < p → get_or xs i 0 ≢ v) where
  to_front : set (shift_order 0 p xs) 0 v ≡ v ∷ remove v xs
  to_front = shift_order-front p v xs h ∙ ap (λ r. v ∷ r) (sym (remove-at p v xs h at earlier))

  stays : p ≡ 0 → xs ≡ v ∷ remove v xs
  stays z =
      let none : (i : ℕ) → i < 0 → get_or xs i 0 ≢ v = λ i less. absurd (omega arith) in
      let first : get_or xs 0 0 ≡ v = ap (λ q. get_or xs q 0) (sym z) ∙ at in
      sym (
        ap (λ r. v ∷ r) (remove-at 0 v xs (omega arith) first none)
        ∙ head_at v xs (omega arith) first)

  promoted-front : promoted v p 0 xs ≡ v ∷ remove v xs
  unfolding promoted
  promoted-front =
      let whole : p - 0 ≡ p = omega arith in
      elim (Bool-cases (p == 0)) [
        | inl y ↦ rw y (stays (==→eq p 0 y))
        | inr n0 ↦ rw (n0, whole) to_front
      ]

  promoted-second : (x : ℕ) → promoted v (suc p) 1 (x ∷ xs) ≡ x ∷ v ∷ remove v xs
  unfolding promoted
  promoted-second x =
      let whole : suc p - 1 ≡ p = omega arith in
      elim (Bool-cases (suc p == 1)) [
        | inl y ↦ rw y (ap (λ r. x ∷ r) (stays (let e = ==→eq (suc p) 1 y in omega arith)))
        | inr n0 ↦
            rw (n0, whole)
              (ap (λ r. set r 1 v) (shift_order-cons 0 p x xs) ∙ ap (λ r. x ∷ r) to_front)
      ]

promoted-move_to_second :
    (p v : ℕ) (xs : List ℕ)
    → p < length xs
    → get_or xs p 0 ≡ v
    → ((i : ℕ) → i < p → get_or xs i 0 ≢ v)
    → promoted v p (min 1 p) xs ≡ moved IdMode.move_to_second v xs
unfolding moved
promoted-move_to_second p v [] h at earlier = absurd (omega arith)
promoted-move_to_second zero v (x ∷ xs) h at earlier =
    let y : (x == v) ≡ true = ground arith in rw y (unfold promoted in refl)
promoted-move_to_second (suc p) v (x ∷ xs) h at earlier =
    let n0 : (x == v) ≡ false = ne→== x v (earlier 0 (omega arith)) in
    let one : min 1 (suc p) ≡ 1 = omega arith in
    rw (n0, one)
      (promoted-second p v xs (omega arith) at (λ i less. earlier (suc i) (omega arith)) x)

-- While the two tables are inverse to one another, `touch` of a token of the vocabulary does to the
-- order what the mode says, in terms of the tokens alone: nothing in static mode, else the token is
-- taken out and put in front, or behind the first token when it is not itself that one.
pub touch_refines :
    (n vi : ℕ) (mode : IdMode) (l : IdList)
    → vi < n
    → IsOrder n l
    → (touch l vi mode).order ≡ moved mode vi l.order
unfolding touch moved
touch_refines n vi mode l inside o =
    let p = get_or l.pos vi 0 in
    let there = o.there vi inside in
    let less : p < length l.order = omega (arith, there.0, o.orders) in
    let apart : (i : ℕ) → i < p → get_or l.order i 0 ≢ vi = λ i before same.
      omega (arith, (o.back i (omega (arith, there.0))).1, ap (λ (x : ℕ). get_or l.pos x 0) same) in
    elim mode as (λ m. (touch l vi m).order ≡ moved m vi l.order) [
      | IdMode.static ↦ refl
      | IdMode.mtf ↦ promote-order vi p 0 l ∙ promoted-front p vi l.order less there.1 apart
      | IdMode.move_to_second ↦
          promote-order vi p (min 1 p) l ∙ promoted-move_to_second p vi l.order less there.1 apart
    ]
