-- ===== src/Grammar/MoveToFront.antt =====
-- The move-to-front ranks of a sequence give the sequence back.
use zentropy.Prelude.{
  length-drop, Option-cases, ==→ne, ◌⊎◌, ◌≢◌, length-take, ==→eq, ℕ, zero, suc, ◌+◌, ◌-◌, ◌<◌, ◌≤◌,
  ◌≡◌, refl, ap, ◌∙◌, sym, some, List, [], ◌∷◌, ◌++◌, length, get_or, take, drop, min, arith, ltb,
  lt→ltb, ◌==◌, Bool-cases, inl, inr, All, if◌then◌else◌, ◌^◌, ◌%◌, length-append,
}
use zentropy.Reorder.Shuffle.{upto}
use zentropy.Grammar.{
  position, or_zero, to_front, mtf_encode_loop, mtf_encode, mtf_decode_loop, mtf_decode, symbols,
}

-- A symbol of a list: its place.
abbrev Found : List ℕ → ℕ → Type 0
Found list s = (i : ℕ) × (position list s ≡ some i)

-- The place of a symbol is the front, or one in the rest.
position-cons :
    (x : ℕ) (list : List ℕ) (s i : ℕ)
    → position (x ∷ list) s ≡ some i
    → ((x ≡ s) × (i ≡ 0)) ⊎ ((x ≢ s) × ((j : ℕ) × (position list s ≡ some j) × (i ≡ suc j)))
unfolding position
position-cons x list s i e = elim (Bool-cases (x == s)) [
  | inl here ↦ inl (ground arith)
  | inr there ↦ elim (Option-cases (position list s)) [
    | inl missing ↦ absurd (ground arith)
    | inr (j, found) ↦ inr (==→ne x s there, (j, found, ground arith))
  ]
]

position-at :
    (list : List ℕ) (s i : ℕ) → position list s ≡ some i → (i < length list) × (get_or list i 0 ≡ s)
position-at [] s i e = unfold position in cc
position-at (x ∷ list) s i e = elim (position-cons x list s i e) [
  | inl (here, front) ↦ rw front (omega arith, here)
  | inr (other, (j, found, place)) ↦
      let (inside, is) = position-at list s j found in rw place (omega arith, is)
]

Found-here : (x : ℕ) (list : List ℕ) → Found (x ∷ list) x
unfolding position
Found-here x list = (0, ground arith)

Found-there : (x : ℕ) (list : List ℕ) (t : ℕ) → Found list t → Found (x ∷ list) t
unfolding position
Found-there x list t (i, e) = elim (Bool-cases (x == t)) [
  | inl here ↦ (0, ground arith)
  | inr there ↦ (suc i, ground arith)
]

Found-rest : (x : ℕ) (list : List ℕ) (t : ℕ) → x ≢ t → Found (x ∷ list) t → Found list t
Found-rest x list t h (i, e) = elim (position-cons x list t i e) [
  | inl (here, front) ↦ absurd (h here)
  | inr (other, (j, found, place)) ↦ (j, found)
]

-- The other symbols keep a place where one is taken out.
Found-removed :
    (list : List ℕ) (s t i : ℕ)
    → position list s ≡ some i
    → s ≢ t
    → Found list t
    → Found (take i list ++ drop (suc i) list) t
Found-removed [] s t i e h f = unfold position in cc
Found-removed (x ∷ list) s t i e h f = elim (position-cons x list s i e) [
  | inl (here, front) ↦ rw front (Found-rest x list t (rw here h) f)
  | inr (other, (j, found, place)) ↦ rw place (elim (Bool-cases (x == t)) [
    | inl same ↦ rw (← ==→eq x t same) (Found-here x _)
    | inr differs ↦
        Found-there x _ t
          (Found-removed list s t j found h (Found-rest x list t (==→ne x t differs) f))
  ])
]

Found-to_front :
    (list : List ℕ) (s t i : ℕ)
    → position list s ≡ some i
    → Found list t
    → Found (to_front list i) t
unfolding to_front
Found-to_front list s t i e f =
    let (inside, is) = position-at list s i e in
    rw is (elim (Bool-cases (s == t)) [
      | inl same ↦ rw (← ==→eq s t same) (Found-here s _)
      | inr differs ↦ Found-there s _ t (Found-removed list s t i e (==→ne s t differs) f)
    ])

length-to_front : (list : List ℕ) (i : ℕ) → i < length list → length (to_front list i) ≡ length list
unfolding to_front
length-to_front list i h = omega (
  arith,
  length-append (take i list) (drop (suc i) list),
  length-take i list (omega arith),
  length-drop (suc i) list,
)

to_front_zero : (list : List ℕ) → 0 < length list → to_front list 0 ≡ list
unfolding to_front
to_front_zero [] h = absurd (omega arith)
to_front_zero (x ∷ list) h = refl

-- Where the code leaves the list alone, moving the front to the front changes nothing.
moved :
    (list : List ℕ) (i : ℕ)
    → i < length list
    → (if ltb 0 i then to_front list i else list) ≡ to_front list i
moved list zero h = sym (to_front_zero list (omega arith))
moved list (suc i) h = ground arith

loop-inverse :
    (n : ℕ) (seq list : List ℕ)
    → length list ≡ n
    → n ≤ 2 ^ 32
    → ((t : ℕ) → t < n → Found list t)
    → All (λ s. s < n) seq
    → mtf_decode_loop list (mtf_encode_loop list seq) ≡ some seq
unfolding mtf_decode_loop mtf_encode_loop
loop-inverse n [] list size wide f h = refl
loop-inverse n (s ∷ seq) list size wide f h =
    let (i, found) = f s h.0 in
    let (inside, is) = position-at list s i found in
    let place : or_zero (position list s) ≡ i = unfold or_zero in rw found in
    let small : i % 2 ^ 32 ≡ i = omega arith in
    let low : min i (length list - 1) ≡ i = omega arith in
    let next =
      loop-inverse n seq (to_front list i) (length-to_front list i inside ∙ size) wide
        (λ t b. Found-to_front list s t i found (f t b)) h.1 in
    rw (place, small, low, lt→ltb i (length list) inside, is, moved list i inside, next) refl

Found-upto : (i n t : ℕ) → i ≤ t → t < i + n → Found (upto i n) t
unfolding upto
Found-upto i zero t low high = absurd (omega arith)
Found-upto i (suc n) t low high = elim (Bool-cases (i == t)) [
  | inl same ↦ rw (← ==→eq i t same) (Found-here i _)
  | inr differs ↦
      let other = ==→ne i t differs in
      Found-there i _ t (Found-upto (suc i) n t (ground arith) (omega arith))
]

pub length-upto : (i n : ℕ) → length (upto i n) ≡ n
unfolding upto
length-upto i zero = refl
length-upto i (suc n) = ap (λ (k : ℕ). suc k) (length-upto (suc i) n)

-- For an alphabet of fewer than `2 ^ 32` symbols, decoding the move-to-front ranks of a sequence of
-- symbols of the alphabet does not panic, and gives the sequence.
pub mtf_decode-encode :
    (seq : List ℕ) (alphabet : ℕ)
    → alphabet < 2 ^ 32
    → All (λ s. s < alphabet) seq
    → mtf_decode (mtf_encode seq alphabet) alphabet ≡ some seq
unfolding mtf_decode mtf_encode symbols
mtf_decode-encode seq alphabet wide h =
    let uncut : alphabet % 2 ^ 32 ≡ alphabet = omega arith in
    rw uncut (
      loop-inverse alphabet seq (upto 0 alphabet) (length-upto 0 alphabet) (omega arith)
        (λ t b. Found-upto 0 alphabet t (omega arith) (omega arith)) h)
