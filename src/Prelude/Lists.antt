-- ===== src/Prelude/Lists.antt =====
-- Lists measured and indexed by native numbers, under the library's names, and the Option monad.
use Prim.Native.Nat.{ℕ, zero, suc, ◌+◌, ◌-◌, ◌≤◌, ◌<◌}
use mathlib.Core.Logic.{◌≢◌}
use native.Mathlib.Nat.{zero-add, suc-add}
use mathlib.Core.Path.{◌≡◌, refl, ap}
use mathlib.Core.List.{List, [], ◌∷◌, ◌++◌, map}
use mathlib.Core.Option.{Option, none, some}
use mathlib.Core.Bool.{Bool, true, false, ◌&&◌}
use native.Mathlib.Omega.{arith}
use Prim.Native.Char.{code}
use Prim.Native.String.{String}
use zentropy.Prelude.Tests.{◌==◌}

module _ {ℓ} {A : Type ℓ} where
  abbrev pub length : List A → ℕ
  length [] = 0
  length (x ∷ xs) = suc (length xs)

  abbrev pub get_elem? : List A → ℕ → Option A
  get_elem? [] i = none
  get_elem? (x ∷ xs) zero = some x
  get_elem? (x ∷ xs) (suc i) = get_elem? xs i

  abbrev pub get_or : List A → ℕ → A → A
  get_or [] i d = d
  get_or (x ∷ xs) zero d = x
  get_or (x ∷ xs) (suc i) d = get_or xs i d

  -- A write out of bounds changes nothing.
  abbrev pub set : List A → ℕ → A → List A
  set [] i v = []
  set (x ∷ xs) zero v = v ∷ xs
  set (x ∷ xs) (suc i) v = x ∷ set xs i v

  abbrev pub take : ℕ → List A → List A
  take zero xs = []
  take (suc n) [] = []
  take (suc n) (x ∷ xs) = x ∷ take n xs

  abbrev pub drop : ℕ → List A → List A
  drop zero xs = xs
  drop (suc n) [] = []
  drop (suc n) (x ∷ xs) = drop n xs

  abbrev pub replicate : ℕ → A → List A
  replicate zero a = []
  replicate (suc n) a = a ∷ replicate n a

  -- `filter` by a Boolean test
  abbrev pub filter_by : (A → Bool) → List A → List A
  filter_by test [] = []
  filter_by test (x ∷ xs) =
      let kept = filter_by test xs in elim (test x) [ true ↦ x ∷ kept | false ↦ kept ]

  abbrev pub All {κ} : (A → Type κ) → List A → Type κ
  All P [] = Unit {κ}
  All P (x ∷ xs) = P x × All P xs

module _ {ℓ} {A : Type ℓ} where
  pub length-append : (xs ys : List A) → length (xs ++ ys) ≡ length xs + length ys
  length-append [] ys = omega arith
  length-append (x ∷ xs) ys = omega (arith, length-append xs ys)

  pub take-append-drop : (n : ℕ) (xs : List A) → take n xs ++ drop n xs ≡ xs
  take-append-drop zero xs = refl
  take-append-drop (suc n) [] = refl
  take-append-drop (suc n) (x ∷ xs) = ap (λ r. x ∷ r) (take-append-drop n xs)

  pub length-drop : (n : ℕ) (xs : List A) → length (drop n xs) ≡ length xs - n
  length-drop zero xs = omega arith
  length-drop (suc n) [] = omega arith
  length-drop (suc n) (x ∷ xs) = omega (arith, length-drop n xs)

  drop-nil : (n : ℕ) → drop {A = A} n [] ≡ []
  drop-nil zero = refl
  drop-nil (suc n) = refl

  pub drop-add : (n m : ℕ) (xs : List A) → drop (n + m) xs ≡ drop m (drop n xs)
  drop-add zero m xs = rw zero-add
  drop-add (suc n) m [] = rw (suc-add, drop-nil m)
  drop-add (suc n) m (x ∷ xs) = rw suc-add (drop-add n m xs)

  pub length-take : (n : ℕ) (xs : List A) → n ≤ length xs → length (take n xs) ≡ n
  length-take zero xs h = refl
  length-take (suc n) [] h = absurd (omega arith)
  length-take (suc n) (x ∷ xs) h = omega (arith, length-take n xs (omega arith))

  pub take-append_self : (xs ys : List A) → take (length xs) (xs ++ ys) ≡ xs
  take-append_self [] ys = refl
  take-append_self (x ∷ xs) ys = ap (λ r. x ∷ r) (take-append_self xs ys)

  pub drop-append_self : (xs ys : List A) → drop (length xs) (xs ++ ys) ≡ ys
  drop-append_self [] ys = refl
  drop-append_self (x ∷ xs) ys = drop-append_self xs ys

  pub take_self : (xs : List A) → take (length xs) xs ≡ xs
  take_self [] = refl
  take_self (x ∷ xs) = ap (λ r. x ∷ r) (take_self xs)

  pub drop-eq-cons :
      (i : ℕ) (xs : List A) (y : A) (ys : List A)
      → drop i xs ≡ y ∷ ys
      → (get_elem? xs i ≡ some y) × (drop (suc i) xs ≡ ys)
  drop-eq-cons zero [] y ys e = cc
  drop-eq-cons zero (x ∷ xs) y ys e = (cc, cc)
  drop-eq-cons (suc i) [] y ys e = cc
  drop-eq-cons (suc i) (x ∷ xs) y ys e = drop-eq-cons i xs y ys e

module _ {ℓ} {A : Type ℓ} where
  pub length-set : (xs : List A) (i : ℕ) (v : A) → length (set xs i v) ≡ length xs
  length-set [] i v = refl
  length-set (x ∷ xs) zero v = refl
  length-set (x ∷ xs) (suc i) v = ap (λ (n : ℕ). suc n) (length-set xs i v)

  pub get_or-set :
      (xs : List A) (i j : ℕ) (v d : A) → i < length xs → i ≡ j → get_or (set xs i v) j d ≡ v
  get_or-set [] i j v d h e = absurd (omega arith)
  get_or-set (x ∷ xs) zero zero v d h e = refl
  get_or-set (x ∷ xs) zero (suc j) v d h e = absurd (omega arith)
  get_or-set (x ∷ xs) (suc i) zero v d h e = absurd (omega arith)
  get_or-set (x ∷ xs) (suc i) (suc j) v d h e = get_or-set xs i j v d (omega arith) (omega arith)

  pub get_or-set_other :
      (xs : List A) (i j : ℕ) (v d : A) → i ≢ j → get_or (set xs i v) j d ≡ get_or xs j d
  get_or-set_other [] i j v d h = refl
  get_or-set_other (x ∷ xs) zero zero v d h = absurd (h refl)
  get_or-set_other (x ∷ xs) zero (suc j) v d h = refl
  get_or-set_other (x ∷ xs) (suc i) zero v d h = refl
  get_or-set_other (x ∷ xs) (suc i) (suc j) v d h =
      get_or-set_other xs i j v d (λ e. h (ap (λ (n : ℕ). suc n) e))

pub All-imp {ℓ κ μ} :
    {A : Type ℓ} {P : A → Type κ} {Q : A → Type μ} (xs : List A)
    → ((x : A) → P x → Q x)
    → All P xs
    → All Q xs
All-imp [] f h = tt
All-imp (x ∷ xs) f h = (f x h.0, All-imp xs f h.1)

-- The code points of a text: its bytes, if it is ASCII.
abbrev pub codes : String → List ℕ
codes String.[] = []
codes (String.◌∷◌ c s) = code c ∷ codes s

-- `hay.starts_with(needle)` on byte slices.
unfoldable pub starts_with : List ℕ → List ℕ → Bool
starts_with hay [] = true
starts_with [] (n ∷ needle) = false
starts_with (h ∷ hay) (n ∷ needle) = n == h && starts_with hay needle

pub starts_with-split :
    (hay needle : List ℕ) → starts_with hay needle ≡ true → hay ≡ needle ++ drop (length needle) hay
unfolding starts_with
starts_with-split hay [] e = refl
starts_with-split [] (n ∷ needle) e = cc
starts_with-split (h ∷ hay) (n ∷ needle) e = ground (arith, starts_with-split hay needle)

infixl 5 ◌>>=◌
abbrev pub ◌>>=◌ {ℓ κ} : {A : Type ℓ} {B : Type κ} → Option A → (A → Option B) → Option B
none >>= f = none
some a >>= f = f a

module _ {ℓ κ} {A : Type ℓ} (P : A → Type κ) where
  pub All-filter_by : (test : A → Bool) (xs : List A) → All P xs → All P (filter_by test xs)
  All-filter_by test [] h = tt
  All-filter_by test (x ∷ xs) h =
      elim (test x)
        as (λ b. All P (elim b [ true ↦ x ∷ filter_by test xs | false ↦ filter_by test xs ])) [
          | true ↦ (h.0, All-filter_by test xs h.1)
          | false ↦ All-filter_by test xs h.1
        ]

  pub All-take : (n : ℕ) (xs : List A) → All P xs → All P (take n xs)
  All-take zero xs h = tt
  All-take (suc n) [] h = tt
  All-take (suc n) (x ∷ xs) h = (h.0, All-take n xs h.1)

module _ {ℓ κ} {A : Type ℓ} (P : A → Type κ) where
  pub All-append : (xs ys : List A) → All P xs → All P ys → All P (xs ++ ys)
  All-append [] ys h k = k
  All-append (x ∷ xs) ys h k = (h.0, All-append xs ys h.1 k)

  pub All-get_or : (xs : List A) (i : ℕ) (d : A) → All P xs → P d → P (get_or xs i d)
  All-get_or [] i d h p = p
  All-get_or (x ∷ xs) zero d h p = h.0
  All-get_or (x ∷ xs) (suc i) d h p = All-get_or xs i d h.1 p

  pub All-set : (xs : List A) (i : ℕ) (v : A) → All P xs → P v → All P (set xs i v)
  All-set [] i v h p = tt
  All-set (x ∷ xs) zero v h p = (p, h.1)
  All-set (x ∷ xs) (suc i) v h p = (h.0, All-set xs i v h.1 p)

  pub All-drop : (n : ℕ) (xs : List A) → All P xs → All P (drop n xs)
  All-drop zero xs h = h
  All-drop (suc n) [] h = tt
  All-drop (suc n) (x ∷ xs) h = All-drop n xs h.1

  pub All-every : (xs : List A) → ((x : A) → P x) → All P xs
  All-every [] f = tt
  All-every (x ∷ xs) f = (f x, All-every xs f)

pub All-map {ℓ κ μ} :
    {A : Type ℓ} {B : Type κ} (P : B → Type μ) (f : A → B) (xs : List A)
    → All (λ x. P (f x)) xs
    → All P (map f xs)
All-map P f [] h = tt
All-map P f (x ∷ xs) h = (h.0, All-map P f xs h.1)
