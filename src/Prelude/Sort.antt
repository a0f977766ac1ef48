-- ===== src/Prelude/Sort.antt =====
-- A stable sort by a Boolean comparison, the same items in another order, and the order that a key
-- without repetitions fixes.
use zentropy.Prelude.{
  suc, length, ℕ, ◌<◌, ◌≡◌, refl, ap, ◌∙◌, sym, Bool, List, [], ◌∷◌, map, All, leb, arith,
  if◌then◌else◌, Bool-cases, inl, inr, ◌≢◌,
}
use mathlib.Core.Path.{ap₂, subst}
use mathlib.Core.List.{Permᴰ}
use mathlib.Core.List.Permᴰ
use mathlib.Core.List.Permᴰ

module _ {ℓ} {A : Type ℓ} (before : A → A → Bool) where
  -- An item goes in front of the first that it is not after, so equal items keep their order.
  unfoldable pub insert : A → List A → List A
  insert x [] = x ∷ []
  insert x (y ∷ ys) = if before x y then x ∷ y ∷ ys else y ∷ insert x ys

  unfoldable pub sort_by : List A → List A
  sort_by [] = []
  sort_by (x ∷ xs) = insert x (sort_by xs)

  insert-perm : (x : A) (ys : List A) → Permᴰ (insert x ys) (x ∷ ys)
  unfolding insert
  insert-perm x [] = Permᴰ.refl (x ∷ [])
  insert-perm x (y ∷ ys) = elim (Bool-cases (before x y)) [
    | inl first ↦ rw first (Permᴰ.refl (x ∷ y ∷ ys))
    | inr later ↦ rw later (Permᴰ.trans (Permᴰ.cons refl (insert-perm x ys)) (Permᴰ.swap refl refl))
  ]

  pub sort_by-perm : (xs : List A) → Permᴰ (sort_by xs) xs
  unfolding sort_by
  sort_by-perm [] = Permᴰ.nil
  sort_by-perm (x ∷ xs) =
      Permᴰ.trans (insert-perm x (sort_by xs)) (Permᴰ.cons refl (sort_by-perm xs))

-- What holds of all items holds in every order.
pub All-perm {ℓ κ} :
    {A : Type ℓ} (P : A → Type κ) {xs ys : List A} → Permᴰ xs ys → All P xs → All P ys
All-perm P Permᴰ.nil h = h
All-perm P (Permᴰ.cons e p) h = (subst P e h.0, All-perm P p h.1)
All-perm P (Permᴰ.swap e f) h = (subst P f h.1.0, (subst P e h.0, h.1.1))
All-perm P (Permᴰ.trans p q) h = All-perm P q (All-perm P p h)

pub map-perm {ℓ κ} :
    {A : Type ℓ} {B : Type κ} (f : A → B) {xs ys : List A}
    → Permᴰ xs ys
    → Permᴰ (map f xs) (map f ys)
map-perm f Permᴰ.nil = Permᴰ.nil
map-perm f (Permᴰ.cons e p) = Permᴰ.cons (ap f e) (map-perm f p)
map-perm f (Permᴰ.swap e g) = Permᴰ.swap (ap f e) (ap f g)
map-perm f (Permᴰ.trans p q) = Permᴰ.trans (map-perm f p) (map-perm f q)

-- The items have different keys.
abbrev pub Apart {ℓ} : {A : Type ℓ} → (A → ℕ) → List A → Type 0
Apart key [] = Unit
Apart key (x ∷ xs) = All (λ y. key x ≢ key y) xs × Apart key xs

-- The keys go up.
abbrev pub Ascending {ℓ} : {A : Type ℓ} → (A → ℕ) → List A → Type 0
Ascending key [] = Unit
Ascending key (x ∷ []) = Unit
Ascending key (x ∷ y ∷ ys) = (key x < key y) × Ascending key (y ∷ ys)

module _ {ℓ} {A : Type ℓ} (key : A → ℕ) where
  abbrev pub by_key : A → A → Bool
  by_key a b = leb (key a) (key b)

  -- Insertions of items with different keys can be swapped.
  insert_comm :
      (x y : A) (zs : List A)
      → key x ≢ key y
      → insert by_key x (insert by_key y zs) ≡ insert by_key y (insert by_key x zs)
  unfolding insert
  insert_comm x y [] h = ground arith
  insert_comm x y (z ∷ zs) h = ground (arith, insert_comm x y zs h)

  Apart-perm : {xs ys : List A} → Permᴰ xs ys → Apart key xs → Apart key ys
  Apart-perm Permᴰ.nil h = h
  Apart-perm (Permᴰ.cons e p) h = rw (← e) (All-perm (λ y. key _ ≢ key y) p h.0, Apart-perm p h.1)
  Apart-perm (Permᴰ.swap {b = b} {b' = b'} {l = l} e f) h =
      let swapped : Apart key (b ∷ _ ∷ l) = ((λ same. h.0.0 (sym same), h.1.0), (h.0.1, h.1.1)) in
      subst (λ c. Apart key (c ∷ b' ∷ l)) f (subst (λ c. Apart key (b ∷ c ∷ l)) e swapped)
  Apart-perm (Permᴰ.trans p q) h = Apart-perm q (Apart-perm p h)

  -- The result depends on the items alone, not on their order.
  sort_by_unique :
      {xs ys : List A} → Permᴰ xs ys → Apart key xs → sort_by by_key xs ≡ sort_by by_key ys
  unfolding sort_by
  sort_by_unique Permᴰ.nil h = refl
  sort_by_unique (Permᴰ.cons e p) h = ap₂ (insert by_key) e (sort_by_unique p h.1)
  sort_by_unique (Permᴰ.swap {l = l} e f) h =
      rw (← e, ← f) (insert_comm _ _ (sort_by by_key l) h.0.0)
  sort_by_unique (Permᴰ.trans p q) h = sort_by_unique p h ∙ sort_by_unique q (Apart-perm p h)

  insert_first : (x : A) (ys : List A) → Ascending key (x ∷ ys) → insert by_key x ys ≡ x ∷ ys
  unfolding insert
  insert_first x [] h = refl
  insert_first x (y ∷ ys) h = ground arith

  pub Ascending-tail : (x : A) (ys : List A) → Ascending key (x ∷ ys) → Ascending key ys
  Ascending-tail x [] h = tt
  Ascending-tail x (y ∷ ys) h = h.1

  -- Sorting an ascending list changes nothing.
  sort_by-Ascending : (xs : List A) → Ascending key xs → sort_by by_key xs ≡ xs
  unfolding sort_by
  sort_by-Ascending [] h = refl
  sort_by-Ascending (x ∷ xs) h =
      rw (sort_by-Ascending xs (Ascending-tail x xs h)) (insert_first x xs h)

  above :
      (m : ℕ) (y : A) (ys : List A)
      → m < key y
      → Ascending key (y ∷ ys)
      → All (λ z. m ≢ key z) (y ∷ ys)
  above m y [] h s = (omega arith, tt)
  above m y (z ∷ ys) h s = (omega arith, above m z ys (omega arith) s.1)

  Ascending-Apart : (xs : List A) → Ascending key xs → Apart key xs
  Ascending-Apart [] h = tt
  Ascending-Apart (x ∷ []) h = (tt, tt)
  Ascending-Apart (x ∷ y ∷ ys) h = (above (key x) y ys h.0 h.1, Ascending-Apart (y ∷ ys) h.1)

  -- Sorting by a key brings ascending items back from any order.
  pub sort_by-restores : {xs ys : List A} → Permᴰ xs ys → Ascending key ys → sort_by by_key xs ≡ ys
  sort_by-restores {ys = ys} p h =
      sort_by_unique p (Apart-perm (Permᴰ.symm p) (Ascending-Apart ys h)) ∙ sort_by-Ascending ys h

-- A sort of positions by what stands there is a sort of what stands there.
module _ {ℓ κ} {A : Type ℓ} {B : Type κ} (f : A → B) (before : B → B → Bool) where
  map-insert :
      (x : A) (ys : List A)
      → map f (insert (λ a b. before (f a) (f b)) x ys) ≡ insert before (f x) (map f ys)
  unfolding insert
  map-insert x [] = refl
  map-insert x (y ∷ ys) = elim (Bool-cases (before (f x) (f y))) [
    | inl first ↦ rw first refl
    | inr later ↦ rw later (ap (λ r. f y ∷ r) (map-insert x ys))
  ]

  pub map-sort_by :
      (xs : List A) → map f (sort_by (λ a b. before (f a) (f b)) xs) ≡ sort_by before (map f xs)
  unfolding sort_by
  map-sort_by [] = refl
  map-sort_by (x ∷ xs) = map-insert x _ ∙ ap (insert before (f x)) (map-sort_by xs)

pub length-perm {ℓ} : {A : Type ℓ} {xs ys : List A} → Permᴰ xs ys → length xs ≡ length ys
length-perm Permᴰ.nil = refl
length-perm (Permᴰ.cons e p) = ap (λ (n : ℕ). suc n) (length-perm p)
length-perm (Permᴰ.swap e f) = refl
length-perm (Permᴰ.trans p q) = length-perm p ∙ length-perm q
