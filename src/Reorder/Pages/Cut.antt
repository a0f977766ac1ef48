-- ===== src/Reorder/Pages/Cut.antt =====
-- A stream cut behind a page: what the searches find in the page and in what follows.
use zentropy.Reorder.Pages.Find.{IsLine, Clear, find_from-append, find_from-bounds, find_from-shift}
use zentropy.Prelude.{
  All-imp, ℕ, ◌+◌, ◌-◌, ◌≤◌, ◌<◌, ◌≡◌, refl, sym, ◌∙◌, List, [], ◌∷◌, ◌++◌, map, All, length, arith,
  ◌⊎◌,
}
use zentropy.Reorder.Pages.{find_from, page_open, page_close}

-- A page begins with its opening tag and ends with its closing tag, and has no other tag inside.
pub record IsPage (p : List ℕ) : Type 0 where
  pub opens : find_from page_open 0 0 p ≡ 0 ∷ []
  pub closes : find_from page_close 0 0 p ≡ (length p - length page_close) ∷ []
  pub body : List ℕ
  pub ending : p ≡ body ++ 10 ∷ []
  pub size : length page_close < length p

-- What follows the last page: at most the opening tag of a truncated page, at the front.
pub record IsTail (t : List ℕ) : Type 0 where
  pub opens : (find_from page_open 0 0 t ≡ []) ⊎ (find_from page_open 0 0 t ≡ 0 ∷ [])
  pub closes : find_from page_close 0 0 t ≡ []

-- The first of the places is `c` or later.
abbrev pub HeadFrom : ℕ → List ℕ → Type 0
HeadFrom c [] = Unit
HeadFrom c (s ∷ ss) = c ≤ s

-- Places below `c`, then places from `c`: one comes first, and the rest from `c`.
divide :
    (A B : List ℕ) (o : ℕ) (ss : List ℕ) (c : ℕ)
    → A ++ B ≡ o ∷ ss
    → All (λ p. p < c) A
    → All (λ p. c ≤ p) B
    → o < c
    → HeadFrom c ss
    → (A ≡ o ∷ []) × (B ≡ ss)
divide [] B o ss c e a b h g =
    let from : All (λ p. c ≤ p) (o ∷ ss) = rw e at b in absurd (omega arith)
divide (x ∷ []) B o ss c e a b h g = (cc, cc)
divide (x ∷ y ∷ A) B o ss c e a b h g =
    let rest : y ∷ A ++ B ≡ ss = cc in
    let from : HeadFrom c (y ∷ A ++ B) = rw (← rest) at g in absurd (omega arith)

-- One place counted from `o`, and counted from 0.
unshift_one : (o p : ℕ) (l : List ℕ) → map (λ q. o + q) l ≡ (o + p) ∷ [] → l ≡ p ∷ []
unshift_one o p [] e = cc
unshift_one o p (x ∷ []) e = ground arith
unshift_one o p (x ∷ y ∷ l) e = cc

unshift_none : (o : ℕ) (l : List ℕ) → map (λ q. o + q) l ≡ [] → l ≡ []
unshift_none o [] e = refl
unshift_none o (x ∷ l) e = cc

pub find_one :
    (needle : List ℕ) (o s p : ℕ) (xs : List ℕ)
    → s ≡ o + p
    → find_from needle 0 o xs ≡ s ∷ []
    → find_from needle 0 0 xs ≡ p ∷ []
find_one needle o s p xs at e =
    let zero_more : o + 0 ≡ o = omega arith in
    unshift_one o p (find_from needle 0 0 xs)
      (sym (find_from-shift needle 0 0 o xs) ∙ rw (zero_more, ← at) e)

pub find_none :
    (needle : List ℕ) (o : ℕ) (xs : List ℕ)
    → find_from needle 0 o xs ≡ []
    → find_from needle 0 0 xs ≡ []
find_none needle o xs e =
    let zero_more : o + 0 ≡ o = omega arith in
    unshift_none o (find_from needle 0 0 xs)
      (sym (find_from-shift needle 0 0 o xs) ∙ rw zero_more e)

-- The two pieces of a stream that no needle straddles, where one place stands in the first.
pub cut_find :
    (needle : List ℕ) (o s : ℕ) (xs ys : List ℕ) (ss : List ℕ)
    → 0 < length needle
    → Clear needle xs ys
    → find_from needle 0 o (xs ++ ys) ≡ s ∷ ss
    → s < o + length xs
    → HeadFrom (o + length xs) ss
    → (find_from needle 0 o xs ≡ s ∷ []) × (find_from needle 0 (o + length xs) ys ≡ ss)
cut_find needle o s xs ys ss h clear e inside from =
    divide (find_from needle 0 o xs) (find_from needle 0 (o + length xs) ys) s ss (o + length xs)
      (sym (find_from-append needle 0 o xs ys h clear (omega arith)) ∙ e)
      (All-imp _ (λ p b. b.1) (find_from-bounds needle 0 o xs))
      (All-imp _ (λ p b. omega arith) (find_from-bounds needle 0 (o + length xs) ys)) inside from

pub page_open-IsLine : IsLine page_open
page_open-IsLine = omega arith

pub page_close-IsLine : IsLine page_close
page_close-IsLine = omega arith
