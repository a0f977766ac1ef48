-- ===== src/Reorder/Pages/Find.antt =====
-- The search of `find_all`: where it finds a needle, and how it runs over two pieces that no needle
-- straddles.
use zentropy.Prelude.{
  append_assoc, All-imp, ℕ, zero, suc, ◌+◌, ◌-◌, ◌≤◌, ◌<◌, ◌≡◌, refl, ap, ◌∙◌, true, false, List,
  [], ◌∷◌, ◌++◌, map, All, length, drop, starts_with, Bool-cases, inl, inr, arith, ◌≢◌, ◌==◌, ◌&&◌,
}
use zentropy.Reorder.Pages.{find_from, find_all}

starts_with-length :
    (hay needle : List ℕ) → starts_with hay needle ≡ true → length needle ≤ length hay
unfolding starts_with
starts_with-length hay [] e = omega arith
starts_with-length [] (n ∷ needle) e = cc
starts_with-length (h ∷ hay) (n ∷ needle) e = ground (arith, starts_with-length hay needle)

module _ (needle : List ℕ) (i x : ℕ) (xs : List ℕ) where
  find_hit :
      starts_with (x ∷ xs) needle ≡ true
      → find_from needle 0 i (x ∷ xs) ≡ i ∷ find_from needle (length needle - 1) (suc i) xs
  unfolding find_from
  find_hit h = rw (h, find_from)

  find_miss :
      starts_with (x ∷ xs) needle ≡ false
      → find_from needle 0 i (x ∷ xs) ≡ find_from needle 0 (suc i) xs
  unfolding find_from
  find_miss h = rw (h, find_from)

-- A search reports places that it has not to pass over, inside the bytes.
pub find_from-bounds :
    (needle : List ℕ) (skip i : ℕ) (xs : List ℕ)
    → All (λ p. (i + skip ≤ p) × (p < i + length xs)) (find_from needle skip i xs)
unfolding find_from
find_from-bounds needle skip i [] = tt
find_from-bounds needle (suc skip) i (x ∷ xs) =
    All-imp _ (λ p h. (omega arith, omega arith)) (find_from-bounds needle skip (suc i) xs)
find_from-bounds needle zero i (x ∷ xs) = elim (Bool-cases (starts_with (x ∷ xs) needle)) [
  | inl found ↦ rw (find_hit needle i x xs found) (
    (omega arith, omega arith),
    All-imp _ (λ p h. (omega arith, omega arith))
        (find_from-bounds needle (length needle - 1) (suc i) xs),
  )
  | inr other ↦
      rw (find_miss needle i x xs other)
        (All-imp _ (λ p h. (omega arith, omega arith)) (find_from-bounds needle 0 (suc i) xs))
]

-- One place further.
later :
    (needle : List ℕ) (skip i x : ℕ) (xs : List ℕ) (s : ℕ) (ss : List ℕ)
    → (suc i + skip ≤ s)
      × (s < suc i + length xs)
      × (starts_with (drop (s - suc i) xs) needle ≡ true)
      × All (λ p. s + length needle ≤ p) ss
    → (i + suc skip ≤ s)
      × (s < i + suc (length xs))
      × (starts_with (drop (s - i) (x ∷ xs)) needle ≡ true)
      × All (λ p. s + length needle ≤ p) ss
later needle skip i x xs s ss (low, high, found, rest) =
    let next : s - i ≡ suc (s - suc i) = omega arith in
    (omega arith, omega arith, rw next found, rest)

-- The first report is a match, and the next ones do not overlap it.
pub find_from-first :
    (needle : List ℕ) (skip i : ℕ) (xs : List ℕ) {s : ℕ} {ss : List ℕ}
    → 0 < length needle
    → find_from needle skip i xs ≡ s ∷ ss
    → (i + skip ≤ s)
      × (s < i + length xs)
      × (starts_with (drop (s - i) xs) needle ≡ true)
      × All (λ p. s + length needle ≤ p) ss
unfolding find_from
find_from-first needle skip i [] h e = cc
find_from-first needle (suc skip) i (x ∷ xs) h e =
    later needle skip i x xs _ _ (find_from-first needle skip (suc i) xs h e)
find_from-first needle zero i (x ∷ xs) {s} {ss} h e =
    elim (Bool-cases (starts_with (x ∷ xs) needle)) [
      | inl found ↦
          let reports : i ∷ find_from needle (length needle - 1) (suc i) xs ≡ s ∷ ss =
            rw (find_hit needle i x xs found) at e in
          let here : i ≡ s = cc reports in
          let rest : find_from needle (length needle - 1) (suc i) xs ≡ ss = cc reports in
          let same : s - i ≡ 0 = omega arith in
          (
            omega arith,
            omega arith,
            rw same found,
            rw (← rest) (
                All-imp _ (λ p b. omega arith)
                  (find_from-bounds needle (length needle - 1) (suc i) xs)),
          )
      | inr other ↦
          let (low, high, found, rest) =
            later needle 0 i x xs s ss
              (find_from-first needle 0 (suc i) xs h (rw (find_miss needle i x xs other) at e)) in
          (omega arith, high, found, rest)
    ]

-- No needle begins in `xs` and ends in `ys`.
abbrev pub Clear : List ℕ → List ℕ → List ℕ → Type 0
Clear needle [] ys = Unit
Clear needle (x ∷ xs) ys =
    (starts_with (x ∷ xs ++ ys) needle ≡ starts_with (x ∷ xs) needle) × Clear needle xs ys

pub find_from-append :
    (needle : List ℕ) (skip i : ℕ) (xs ys : List ℕ)
    → 0 < length needle
    → Clear needle xs ys
    → skip ≤ length xs
    → find_from needle skip i (xs ++ ys)
      ≡ find_from needle skip i xs ++ find_from needle 0 (i + length xs) ys
unfolding find_from
find_from-append needle zero i [] ys h c b = ap (λ (p : ℕ). find_from needle 0 p ys) (omega arith)
find_from-append needle (suc skip) i [] ys h c b = absurd (omega arith)
find_from-append needle (suc skip) i (x ∷ xs) ys h c b =
    let place : i + suc (length xs) ≡ suc i + length xs = omega arith in
    rw place (find_from-append needle skip (suc i) xs ys h c.1 (omega arith))
find_from-append needle zero i (x ∷ xs) ys h c b =
    let place : i + suc (length xs) ≡ suc i + length xs = omega arith in
    elim (Bool-cases (starts_with (x ∷ xs) needle)) [
      | inl found ↦
          let fits = starts_with-length (x ∷ xs) needle found in
          let found' : starts_with (x ∷ xs ++ ys) needle ≡ true = c.0 ∙ found in
          rw (find_hit needle i x (xs ++ ys) found', find_hit needle i x xs found, place)
            (ap (λ r. i ∷ r)
              (find_from-append needle (length needle - 1) (suc i) xs ys h c.1 (omega arith)))
      | inr other ↦
          let other' : starts_with (x ∷ xs ++ ys) needle ≡ false = c.0 ∙ other in
          rw (find_miss needle i x (xs ++ ys) other', find_miss needle i x xs other, place)
            (find_from-append needle 0 (suc i) xs ys h c.1 (omega arith))
    ]

-- Where the search starts to count does not matter.
pub find_from-shift :
    (needle : List ℕ) (skip i o : ℕ) (xs : List ℕ)
    → find_from needle skip (o + i) xs ≡ map (λ p. o + p) (find_from needle skip i xs)
unfolding find_from
find_from-shift needle skip i o [] = refl
find_from-shift needle (suc skip) i o (x ∷ xs) =
    let next : suc (o + i) ≡ o + suc i = omega arith in
    rw next (find_from-shift needle skip (suc i) o xs)
find_from-shift needle zero i o (x ∷ xs) =
    let next : suc (o + i) ≡ o + suc i = omega arith in
    elim (Bool-cases (starts_with (x ∷ xs) needle)) [
      | inl found ↦
          rw (find_hit needle (o + i) x xs found, find_hit needle i x xs found, next)
            (ap (λ r. (o + i) ∷ r) (find_from-shift needle (length needle - 1) (suc i) o xs))
      | inr other ↦
          rw (find_miss needle (o + i) x xs other, find_miss needle i x xs other, next)
            (find_from-shift needle 0 (suc i) o xs)
    ]

find_from-short :
    (needle : List ℕ) (skip i : ℕ) (xs : List ℕ)
    → length xs < length needle
    → find_from needle skip i xs ≡ []
unfolding find_from
find_from-short needle skip i [] h = refl
find_from-short needle (suc skip) i (x ∷ xs) h =
    find_from-short needle skip (suc i) xs (omega arith)
find_from-short needle zero i (x ∷ xs) h = elim (Bool-cases (starts_with (x ∷ xs) needle)) [
  | inl found ↦ absurd (omega (arith, starts_with-length (x ∷ xs) needle found))
  | inr other ↦
      rw (find_miss needle i x xs other) (find_from-short needle 0 (suc i) xs (omega arith))
]

pub find_all-from :
    (hay needle : List ℕ) → 0 < length needle → find_all hay needle ≡ find_from needle 0 0 hay
unfolding find_all
find_all-from hay needle h = ground (arith, find_from-short needle 0 0 hay)

-- The only line end of the needle is its last byte.
abbrev pub IsLine : List ℕ → Type 0
IsLine [] = Unit
IsLine (c ∷ []) = Unit
IsLine (c ∷ d ∷ r) = (c ≢ 10) × IsLine (d ∷ r)

starts_with-line :
    (zs ys needle : List ℕ)
    → IsLine needle
    → starts_with (zs ++ 10 ∷ ys) needle ≡ starts_with (zs ++ 10 ∷ []) needle
unfolding starts_with
starts_with-line [] ys [] h = refl
starts_with-line [] ys (c ∷ []) h = refl
starts_with-line [] ys (c ∷ d ∷ r) h = ground arith
starts_with-line (z ∷ zs) ys [] h = refl
starts_with-line (z ∷ zs) ys (c ∷ []) h = refl
starts_with-line (z ∷ zs) ys (c ∷ d ∷ r) h =
    ap (λ b. c == z && b) (starts_with-line zs ys (d ∷ r) h.1)

-- No such needle straddles the end of a line.
pub Clear-line : (zs ys needle : List ℕ) → IsLine needle → Clear needle (zs ++ 10 ∷ []) ys
Clear-line [] ys needle h = (starts_with-line [] ys needle h, tt)
Clear-line (z ∷ zs) ys needle h = (
  ap (λ r. starts_with r needle) (append_assoc (z ∷ zs) (10 ∷ []) ys)
      ∙ starts_with-line (z ∷ zs) ys needle h,
  Clear-line zs ys needle h,
)

-- No end of the needle begins what follows.
abbrev pub Blocks : List ℕ → List ℕ → Type 0
Blocks ys [] = Unit
Blocks ys (c ∷ r) = (starts_with ys (c ∷ r) ≡ false) × Blocks ys r

starts_with-Blocks :
    (xs ys needle : List ℕ)
    → Blocks ys needle
    → starts_with (xs ++ ys) needle ≡ starts_with xs needle
unfolding starts_with
starts_with-Blocks [] ys [] h = refl
starts_with-Blocks (x ∷ xs) ys [] h = refl
starts_with-Blocks [] ys (c ∷ r) h = h.0
starts_with-Blocks (x ∷ xs) ys (c ∷ r) h = ap (λ b. c == x && b) (starts_with-Blocks xs ys r h.1)

pub Clear-Blocks : (xs ys : List ℕ) (c : ℕ) (r : List ℕ) → Blocks ys r → Clear (c ∷ r) xs ys
unfolding starts_with
Clear-Blocks [] ys c r h = tt
Clear-Blocks (x ∷ xs) ys c r h =
    (ap (λ b. c == x && b) (starts_with-Blocks xs ys r h), Clear-Blocks xs ys c r h)
