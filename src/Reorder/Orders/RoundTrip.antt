-- ===== src/Reorder/Orders/RoundTrip.antt =====
-- `restore` undoes `encode`, for every order.
use zentropy.Prelude.{
  ◌==◌, length-append, inr, inl, Option-cases, ℕ, zero, suc, ◌+◌, ◌<◌, ◌≤◌, ◌≡◌, refl, ap, sym, ◌∙◌,
  false, none, some, List, [], ◌∷◌, ◌++◌, map, All, length, get_or, get_elem?, arith,
}
use mathlib.Core.List.{Permᴰ, flatten, map-map}
use mathlib.Core.List.Permᴰ
use mathlib.Core.Path.{subst}
use zentropy.Prelude.Sort.{
  sort_by, sort_by-perm, sort_by-restores, map-sort_by, map-perm, All-perm, Ascending, by_key,
  length-perm,
}
use zentropy.Archive.Method.Stages.{Order}
use zentropy.Reorder.Pages.{
  Split, split, page_id, page_ids, falls, ascending_ids, place_pages, assemble,
}
use zentropy.Reorder.Pages.Stream.{IsStream, split-IsStream}
use zentropy.Reorder.Pages.Complete.{split-flatten}
use zentropy.Reorder.Shuffle.{upto}
use zentropy.Reorder.Orders.{
  info, order_index, encode, encode_split, outcome, restore, restore_split, id_or_max, Reordered,
  declined, panicked, reordered,
}
use zentropy.Reorder.Orders.IsOrder.{order_index-perm}

-- The page at a place.
abbrev at_place : List (List ℕ) → ℕ → List ℕ
at_place pages i = get_or pages i []

upto-suc : (i n : ℕ) → upto (suc i) n ≡ map (λ k. suc k) (upto i n)
unfolding upto
upto-suc i zero = refl
upto-suc i (suc n) = ap (λ l. suc i ∷ l) (upto-suc (suc i) n)

map-at_place : (pages : List (List ℕ)) → map (at_place pages) (upto 0 (length pages)) ≡ pages
unfolding upto
map-at_place [] = refl
map-at_place (p ∷ pages) =
    ap (λ l. p ∷ l)
      (ap (map (at_place (p ∷ pages))) (upto-suc 0 (length pages))
        ∙ map-map (at_place (p ∷ pages)) (λ k. suc k) (upto 0 (length pages))
        ∙ map-at_place pages)

upto-below : (i n k : ℕ) → i + n ≤ k → All (λ j. j < k) (upto i n)
unfolding upto
upto-below i zero k h = tt
upto-below i (suc n) k h = (omega arith, upto-below (suc i) n k (omega arith))

get_elem-at_place :
    (pages : List (List ℕ)) (i : ℕ) → i < length pages → get_elem? pages i ≡ some (at_place pages i)
get_elem-at_place [] i h = absurd (omega arith)
get_elem-at_place (p ∷ pages) zero h = refl
get_elem-at_place (p ∷ pages) (suc i) h = get_elem-at_place pages i (omega arith)

place_pages-flatten :
    (pages : List (List ℕ)) (idx : List ℕ)
    → All (λ i. i < length pages) idx
    → place_pages pages idx ≡ some (flatten (map (at_place pages) idx))
unfolding place_pages flatten
place_pages-flatten pages [] h = refl
place_pages-flatten pages (i ∷ idx) h =
    rw (get_elem-at_place pages i h.0, place_pages-flatten pages idx h.1)

-- The reassembly of the pages at any order of their places.
assemble-flatten :
    (header : List ℕ) (pages : List (List ℕ)) (idx tail : List ℕ)
    → Permᴰ idx (upto 0 (length pages))
    → assemble header pages idx tail ≡ some (header ++ flatten (map (at_place pages) idx) ++ tail)
unfolding assemble
assemble-flatten header pages idx tail p = rw (
    place_pages-flatten pages idx (
      All-perm (λ i. i < length pages) (Permᴰ.symm p)
        (upto-below 0 (length pages) (length pages) (omega arith))))

places-perm :
    (pages : List (List ℕ)) (idx : List ℕ)
    → Permᴰ idx (upto 0 (length pages))
    → Permᴰ (map (at_place pages) idx) pages
places-perm pages idx p =
    subst (λ l. Permᴰ (map (at_place pages) idx) l) (map-at_place pages)
      (map-perm (at_place pages) p)

-- The ids that `ascending_ids` returns go up.
page_ids-map :
    (pages : List (List ℕ)) (ids : List ℕ) → page_ids pages ≡ some ids → ids ≡ map id_or_max pages
unfolding page_ids id_or_max
page_ids-map [] ids e = cc
page_ids-map (p ∷ pages) ids e = elim (Option-cases (page_id p)) [
  | inl missing ↦ absurd (ground arith)
  | inr (id, found) ↦ elim (Option-cases (page_ids pages)) [
    | inl missing ↦ absurd (ground arith)
    | inr (rest, done) ↦ ground (arith, page_ids-map pages rest done)
  ]
]

falls-Ascending :
    (pages : List (List ℕ)) → falls (map id_or_max pages) ≡ false → Ascending id_or_max pages
unfolding falls
falls-Ascending [] h = tt
falls-Ascending (p ∷ []) h = tt
falls-Ascending (p ∷ q ∷ pages) h = (ground arith, falls-Ascending (q ∷ pages) (ground arith))

ascending_ids-Ascending :
    (pages : List (List ℕ)) (ids : List ℕ)
    → ascending_ids pages ≡ some ids
    → Ascending id_or_max pages
unfolding ascending_ids
ascending_ids-Ascending pages ids e = elim (Option-cases (page_ids pages)) [
  | inl missing ↦ absurd (ground arith)
  | inr (rest, done) ↦
      let same : rest ≡ map id_or_max pages = page_ids-map pages rest done in
      falls-Ascending pages (rw (← same) (ground arith))
]

-- What `encode` should do with some bytes: where it declines, `info` says that the precondition does
-- not hold; what it returns is as long, and is restored.
unfoldable pub Restores : List ℕ → Reordered → Type 0
Restores input declined = (info input).1 ≡ false
Restores input panicked = ⊥
Restores input (reordered out) = (restore out ≡ some input) × (length out ≡ length input)

module _ (input : List ℕ) where
  encode_none : (order : Order) → split input ≡ none → encode input order ≡ declined
  unfolding encode
  encode_none order e = rw (e, encode)

  info_none : split input ≡ none → (info input).1 ≡ false
  unfolding info
  info_none e = rw (e, info)

  restore-some : (s : Split) → split input ≡ some s → restore input ≡ restore_split s
  unfolding restore
  restore-some s e = rw (e, restore)

  encode-some :
      (order : Order) (s : Split)
      → split input ≡ some s
      → 0 < length s.pages
      → encode input order ≡ encode_split order s
  unfolding encode
  encode-some order s e h =
      let full : (length s.pages == 0) ≡ false = ground arith in rw (e, encode) (rw full)

  info_falls :
      (s : Split) → split input ≡ some s → ascending_ids s.pages ≡ none → (info input).1 ≡ false
  unfolding info
  info_falls s e f = rw (e, info) (rw f)

module _ (order : Order) (s : Split) where
  encode_split_none : ascending_ids s.pages ≡ none → encode_split order s ≡ declined
  unfolding encode_split
  encode_split_none e = rw (e, encode_split)

  encode_split-some :
      (ids : List ℕ)
      → ascending_ids s.pages ≡ some ids
      → encode_split order s
        ≡ outcome (assemble s.header s.pages (order_index order s.pages ids) s.tail)
  unfolding encode_split
  encode_split-some ids e = rw (e, encode_split)

-- The pages in another order, split and sorted by their ids, are the pages.
module _ (h t : List ℕ) (pages moved : List (List ℕ)) (p : Permᴰ moved pages) where
  moved-IsStream :
      IsStream (record { header = h; pages = pages; tail = t })
      → IsStream (record { header = h; pages = moved; tail = t })
  moved-IsStream is = record {
    header = is.header;
    pages = All-perm _ (Permᴰ.symm p) is.pages;
    some_page = omega (arith, is.some_page, length-perm p);
    tail = is.tail;
  }

  restore-moved :
      IsStream (record { header = h; pages = pages; tail = t })
      → Ascending id_or_max pages
      → restore (h ++ flatten moved ++ t) ≡ some (h ++ flatten pages ++ t)
  unfolding restore_split
  restore-moved is up =
      let sorted =
        sort_by (λ i j. by_key id_or_max (at_place moved i) (at_place moved j))
          (upto 0 (length moved)) in
      let back : map (at_place moved) sorted ≡ pages =
        map-sort_by (at_place moved) (by_key id_or_max) (upto 0 (length moved))
        ∙ ap (sort_by (by_key id_or_max)) (map-at_place moved)
        ∙ sort_by-restores id_or_max p up in
      restore-some (h ++ flatten moved ++ t) _ (split-flatten h moved t (moved-IsStream is))
      ∙ (assemble-flatten h moved sorted t (sort_by-perm _ (upto 0 (length moved)))
          ∙ ap (λ l. some (h ++ flatten l ++ t)) back)

length-flatten-perm :
    {xs ys : List (List ℕ)} → Permᴰ xs ys → length (flatten xs) ≡ length (flatten ys)
unfolding flatten
length-flatten-perm Permᴰ.nil = refl
length-flatten-perm (Permᴰ.cons {a = a} {b = b} {l₁ = xs} {l₂ = ys} e p) = omega (
  arith,
  length-append a (flatten xs),
  length-append b (flatten ys),
  ap length e,
  length-flatten-perm p,
)
length-flatten-perm (Permᴰ.swap {a = a} {b = b} {a' = a'} {b' = b'} {l = l} e f) = omega (
  arith,
  length-append a (b ++ flatten l),
  length-append b (flatten l),
  length-append a' (b' ++ flatten l),
  length-append b' (flatten l),
  ap length e,
  ap length f,
)
length-flatten-perm (Permᴰ.trans p q) = length-flatten-perm p ∙ length-flatten-perm q

encode_split-Restores :
    (input : List ℕ) (order : Order) (s : Split)
    → split input ≡ some s
    → IsStream s
    → input ≡ s.header ++ flatten s.pages ++ s.tail
    → Restores input (encode_split order s)
unfolding Restores
encode_split-Restores input order s e is whole = elim (Option-cases (ascending_ids s.pages)) [
  | inl missing ↦ rw (encode_split_none order s missing) (info_falls input s e missing)
  | inr (ids, found) ↦
      let idx = order_index order s.pages ids in
      let p = order_index-perm order s.pages ids in
      let moved = map (at_place s.pages) idx in
      let q : Permᴰ moved s.pages = places-perm s.pages idx p in
      let run : encode_split order s ≡ reordered (s.header ++ flatten moved ++ s.tail) =
        encode_split-some order s ids found
        ∙ ap outcome (assemble-flatten s.header s.pages idx s.tail p)
        ∙ unfold outcome in refl in
      rw run (
        restore-moved s.header s.tail s.pages moved q is (ascending_ids-Ascending s.pages ids found)
            ∙ ap some (sym whole),
        omega (
          arith,
          length-flatten-perm q,
          length-append (s.header ++ flatten moved) s.tail,
          length-append s.header (flatten moved),
          length-append (s.header ++ flatten s.pages) s.tail,
          length-append s.header (flatten s.pages),
          ap length whole,
        ),
      )
]

-- For every input and every order, `encode` declines, and then `info` says that the precondition does
-- not hold, or it returns bytes, as many as the input has, which `restore` turns back into the input.
-- It never panics.
pub restore-encode : (input : List ℕ) (order : Order) → Restores input (encode input order)
restore-encode input order = elim (Option-cases (split input)) [
  | inl missing ↦ rw (encode_none input order missing) (unfold Restores in info_none input missing)
  | inr (s, found) ↦
      let (is, whole) = split-IsStream input s found in
      rw (encode-some input order s found is.some_page)
        (encode_split-Restores input order s found is whole)
]
