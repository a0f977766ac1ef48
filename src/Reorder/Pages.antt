-- ===== src/Reorder/Pages.antt =====
-- src/reorder/mod.rs: the page blocks of a stream, their ids and titles, and the reassembly.
pub mod Find
pub mod Cut
pub mod Sound
pub mod Stream
pub mod Complete
use zentropy.Prelude.{
  ℕ, zero, suc, ◌+◌, ◌-◌, ◌*◌, ◌^◌, Bool, true, false, not, ◌&&◌, ◌||◌, Option, none, some, List,
  [], ◌∷◌, ◌++◌, ltb, leb, ◌==◌, if◌then◌else◌, length, get_or, get_elem?, take, drop, codes,
  starts_with, min, ◌>>=◌,
}
use zentropy.Ir.Scan.{is_digit, run}

abbrev pub page_open : List ℕ
page_open = codes "  <page>" ++ 10 ∷ []

abbrev pub page_close : List ℕ
page_close = codes "  </page>" ++ 10 ∷ []

-- The bytes before the first page, the page blocks, and what follows the last closing tag.
pub record Split : Type 0 where
  pub header : List ℕ
  pub pages : List (List ℕ)
  pub tail : List ℕ

-- The loop of `find_all` at position `i`. After a match `i += n` passes over the match: `skip`
-- bytes are still to be passed over.
unfoldable pub find_from : List ℕ → ℕ → ℕ → List ℕ → List ℕ
find_from needle skip i [] = []
find_from needle (suc skip) i (b ∷ hay) = find_from needle skip (suc i) hay
find_from needle zero i (b ∷ hay) = elim (starts_with (b ∷ hay) needle) [
  | true ↦ i ∷ find_from needle (length needle - 1) (suc i) hay
  | false ↦ find_from needle 0 (suc i) hay
]

unfoldable pub find_all : List ℕ → List ℕ → List ℕ
find_all hay needle =
    if length needle == 0 || ltb (length hay) (length needle) then [] else find_from needle 0 0 hay

-- Whether a page that ends at `e` is followed by one that does not start there. The two tests of
-- the loop, for the next complete page and for a truncated one, are this test.
unfoldable pub gap : ℕ → List ℕ → Bool
gap e [] = false
gap e (s ∷ starts) = not (e + length page_close == s)

-- The loop of `split`; there are at least as many starts as ends.
unfoldable pub page_blocks : List ℕ → List ℕ → List ℕ → Option (List (List ℕ))
page_blocks input starts [] = some []
page_blocks input [] (e ∷ ends) = none
page_blocks input (s ∷ starts) (e ∷ ends) =
    if leb e s then none else if gap e starts then none else do
      rest ← page_blocks input starts ends
      some (take (e + length page_close - s) (drop s input) ∷ rest)

-- `ends[complete - 1]`
unfoldable pub last : List ℕ → ℕ
last ends = get_or ends (length ends - 1) 0

unfoldable pub split : List ℕ → Option Split
split input =
    let starts = find_all input page_open in
    let ends = find_all input page_close in
    let complete = length ends in
    if length starts == 0
    then none
    else if complete == 0 || (ltb (length starts) complete || ltb (complete + 1) (length starts))
    then none
    else do
      pages ← page_blocks input starts ends
      if not (length starts == complete + 1) && not (length starts == complete)
          then none
          else some (record {
            header = take (get_or starts 0 0) input;
            pages = pages;
            tail = drop (last ends + length page_close) input;
          })

-- The value of a run of digits, `saturating_mul` and `saturating_add` at 64 bits.
unfoldable pub digits_value : ℕ → List ℕ → ℕ
digits_value v [] = v
digits_value v (d ∷ ds) =
    digits_value (min (min (v * 10) (2 ^ 64 - 1) + (d - b'0')) (2 ^ 64 - 1)) ds

-- The loop of `page_id`: each round passes over a byte at least.
unfoldable pub id_loop : ℕ → List ℕ → Option ℕ
id_loop zero page = none
id_loop (suc fuel) page =
    let rest = drop 4 page in
    let n = run is_digit rest in
    let skip = id_loop fuel (drop n rest) in
    let next = id_loop fuel (drop 1 page) in
    if ltb (length page) 4
    then none
    else if starts_with page (codes "<id>")
    then if ltb 0 n && starts_with (drop n rest) (codes "</id>")
      then some (digits_value 0 (take n rest))
      else skip
    else next

unfoldable pub page_id : List ℕ → Option ℕ
page_id page = id_loop (length page) page

unfoldable pub page_title : List ℕ → List ℕ
page_title page = elim (find_all page (codes "<title>")) [
  | [] ↦ []
  | a ∷ _ ↦ elim (find_all (drop (a + 7) page) (codes "</title>")) [
    | [] ↦ []
    | b ∷ _ ↦ take b (drop (a + 7) page)
  ]
]

unfoldable pub page_ids : List (List ℕ) → Option (List ℕ)
page_ids [] = some []
page_ids (p ∷ pages) = do id ← page_id p; ids ← page_ids pages; some (id ∷ ids)

-- `ids.windows(2).any(|w| w[0] >= w[1])`
unfoldable pub falls : List ℕ → Bool
falls [] = false
falls (a ∷ []) = false
falls (a ∷ b ∷ ids) = leb b a || falls (b ∷ ids)

unfoldable pub ascending_ids : List (List ℕ) → Option (List ℕ)
ascending_ids pages = do ids ← page_ids pages; if falls ids then none else some ids

-- The pages at the given places, one after the other; `none` is the panic out of bounds.
unfoldable pub place_pages : List (List ℕ) → List ℕ → Option (List ℕ)
place_pages pages [] = some []
place_pages pages (i ∷ idx) = do
  p ← get_elem? pages i
  rest ← place_pages pages idx
  some (p ++ rest)

unfoldable pub assemble : List ℕ → List (List ℕ) → List ℕ → List ℕ → Option (List ℕ)
assemble header pages idx tail = do body ← place_pages pages idx; some (header ++ body ++ tail)
