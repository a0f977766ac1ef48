-- ===== src/Reorder/Orders.antt =====
-- src/reorder/mod.rs: the order of the pages for each `Order`, `encode` and `restore`.
use zentropy.Prelude.{
  true, false, ℕ, zero, suc, ◌-◌, ◌^◌, Bool, Option, none, some, List, [], ◌∷◌, map, length, get_or,
  if◌then◌else◌, ◌==◌,
}
pub mod IsOrder
pub mod RoundTrip
use Prim.Native.Nat.{compare, Ordering}
use zentropy.Prelude.Sort.{sort_by, by_key}
use zentropy.Archive.Method.Stages.{Order}
use zentropy.Reorder.Pages.{Split, split, page_id, page_title, ascending_ids, assemble}
use zentropy.Reorder.Keys.{
  compare_bytes, and_then, not_after, namespace_rank, first_category, first_template,
  all_categories, all_templates,
}
use zentropy.Reorder.Signature.{minhash_signature, boilerplate_signature, sig_distance}
use zentropy.Reorder.Novelty.{new_scratch, novelties}
use zentropy.Reorder.Shuffle.{upto, shuffled_index, greedy_walk}

-- `pages.iter().enumerate().map(…)`: a key of each page, with its place.
unfoldable pub numbered {ℓ} : {K : Type ℓ} → (ℕ → List ℕ → K) → ℕ → List (List ℕ) → List (K × ℕ)
numbered f i [] = []
numbered f i (p ∷ pages) = (f i p, i) ∷ numbered f (suc i) pages

-- The places in the order of a stable sort of the keys.
unfoldable pub keyed {ℓ} :
    {K : Type ℓ} → (ℕ → List ℕ → K) → (K × ℕ → K × ℕ → Ordering) → List (List ℕ) → List ℕ
keyed f cmp pages = map (λ e. e.1) (sort_by (λ a b. not_after (cmp a b)) (numbered f 0 pages))

-- The order of the pages: the `match` of `encode`.
unfoldable pub order_index : Order → List (List ℕ) → List ℕ → List ℕ
order_index Order.identity pages ids = upto 0 (length pages)
order_index Order.title pages ids =
    keyed {K = List ℕ} (λ i p. page_title p) (λ a b. compare_bytes a.0 b.0) pages
order_index Order.size pages ids =
    keyed {K = ℕ × ℕ} (λ i p. (length p, get_or ids i 0))
      (λ a b. and_then (compare a.0.0 b.0.0) (compare a.0.1 b.0.1)) pages
order_index Order.struct pages ids =
    keyed {K = ℕ × List ℕ} (λ i p. (namespace_rank (page_title p), page_title p))
      (λ a b. and_then (compare a.0.0 b.0.0) (compare_bytes a.0.1 b.0.1)) pages
order_index Order.min_hash pages ids =
    keyed {K = List ℕ} (λ i p. minhash_signature p)
      (λ a b. and_then (compare_bytes a.0 b.0) (compare a.1 b.1)) pages
order_index Order.greedy pages ids =
    let sigs = map minhash_signature pages in
    greedy_walk (λ a b. sig_distance (get_or sigs a []) (get_or sigs b []))
      (keyed {K = List ℕ} (λ i p. minhash_signature p)
        (λ a b. and_then (compare_bytes a.0 b.0) (compare a.1 b.1)) pages)
order_index Order.template pages ids =
    keyed {K = List ℕ} (λ i p. boilerplate_signature p)
      (λ a b. and_then (compare_bytes a.0 b.0) (compare a.1 b.1)) pages
order_index Order.category pages ids =
    keyed {K = List ℕ × List ℕ} (λ i p. (first_category p, page_title p))
      (λ a b.
        and_then (compare_bytes a.0.0 b.0.0)
          (and_then (compare_bytes a.0.1 b.0.1) (compare a.1 b.1)))
      pages
order_index Order.category_set pages ids =
    keyed {K = List ℕ × List ℕ} (λ i p. (all_categories p, page_title p))
      (λ a b.
        and_then (compare_bytes a.0.0 b.0.0)
          (and_then (compare_bytes a.0.1 b.0.1) (compare a.1 b.1)))
      pages
order_index Order.full pages ids =
    keyed {K = List ℕ × List ℕ × List ℕ} (λ i p. (all_categories p, all_templates p, page_title p))
      (λ a b. and_then (compare_bytes a.0.0 b.0.0) (
        and_then (compare_bytes a.0.1 b.0.1)
          (and_then (compare_bytes a.0.2 b.0.2) (compare a.1 b.1))))
      pages
order_index Order.full_residual pages ids =
    let novelty = novelties pages (new_scratch 18) in
    keyed {K = List ℕ × List ℕ × ℕ × List ℕ}
      (λ i p. (all_categories p, all_templates p, get_or novelty i 0, page_title p))
      (λ a b. and_then (compare_bytes a.0.0 b.0.0) (
        and_then (compare_bytes a.0.1 b.0.1) (
          and_then (compare a.0.2 b.0.2) (and_then (compare_bytes a.0.3 b.0.3) (compare a.1 b.1)))))
      pages
order_index Order.template_key pages ids =
    keyed {K = List ℕ × List ℕ} (λ i p. (first_template p, page_title p))
      (λ a b.
        and_then (compare_bytes a.0.0 b.0.0)
          (and_then (compare_bytes a.0.1 b.0.1) (compare a.1 b.1)))
      pages
order_index Order.shuffle pages ids = shuffled_index (length pages)

-- What `encode` does: it declines, or it panics out of bounds, or it returns the reordered bytes.
pub data Reordered : Type 0 where
  declined : Reordered
  panicked : Reordered
  reordered : List ℕ → Reordered

unfoldable pub outcome : Option (List ℕ) → Reordered
outcome none = panicked
outcome (some out) = reordered out

unfoldable pub encode_split : Order → Split → Reordered
encode_split order s = elim (ascending_ids s.pages) [
  | none ↦ declined
  | some ids ↦ outcome (assemble s.header s.pages (order_index order s.pages ids) s.tail)
]

unfoldable pub encode : List ℕ → Order → Reordered
encode input order = elim (split input) [
  | none ↦ declined
  | some s ↦ if length s.pages == 0 then declined else encode_split order s
]

-- `page_id(p).unwrap_or(u64::MAX)`
unfoldable pub id_or_max : List ℕ → ℕ
id_or_max p = elim (page_id p) [ none ↦ 2 ^ 64 - 1 | some id ↦ id ]

-- `idx.sort_by_key(…)`, then the reassembly; `none` is the panic out of bounds.
unfoldable pub restore_split : Split → Option (List ℕ)
restore_split s =
    assemble s.header s.pages
      (sort_by (λ i j. by_key id_or_max (get_or s.pages i []) (get_or s.pages j []))
        (upto 0 (length s.pages)))
      s.tail

unfoldable pub restore : List ℕ → Option (List ℕ)
restore input = elim (split input) [ none ↦ some input | some s ↦ restore_split s ]

-- `info`: how many pages there are, and whether the precondition holds.
unfoldable pub info : List ℕ → ℕ × Bool
info input = elim (split input) [
  | none ↦ (0, false)
  | some s ↦ (length s.pages, elim (ascending_ids s.pages) [ none ↦ false | some ids ↦ true ])
]
