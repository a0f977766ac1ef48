-- ===== src/Reorder/Keys.antt =====
-- src/reorder/mod.rs: what the orders sort the pages by, and the comparison of such keys.
use Prim.Native.Nat.{compare, Ordering}
use zentropy.Prelude.{
  ℕ, zero, suc, ◌+◌, Bool, true, false, not, ◌&&◌, ◌||◌, List, [], ◌∷◌, ◌++◌, map, ltb, leb, ◌==◌,
  if◌then◌else◌, length, take, drop, codes, starts_with,
}
use zentropy.Prelude.Sort.{sort_by}
use zentropy.Ir.Scan.{run}

-- `Ord::cmp` of byte strings and word arrays, `Ordering::then`, and the test by which a stable sort keeps two items.
unfoldable pub compare_bytes : List ℕ → List ℕ → Ordering
compare_bytes [] [] = Ordering.eq
compare_bytes [] (b ∷ bs) = Ordering.lt
compare_bytes (a ∷ as') [] = Ordering.gt
compare_bytes (a ∷ as') (b ∷ bs) = elim (compare a b) [
  | Ordering.lt ↦ Ordering.lt
  | Ordering.eq ↦ compare_bytes as' bs
  | Ordering.gt ↦ Ordering.gt
]

unfoldable pub and_then : Ordering → Ordering → Ordering
and_then Ordering.lt o = Ordering.lt
and_then Ordering.eq o = o
and_then Ordering.gt o = Ordering.gt

unfoldable pub not_after : Ordering → Bool
not_after Ordering.lt = true
not_after Ordering.eq = true
not_after Ordering.gt = false

unfoldable pub to_lower : ℕ → ℕ
to_lower b = if leb b'A' b && leb b b'Z' then b + 32 else b

unfoldable pub same_name : List ℕ → List ℕ → Bool
same_name a b = elim (compare_bytes (map to_lower a) (map to_lower b)) [
  | Ordering.eq ↦ true
  | _ ↦ false
]

abbrev pub namespaces : List (List ℕ)
namespaces =
    codes "Template"
    ∷ codes "Category"
    ∷ codes "Wikipedia"
    ∷ codes "Image"
    ∷ codes "User"
    ∷ codes "Help"
    ∷ codes "Portal"
    ∷ codes "MediaWiki"
    ∷ codes "Talk"
    ∷ codes "Media"
    ∷ codes "Special"
    ∷ []

unfoldable pub rank_in : List (List ℕ) → ℕ → List ℕ → ℕ
rank_in [] i prefix = 0
rank_in (name ∷ names) i prefix =
    if same_name prefix name then i + 1 else rank_in names (i + 1) prefix

unfoldable pub namespace_rank : List ℕ → ℕ
namespace_rank title =
    let colon = run (λ b. not (b == b':')) title in
    if ltb colon (length title) then rank_in namespaces 0 (take colon title) else 0

unfoldable pub starts_with_ci : List ℕ → List ℕ → Bool
starts_with_ci hay needle = starts_with (map to_lower hay) needle

-- How many bytes of a name stand before `|`, the given closing bracket or a line end.
unfoldable pub name_length : ℕ → List ℕ → ℕ
name_length close = run (λ b. not (b == b'|' || (b == close || b == 10)))

-- A page from position `i` begins a category link, or a template.
unfoldable pub opens_category : List ℕ → Bool
opens_category s = starts_with s (codes "[[") && starts_with_ci (drop 2 s) (codes "category:")

unfoldable pub opens_template : List ℕ → Bool
opens_template s = starts_with s (codes "{{")

unfoldable pub category_name : List ℕ → List ℕ
category_name s = take (name_length b']' (drop 11 s)) (drop 11 s)

unfoldable pub template_name : List ℕ → List ℕ
template_name s = take (name_length b'}' (drop 2 s)) (drop 2 s)

unfoldable pub first_category : List ℕ → List ℕ
first_category [] = []
first_category (b ∷ s) =
    if opens_category (b ∷ s) then map to_lower (category_name (b ∷ s)) else first_category s

unfoldable pub first_template : List ℕ → List ℕ
first_template [] = []
first_template (b ∷ s) =
    if opens_template (b ∷ s) then map to_lower (template_name (b ∷ s)) else first_template s

-- The loops of `all_categories` and `all_templates`; each round passes over a byte at least.
unfoldable pub collect_categories : ℕ → List ℕ → List (List ℕ)
collect_categories zero s = []
collect_categories (suc fuel) s =
    let found =
      map to_lower (category_name s)
      ∷ collect_categories fuel (drop (11 + length (category_name s)) s) in
    let next = collect_categories fuel (drop 1 s) in
    if ltb (length s) 2 then [] else if opens_category s then found else next

unfoldable pub collect_templates : ℕ → List ℕ → List (List ℕ)
collect_templates zero s = []
collect_templates (suc fuel) s =
    let found =
      map to_lower (template_name s)
      ∷ collect_templates fuel (drop (2 + length (template_name s)) s) in
    let next = collect_templates fuel (drop 1 s) in
    if ltb (length s) 2 then [] else if opens_template s then found else next

unfoldable pub dedup : List (List ℕ) → List (List ℕ)
dedup [] = []
dedup (a ∷ []) = a ∷ []
dedup (a ∷ b ∷ l) =
    let rest = dedup (b ∷ l) in elim (compare_bytes a b) [ Ordering.eq ↦ rest | _ ↦ a ∷ rest ]

unfoldable pub join_nul : List (List ℕ) → List ℕ
join_nul [] = []
join_nul (a ∷ []) = a
join_nul (a ∷ b ∷ l) = a ++ 0 ∷ join_nul (b ∷ l)

unfoldable pub sort_names : List (List ℕ) → List (List ℕ)
sort_names = sort_by (λ a b. not_after (compare_bytes a b))

unfoldable pub all_categories : List ℕ → List ℕ
all_categories page = join_nul (dedup (sort_names (collect_categories (length page) page)))

unfoldable pub all_templates : List ℕ → List ℕ
all_templates page = join_nul (dedup (sort_names (collect_templates (length page) page)))
