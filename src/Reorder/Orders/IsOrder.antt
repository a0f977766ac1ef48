-- ===== src/Reorder/Orders/IsOrder.antt =====
-- Every order of the pages has each page once.
use mathlib.Core.List.{Permᴰ}
use mathlib.Core.List.Permᴰ
use mathlib.Core.Path.{subst}
use Prim.Native.Nat.{Ordering}
use zentropy.Prelude.{ℕ, suc, ◌≡◌, refl, ap, List, [], ◌∷◌, map, length}
use zentropy.Prelude.Sort.{sort_by-perm, map-perm}
use zentropy.Archive.Method.Stages.{Order}
use zentropy.Reorder.Shuffle.{upto, shuffled_index-perm, greedy_walk-perm}
use zentropy.Reorder.Orders.{numbered, keyed, order_index}

numbered-places {ℓ} :
    {K : Type ℓ} (f : ℕ → List ℕ → K) (i : ℕ) (pages : List (List ℕ))
    → map (λ (e : K × ℕ). e.1) (numbered f i pages) ≡ upto i (length pages)
unfolding numbered upto
numbered-places f i [] = refl
numbered-places f i (p ∷ pages) = ap (λ l. i ∷ l) (numbered-places f (suc i) pages)

pub keyed-perm {ℓ} :
    {K : Type ℓ} (f : ℕ → List ℕ → K) (cmp : K × ℕ → K × ℕ → Ordering) (pages : List (List ℕ))
    → Permᴰ (keyed f cmp pages) (upto 0 (length pages))
unfolding keyed
keyed-perm {K = K} f cmp pages =
    subst (λ l. Permᴰ (keyed f cmp pages) l) (numbered-places f 0 pages)
      (map-perm (λ (e : K × ℕ). e.1) (sort_by-perm _ (numbered f 0 pages)))

-- For every order, the reordered places are the places of the pages, each once.
pub order_index-perm :
    (order : Order) (pages : List (List ℕ)) (ids : List ℕ)
    → Permᴰ (order_index order pages ids) (upto 0 (length pages))
unfolding order_index
order_index-perm Order.identity pages ids = Permᴰ.refl (upto 0 (length pages))
order_index-perm Order.title pages ids = keyed-perm _ _ pages
order_index-perm Order.size pages ids = keyed-perm _ _ pages
order_index-perm Order.struct pages ids = keyed-perm _ _ pages
order_index-perm Order.min_hash pages ids = keyed-perm _ _ pages
order_index-perm Order.greedy pages ids = Permᴰ.trans (greedy_walk-perm _ _) (keyed-perm _ _ pages)
order_index-perm Order.template pages ids = keyed-perm _ _ pages
order_index-perm Order.category pages ids = keyed-perm _ _ pages
order_index-perm Order.category_set pages ids = keyed-perm _ _ pages
order_index-perm Order.full pages ids = keyed-perm _ _ pages
order_index-perm Order.full_residual pages ids = keyed-perm _ _ pages
order_index-perm Order.template_key pages ids = keyed-perm _ _ pages
order_index-perm Order.shuffle pages ids = shuffled_index-perm (length pages)
