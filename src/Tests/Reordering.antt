-- ===== src/Tests/Reordering.antt =====
-- Runs of the splitting and of the reordering on a stream of two pages.
use zentropy.Prelude.{starts_with, ℕ, ◌≡◌, refl, some, List, [], ◌∷◌, ◌++◌, codes}
use mathlib.Core.List.{flatten, Permᴰ}
use zentropy.Archive.Method.Stages.{Order}
use zentropy.Reorder.Pages.{
  Split, split, page_blocks, find_all, find_from, last, gap, page_title, page_id, id_loop,
  digits_value, ascending_ids, page_ids, falls,
}
use zentropy.Reorder.Pages.Stream.{IsStream, split-IsStream}
use zentropy.Reorder.Pages.Complete.{split-flatten}
use zentropy.Ir.Scan.{run, is_digit}
use zentropy.Prelude.Sort.{sort_by, insert}
use zentropy.Reorder.Keys.{compare_bytes, not_after}
use zentropy.Reorder.Shuffle.{upto}
use zentropy.Reorder.Orders.{order_index, encode, keyed, numbered}
use zentropy.Reorder.Orders.IsOrder.{order_index-perm}
use zentropy.Reorder.Orders.RoundTrip.{Restores, restore-encode}

abbrev page_beta : List ℕ
page_beta = codes "  <page>\n<title>B</title><id>1</id>  </page>\n"

abbrev page_alpha : List ℕ
page_alpha = codes "  <page>\n<title>A</title><id>12</id>  </page>\n"

abbrev stream : List ℕ
stream = codes "<m>\n" ++ page_beta ++ page_alpha ++ codes "</m>\n"

abbrev pieces : Split
pieces = record {
  header = codes "<m>\n";
  pages = page_beta ∷ page_alpha ∷ [];
  tail = codes "</m>\n";
}

split-stream : split stream ≡ some pieces
unfolding split page_blocks find_all find_from last gap starts_with
split-stream = refl

stream_ids : ascending_ids (page_beta ∷ page_alpha ∷ []) ≡ some (1 ∷ 12 ∷ [])
unfolding ascending_ids page_ids falls page_id id_loop digits_value run is_digit starts_with
stream_ids = refl

by_title : order_index Order.title (page_beta ∷ page_alpha ∷ []) (1 ∷ 12 ∷ []) ≡ 1 ∷ 0 ∷ []
unfolding order_index keyed numbered sort_by insert page_title find_all find_from compare_bytes
    not_after starts_with
by_title = refl

split-IsStream_example :
    IsStream pieces × (stream ≡ pieces.header ++ flatten pieces.pages ++ pieces.tail)
split-IsStream_example = split-IsStream stream pieces split-stream

split-flatten_example : split (pieces.header ++ flatten pieces.pages ++ pieces.tail) ≡ some pieces
split-flatten_example =
    split-flatten pieces.header pieces.pages pieces.tail
      (split-IsStream stream pieces split-stream).0

order_index-perm_example :
    Permᴰ (order_index Order.greedy (page_beta ∷ page_alpha ∷ []) (1 ∷ 12 ∷ [])) (upto 0 2)
order_index-perm_example = order_index-perm Order.greedy (page_beta ∷ page_alpha ∷ []) (1 ∷ 12 ∷ [])

restore-encode_example : Restores stream (encode stream Order.title)
restore-encode_example = restore-encode stream Order.title
