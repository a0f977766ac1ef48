-- ===== src/Reorder/Pages/Complete.antt =====
-- `split` finds the pieces of every stream of pages.
use mathlib.Core.Path.{ap₂, subst}
use zentropy.Prelude.{
  starts_with-split, leb, ℕ, ◌+◌, ◌-◌, ◌≤◌, ◌<◌, ◌≡◌, refl, ap, sym, ◌∙◌, false, List, [], ◌∷◌,
  ◌++◌, All, map, length, drop, take, arith, inl, inr, append_assoc, some, get_or, length-append,
  take-append_self, drop-append_self, drop-add,
}
use zentropy.Reorder.Pages.Find.{
  IsLine, Clear, find_from-append, find_from-first, find_from-shift, find_all-from, Clear-line,
}
use mathlib.Core.List.{flatten}
use zentropy.Reorder.Pages.{
  split, find_from, find_all, page_open, page_close, gap, page_blocks, last,
}
use zentropy.Reorder.Pages.Cut.{IsPage, IsTail, page_open-IsLine, page_close-IsLine}
use zentropy.Reorder.Pages.Sound.{after}
use zentropy.Reorder.Pages.Stream.{IsStream, IsHeader, Clear-header, last-after}

-- The places where pages start from `o`, and those where their closing tags stand.
opens_of : ℕ → List (List ℕ) → List ℕ → List ℕ
opens_of o [] t = find_from page_open 0 o t
opens_of o (p ∷ ps) t = o ∷ opens_of (o + length p) ps t

closes_of : ℕ → List (List ℕ) → List ℕ
closes_of o [] = []
closes_of o (p ∷ ps) = (o + (length p - length page_close)) ∷ closes_of (o + length p) ps

-- A search from `o` is the search from 0, moved.
from_zero :
    (needle : List ℕ) (o : ℕ) (xs l : List ℕ)
    → find_from needle 0 0 xs ≡ l
    → find_from needle 0 o xs ≡ map (λ p. o + p) l
from_zero needle o xs l e =
    let zero_more : o + 0 ≡ o = omega arith in
    ap (λ (i : ℕ). find_from needle 0 i xs) (sym zero_more)
    ∙ find_from-shift needle 0 0 o xs
    ∙ ap (map (λ p. o + p)) e

-- A search over a page and what follows it.
over_page :
    (needle : List ℕ) (o : ℕ) (p ys : List ℕ) (place : ℕ)
    → 0 < length needle
    → IsLine needle
    → IsPage p
    → find_from needle 0 0 p ≡ place ∷ []
    → find_from needle 0 o (p ++ ys) ≡ (o + place) ∷ find_from needle 0 (o + length p) ys
over_page needle o p ys place h line is one =
    let clear : Clear needle p ys =
      subst (λ r. Clear needle r ys) (sym is.ending) (Clear-line is.body ys needle line) in
    find_from-append needle 0 o p ys h clear (omega arith)
    ∙ ap (λ l. l ++ find_from needle 0 (o + length p) ys) (from_zero needle o p (place ∷ []) one)

find_opens :
    (o : ℕ) (ps : List (List ℕ)) (t : List ℕ)
    → All IsPage ps
    → find_from page_open 0 o (flatten ps ++ t) ≡ opens_of o ps t
unfolding flatten opens_of
find_opens o [] t h = refl
find_opens o (p ∷ ps) t h =
    let zero_more : o + 0 ≡ o = omega arith in
    ap (find_from page_open 0 o) (append_assoc p (flatten ps) t)
    ∙ over_page page_open o p (flatten ps ++ t) 0 (omega arith) page_open-IsLine h.0 h.0.opens
    ∙ rw zero_more (ap (λ l. o ∷ l) (find_opens (o + length p) ps t h.1))

find_closes :
    (o : ℕ) (ps : List (List ℕ)) (t : List ℕ)
    → All IsPage ps
    → IsTail t
    → find_from page_close 0 o (flatten ps ++ t) ≡ closes_of o ps
unfolding flatten closes_of
find_closes o [] t h k = from_zero page_close o t [] k.closes
find_closes o (p ∷ ps) t h k =
    ap (find_from page_close 0 o) (append_assoc p (flatten ps) t)
    ∙ over_page page_close o p (flatten ps ++ t) _ (omega arith) page_close-IsLine h.0 h.0.closes
    ∙ ap (λ l. (o + (length p - length page_close)) ∷ l) (find_closes (o + length p) ps t h.1 k)

gap_next :
    (e o : ℕ) (ps : List (List ℕ)) (t : List ℕ)
    → e + length page_close ≡ o
    → IsTail t
    → gap e (opens_of o ps t) ≡ false
unfolding gap opens_of
gap_next e o [] t h k = elim k.opens [
  | inl nothing ↦ rw (from_zero page_open o t [] nothing) refl
  | inr one ↦ rw (from_zero page_open o t (0 ∷ []) one) (ground arith)
]
gap_next e o (p ∷ ps) t h k = ground arith

page_blocks-All :
    (input : List ℕ) (o : ℕ) (ps : List (List ℕ)) (t : List ℕ)
    → drop o input ≡ flatten ps ++ t
    → All IsPage ps
    → IsTail t
    → page_blocks input (opens_of o ps t) (closes_of o ps) ≡ some ps
unfolding page_blocks flatten opens_of closes_of
page_blocks-All input o [] t at h k = refl
page_blocks-All input o (p ∷ ps) t at h k =
    let e = o + (length p - length page_close) in
    let long = h.0.size in
    let wide : leb e o ≡ false = ground arith in
    let next : e + length page_close ≡ o + length p = omega arith in
    let size : e + length page_close - o ≡ length p = omega arith in
    let ahead = at ∙ append_assoc p (flatten ps) t in
    let front : take (length p) (drop o input) ≡ p =
      ap (take (length p)) ahead ∙ take-append_self p (flatten ps ++ t) in
    let behind : drop (o + length p) input ≡ flatten ps ++ t =
      drop-add o (length p) input
      ∙ ap (drop (length p)) ahead
      ∙ drop-append_self p (flatten ps ++ t) in
    rw (
      wide,
      gap_next e (o + length p) ps t next k,
      page_blocks-All input (o + length p) ps t behind h.1 k,
      size,
      front,
    )

length-closes_of : (o : ℕ) (ps : List (List ℕ)) → length (closes_of o ps) ≡ length ps
unfolding closes_of
length-closes_of o [] = refl
length-closes_of o (p ∷ ps) = omega (arith, length-closes_of (o + length p) ps)

length-opens_of :
    (o : ℕ) (ps : List (List ℕ)) (t : List ℕ)
    → IsTail t
    → (length ps ≤ length (opens_of o ps t)) × (length (opens_of o ps t) ≤ length ps + 1)
unfolding opens_of
length-opens_of o [] t k = elim k.opens [
  | inl nothing ↦ rw (from_zero page_open o t [] nothing) (omega arith, omega arith)
  | inr one ↦ rw (from_zero page_open o t (0 ∷ []) one) (omega arith, omega arith)
]
length-opens_of o (p ∷ ps) t k = omega (arith, length-opens_of (o + length p) ps t k)

after-closes_of :
    (o : ℕ) (ps : List (List ℕ))
    → All IsPage ps
    → after o (closes_of o ps) ≡ o + length (flatten ps)
unfolding closes_of flatten
after-closes_of o [] h = omega arith
after-closes_of o (p ∷ ps) h =
    let long = h.0.size in
    let next : o + (length p - length page_close) + length page_close ≡ o + length p =
      omega arith in
    ap (λ (q : ℕ). after q (closes_of (o + length p) ps)) next
    ∙ after-closes_of (o + length p) ps h.1
    ∙ omega (arith, length-append p (flatten ps))

-- The run of `split` where its tests pass.
split_run :
    (input S E : List ℕ) (ps : List (List ℕ))
    → find_all input page_open ≡ S
    → find_all input page_close ≡ E
    → 0 < length E
    → length E ≤ length S
    → length S ≤ length E + 1
    → page_blocks input S E ≡ some ps
    → split input
      ≡ some (record {
        header = take (get_or S 0 0) input;
        pages = ps;
        tail = drop (last E + length page_close) input;
      })
unfolding split
split_run input S E ps opens closes e low high done = rw (opens, closes) (ground arith)

-- A page begins with its opening tag.
page_begins : (p : List ℕ) → IsPage p → p ≡ page_open ++ drop (length page_open) p
page_begins p is =
    starts_with-split p page_open (find_from-first page_open 0 0 p (omega arith) is.opens).2

flatten_begins :
    (p : List ℕ) (ps : List (List ℕ)) (t : List ℕ)
    → IsPage p
    → flatten (p ∷ ps) ++ t ≡ page_open ++ (drop (length page_open) p ++ (flatten ps ++ t))
unfolding flatten
flatten_begins p ps t is =
    append_assoc p (flatten ps) t
    ∙ ap (λ q. q ++ (flatten ps ++ t)) (page_begins p is)
    ∙ append_assoc page_open (drop (length page_open) p) (flatten ps ++ t)

-- A search over a header with no tag, and the pages behind it.
find_pages :
    (needle h rest : List ℕ)
    → 0 < length needle
    → Clear needle h rest
    → find_from needle 0 0 h ≡ []
    → find_all (h ++ rest) needle ≡ find_from needle 0 (length h) rest
find_pages needle h rest pos clear nothing =
    let zero_more : 0 + length h ≡ length h = omega arith in
    find_all-from (h ++ rest) needle pos
    ∙ find_from-append needle 0 0 h rest pos clear (omega arith)
    ∙ ap (λ l. l ++ find_from needle 0 (0 + length h) rest) nothing
    ∙ ap (λ (o : ℕ). find_from needle 0 o rest) zero_more

split_pieces :
    (h p : List ℕ) (ps : List (List ℕ)) (t : List ℕ)
    → IsHeader h
    → All IsPage (p ∷ ps)
    → IsTail t
    → split (h ++ flatten (p ∷ ps) ++ t) ≡ some (record { header = h; pages = p ∷ ps; tail = t })
split_pieces h p ps t is_header is is_tail =
    let o = length h in
    let input = h ++ flatten (p ∷ ps) ++ t in
    let rest = flatten (p ∷ ps) ++ t in
    let whole : input ≡ h ++ rest = append_assoc h (flatten (p ∷ ps)) t in
    let begins = flatten_begins p ps t is.0 in
    let clear : Clear page_open h rest × Clear page_close h rest =
      subst (λ r. Clear page_open h r × Clear page_close h r) (sym begins) (Clear-header h _) in
    let starts : find_all input page_open ≡ opens_of o (p ∷ ps) t =
      ap (λ r. find_all r page_open) whole
      ∙ find_pages page_open h rest (omega arith) clear.0 is_header.opens
      ∙ find_opens o (p ∷ ps) t is in
    let ends : find_all input page_close ≡ closes_of o (p ∷ ps) =
      ap (λ r. find_all r page_close) whole
      ∙ find_pages page_close h rest (omega arith) clear.1 is_header.closes
      ∙ find_closes o (p ∷ ps) t is is_tail in
    let many = length-opens_of o (p ∷ ps) t is_tail in
    let same = length-closes_of o (p ∷ ps) in
    let at : drop o input ≡ rest = ap (drop o) whole ∙ drop-append_self h rest in
    let front : take (get_or (opens_of o (p ∷ ps) t) 0 0) input ≡ h =
      unfold opens_of in ap (take o) whole ∙ take-append_self h rest in
    let ends_at : last (closes_of o (p ∷ ps)) + length page_close ≡ after o (closes_of o (p ∷ ps)) =
      unfold closes_of in
      last-after o (o + (length p - length page_close)) (closes_of (o + length p) ps) in
    let size : last (closes_of o (p ∷ ps)) + length page_close ≡ length (h ++ flatten (p ∷ ps)) =
      ends_at ∙ after-closes_of o (p ∷ ps) is ∙ sym (length-append h (flatten (p ∷ ps))) in
    let back : drop (last (closes_of o (p ∷ ps)) + length page_close) input ≡ t =
      ap (λ (k : ℕ). drop k input) size ∙ drop-append_self (h ++ flatten (p ∷ ps)) t in
    split_run input (opens_of o (p ∷ ps) t) (closes_of o (p ∷ ps)) (p ∷ ps) starts ends
      (omega arith) (omega arith) (omega arith) (page_blocks-All input o (p ∷ ps) t at is is_tail)
    ∙ ap₂ (λ (a b : List ℕ). some (record { header = a; pages = p ∷ ps; tail = b })) front back

-- A stream of pages, put together, is split into its header, its pages and its tail.
pub split-flatten :
    (h : List ℕ) (ps : List (List ℕ)) (t : List ℕ)
    → IsStream (record { header = h; pages = ps; tail = t })
    → split (h ++ flatten ps ++ t) ≡ some (record { header = h; pages = ps; tail = t })
split-flatten h [] t is = absurd (omega (arith, is.some_page))
split-flatten h (p ∷ ps) t is = split_pieces h p ps t is.header is.pages is.tail
