-- ===== src/Reorder/Pages/Sound.antt =====
-- What `split` accepts: page blocks that tile the stream, each with one pair of tags.

use zentropy.Reorder.Pages.{find_from, page_open, page_close, gap, page_blocks}
use zentropy.Prelude.{
  take-append_self, drop-append_self, drop-add, Option-cases, inr, inl, starts_with-split,
  length-append, take-append-drop, ℕ, ◌+◌, ◌-◌, ◌≤◌, ◌<◌, ◌≡◌, refl, ap, sym, ◌∙◌, true, false,
  List, [], ◌∷◌, ◌++◌, All, length, drop, take, starts_with, codes, arith, append_assoc, some,
  length-take,
}
use mathlib.Core.Path.{ap₂, subst}
use zentropy.Reorder.Pages.Cut.{
  page_close-IsLine, page_open-IsLine, IsPage, IsTail, HeadFrom, cut_find, find_one, find_none,
}
use mathlib.Core.List.{flatten}
use zentropy.Reorder.Pages.Find.{find_from-first, Clear-line}

-- A stream that begins with a page: the page, and what the searches find behind it.
record Cut (o e : ℕ) (rest ss es : List ℕ) : Type 0 where
  page : List ℕ
  behind : List ℕ
  whole : rest ≡ page ++ behind
  size : o + length page ≡ e + length page_close
  is_page : IsPage page
  next_opens : find_from page_open 0 (o + length page) behind ≡ ss
  next_closes : find_from page_close 0 (o + length page) behind ≡ es

gap-HeadFrom :
    (e c : ℕ) (ss : List ℕ) → c ≡ e + length page_close → gap e ss ≡ false → HeadFrom c ss
unfolding gap
gap-HeadFrom e c [] h g = tt
gap-HeadFrom e c (s ∷ ss) h g = ground arith

HeadFrom-of_All : (c : ℕ) (ss : List ℕ) → All (λ p. c ≤ p) ss → HeadFrom c ss
HeadFrom-of_All c [] h = tt
HeadFrom-of_All c (s ∷ ss) h = h.0

-- The closing tag that is found at `k`, between what stands before and behind it.
at_close :
    (k : ℕ) (rest : List ℕ)
    → starts_with (drop k rest) page_close ≡ true
    → rest
      ≡ ((take k rest ++ codes "  </page>") ++ 10 ∷ []) ++ drop (length page_close) (drop k rest)
at_close k rest found =
    sym (take-append-drop k rest)
    ∙ ap (λ r. take k rest ++ r) (starts_with-split (drop k rest) page_close found)
    ∙ simp append_assoc

module _ (o e : ℕ) (text ys ss es : List ℕ)
    (place : o + length (text ++ 10 ∷ []) ≡ e + length page_close) (wide : o < e) where
  Cut-at :
      find_from page_open 0 o ((text ++ 10 ∷ []) ++ ys) ≡ o ∷ ss
      → find_from page_close 0 o ((text ++ 10 ∷ []) ++ ys) ≡ e ∷ es
      → gap e ss ≡ false
      → All (λ p. e + length page_close ≤ p) es
      → Cut o e ((text ++ 10 ∷ []) ++ ys) ss es
  Cut-at opens closes g more =
      let p = text ++ 10 ∷ [] in
      let (one_open, next_opens) =
        cut_find page_open o o p ys ss (omega arith) (Clear-line text ys page_open page_open-IsLine)
          opens (omega arith) (gap-HeadFrom e (o + length p) ss place g) in
      let (one_close, next_closes) =
        cut_find page_close o e p ys es (omega arith)
          (Clear-line text ys page_close page_close-IsLine) closes (omega arith)
          (HeadFrom-of_All (o + length p) es (rw place more)) in
      record {
        page = p;
        behind = ys;
        whole = refl;
        size = place;
        is_page = record {
          opens = find_one page_open o o 0 p (omega arith) one_open;
          closes = find_one page_close o e (length p - length page_close) p (omega arith) one_close;
          body = text;
          ending = refl;
          size = omega arith;
        };
        next_opens = next_opens;
        next_closes = next_closes;
      }

cut :
    (o e : ℕ) (rest ss es : List ℕ)
    → find_from page_open 0 o rest ≡ o ∷ ss
    → find_from page_close 0 o rest ≡ e ∷ es
    → o < e
    → gap e ss ≡ false
    → Cut o e rest ss es
cut o e rest ss es opens closes h g =
    let (low, high, found, more) = find_from-first page_close 0 o rest (omega arith) closes in
    let whole = at_close (e - o) rest found in
    let long : length (take (e - o) rest) ≡ e - o = length-take (e - o) rest (omega arith) in
    let text = take (e - o) rest ++ codes "  </page>" in
    let ys = drop (length page_close) (drop (e - o) rest) in
    let tag = length-append (take (e - o) rest) (codes "  </page>") in
    let line = length-append text (10 ∷ []) in
    subst (λ r. Cut o e r ss es) (sym whole)
      (Cut-at o e text ys ss es (omega arith) h
        (subst (λ r. find_from page_open 0 o r ≡ o ∷ ss) whole opens)
        (subst (λ r. find_from page_close 0 o r ≡ e ∷ es) whole closes) g more)

abbrev AtHead : ℕ → List ℕ → Type 0
AtHead o [] = Unit
AtHead o (s ∷ ss) = s ≡ o

-- Where the last page ends.
abbrev pub after : ℕ → List ℕ → ℕ
after o [] = o
after o (e ∷ es) = after (e + length page_close) es

gap-AtHead : (e : ℕ) (ss : List ℕ) → gap e ss ≡ false → AtHead (e + length page_close) ss
unfolding gap
gap-AtHead e [] g = tt
gap-AtHead e (s ∷ ss) g = ground arith

tail_of :
    (o : ℕ) (rest ss : List ℕ)
    → find_from page_open 0 o rest ≡ ss
    → find_from page_close 0 o rest ≡ []
    → AtHead o ss
    → length ss ≤ 1
    → IsTail rest
tail_of o rest [] opens closes h n = record {
  opens = inl (find_none page_open o rest opens);
  closes = find_none page_close o rest closes;
}
tail_of o rest (s ∷ []) opens closes h n = record {
  opens = inr (find_one page_open o s 0 rest (omega arith) opens);
  closes = find_none page_close o rest closes;
}
tail_of o rest (s ∷ t ∷ ss) opens closes h n = absurd (omega arith)

-- Pages that tile a stream, and the tail behind them.
pub record Tiled (input rest : List ℕ) (o : ℕ) (es : List ℕ) (ps : List (List ℕ)) : Type 0 where
  pub tail : List ℕ
  pub whole : rest ≡ flatten ps ++ tail
  pub pages : All IsPage ps
  pub is_tail : IsTail tail
  pub tail_at : tail ≡ drop (after o es) input

-- A round of the loop of `split` that does not give up.
pub blocks_round :
    (input ss es : List ℕ) (s c : ℕ) (ps : List (List ℕ))
    → page_blocks input (s ∷ ss) (c ∷ es) ≡ some ps
    → (s < c)
      × (gap c ss ≡ false)
      × ((qs : List (List ℕ)) × (page_blocks input ss es ≡ some qs)
          × (ps ≡ take (c + length page_close - s) (drop s input) ∷ qs))
unfolding page_blocks
blocks_round input ss es s c ps e = elim (Option-cases (page_blocks input ss es)) [
  | inl failed ↦ absurd (ground arith)
  | inr (qs, done) ↦ (ground arith, ground arith, (qs, done, ground arith))
]

-- The loop of `split`, from a place where a page starts.
pub page_blocks-Tiled :
    (input rest : List ℕ) (o : ℕ) (ss es : List ℕ) (ps : List (List ℕ))
    → drop o input ≡ rest
    → find_from page_open 0 o rest ≡ ss
    → find_from page_close 0 o rest ≡ es
    → AtHead o ss
    → length ss ≤ length es + 1
    → page_blocks input ss es ≡ some ps
    → Tiled input rest o es ps
unfolding page_blocks flatten
page_blocks-Tiled input rest o ss [] [] at opens closes h n e = record {
  tail = rest;
  whole = refl;
  pages = tt;
  is_tail = tail_of o rest ss opens closes h n;
  tail_at = sym at;
}
page_blocks-Tiled input rest o ss [] (p ∷ ps) at opens closes h n e = cc
page_blocks-Tiled input rest o [] (c ∷ es) ps at opens closes h n e = cc
page_blocks-Tiled input rest o (s ∷ ss) (c ∷ es) ps at opens closes h n e =
    let (wide, g, (qs, done, blocks)) = blocks_round input ss es s c ps e in
    let r = cut o c rest ss es (opens ∙ ap (λ t. t ∷ ss) h) closes (omega arith) g in
    let next : o + length r.page ≡ c + length page_close = r.size in
    let input_behind : drop (c + length page_close) input ≡ r.behind =
      ap (λ (t : ℕ). drop t input) (sym next)
      ∙ drop-add o (length r.page) input
      ∙ ap (drop (length r.page)) (at ∙ r.whole)
      ∙ drop-append_self r.page r.behind in
    let size : c + length page_close - s ≡ length r.page = omega arith in
    let page : take (c + length page_close - s) (drop s input) ≡ r.page =
      ap₂ take size (ap (λ (t : ℕ). drop t input) h ∙ at ∙ r.whole)
      ∙ take-append_self r.page r.behind in
    let shape : ps ≡ r.page ∷ qs = blocks ∙ ap (λ q. q ∷ qs) page in
    let t =
      page_blocks-Tiled input r.behind (c + length page_close) ss es qs input_behind
        (rw next at r.next_opens) (rw next at r.next_closes) (gap-AtHead c ss g) (omega arith)
        done in
    record {
      tail = t.tail;
      whole =
          r.whole
          ∙ ap (λ l. r.page ++ l) t.whole
          ∙ sym (append_assoc r.page (flatten qs) t.tail)
          ∙ sym (ap (λ l. flatten l ++ t.tail) shape);
      pages = rw shape (r.is_page, t.pages);
      is_tail = t.is_tail;
      tail_at = t.tail_at;
    }
