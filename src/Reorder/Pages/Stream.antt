-- ===== src/Reorder/Pages/Stream.antt =====
-- `split` and the reassembly are inverse to one another: what it accepts is a stream of pages, and
-- every stream of pages is split into its pieces.
use zentropy.Prelude.{
  All-imp, suc, ◌+◌, ◌-◌, ◌≤◌, refl, ap, sym, ◌∙◌, [], ◌∷◌, length, drop, take, arith, inl, inr,
  append_assoc, some, get_or, take-append-drop, starts_with-split, length-take, Option-cases, ◌<◌,
  All, ◌≡◌, ◌++◌, starts_with, List, ℕ,
}
use mathlib.Core.Path.{subst}
use mathlib.Core.List.{flatten}
use zentropy.Reorder.Pages.{
  Split, split, find_from, find_all, page_open, page_close, page_blocks, last,
}
use zentropy.Reorder.Pages.Find.{
  Clear, Clear-Blocks, find_from-append, find_from-bounds, find_from-first, find_all-from,
}
use zentropy.Reorder.Pages.Cut.{IsPage, IsTail, HeadFrom}
use zentropy.Reorder.Pages.Sound.{page_blocks-Tiled, blocks_round, after}

-- Neither a page's opening tag nor a closing tag stands in the header.
pub record IsHeader (t : List ℕ) : Type 0 where
  pub opens : find_from page_open 0 0 t ≡ []
  pub closes : find_from page_close 0 0 t ≡ []

-- A stream of whole pages between a header and a tail.
pub record IsStream (s : Split) : Type 0 where
  pub header : IsHeader s.header
  pub pages : All IsPage s.pages
  pub some_page : 0 < length s.pages
  pub tail : IsTail s.tail

pub last-after : (o e : ℕ) (es : List ℕ) → last (e ∷ es) + length page_close ≡ after o (e ∷ es)
unfolding last
last-after o e [] = refl
last-after o e (d ∷ es) =
    let place : suc (suc (length es)) - 1 ≡ suc (suc (length es) - 1) = omega arith in
    rw place (last-after (e + length page_close) d es)

-- Places below `c`, then others, where the first of all is `c` or later.
none_before :
    (A B l : List ℕ) (c : ℕ) → A ++ B ≡ l → All (λ p. p < c) A → HeadFrom c l → (A ≡ []) × (B ≡ l)
none_before [] B l c e a h = (refl, e)
none_before (x ∷ A) B l c e a h =
    let from : HeadFrom c (x ∷ A ++ B) = rw (← e) at h in absurd (omega arith)

-- No tag straddles the place where the first page starts.
pub Clear-header :
    (xs r : List ℕ) → Clear page_open xs (page_open ++ r) × Clear page_close xs (page_open ++ r)
unfolding starts_with
Clear-header xs r = (
  Clear-Blocks xs (page_open ++ r) 32 (drop 1 page_open)
      (refl, (refl, (refl, (refl, (refl, (refl, (refl, (refl, tt)))))))),
  Clear-Blocks xs (page_open ++ r) 32 (drop 1 page_close)
      (refl, (refl, (refl, (refl, (refl, (refl, (refl, (refl, (refl, tt))))))))),
)

-- What `split` did where it accepts.
split_parts :
    (input : List ℕ) (s : Split)
    → split input ≡ some s
    → let starts = find_all input page_open in
      let ends = find_all input page_close in
      (0 < length starts)
      × (0 < length ends)
      × (length starts ≤ length ends + 1)
      × (page_blocks input starts ends ≡ some s.pages)
      × (s.header ≡ take (get_or starts 0 0) input)
      × (s.tail ≡ drop (last ends + length page_close) input)
unfolding split
split_parts input s e =
    elim (Option-cases (page_blocks input (find_all input page_open) (find_all input page_close))) [
      | inl failed ↦ absurd (ground arith)
      | inr (ps, done) ↦
          (ground arith, ground arith, ground arith, ground arith, ground arith, ground arith)
    ]

-- A search over a header and a page stream that reports nothing in the header.
find_behind :
    (needle header rest l : List ℕ)
    → 0 < length needle
    → Clear needle header rest
    → HeadFrom (length header) l
    → find_from needle 0 0 (header ++ rest) ≡ l
    → (find_from needle 0 0 header ≡ []) × (find_from needle 0 (length header) rest ≡ l)
find_behind needle header rest l h clear from e =
    let zero_more : 0 + length header ≡ length header = omega arith in
    none_before (find_from needle 0 0 header) (find_from needle 0 (length header) rest) l
      (length header)
      (ap (λ (o : ℕ). find_from needle 0 0 header ++ find_from needle 0 o rest) (sym zero_more)
        ∙ sym (find_from-append needle 0 0 header rest h clear (omega arith))
        ∙ e)
      (All-imp _ (λ p b. omega arith) (find_from-bounds needle 0 0 header)) from

IsStream-of :
    (input starts ends : List ℕ) (ps : List (List ℕ))
    → find_from page_open 0 0 input ≡ starts
    → find_from page_close 0 0 input ≡ ends
    → 0 < length starts
    → 0 < length ends
    → length starts ≤ length ends + 1
    → page_blocks input starts ends ≡ some ps
    → let header = take (get_or starts 0 0) input in
      let tail = drop (last ends + length page_close) input in
      IsStream (record { header = header; pages = ps; tail = tail })
      × (input ≡ header ++ flatten ps ++ tail)
IsStream-of input [] ends ps opens closes s e n done = absurd (omega arith)
IsStream-of input (s ∷ ss) [] ps opens closes h e n done = absurd (omega arith)
IsStream-of input (s ∷ ss) (c ∷ es) ps opens closes h e n done =
    let (wide, g, (qs, _, blocks)) = blocks_round input ss es s c ps done in
    let (low, high, found, more) = find_from-first page_open 0 0 input (omega arith) opens in
    let at : s - 0 ≡ s = omega arith in
    let header = take s input in
    let rest = drop s input in
    let tagged = starts_with-split rest page_open (rw at at found) in
    let long : length header ≡ s = length-take s input (omega arith) in
    let whole : header ++ rest ≡ input = take-append-drop s input in
    let clear : Clear page_open header rest × Clear page_close header rest =
      subst (λ r. Clear page_open header r × Clear page_close header r) (sym tagged)
        (Clear-header header (drop (length page_open) rest)) in
    let (no_open, opens') =
      find_behind page_open header rest (s ∷ ss) (omega arith) clear.0 (omega arith)
        (ap (find_from page_open 0 0) whole ∙ opens) in
    let (no_close, closes') =
      find_behind page_close header rest (c ∷ es) (omega arith) clear.1 (omega arith)
        (ap (find_from page_close 0 0) whole ∙ closes) in
    let t =
      page_blocks-Tiled input rest s (s ∷ ss) (c ∷ es) ps refl
        (ap (λ (o : ℕ). find_from page_open 0 o rest) (sym long) ∙ opens')
        (ap (λ (o : ℕ). find_from page_close 0 o rest) (sym long) ∙ closes') refl n done in
    let tail_at : t.tail ≡ drop (last (c ∷ es) + length page_close) input =
      t.tail_at ∙ ap (λ (k : ℕ). drop k input) (sym (last-after s c es)) in
    (
      record {
        header = record { opens = no_open; closes = no_close };
        pages = t.pages;
        some_page = omega (arith, ap length blocks);
        tail = subst IsTail tail_at t.is_tail;
      },
      sym whole
          ∙ ap (λ r. header ++ r) (t.whole ∙ ap (λ r. flatten ps ++ r) tail_at)
          ∙ sym (append_assoc header (flatten ps) _),
    )

-- The pieces of what `split` accepts tile the input, and each is what it is meant to be.
pub split-IsStream :
    (input : List ℕ) (s : Split)
    → split input ≡ some s
    → IsStream s × (input ≡ s.header ++ flatten s.pages ++ s.tail)
unfolding split
split-IsStream input s e =
    let (starts, ends, n, done, header, tail) = split_parts input s e in
    let all_open = find_all-from input page_open (omega arith) in
    let all_close = find_all-from input page_close (omega arith) in
    let (stream, whole) =
      IsStream-of input (find_all input page_open) (find_all input page_close) s.pages
        (sym all_open) (sym all_close) starts ends n done in
    rw (header, tail) (stream, whole)
