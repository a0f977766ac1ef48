-- ===== src/Ir/Partition.antt =====
-- The tokens partition the input, and rendering them gives the input back.
use zentropy.Prelude.{codes}
use zentropy.Ir.{return_tag}
use zentropy.Ir.{return_if}
use zentropy.Ir.{or_else}
use zentropy.Prelude.{
  ℕ, zero, suc, ◌+◌, ◌-◌, ◌%◌, ◌^◌, ◌≤◌, ◌<◌, ◌≡◌, refl, ap, ◌∙◌, Bool, true, Option, none, some,
  List, [], ◌∷◌, ◌++◌, leb, ◌==◌, ◌&&◌, length, drop, take, get_or, arith, Bool-cases, inl, inr,
  length-drop, length-append, take-append-drop, append_assoc, drop-append_self,
}
use zentropy.Ir.Kinds.{Kind}
use zentropy.Ir.Scan.{is_letter, is_digit, is_space, scan_comment, scan_pi, scan_cdata, scan_tag}
use zentropy.Ir.Spans.{
  run-le, scan_between-le, scan_tag-le, scan_entity-le, scan_balanced-le, scan_table-le,
  scan_url-le,
}
use zentropy.Ir.{
  Token, classify_markup, classify_entity, classify_wiki, classify_url, classify_run, goes_on,
  is_newline, classify, tokenize_loop, tokenize, slice, render,
}

-- A span from the front of `s`: at least a byte, and no more than there are.
abbrev Inside : List ℕ → ℕ → Type 0
Inside s l = (1 ≤ l) × (l ≤ length s)

module _ (s : List ℕ) where
  return_if-Inside :
      (o : Option ℕ) (tried : Kind) (next : Option (Kind × ℕ)) (kind : Kind) (l : ℕ)
      → ((n : ℕ) → o ≡ some n → Inside s n)
      → (next ≡ some (kind, l) → Inside s l)
      → return_if o tried next ≡ some (kind, l)
      → Inside s l
  return_if-Inside (some n) tried next kind l here later e = ground (arith, here n refl)
  return_if-Inside none tried next kind l here later e = later e

  return_tag-Inside :
      (o : Option (Bool × ℕ × Kind)) (kind : Kind) (l : ℕ)
      → ((is_open : Bool) (n : ℕ) (k : Kind) → o ≡ some (is_open, n, k) → Inside s n)
      → return_tag o ≡ some (kind, l)
      → Inside s l
  return_tag-Inside (some (is_open, n, k)) kind l here e = ground (arith, here is_open n k refl)
  return_tag-Inside none kind l here e = cc

  or_else-Inside :
      (o : Option (Kind × ℕ)) (d : Kind × ℕ)
      → ((kind : Kind) (l : ℕ) → o ≡ some (kind, l) → Inside s l)
      → Inside s d.1
      → Inside s (or_else o d).1
  or_else-Inside (some (kind, l)) d here otherwise = here kind l refl
  or_else-Inside none d here otherwise = otherwise

classify_markup-Inside :
    (s : List ℕ) (kind : Kind) (l : ℕ) → classify_markup s ≡ some (kind, l) → Inside s l
unfolding classify_markup scan_comment scan_pi scan_cdata
classify_markup-Inside s kind l e = elim (Bool-cases (get_or s 0 0 == b'<')) [
  | inl y ↦
      return_if-Inside s (scan_comment s) Kind.xml_comment _ kind l
        (λ n f. omega (arith, scan_between-le (codes "<!--") (codes "-->") s n f))
        (return_if-Inside s (scan_pi s) Kind.xml_pi _ kind l
          (λ n f. omega (arith, scan_between-le (codes "<?") (codes "?>") s n f))
          (return_if-Inside s (scan_cdata s) Kind.cdata _ kind l
            (λ n f. omega (arith, scan_between-le (codes "<![CDATA[") (codes "]]>") s n f))
            (return_tag-Inside s (scan_tag s) kind l (scan_tag-le s))))
        (rw y at e)
  | inr n ↦ cc (rw n at e)
]

classify_entity-Inside :
    (s : List ℕ) (kind : Kind) (l : ℕ) → classify_entity s ≡ some (kind, l) → Inside s l
unfolding classify_entity
classify_entity-Inside s kind l e = ground (arith, scan_entity-le s l)

classify_wiki-Inside :
    (s : List ℕ) (kind : Kind) (l : ℕ) → classify_wiki s ≡ some (kind, l) → Inside s l
unfolding classify_wiki
classify_wiki-Inside s kind l e =
    ground
      (arith, scan_balanced-le s b'{' b'}' l, scan_balanced-le s b'[' b']' l, scan_table-le s l)

classify_url-Inside :
    (s : List ℕ) (kind : Kind) (l : ℕ) → classify_url s ≡ some (kind, l) → Inside s l
unfolding classify_url
classify_url-Inside s kind l e = ground (arith, scan_url-le s l)

classify_run-Inside : (s : List ℕ) → 1 ≤ length s → Inside s (classify_run s).1
unfolding classify_run
classify_run-Inside s h = ground (
  arith,
  length-drop 1 s,
  run-le is_letter (drop 1 s),
  run-le is_digit (drop 1 s),
  run-le is_space (drop 1 s),
  run-le is_newline (drop 1 s),
  run-le goes_on (drop 1 s),
  run-le (λ c. leb 128 c) (drop 1 s),
)

-- `classify` consumes at least one byte, and no more than there are.
pub classify-Inside : (s : List ℕ) → 1 ≤ length s → Inside s (classify s).1
unfolding classify
classify-Inside s h = or_else-Inside s (classify_markup s) _ (classify_markup-Inside s) (
    or_else-Inside s (classify_entity s) _ (classify_entity-Inside s) (
      or_else-Inside s (classify_wiki s) _ (classify_wiki-Inside s)
        (or_else-Inside s (classify_url s) _ (classify_url-Inside s) (classify_run-Inside s h))))

-- Adjacent spans from `i` on, each with a byte at least, that cover as many bytes as there are.
abbrev pub Covers : ℕ → ℕ → List Token → Type 0
Covers i n [] = n ≡ 0
Covers i n (t ∷ ts) = (t.start ≡ i) × (1 ≤ t.len) × (t.len ≤ n) × Covers (i + t.len) (n - t.len) ts

tokenize_loop-Covers :
    (fuel i : ℕ) (s : List ℕ)
    → length s ≤ fuel
    → i + length s < 2 ^ 32
    → Covers i (length s) (tokenize_loop fuel i s)
unfolding tokenize_loop
tokenize_loop-Covers zero i [] f w = refl
tokenize_loop-Covers zero i (b ∷ s) f w = absurd (omega arith)
tokenize_loop-Covers (suc fuel) i [] f w = refl
tokenize_loop-Covers (suc fuel) i (b ∷ s) f w =
    let len = (classify (b ∷ s)).1 in
    let inside = classify-Inside (b ∷ s) (omega arith) in
    let left = length-drop len (b ∷ s) in
    let word : len % 2 ^ 32 ≡ len = omega arith in
    rw word (
      omega arith,
      omega arith,
      omega arith,
      rw left at
          (tokenize_loop-Covers fuel (i + len) (drop len (b ∷ s)) (omega arith) (omega arith)),
    )

-- The tokens of an input below 4 GiB are adjacent spans, none of them empty, that cover it.
pub tokenize-Covers :
    (input : List ℕ) → length input < 2 ^ 32 → Covers 0 (length input) (tokenize input)
unfolding tokenize
tokenize-Covers input h = tokenize_loop-Covers (length input) 0 input (omega arith) (omega arith)

slice-append :
    (front s : List ℕ) (from to : ℕ)
    → from ≡ length front
    → from ≤ to
    → to ≤ length front + length s
    → slice (front ++ s) from to ≡ some (take (to - from) s)
unfolding slice
slice-append front s from to e low high =
    let inside : (leb from to && leb to (length (front ++ s))) ≡ true =
      ground (arith, length-append front s) in
    rw inside (ap (λ r. some (take (to - from) r)) (rw e (drop-append_self front s)))

render-Covers :
    (ts : List Token) (front s : List ℕ)
    → length front + length s < 2 ^ 32
    → Covers (length front) (length s) ts
    → render (front ++ s) ts ≡ some s
unfolding render
render-Covers [] front [] w c = refl
render-Covers [] front (b ∷ s) w c = absurd (omega arith)
render-Covers (t ∷ ts) front s w (start, pos, fits, rest) =
    let span = take t.len s in
    let behind = drop t.len s in
    let parts : span ++ behind ≡ s = take-append-drop t.len s in
    let whole : (front ++ span) ++ behind ≡ front ++ s =
      append_assoc front span behind ∙ ap (λ r. front ++ r) parts in
    let left : length behind ≡ length s - t.len = length-drop t.len s in
    let taken : length span ≡ t.len =
      omega (arith, ap length parts, length-append {0} span behind, left) in
    let front' : length (front ++ span) ≡ length front + t.len =
      omega (arith, length-append {0} front span, taken) in
    let ih : render ((front ++ span) ++ behind) ts ≡ some behind =
      render-Covers ts (front ++ span) behind (omega arith) (rw (front', left) rest) in
    let to = (t.start + t.len) % 2 ^ 32 in
    let width : to - t.start ≡ t.len = omega arith in
    let cut : slice (front ++ s) t.start to ≡ some span =
      rw width at (slice-append front s t.start to start (omega arith) (omega arith)) in
    let ih' : render (front ++ s) ts ≡ some behind = rw whole at ih in rw (cut, ih') (ap some parts)

-- Rendering the tokens of an input below 4 GiB succeeds and gives exactly the input, whatever its
-- bytes are: no markup, malformed or not, is lost.
pub render-tokenize :
    (input : List ℕ) → length input < 2 ^ 32 → render input (tokenize input) ≡ some input
render-tokenize input h =
    render-Covers (tokenize input) [] input (omega arith) (tokenize-Covers input h)
