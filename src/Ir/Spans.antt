-- ===== src/Ir/Spans.antt =====
-- Every scanner returns a span of at least one byte that ends inside the input.
use zentropy.Prelude.{
  ℕ, ◌+◌, ◌-◌, ◌≤◌, ◌≡◌, Bool, true, false, some, List, [], ◌∷◌, ◌==◌, if◌then◌else◌, length, drop,
  get_or, codes, starts_with, arith, Bool-cases, Option-cases, inl, inr, length-drop,
}
use zentropy.Ir.Kinds.{Kind}
use zentropy.Ir.Scan.{
  run, find, scan_between, tag_loop, scan_tag, entity_loop, scan_entity, balanced_loop,
  scan_balanced, table_loop, scan_table, scheme, scan_url, in_url,
}

pub run-le : (test : ℕ → Bool) (s : List ℕ) → run test s ≤ length s
unfolding run
run-le test [] = omega arith
run-le test (c ∷ s) = ground (arith, run-le test s)

starts_with-le : (s pattern : List ℕ) → starts_with s pattern ≡ true → length pattern ≤ length s
unfolding starts_with
starts_with-le s [] e = omega arith
starts_with-le [] (p ∷ pattern) e = cc
starts_with-le (c ∷ s) (p ∷ pattern) e = ground (arith, starts_with-le s pattern)

find-le : (pattern s : List ℕ) (p : ℕ) → find pattern s ≡ some p → p + length pattern ≤ length s
unfolding find
find-le pattern [] p e = cc
find-le pattern (c ∷ s) p e = elim (Bool-cases (starts_with (c ∷ s) pattern)) [
  | inl here ↦ ground (arith, starts_with-le (c ∷ s) pattern here)
  | inr later ↦ ground (arith, find-le pattern s (p - 1))
]

pub scan_between-le :
    (opening closing s : List ℕ) (l : ℕ)
    → scan_between opening closing s ≡ some l
    → (length opening ≤ l) × (l ≤ length s)
unfolding scan_between
scan_between-le opening closing s l e = ground (
  arith,
  find-le closing (drop (length opening) s) (l - length opening - length closing),
  starts_with-le s opening,
  length-drop (length opening) s,
)

pub tag_loop-le :
    (is_close : Bool) (j previous : ℕ) (s : List ℕ) (is_open : Bool) (l : ℕ) (kind : Kind)
    → tag_loop is_close j previous s ≡ some (is_open, l, kind)
    → (1 ≤ l) × (l ≤ j + length s)
unfolding tag_loop
tag_loop-le is_close j previous [] is_open l kind e = cc
tag_loop-le is_close j previous (c ∷ s) is_open l kind e =
    ground (arith, tag_loop-le is_close (j + 1) c s is_open l kind)

pub scan_tag-le :
    (s : List ℕ) (is_open : Bool) (l : ℕ) (kind : Kind)
    → scan_tag s ≡ some (is_open, l, kind)
    → (1 ≤ l) × (l ≤ length s)
unfolding scan_tag
scan_tag-le s is_open l kind e = ground (
  arith,
  length-drop 1 s,
  length-drop 2 s,
  tag_loop-le true 2 (get_or s 1 0) (drop 2 s) is_open l kind,
  tag_loop-le false 1 (get_or s 0 0) (drop 1 s) is_open l kind,
)

entity_loop-le : (j : ℕ) (s : List ℕ) → (j ≤ entity_loop j s) × (entity_loop j s ≤ j + length s)
unfolding entity_loop
entity_loop-le j [] = omega arith
entity_loop-le j (c ∷ s) = ground (arith, entity_loop-le (j + 1) s)

pub scan_entity-le : (s : List ℕ) (l : ℕ) → scan_entity s ≡ some l → (1 ≤ l) × (l ≤ length s)
unfolding scan_entity
scan_entity-le s l e = ground arith

balanced_loop-le :
    (opener closer j depth : ℕ) (s : List ℕ) (l : ℕ)
    → balanced_loop opener closer j depth s ≡ some l
    → (1 ≤ l) × (l ≤ j + length s)
unfolding balanced_loop
balanced_loop-le opener closer j depth [] l e = cc
balanced_loop-le opener closer j depth (b ∷ s) l e =
    let depth' = if b == opener then depth + 1 else if b == closer then depth - 1 else depth in
    ground (arith, balanced_loop-le opener closer (j + 1) depth' s l)

pub scan_balanced-le :
    (s : List ℕ) (opener closer l : ℕ)
    → scan_balanced s opener closer ≡ some l
    → (1 ≤ l) × (l ≤ length s)
unfolding scan_balanced
scan_balanced-le s opener closer l e = omega (arith, balanced_loop-le opener closer 0 _ s l e)

table_loop-le :
    (j : ℕ) (s : List ℕ) (l : ℕ) → table_loop j s ≡ some l → (1 ≤ l) × (l ≤ j + length s)
unfolding table_loop
table_loop-le j [] l e = cc
table_loop-le j (a ∷ []) l e = cc
table_loop-le j (a ∷ b ∷ s) l e = ground (arith, table_loop-le (j + 1) (b ∷ s) l)

pub scan_table-le :
    (s : List ℕ) (l : ℕ) → 2 ≤ length s → scan_table s ≡ some l → (1 ≤ l) × (l ≤ length s)
unfolding scan_table
scan_table-le s l h e = omega (arith, table_loop-le 2 (drop 2 s) l e, length-drop 2 s)

scheme-le : (s : List ℕ) (l : ℕ) → scheme s ≡ some l → (1 ≤ l) × (l ≤ length s)
unfolding scheme
scheme-le s l e = ground (
  arith,
  starts_with-le s (codes "http://"),
  starts_with-le s (codes "https://"),
  starts_with-le s (codes "ftp://"),
  starts_with-le s (codes "ftps://"),
)

pub scan_url-le : (s : List ℕ) (l : ℕ) → scan_url s ≡ some l → (1 ≤ l) × (l ≤ length s)
unfolding scan_url
scan_url-le s l e = elim (Option-cases (scheme s)) [
  | inl e' ↦ cc (rw e' at e)
  | inr (start, e') ↦
      let step : some (start + run in_url (drop start s)) ≡ some l = rw e' at e in
      ground (arith, scheme-le s start e', run-le in_url (drop start s), length-drop start s)
]
