-- ===== src/Grammar/Repair.antt =====
-- src/grammar/mod.rs: `repair_opts`, which induces a grammar, and `encode_ex`. A map of counts is read
-- for its largest entry only, and is not kept: a count is taken where it is compared.
pub mod Lossless
pub mod Pattern
pub mod RoundTrip
use zentropy.Prelude.{
  ℕ, zero, suc, ◌+◌, ◌%◌, ◌^◌, Bool, true, false, ◌&&◌, ◌||◌, Option, none, some, List, [], ◌∷◌,
  ◌++◌, length, take, drop, starts_with, ltb, leb, ◌==◌, if◌then◌else◌,
}
use zentropy.Grammar.{write}

-- How many windows of the sequence are the pattern, which is not empty.
unfoldable pub occurrences : List ℕ → List ℕ → ℕ
occurrences pat [] = 0
occurrences pat (x ∷ seq) = (if starts_with (x ∷ seq) pat then 1 else 0) + occurrences pat seq

-- The order of `max_by`: the larger count, and for equal counts the smaller pair.
unfoldable pub above : ℕ × (ℕ × ℕ) → ℕ × (ℕ × ℕ) → Bool
above (c, (a, b)) (d, (a', b')) = ltb d c || (c == d && (ltb a a' || (a == a' && ltb b b')))

unfoldable pub larger : ℕ × (ℕ × ℕ) → Option (ℕ × (ℕ × ℕ)) → ℕ × (ℕ × ℕ)
larger here none = here
larger here (some other) = if above other here then other else here

-- The pair with the most windows in `whole`.
unfoldable pub best : List ℕ → List ℕ → Option (ℕ × (ℕ × ℕ))
best whole [] = none
best whole (a ∷ []) = none
best whole (a ∷ b ∷ seq) =
    some (larger (occurrences (a ∷ b ∷ []) whole, (a, b)) (best whole (b ∷ seq)))

-- The symbols that follow the pattern.
unfoldable pub followers : List ℕ → List ℕ → List ℕ
followers pat [] = []
followers pat (x ∷ seq) =
    (if starts_with (x ∷ seq) pat then take 1 (drop (length pat) (x ∷ seq)) else [])
    ++ followers pat seq

unfoldable pub all_are : ℕ → List ℕ → Bool
all_are f [] = true
all_are f (x ∷ xs) = f == x && all_are f xs

-- The one follower, if it follows `c` times.
unfoldable pub only : ℕ → List ℕ → Option ℕ
only c [] = none
only c (f ∷ fs) = if all_are f fs && suc (length fs) == c then some f else none

-- The pattern `a ∷ ps` goes on by one symbol a round; it is not longer than the sequence.
unfoldable pub extended : ℕ → List ℕ → ℕ → ℕ → List ℕ → List ℕ
extended zero seq c a ps = ps
extended (suc fuel) seq c a ps = elim (only c (followers (a ∷ ps) seq)) [
  | none ↦ ps
  | some f ↦ extended fuel seq c a (ps ++ f ∷ [])
]

-- The rules of a pattern: `left` is its first symbol, then the rule that was pushed before.
unfoldable pub push_chain : List (ℕ × ℕ) → ℕ → List ℕ → List (ℕ × ℕ) × ℕ
push_chain rules left [] = (rules, left)
push_chain rules left (p ∷ ps) =
    push_chain (rules ++ (left, p) ∷ []) ((256 + length rules) % 2 ^ 32) ps

-- A round takes at least one symbol: the fuel is the length.
unfoldable pub replaced : ℕ → List ℕ → ℕ → List ℕ → List ℕ
replaced zero pat nt seq = []
replaced (suc fuel) pat nt [] = []
replaced (suc fuel) pat nt (x ∷ seq) =
    let found = nt ∷ replaced fuel pat nt (drop (length pat) (x ∷ seq)) in
    let other = x ∷ replaced fuel pat nt seq in if starts_with (x ∷ seq) pat then found else other

-- The rest of the pattern, cut to one symbol where the rules would be too many.
unfoldable pub fitting : ℕ → List (ℕ × ℕ) → List ℕ → List ℕ
fitting max_rules rules ps = if ltb max_rules (length rules + length ps) then take 1 ps else ps

unfoldable pub substituted : List (ℕ × ℕ) → List ℕ → ℕ → List ℕ → List (ℕ × ℕ) × List ℕ
substituted rules seq a ps =
    let (rules', nt) = push_chain rules a ps in (rules', replaced (length seq) (a ∷ ps) nt seq)

unfoldable pub pattern : Bool → List ℕ → ℕ → ℕ → ℕ → List ℕ
pattern mr seq c a b = if mr then extended (length seq) seq c a (b ∷ []) else b ∷ []

module _ (max_rules min_count : ℕ) (mr : Bool) where
  -- A round makes a rule: the fuel is `max_rules`.
  unfoldable pub repair_loop : ℕ → List (ℕ × ℕ) → List ℕ → List (ℕ × ℕ) × List ℕ
  repair_loop zero rules seq = (rules, seq)
  repair_loop (suc fuel) rules seq = elim (best seq seq) [
    | none ↦ (rules, seq)
    | some (c, (a, b)) ↦
        let next = substituted rules seq a (fitting max_rules rules (pattern mr seq c a b)) in
        let more = repair_loop fuel next.0 next.1 in
        if ltb (length rules) max_rules && leb min_count c then more else (rules, seq)
  ]

  unfoldable pub repair_opts : List ℕ → List (ℕ × ℕ) × List ℕ
  repair_opts input = repair_loop max_rules [] input

  unfoldable pub encode_ex : List ℕ → Bool → List ℕ
  encode_ex input mtf = let (rules, body) = repair_opts input in write rules body mtf
