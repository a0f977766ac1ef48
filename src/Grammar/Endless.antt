-- ===== src/Grammar/Endless.antt =====
-- A rule that begins with itself is never expanded to the end.
use zentropy.Grammar.{
  get_syms, get_groups, get_varint, get_sym, get_rules, decode_body, decode, expand, expand_body,
  read_body, read_rules, unfinished,
}
use zentropy.Prelude.{
  ◌==◌, ℕ, zero, suc, ◌+◌, ◌-◌, ◌<◌, ◌≡◌, refl, ap, ◌∙◌, some, List, [], ◌∷◌, get_elem?, arith, ltb,
  false,
}

-- Where rule `k` begins with its own nonterminal, no amount of fuel expands a stack with that
-- nonterminal on top: the loop of `decode` does not end.
pub expand-unfinished :
    (rules : List (ℕ × ℕ)) (k b : ℕ)
    → get_elem? rules k ≡ some (256 + k, b)
    → (fuel : ℕ) (stack : List ℕ) → expand fuel rules ((256 + k) ∷ stack) ≡ unfinished
unfolding expand
expand-unfinished rules k b rule zero stack = refl
expand-unfinished rules k b rule (suc fuel) stack =
    let big : ltb (256 + k) 256 ≡ false = ground arith in
    let index : 256 + k - 256 ≡ k = omega arith in
    rw (big, index, rule) (expand-unfinished rules k b rule fuel (b ∷ stack))

get_rules-suc :
    (n a b : ℕ) (input r r' : List ℕ)
    → get_sym input ≡ some (a, r)
    → get_sym r ≡ some (b, r')
    → get_rules (suc n) input ≡ ((a, b) ∷ (get_rules n r').0, (get_rules n r').1)
unfolding get_rules
get_rules-suc n a b input r r' e f = rw (e, get_rules) (rw f)

get_sym-first : (rest : List ℕ) → get_sym (0xff ∷ 1 ∷ rest) ≡ some (256, rest)
unfolding get_sym get_varint get_groups
get_sym-first rest = refl

get_sym-literal : (b : ℕ) (rest : List ℕ) → b < 255 → get_sym (b ∷ rest) ≡ some (b, rest)
unfolding get_sym
get_sym-literal b rest h = let other : (b == 0xff) ≡ false = ground arith in rw other refl

endless_body : (fuel b : ℕ) → decode_body fuel ((256, b) ∷ []) (0 ∷ 1 ∷ 0xff ∷ 1 ∷ []) ≡ unfinished
unfolding decode_body expand_body read_body get_syms get_sym get_varint get_groups
endless_body fuel b = expand-unfinished ((256, b) ∷ []) 0 b refl fuel []

-- Eight bytes with one such rule, whose second symbol is any literal, and a body of its nonterminal:
-- `decode` does not end on them.
pub decode-unfinished :
    (b : ℕ)
    → b < 255
    → (fuel : ℕ) → decode fuel (1 ∷ 0xff ∷ 1 ∷ b ∷ 0 ∷ 1 ∷ 0xff ∷ 1 ∷ []) ≡ unfinished
unfolding decode read_rules get_varint get_groups get_rules
decode-unfinished b h fuel =
    let rest = 0 ∷ 1 ∷ 0xff ∷ 1 ∷ [] in
    let rule =
      get_rules-suc 0 256 b _ _ rest (get_sym-first (b ∷ rest)) (get_sym-literal b rest h) in
    ap (λ (r : List (ℕ × ℕ) × List ℕ). decode_body fuel r.0 r.1) rule ∙ endless_body fuel b
