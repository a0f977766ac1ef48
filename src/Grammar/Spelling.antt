-- ===== src/Grammar/Spelling.antt =====
-- src/grammar/mod.rs: what a grammar derives, and the expansion loop of `decode`.
use zentropy.Prelude.{
  ℕ, zero, suc, ◌+◌, ◌-◌, ◌%◌, ◌^◌, ◌≤◌, ◌<◌, ◌≡◌, refl, ap, ◌∙◌, sym, none, some, List, [], ◌∷◌,
  ◌++◌, length, get_or, get_elem?, min, ltb, lt→ltb, ◌==◌, true, false, Bool-cases, Option-cases,
  inl, inr, arith, ltb→lt, ltb→le,
}
use zentropy.Reorder.Shuffle.{upto}
use zentropy.Grammar.MoveToFront.{length-upto}
use zentropy.Grammar.{
  to_front, symbols, mtf_decode_loop, mtf_decode, get_varint, get_ranks, get_syms, returned,
  Outcome, prepend, expand, expand_body, read_body, decode_body, read_rules, decode,
}

-- What a symbol derives: a literal itself, a nonterminal what the two symbols of its rule derive, and
-- a nonterminal without a rule nothing.
pub data Spells (rules : List (ℕ × ℕ)) : ℕ → List ℕ → Type 0 where
  literal : (s : ℕ) → s < 256 → Spells rules s (s ∷ [])
  missing : (s : ℕ) → 256 ≤ s → get_elem? rules (s - 256) ≡ none → Spells rules s []
  rule :
      (s a b : ℕ) (u v : List ℕ)
      → 256 ≤ s
      → get_elem? rules (s - 256) ≡ some (a, b)
      → Spells rules a u
      → Spells rules b v
      → Spells rules s (u ++ v)

pub data SpellsAll (rules : List (ℕ × ℕ)) : List ℕ → List ℕ → Type 0 where
  nothing : SpellsAll rules [] []
  more :
      (s : ℕ) (body u v : List ℕ)
      → Spells rules s u
      → SpellsAll rules body v
      → SpellsAll rules (s ∷ body) (u ++ v)

prepend_all : List ℕ → Outcome → Outcome
prepend_all [] r = r
prepend_all (s ∷ out) r = prepend s (prepend_all out r)

prepend_all-append :
    (u v : List ℕ) (r : Outcome) → prepend_all (u ++ v) r ≡ prepend_all u (prepend_all v r)
unfolding prepend_all
prepend_all-append [] v r = refl
prepend_all-append (s ∷ u) v r = ap (prepend s) (prepend_all-append u v r)

prepend_all-returned : (u v : List ℕ) → prepend_all u (returned v) ≡ returned (u ++ v)
unfolding prepend_all
prepend_all-returned [] v = refl
prepend_all-returned (s ∷ u) v = ap (prepend s) (prepend_all-returned u v)

module _ (rules : List (ℕ × ℕ)) where
  expand-literal :
      (s fuel : ℕ) (stack : List ℕ)
      → s < 256
      → expand (suc fuel) rules (s ∷ stack) ≡ prepend s (expand fuel rules stack)
  unfolding expand
  expand-literal s fuel stack h = rw (lt→ltb s 256 h) refl

  expand-missing :
      (s fuel : ℕ) (stack : List ℕ)
      → 256 ≤ s
      → get_elem? rules (s - 256) ≡ none
      → expand (suc fuel) rules (s ∷ stack) ≡ expand fuel rules stack
  unfolding expand
  expand-missing s fuel stack h e = let big : ltb s 256 ≡ false = ground arith in rw (big, e) refl

  expand-rule :
      (s a b fuel : ℕ) (stack : List ℕ)
      → 256 ≤ s
      → get_elem? rules (s - 256) ≡ some (a, b)
      → expand (suc fuel) rules (s ∷ stack) ≡ expand fuel rules (a ∷ b ∷ stack)
  unfolding expand
  expand-rule s a b fuel stack h e = let big : ltb s 256 ≡ false = ground arith in rw (big, e) refl

  -- The symbol on top is replaced by what it derives, in a number of rounds of its own.
  record Popped (s : ℕ) (u : List ℕ) : Type 0 where
    rounds : ℕ
    popped :
        (fuel : ℕ) (stack : List ℕ)
        → expand (rounds + fuel) rules (s ∷ stack) ≡ prepend_all u (expand fuel rules stack)

  Spells-Popped : (s : ℕ) (u : List ℕ) → Spells rules s u → Popped s u
  unfolding prepend_all
  Spells-Popped _ _ (literal s h) = record {
    rounds = 1;
    popped = λ fuel stack.
        let one : 1 + fuel ≡ suc fuel = omega arith in rw one (expand-literal s fuel stack h);
  }
  Spells-Popped _ _ (missing s h e) = record {
    rounds = 1;
    popped = λ fuel stack.
        let one : 1 + fuel ≡ suc fuel = omega arith in rw one (expand-missing s fuel stack h e);
  }
  Spells-Popped _ _ (rule s a b u v h e p q) =
      let first = Spells-Popped a u p in
      let second = Spells-Popped b v q in
      record {
        rounds = suc (first.rounds + second.rounds);
        popped = λ fuel stack.
            let all : suc (first.rounds + second.rounds) + fuel
                ≡ suc (first.rounds + (second.rounds + fuel)) =
              omega arith in
            rw all (
              expand-rule s a b (first.rounds + (second.rounds + fuel)) stack h e
              ∙ first.popped (second.rounds + fuel) (b ∷ stack)
              ∙ ap (prepend_all u) (second.popped fuel stack)
              ∙ sym (prepend_all-append u v (expand fuel rules stack)));
      }

  -- Enough fuel for a stack, and any more.
  abbrev pub Returns : List ℕ → List ℕ → Type 0
  Returns body out = (fuel : ℕ) × ((extra : ℕ) → expand (fuel + extra) rules body ≡ returned out)

  expand-nil : (fuel : ℕ) → expand (suc fuel) rules [] ≡ returned []
  unfolding expand
  expand-nil fuel = refl

  pub SpellsAll-Returns : (body out : List ℕ) → SpellsAll rules body out → Returns body out
  SpellsAll-Returns _ _ nothing =
      (1, λ extra. let one : 1 + extra ≡ suc extra = omega arith in rw one (expand-nil extra))
  SpellsAll-Returns _ _ (more s body u v p q) =
      let top = Spells-Popped s u p in
      let (fuel, rest) = SpellsAll-Returns body v q in
      (
        top.rounds + fuel,
        λ extra.
            let all : top.rounds + fuel + extra ≡ top.rounds + (fuel + extra) = omega arith in
            rw all (
              top.popped (fuel + extra) body
              ∙ ap (prepend_all u) (rest extra)
              ∙ prepend_all-returned u v),
      )

  -- Each rule refers to literals and to earlier rules only.
  abbrev pub Ordered : Type 0
  Ordered = (k a b : ℕ) → get_elem? rules k ≡ some (a, b) → (a < 256 + k) × (b < 256 + k)

  module _ (ordered : Ordered) where
    -- Every symbol below `256 + n` derives a list of bytes.
    spelled-big :
        (n s : ℕ)
        → s < 256 + suc n
        → 256 ≤ s
        → ((t : ℕ) → t < 256 + n → (u : List ℕ) × Spells rules t u)
        → (u : List ℕ) × Spells rules s u
    spelled-big n s h big below = elim (Option-cases (get_elem? rules (s - 256))) [
      | inl e ↦ ([], missing s big e)
      | inr ((a, b), e) ↦
          let (left, right) = ordered (s - 256) a b e in
          let (u, p) = below a (omega arith) in
          let (v, q) = below b (omega arith) in (u ++ v, rule s a b u v big e p q)
    ]

    spelled : (n s : ℕ) → s < 256 + n → (u : List ℕ) × Spells rules s u
    spelled zero s h = (s ∷ [], literal s h)
    spelled (suc n) s h = elim (Bool-cases (ltb s 256)) [
      | inl small ↦ (s ∷ [], literal s (ltb→lt s 256 small))
      | inr large ↦ spelled-big n s h (ltb→le s 256 large) (spelled n)
    ]

    all_spelled : (body : List ℕ) → (out : List ℕ) × SpellsAll rules body out
    all_spelled [] = ([], nothing)
    all_spelled (s ∷ body) =
        let (u, p) = spelled (suc s) s (omega arith) in
        let (v, q) = all_spelled body in (u ++ v, more s body u v p q)

mtf_decode_loop-some :
    (list seq : List ℕ) → 0 < length list → (out : List ℕ) × (mtf_decode_loop list seq ≡ some out)
unfolding mtf_decode_loop to_front
mtf_decode_loop-some list [] h = ([], refl)
mtf_decode_loop-some list (p ∷ seq) h =
    let pos = min p (length list - 1) in
    let inside : ltb pos (length list) ≡ true = lt→ltb pos (length list) (omega arith) in
    let (out, e) = mtf_decode_loop-some (to_front list pos) seq (unfold to_front in omega arith) in
    (get_or list pos 0 ∷ out, rw (inside, e) refl)

read_body-some :
    (rules : List (ℕ × ℕ)) (left : List ℕ)
    → 256 + length rules < 2 ^ 32
    → (body : List ℕ) × (read_body rules left ≡ some body)
unfolding read_body mtf_decode symbols
read_body-some rules [] h = ([], refl)
read_body-some rules (flag ∷ input) h =
    let (n, rest) = get_varint input in
    let uncut : (256 + length rules) % 2 ^ 32 ≡ 256 + length rules = omega arith in
    let list = upto 0 ((256 + length rules) % 2 ^ 32) in
    let full : 0 < length list =
      omega (arith, length-upto 0 ((256 + length rules) % 2 ^ 32), uncut) in
    let (out, e) = mtf_decode_loop-some list (get_ranks n rest) full in
    elim (Bool-cases (flag == 0)) [
      | inl plain ↦ (get_syms n rest, rw plain refl)
      | inr ranks ↦ (out, rw ranks e)
    ]

pub SpellsAll-nil :
    (rules : List (ℕ × ℕ)) (body out : List ℕ) → SpellsAll rules body out → body ≡ [] → out ≡ []
SpellsAll-nil rules _ _ nothing e = refl
SpellsAll-nil rules _ _ (more s body u v p q) e = cc

pub decode_body-returned :
    (fuel : ℕ) (rules : List (ℕ × ℕ)) (left body out : List ℕ)
    → read_body rules left ≡ some body
    → expand fuel rules body ≡ returned out
    → SpellsAll rules body out
    → decode_body fuel rules left ≡ returned out
unfolding decode_body expand_body read_body
decode_body-returned fuel rules [] body out e r p =
    let empty : body ≡ [] = cc in sym (ap returned (SpellsAll-nil rules body out p empty))
decode_body-returned fuel rules (flag ∷ input) body out e r p = rw (e, r) refl

-- If every rule that the stream holds refers only to literals and to earlier rules, and there are
-- fewer than `2 ^ 32 - 256` rules, then `decode` returns, whatever else the bytes are: with enough
-- fuel, and with any more, the result is what the symbols behind the rules derive from the grammar.
pub decode-returned :
    (input : List ℕ)
    → Ordered (read_rules input).0
    → 256 + length (read_rules input).0 < 2 ^ 32
    → (body : List ℕ) × (out : List ℕ) × (read_body (read_rules input).0 (read_rules input).1
        ≡ some body)
      × SpellsAll (read_rules input).0 body out
      × (fuel : ℕ) × ((extra : ℕ) → decode (fuel + extra) input ≡ returned out)
unfolding decode
decode-returned input ordered h =
    let rules = (read_rules input).0 in
    let left = (read_rules input).1 in
    let (body, e) = read_body-some rules left h in
    let (out, p) = all_spelled rules ordered body in
    let (fuel, r) = SpellsAll-Returns rules body out p in
    (
      body,
      out,
      e,
      p,
      fuel,
      λ extra. decode_body-returned (fuel + extra) rules left body out e (r extra) p,
    )
