-- ===== src/Grammar/Repair/Lossless.antt =====
-- src/grammar/mod.rs: a substitution of `repair_opts`, and what the symbols derive before and after.
use mathlib.Core.Path.{subst}
use zentropy.Prelude.{
  ℕ, zero, suc, ◌+◌, ◌-◌, ◌%◌, ◌^◌, ◌≤◌, ◌<◌, ◌≡◌, refl, ap, ◌∙◌, sym, none, some, List, [], ◌∷◌,
  ◌++◌, append_assoc, append-nil, length, length-append, get_elem?, All, All-imp, All-append,
  All-drop, Bool-cases, inl, inr, starts_with, starts_with-split, drop, length-drop, arith,
}
use zentropy.Grammar.Spelling.{
  Spells, SpellsAll, literal, missing, rule, nothing, more, SpellsAll-nil,
}
use zentropy.Grammar.Repair.{push_chain, replaced}

abbrev pub Known : ℕ → List ℕ → Type 0
Known n seq = All (λ s. s < 256 + n) seq

abbrev pub Ruled : ℕ → List (ℕ × ℕ) → Type 0
Ruled n rules = All (λ r. (r.0 < 256 + n) × (r.1 < 256 + n)) rules

module _ {A : Type 0} where
  get_elem?-append :
      (xs ys : List A) (i : ℕ) {r : A} → get_elem? xs i ≡ some r → get_elem? (xs ++ ys) i ≡ some r
  get_elem?-append [] ys i e = cc
  get_elem?-append (x ∷ xs) ys zero e = e
  get_elem?-append (x ∷ xs) ys (suc i) e = get_elem?-append xs ys i e

  get_elem?-none : (xs : List A) (i : ℕ) → get_elem? xs i ≡ none → length xs ≤ i
  get_elem?-none [] i e = omega arith
  get_elem?-none (x ∷ xs) zero e = cc
  get_elem?-none (x ∷ xs) (suc i) e = omega (arith, get_elem?-none xs i e)

  get_elem?-last : (xs : List A) (r : A) → get_elem? (xs ++ r ∷ []) (length xs) ≡ some r
  get_elem?-last [] r = refl
  get_elem?-last (x ∷ xs) r = get_elem?-last xs r

  All-get_elem? :
      (P : A → Type 0) (xs : List A) (i : ℕ) (r : A) → All P xs → get_elem? xs i ≡ some r → P r
  All-get_elem? P [] i r h e = cc
  All-get_elem? P (x ∷ xs) zero r h e = let same : x ≡ r = cc in subst P same h.0
  All-get_elem? P (x ∷ xs) (suc i) r h e = All-get_elem? P xs i r h.1 e

pub SpellsAll-cons :
    (rules : List (ℕ × ℕ)) (seq out : List ℕ) (s : ℕ) (body : List ℕ)
    → SpellsAll rules seq out
    → seq ≡ s ∷ body
    → (u : List ℕ) × (v : List ℕ) × Spells rules s u × SpellsAll rules body v × (out ≡ u ++ v)
SpellsAll-cons rules _ _ s body nothing e = cc
SpellsAll-cons rules _ _ s body (more s' body' u v p q) e =
    let first : s' ≡ s = cc in
    let rest : body' ≡ body = cc in
    (
      u,
      v,
      subst (λ (t : ℕ). Spells rules t u) first p,
      subst (λ (t : List ℕ). SpellsAll rules t v) rest q,
      refl,
    )

module _ (rules ys : List (ℕ × ℕ)) (ruled : Ruled (length rules) rules) where
  Spells-append :
      (s : ℕ) (u : List ℕ) → s < 256 + length rules → Spells rules s u → Spells (rules ++ ys) s u
  Spells-append _ _ h (literal s k) = literal s k
  Spells-append _ _ h (missing s k e) = absurd (omega (arith, get_elem?-none rules (s - 256) e))
  Spells-append _ _ h (rule s a b u v k e p q) =
      let (l, r) = All-get_elem? _ rules (s - 256) (a, b) ruled e in
      rule s a b u v k (get_elem?-append rules ys (s - 256) e) (Spells-append a u l p)
        (Spells-append b v r q)

  SpellsAll-append :
      (seq out : List ℕ)
      → Known (length rules) seq
      → SpellsAll rules seq out
      → SpellsAll (rules ++ ys) seq out
  SpellsAll-append _ _ h nothing = nothing
  SpellsAll-append _ _ h (more s body u v p q) =
      more s body u v (Spells-append s u h.0 p) (SpellsAll-append body v h.1 q)

Known-up : (n k : ℕ) (seq : List ℕ) → n ≤ k → Known n seq → Known k seq
Known-up n k seq up h = All-imp seq (λ s (b : s < 256 + n). omega arith) h

Ruled-up : (n k : ℕ) (rules : List (ℕ × ℕ)) → n ≤ k → Ruled n rules → Ruled k rules
Ruled-up n k rules up h =
    All-imp rules
      (λ r (b : (r.0 < 256 + n) × (r.1 < 256 + n)). (omega (arith, b.0), omega (arith, b.1))) h

-- What pushing the rules of a pattern does: `r` has the rules and the last nonterminal.
pub record Chained (rules : List (ℕ × ℕ)) (left : ℕ) (ps : List ℕ) (r : List (ℕ × ℕ) × ℕ)
    : Type 0 where
  pub size : length r.0 ≡ length rules + length ps
  pub ruled : Ruled (length r.0) r.0
  pub known : r.1 < 256 + length r.0
  pub keeps : (s : ℕ) (u : List ℕ) → s < 256 + length rules → Spells rules s u → Spells r.0 s u
  pub derives :
      (u v : List ℕ) → Spells rules left u → SpellsAll rules ps v → Spells r.0 r.1 (u ++ v)

pub push_chain-Chained :
    (ps : List ℕ) (rules : List (ℕ × ℕ)) (left : ℕ)
    → Ruled (length rules) rules
    → left < 256 + length rules
    → Known (length rules) ps
    → 256 + length rules + length ps < 2 ^ 32
    → Chained rules left ps (push_chain rules left ps)
unfolding push_chain
push_chain-Chained [] rules left ruled k h few = record {
  size = omega arith;
  ruled = ruled;
  known = k;
  keeps = λ s u b p. p;
  derives =
      λ u v p q. let empty : v ≡ [] = SpellsAll-nil rules [] v q refl in rw (empty, append-nil u) p;
}
push_chain-Chained (p ∷ ps) rules left ruled k (known, h) few =
    let rules' = rules ++ (left, p) ∷ [] in
    let one_more : length rules' ≡ length rules + 1 = length-append rules ((left, p) ∷ []) in
    let uncut : (256 + length rules) % 2 ^ 32 ≡ 256 + length rules = omega arith in
    let ruled' : Ruled (length rules') rules' =
      All-append _ rules ((left, p) ∷ [])
        (Ruled-up (length rules) (length rules') rules (omega (arith, one_more)) ruled)
        ((omega (arith, one_more), omega (arith, one_more)), tt) in
    let up = Spells-append rules ((left, p) ∷ []) ruled in
    let c =
      push_chain-Chained ps rules' ((256 + length rules) % 2 ^ 32) ruled' (omega (arith, one_more))
        (Known-up (length rules) (length rules') ps (omega (arith, one_more)) h)
        (omega (arith, one_more)) in
    record {
      size = omega (arith, c.size, one_more);
      ruled = c.ruled;
      known = c.known;
      keeps = λ s u b q. c.keeps s u (omega (arith, one_more)) (up s u b q);
      derives = λ u v q r.
          let (w, x, sp, sr, split) = SpellsAll-cons rules (p ∷ ps) v p ps r refl in
          let index : 256 + length rules - 256 ≡ length rules = omega arith in
          let found : get_elem? rules' (256 + length rules - 256) ≡ some (left, p) =
            rw index (get_elem?-last rules (left, p)) in
          let joined : Spells rules' ((256 + length rules) % 2 ^ 32) (u ++ w) = rw uncut (
            rule (256 + length rules) left p u w (omega arith) found (up left u k q)
              (up p w known sp)) in
          let rest = SpellsAll-append rules ((left, p) ∷ []) ruled ps x h sr in
          let whole : (u ++ w) ++ x ≡ u ++ v = append_assoc u w x ∙ ap (λ l. u ++ l) (sym split) in
          let r' = push_chain rules' ((256 + length rules) % 2 ^ 32) ps in
          subst (λ (l : List ℕ). Spells r'.0 r'.1 l) whole (c.derives (u ++ w) x joined rest);
    }

SpellsAll-split :
    (rules : List (ℕ × ℕ)) (pat rest out : List ℕ)
    → SpellsAll rules (pat ++ rest) out
    → (u : List ℕ) × (v : List ℕ) × SpellsAll rules pat u × SpellsAll rules rest v × (out ≡ u ++ v)
SpellsAll-split rules [] rest out q = ([], out, nothing, q, refl)
SpellsAll-split rules (p ∷ pat) rest out q =
    let (u, v, sp, sr, e) = SpellsAll-cons rules (p ∷ (pat ++ rest)) out p (pat ++ rest) q refl in
    let (u', v', sp', sr', e') = SpellsAll-split rules pat rest v sr in
    (u ++ u', v', more p pat u u' sp sp', sr', e ∙ ap (λ l. u ++ l) e' ∙ sym (append_assoc u u' v'))

-- A pattern `a ∷ ps` and the nonterminal for it, in the grammar `r` behind `rules`.
module _ (rules r : List (ℕ × ℕ)) (a : ℕ) (ps : List ℕ) (nt : ℕ)
    (keeps : (s : ℕ) (u : List ℕ) → s < 256 + length rules → Spells rules s u → Spells r s u)
    (derives : (u : List ℕ) → SpellsAll rules (a ∷ ps) u → Spells r nt u)
    (grown : length rules ≤ length r) (fresh : nt < 256 + length r) where
  -- The sequence is not longer, knows only symbols of the grammar, and derives the same.
  pub record Kept (seq out new_seq : List ℕ) : Type 0 where
    pub shorter : length new_seq ≤ length seq
    pub known : Known (length r) new_seq
    pub spells : SpellsAll r new_seq out

  pub replaced-Kept :
      (fuel : ℕ) (seq out : List ℕ)
      → length seq ≤ fuel
      → Known (length rules) seq
      → SpellsAll rules seq out
      → Kept seq out (replaced fuel (a ∷ ps) nt seq)
  unfolding replaced
  replaced-Kept zero [] out h k q = record {
    shorter = omega arith;
    known = tt;
    spells = rw (SpellsAll-nil rules [] out q refl) nothing;
  }
  replaced-Kept zero (x ∷ seq) out h k q = absurd (omega arith)
  replaced-Kept (suc fuel) [] out h k q = record {
    shorter = omega arith;
    known = tt;
    spells = rw (SpellsAll-nil rules [] out q refl) nothing;
  }
  replaced-Kept (suc fuel) (x ∷ seq) out h (k, ks) q =
      elim (Bool-cases (starts_with (x ∷ seq) (a ∷ ps))) [
        | inl found ↦
            let rest = drop (length (a ∷ ps)) (x ∷ seq) in
            let cut : x ∷ seq ≡ (a ∷ ps) ++ rest = starts_with-split (x ∷ seq) (a ∷ ps) found in
            let (u, v, sp, sr, e) =
              SpellsAll-split rules (a ∷ ps) rest out
                (subst (λ (l : List ℕ). SpellsAll rules l out) cut q) in
            let fewer : length rest ≤ length seq = omega (arith, length-drop (length ps) seq) in
            let k' : Known (length rules) rest = All-drop _ (length ps) seq ks in
            let ih = replaced-Kept fuel rest v (omega arith) k' sr in
            rw found (record {
              shorter = omega (arith, ih.shorter);
              known = (fresh, ih.known);
              spells = rw e (more nt _ u v (derives u sp) ih.spells);
            })
        | inr other ↦
            let (u, v, sp, sr, e) = SpellsAll-cons rules (x ∷ seq) out x seq q refl in
            let ih = replaced-Kept fuel seq v (omega arith) ks sr in
            rw other (record {
              shorter = omega (arith, ih.shorter);
              known = (omega (arith, k, grown), ih.known);
              spells = rw e (more x _ u v (keeps x u k sp) ih.spells);
            })
      ]
