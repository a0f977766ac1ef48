-- ===== src/Grammar/Repair/Pattern.antt =====
-- src/grammar/mod.rs: the symbols of the pattern that a round of `repair_opts` substitutes.
use mathlib.Core.Path.{subst}
use zentropy.Prelude.{
  ℕ, zero, suc, ◌+◌, ◌≤◌, ◌<◌, ◌≡◌, refl, none, some, List, [], ◌∷◌, ◌++◌, length, take, All,
  All-append, All-drop, All-take, Option, Bool, if-both, ltb, ltb→le, ◌&&◌, ◌==◌, Bool-cases, inl,
  inr, starts_with, arith,
}
use zentropy.Grammar.Repair.{
  larger, above, best, followers, all_are, only, extended, fitting, pattern,
}

module _ (P : ℕ → Type 0) where
  abbrev pub Best : Option (ℕ × (ℕ × ℕ)) → Type 0
  Best none = Unit
  Best (some (c, (a, b))) = P a × P b

  larger-Best :
      (c a b : ℕ) (other : Option (ℕ × (ℕ × ℕ)))
      → P a
      → P b
      → Best other
      → Best (some (larger (c, (a, b)) other))
  unfolding larger
  larger-Best c a b none h k o = (h, k)
  larger-Best c a b (some (d, (a', b'))) h k o =
      if-both (λ r. Best (some r)) (above (d, (a', b')) (c, (a, b))) _ _ (λ y. o) (λ y. (h, k))

  pub best-Best : (whole seq : List ℕ) → All P seq → Best (best whole seq)
  unfolding best
  best-Best whole [] h = tt
  best-Best whole (a ∷ []) h = tt
  best-Best whole (a ∷ b ∷ seq) (h, (k, l)) =
      larger-Best _ a b (best whole (b ∷ seq)) h k (best-Best whole (b ∷ seq) (k, l))

  All-followers : (pat seq : List ℕ) → All P seq → All P (followers pat seq)
  unfolding followers
  All-followers pat [] h = tt
  All-followers pat (x ∷ seq) (h, k) =
      All-append P _ (followers pat seq)
        (if-both (λ l. All P l) (starts_with (x ∷ seq) pat) _ _
          (λ y. All-take P 1 _ (All-drop P (length pat) (x ∷ seq) (h, k))) (λ y. tt))
        (All-followers pat seq k)

  only-P : (c : ℕ) (fs : List ℕ) (f : ℕ) → All P fs → only c fs ≡ some f → P f
  unfolding only
  only-P c [] f h e = cc
  only-P c (g ∷ fs) f h e = elim (Bool-cases (all_are g fs && suc (length fs) == c)) [
    | inl y ↦ let same : g ≡ f = cc (rw y at e) in subst P same h.0
    | inr n ↦ absurd (cc (rw n at e))
  ]

  extended-more :
      (fuel : ℕ) (seq : List ℕ) (c a : ℕ) (ps : List ℕ) (o : Option ℕ)
      → only c (followers (a ∷ ps) seq) ≡ o
      → ((f : ℕ) → o ≡ some f → All P (extended fuel seq c a (ps ++ f ∷ [])))
      → All P ps
      → All P (extended (suc fuel) seq c a ps)
  unfolding extended
  extended-more fuel seq c a ps none e h k = rw (e, extended) k
  extended-more fuel seq c a ps (some f) e h k = rw (e, extended) (h f refl)

  All-extended :
      (fuel : ℕ) (seq : List ℕ) (c a : ℕ) (ps : List ℕ)
      → All P seq
      → All P ps
      → All P (extended fuel seq c a ps)
  All-extended zero seq c a ps h k = unfold extended in k
  All-extended (suc fuel) seq c a ps h k =
      extended-more fuel seq c a ps (only c (followers (a ∷ ps) seq)) refl
        (λ f e. All-extended fuel seq c a (ps ++ f ∷ []) h (
          All-append P ps (f ∷ []) k
            (only-P c (followers (a ∷ ps) seq) f (All-followers (a ∷ ps) seq h) e, tt)))
        k

  pub All-fitting :
      (max_rules : ℕ) (rules : List (ℕ × ℕ)) (mr : Bool) (seq : List ℕ) (c a b : ℕ)
      → All P seq
      → P b
      → All P (fitting max_rules rules (pattern mr seq c a b))
  unfolding fitting pattern
  All-fitting max_rules rules mr seq c a b h k =
      let whole =
        if-both (λ l. All P l) mr (extended (length seq) seq c a (b ∷ [])) (b ∷ [])
          (λ y. All-extended (length seq) seq c a (b ∷ []) h (k, tt)) (λ y. (k, tt)) in
      if-both (λ l. All P l) (ltb max_rules (length rules + length (pattern mr seq c a b))) _ _
        (λ y. All-take P 1 _ whole) (λ y. whole)

length-take_one : (ps : List ℕ) → length (take 1 ps) ≤ 1
length-take_one [] = omega arith
length-take_one (p ∷ ps) = omega arith

pub fitting-fits :
    (max_rules : ℕ) (rules : List (ℕ × ℕ)) (ps : List ℕ)
    → length rules < max_rules
    → length rules + length (fitting max_rules rules ps) ≤ max_rules
unfolding fitting
fitting-fits max_rules rules ps h = elim (Bool-cases (ltb max_rules (length rules + length ps))) [
  | inl y ↦ rw y (omega (arith, length-take_one ps))
  | inr n ↦ rw n (ltb→le _ _ n)
]
