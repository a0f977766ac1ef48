-- ===== src/Grammar/Repair/RoundTrip.antt =====
-- src/grammar/mod.rs: `decode` behind `encode_ex`, over the rounds of `repair_opts`.
use native.Mathlib.Nat.{le_refl}
use zentropy.Prelude.{
  ℕ, zero, suc, ◌+◌, ◌^◌, ◌≤◌, ◌<◌, ◌≡◌, refl, none, some, Option, List, [], ◌∷◌, length, All,
  All-imp, Bool, if-both, ltb, leb, ◌&&◌, arith,
}
use zentropy.Grammar.{decode, returned}
use zentropy.Grammar.Spelling.{Spells, SpellsAll, literal, nothing, more}
use zentropy.Grammar.RoundTrip.{decode-write}
use zentropy.Grammar.Repair.{
  push_chain, best, pattern, fitting, substituted, repair_loop, repair_opts, encode_ex,
}
use zentropy.Grammar.Repair.Lossless.{
  Known, Ruled, SpellsAll-cons, push_chain-Chained, replaced-Kept,
}
use zentropy.Grammar.Repair.Pattern.{Best, best-Best, All-fitting, fitting-fits}

-- The rules and the sequence derive the input, and know no other symbols.
record Induced (max_rules : ℕ) (input : List ℕ) (st : List (ℕ × ℕ) × List ℕ) : Type 0 where
  ruled : Ruled (length st.0) st.0
  known : Known (length st.0) st.1
  spells : SpellsAll st.0 st.1 input
  few : length st.0 ≤ max_rules
  short : length st.1 ≤ length input

literals : (input : List ℕ) → All (λ b. b < 256) input → SpellsAll [] input input
literals [] h = nothing
literals (b ∷ input) (h, k) = more b input (b ∷ []) input (literal b h) (literals input k)

module _ (max_rules : ℕ) (few : 256 + max_rules < 2 ^ 32) (input : List ℕ) where
  substituted-Induced :
      (rules : List (ℕ × ℕ)) (seq : List ℕ) (a : ℕ) (ps : List ℕ)
      → Induced max_rules input (rules, seq)
      → a < 256 + length rules
      → Known (length rules) ps
      → length rules + length ps ≤ max_rules
      → Induced max_rules input (substituted rules seq a ps)
  unfolding substituted
  substituted-Induced rules seq a ps v h k fits =
      let r = push_chain rules a ps in
      let c = push_chain-Chained ps rules a v.ruled h k (omega arith) in
      let whole : (u : List ℕ) → SpellsAll rules (a ∷ ps) u → Spells r.0 r.1 u = λ u q.
        let (x, y, sp, sr, e) = SpellsAll-cons rules (a ∷ ps) u a ps q refl in
        rw e (c.derives x y sp sr) in
      let kept =
        replaced-Kept rules r.0 a ps r.1 c.keeps whole (omega (arith, c.size)) c.known (length seq)
          seq input (le_refl _) v.known v.spells in
      record {
        ruled = c.ruled;
        known = kept.known;
        spells = kept.spells;
        few = omega (arith, c.size);
        short = omega (arith, kept.shorter, v.short);
      }

  module _ (min_count : ℕ) (mr : Bool) where
    next : List (ℕ × ℕ) → List ℕ → ℕ → ℕ → ℕ → List (ℕ × ℕ) × List ℕ
    next rules seq c a b = substituted rules seq a (fitting max_rules rules (pattern mr seq c a b))

    next-Induced :
        (rules : List (ℕ × ℕ)) (seq : List ℕ) (c a b : ℕ)
        → Induced max_rules input (rules, seq)
        → best seq seq ≡ some (c, (a, b))
        → length rules < max_rules
        → Induced max_rules input (next rules seq c a b)
    unfolding next
    next-Induced rules seq c a b v e room =
        let pair : Best (λ s. s < 256 + length rules) (some (c, (a, b))) =
          rw e at (best-Best (λ s. s < 256 + length rules) seq seq v.known) in
        substituted-Induced rules seq a (fitting max_rules rules (pattern mr seq c a b)) v pair.0
          (All-fitting (λ s. s < 256 + length rules) max_rules rules mr seq c a b v.known pair.1)
          (fitting-fits max_rules rules (pattern mr seq c a b) room)

    repair_loop-more :
        (fuel : ℕ) (rules : List (ℕ × ℕ)) (seq : List ℕ) (o : Option (ℕ × (ℕ × ℕ)))
        → best seq seq ≡ o
        → Induced max_rules input (rules, seq)
        → ((c a b : ℕ)
            → o ≡ some (c, (a, b))
            → length rules < max_rules
            → Induced max_rules input (
                repair_loop max_rules min_count mr fuel
                  (next rules seq c a b).0
                  (next rules seq c a b).1))
        → Induced max_rules input (repair_loop max_rules min_count mr (suc fuel) rules seq)
    unfolding repair_loop next
    repair_loop-more fuel rules seq none e v h = rw (e, repair_loop) v
    repair_loop-more fuel rules seq (some (c, (a, b))) e v h =
        rw (e, repair_loop)
          (if-both (Induced max_rules input) (ltb (length rules) max_rules && leb min_count c) _ _
            (λ y. h c a b refl (ground arith)) (λ y. v))

    repair_loop-Induced :
        (fuel : ℕ) (rules : List (ℕ × ℕ)) (seq : List ℕ)
        → Induced max_rules input (rules, seq)
        → Induced max_rules input (repair_loop max_rules min_count mr fuel rules seq)
    repair_loop-Induced zero rules seq v = unfold repair_loop in v
    repair_loop-Induced (suc fuel) rules seq v =
        repair_loop-more fuel rules seq (best seq seq) refl v (λ c a b e room.
          repair_loop-Induced fuel (next rules seq c a b).0 (next rules seq c a b).1
            (next-Induced rules seq c a b v e room))

    repair_opts-Induced :
        All (λ b. b < 256) input
        → Induced max_rules input (repair_opts max_rules min_count mr input)
    unfolding repair_opts
    repair_opts-Induced bytes = repair_loop-Induced max_rules [] input (record {
      ruled = tt;
      known = All-imp input (λ b (h : b < 256). omega arith) bytes;
      spells = literals input bytes;
      few = omega arith;
      short = omega arith;
    })

-- For a list of fewer than `2 ^ 32` bytes, and at most `max_rules` rules below `2 ^ 32 - 256`, with pairs
-- or with maximal repeats, with ranks or without, and whatever the count that a rule needs: `decode`
-- ends, and returns the input that `encode_ex` encoded, with enough fuel and with any more.
pub decode-encode_ex :
    (input : List ℕ) (max_rules min_count : ℕ) (mr mtf : Bool)
    → All (λ b. b < 256) input
    → length input < 2 ^ 32
    → 256 + max_rules < 2 ^ 32
    → (fuel : ℕ) × ((extra : ℕ)
        → decode (fuel + extra) (encode_ex max_rules min_count mr input mtf) ≡ returned input)
unfolding encode_ex
decode-encode_ex input max_rules min_count mr mtf bytes short few =
    let v = repair_opts-Induced max_rules few input min_count mr bytes in
    let st = repair_opts max_rules min_count mr input in
    decode-write st.0 st.1 (omega (arith, v.few)) (omega (arith, v.short)) v.known v.ruled input mtf
      v.spells
