-- ===== src/Transform/Hoist/RoundTrip.antt =====
-- `decode` undoes `encode` on every byte string, markup or not.
use zentropy.Prelude.{
  ℕ, zero, suc, ◌-◌, ◌≤◌, ◌<◌, ◌≡◌, refl, sym, ◌∙◌, ap, true, false, ◌&&◌, none, some, List, [],
  ◌∷◌, ◌++◌, leb, ◌==◌, if◌then◌else◌, length, drop, get_elem?, get_or, starts_with-split, arith,
  Bool-cases, Option-cases, inl, inr, length-drop, append-nil,
}
use native.Mathlib.Nat.{le_refl}
use zentropy.Transform.Hoist.{
  dict, esc, max_code, is_reserved, best_match, encode_loop, encode, expand, decode,
}
use zentropy.Transform.Hoist.Match.{Fits, best_match_lem}

get_or_of_get_elem? {ℓ} :
    {A : Type ℓ} (xs : List A) (i : ℕ) (x d : A) → get_elem? xs i ≡ some x → get_or xs i d ≡ x
get_or_of_get_elem? [] i x d e = cc
get_or_of_get_elem? (y ∷ xs) zero x d e = cc
get_or_of_get_elem? (y ∷ xs) (suc i) x d e = get_or_of_get_elem? xs i x d e

-- Decoding by the first byte, whatever follows.
decode-plain :
    (b : ℕ) (rest : List ℕ) → (b == esc) ≡ false → decode (b ∷ rest) ≡ expand b ++ decode rest
unfolding decode
decode-plain b [] h = rw h (sym (append-nil (expand b)))
decode-plain b (c ∷ rest) h = rw (h, decode)

decode-esc : (b : ℕ) (rest : List ℕ) → decode (esc ∷ b ∷ rest) ≡ b ∷ decode rest
unfolding decode
decode-esc b rest = refl

expand-code :
    (code : ℕ) (entry : List ℕ)
    → 1 ≤ code
    → code ≤ max_code
    → get_elem? dict (code - 1) ≡ some entry
    → expand code ≡ entry
unfolding expand
expand-code code entry low high at =
    let inside : (leb 1 code && leb code max_code) ≡ true = ground arith in
    rw (inside, expand) (get_or_of_get_elem? dict (code - 1) entry [] at)

expand-literal : (b : ℕ) → max_code < b → expand b ≡ b ∷ []
unfolding expand
expand-literal b high =
    let outside : (leb 1 b && leb b max_code) ≡ false = ground arith in rw (outside, expand)

decode-code :
    (code : ℕ) (entry rest : List ℕ)
    → 1 ≤ code
    → code ≤ max_code
    → get_elem? dict (code - 1) ≡ some entry
    → decode (code ∷ rest) ≡ entry ++ decode rest
decode-code code entry rest low high at =
    decode-plain code rest (ground arith)
    ∙ ap (λ r. r ++ decode rest) (expand-code code entry low high at)

decode-literal :
    (b : ℕ) (rest : List ℕ) → is_reserved b ≡ false → decode (b ∷ rest) ≡ b ∷ decode rest
unfolding is_reserved
decode-literal b rest h =
    let high : max_code < b = ground arith in
    decode-plain b rest (ground arith) ∙ ap (λ r. r ++ decode rest) (expand-literal b high)

-- One round of the main loop, by what the search found.
encode_loop-some :
    (fuel b : ℕ) (rest : List ℕ) (l code : ℕ)
    → best_match (b ∷ rest) ≡ some (l, code)
    → encode_loop (suc fuel) (b ∷ rest) ≡ code ∷ encode_loop fuel (drop l (b ∷ rest))
unfolding encode_loop
encode_loop-some fuel b rest l code e = rw (e, encode_loop)

encode_loop-none :
    (fuel b : ℕ) (rest : List ℕ)
    → best_match (b ∷ rest) ≡ none
    → encode_loop (suc fuel) (b ∷ rest)
      ≡ (if is_reserved b then esc ∷ b ∷ encode_loop fuel rest else b ∷ encode_loop fuel rest)
unfolding encode_loop
encode_loop-none fuel b rest e = rw (e, encode_loop)

decode-round :
    (b : ℕ) (out rest : List ℕ)
    → decode out ≡ rest
    → decode (if is_reserved b then esc ∷ b ∷ out else b ∷ out) ≡ b ∷ rest
decode-round b out rest h = elim (Bool-cases (is_reserved b)) [
  | inl y ↦ rw y (decode-esc b out ∙ ap (λ r. b ∷ r) h)
  | inr n ↦ rw n (decode-literal b out n ∙ ap (λ r. b ∷ r) h)
]

decode-encode_loop :
    (fuel : ℕ) (input : List ℕ) → length input ≤ fuel → decode (encode_loop fuel input) ≡ input
decode-encode_loop zero [] h = unfold encode_loop decode in refl
decode-encode_loop zero (b ∷ rest) h = absurd (omega arith)
decode-encode_loop (suc fuel) [] h = unfold encode_loop decode in refl
decode-encode_loop (suc fuel) (b ∷ rest) h = elim (Option-cases (best_match (b ∷ rest))) [
  | inl e ↦
      rw (encode_loop-none fuel b rest e)
        (decode-round b (encode_loop fuel rest) rest (decode-encode_loop fuel rest (omega arith)))
  | inr ((l, code), e) ↦
      let (entry, at, len, starts, low, high, pos) : Fits dict (b ∷ rest) (some (l, code)) =
        rw e at (best_match_lem (b ∷ rest)).0 in
      let after : length (drop l (b ∷ rest)) ≤ fuel = omega (arith, length-drop l (b ∷ rest)) in
      rw (encode_loop-some fuel b rest l code e) (
        decode-code code entry _ low high at
        ∙ ap (λ r. entry ++ r) (decode-encode_loop fuel (drop l (b ∷ rest)) after)
        ∙ rw len (sym (starts_with-split (b ∷ rest) entry starts)))
]

-- Hoisting is lossless: decoding what `encode` wrote gives the input back, for every input.
pub decode-encode : (input : List ℕ) → decode (encode input) ≡ input
unfolding encode
decode-encode input = decode-encode_loop (length input) input (le_refl _)
