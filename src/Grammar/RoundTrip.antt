-- ===== src/Grammar/RoundTrip.antt =====
-- src/grammar/mod.rs: `decode` behind the writing of a grammar.
use zentropy.Prelude.{
  ℕ, suc, ◌+◌, ◌%◌, ◌^◌, ◌<◌, ◌≡◌, refl, ap, ◌∙◌, some, Bool, true, false, List, [], ◌∷◌, ◌++◌,
  append_assoc, ltb, ltb→lt, ltb→le, Bool-cases, inl, inr, ◌/◌, length, All, All-imp, arith,
  if◌then◌else◌,
}
use native.Mathlib.Nat.{mod-lt, lt_trans}
use zentropy.Grammar.{
  put_groups, put_varint, get_varint, symbols, position, or_zero, to_front, put_sym, put_rules,
  put_ranks, put_syms, write, get_rules, get_ranks, get_syms, mtf_encode, mtf_encode_loop,
  read_body, read_rules, decode, returned,
}
use zentropy.Grammar.Varint.{
  put_groups-last, put_groups-other, get_varint-put_varint, get_sym-put_sym,
}
use zentropy.Grammar.MoveToFront.{mtf_decode-encode}
use zentropy.Grammar.Spelling.{SpellsAll, SpellsAll-Returns, decode_body-returned}

-- Rules of 32-bit symbols.
abbrev pub Words : List (ℕ × ℕ) → Type 0
Words rules = All (λ r. (r.0 < 2 ^ 32) × (r.1 < 2 ^ 32)) rules

get_rules-put_rules :
    (rules : List (ℕ × ℕ)) (rest : List ℕ)
    → Words rules
    → get_rules (length rules) (put_rules rules ++ rest) ≡ (rules, rest)
unfolding get_rules put_rules
get_rules-put_rules [] rest h = refl
get_rules-put_rules ((a, b) ∷ rules) rest (h, k) =
    let ih = get_rules-put_rules rules rest k in
    let second = get_sym-put_sym b (put_rules rules ++ rest) h.1 in
    let first = get_sym-put_sym a (put_sym b ++ (put_rules rules ++ rest)) h.0 in
    rw
      (
        append_assoc (put_sym a) (put_sym b ++ put_rules rules) rest,
        append_assoc (put_sym b) (put_rules rules) rest,
      )
      (rw (first, get_rules) (rw (second, get_rules) (rw ih refl)))

get_syms-put_syms :
    (body : List ℕ) → All (λ s. s < 2 ^ 32) body → get_syms (length body) (put_syms body) ≡ body
unfolding get_syms put_syms
get_syms-put_syms [] h = refl
get_syms-put_syms (s ∷ body) (h, k) =
    rw (get_sym-put_sym s (put_syms body) h, get_syms) (ap (λ l. s ∷ l) (get_syms-put_syms body k))

put_varint-cons : (v : ℕ) → (b : ℕ) × (t : List ℕ) × (put_varint v ≡ b ∷ t)
unfolding put_varint
put_varint-cons v = elim (Bool-cases (ltb v 128)) [
  | inl small ↦ (v, [], put_groups-last 4 v (ltb→lt v 128 small))
  | inr large ↦ (128 + v % 128, put_groups 4 (v / 2 ^ 7), put_groups-other 4 v (ltb→le v 128 large))
]

get_ranks-suc :
    (n r b : ℕ) (t input rest : List ℕ)
    → input ≡ b ∷ t
    → get_varint input ≡ (r, rest)
    → get_ranks (suc n) input ≡ r ∷ get_ranks n rest
unfolding get_ranks
get_ranks-suc n r b t input rest shape e =
    rw shape (ap (λ (p : ℕ × List ℕ). p.0 ∷ get_ranks n p.1) (rw shape at e))

get_ranks-put_ranks :
    (ranks : List ℕ)
    → All (λ r. r < 2 ^ 32) ranks
    → get_ranks (length ranks) (put_ranks ranks) ≡ ranks
unfolding put_ranks
get_ranks-put_ranks [] h = unfold get_ranks in refl
get_ranks-put_ranks (r ∷ ranks) (h, k) =
    let (b, t, shape) = put_varint-cons r in
    get_ranks-suc (length ranks) r b (t ++ put_ranks ranks) (put_varint r ++ put_ranks ranks)
      (put_ranks ranks) (rw shape refl) (get_varint-put_varint r (put_ranks ranks) h)
    ∙ ap (λ l. r ∷ l) (get_ranks-put_ranks ranks k)

-- As many ranks as symbols, position, or_zero, to_front, of 32 bits.
Ranked : List ℕ → List ℕ → Type 0
Ranked ranks seq = (length ranks ≡ length seq) × All (λ r. r < 2 ^ 32) ranks

mtf_encode_loop-Ranked : (seq list : List ℕ) → Ranked (mtf_encode_loop list seq) seq
unfolding Ranked mtf_encode_loop
mtf_encode_loop-Ranked [] list = (refl, tt)
mtf_encode_loop-Ranked (s ∷ seq) list =
    let pos = or_zero (position list s) in
    let next : List ℕ = if ltb 0 pos then to_front list pos else list in
    let (same, small) = mtf_encode_loop-Ranked seq next in
    (ap (λ (k : ℕ). suc k) same, (mod-lt pos (omega arith), small))

mtf_encode-Ranked : (seq : List ℕ) (alphabet : ℕ) → Ranked (mtf_encode seq alphabet) seq
unfolding mtf_encode
mtf_encode-Ranked seq alphabet = mtf_encode_loop-Ranked seq (symbols alphabet)

get_ranks-Ranked :
    (ranks seq : List ℕ) → Ranked ranks seq → get_ranks (length seq) (put_ranks ranks) ≡ ranks
unfolding Ranked
get_ranks-Ranked ranks seq (same, small) = rw (← same) (get_ranks-put_ranks ranks small)

module _ (rules : List (ℕ × ℕ)) (body : List ℕ) (few : 256 + length rules < 2 ^ 32)
    (short : length body < 2 ^ 32) (known : All (λ s. s < 256 + length rules) body) where
  put_body : Bool → List ℕ
  put_body mtf = if mtf then put_ranks (mtf_encode body (256 + length rules)) else put_syms body

  read_body-write :
      (mtf : Bool)
      → read_body rules ((if mtf then 1 else 0) ∷ (put_varint (length body) ++ put_body mtf))
        ≡ some body
  unfolding read_body put_body
  read_body-write true =
      let ranks = mtf_encode body (256 + length rules) in
      let read = get_ranks-Ranked ranks body (mtf_encode-Ranked body (256 + length rules)) in
      rw (get_varint-put_varint (length body) (put_ranks ranks) short, read)
        (mtf_decode-encode body (256 + length rules) few known)
  read_body-write false =
      let words = All-imp body (λ s (h : s < 256 + length rules). omega arith) known in
      rw (get_varint-put_varint (length body) (put_syms body) short)
        (ap some (get_syms-put_syms body words))

  module _ (ruled : All (λ r. (r.0 < 256 + length rules) × (r.1 < 256 + length rules)) rules) where
    read_rules-write :
        (mtf : Bool)
        → read_rules (write rules body mtf)
          ≡ (rules, (if mtf then 1 else 0) ∷ (put_varint (length body) ++ put_body mtf))
    unfolding read_rules write put_body
    read_rules-write mtf =
        let tail = (if mtf then 1 else 0) ∷ (put_varint (length body) ++ put_body mtf) in
        let count : length rules % 2 ^ 32 ≡ length rules = omega arith in
        let size : length body % 2 ^ 32 ≡ length body = omega arith in
        let words : Words rules =
          All-imp rules
            (λ r (h : (r.0 < 256 + length rules) × (r.1 < 256 + length rules)).
              (lt_trans h.0 few, lt_trans h.1 few))
            ruled in
        rw
          (
            count,
            size,
            get_varint-put_varint (length rules) (put_rules rules ++ tail) (omega arith),
          )
          (get_rules-put_rules rules tail words)

    -- A grammar of fewer than `2 ^ 32 - 256` rules and a body of fewer than `2 ^ 32` symbols, all
    -- literals or nonterminals of the grammar, written with or without ranks: with enough fuel, and
    -- with any more, `decode` returns what the body derives from the grammar.
    pub decode-write :
        (out : List ℕ) (mtf : Bool)
        → SpellsAll rules body out
        → (fuel : ℕ) × ((extra : ℕ) → decode (fuel + extra) (write rules body mtf) ≡ returned out)
    unfolding decode
    decode-write out mtf p =
        let tail = (if mtf then 1 else 0) ∷ (put_varint (length body) ++ put_body mtf) in
        let (fuel, r) = SpellsAll-Returns rules body out p in
        (
          fuel,
          λ extra. rw (read_rules-write mtf) (
              decode_body-returned (fuel + extra) rules tail body out (read_body-write mtf)
                (r extra) p),
        )
