-- ===== src/Tests/Grammars.antt =====
-- Runs of the grammar stream.
use zentropy.Prelude.{
  ℕ, zero, suc, ◌+◌, ◌≡◌, refl, arith, true, starts_with, some, codes, List, [], ◌∷◌,
}
use zentropy.Reorder.Shuffle.{upto}
use zentropy.Grammar.{
  mtf_encode, mtf_encode_loop, position, or_zero, to_front, symbols, mtf_decode, read_rules,
  read_body, expand_body, decode_body, decode, get_rules, get_sym, get_varint, get_groups, get_syms,
  expand, unfinished, returned,
}
use zentropy.Grammar.MoveToFront.{mtf_decode-encode}
use zentropy.Grammar.Endless.{decode-unfinished}
use zentropy.Grammar.Spelling.{Ordered, SpellsAll, decode-returned}
use zentropy.Grammar.Repair.{
  repair_opts, repair_loop, best, larger, above, occurrences, pattern, extended, only, followers,
  all_are, fitting, substituted, push_chain, replaced, encode_ex,
}
use zentropy.Grammar.Repair.RoundTrip.{decode-encode_ex}

mtf_decode-encode_example :
    mtf_decode (mtf_encode (7 ∷ 7 ∷ 2 ∷ 7 ∷ []) 9) 9 ≡ some (7 ∷ 7 ∷ 2 ∷ 7 ∷ [])
mtf_decode-encode_example = mtf_decode-encode (7 ∷ 7 ∷ 2 ∷ 7 ∷ []) 9 (omega arith) (omega arith)

ranks_run : mtf_encode (7 ∷ 7 ∷ 2 ∷ 7 ∷ []) 9 ≡ 7 ∷ 0 ∷ 3 ∷ 1 ∷ []
unfolding mtf_encode mtf_encode_loop position or_zero to_front symbols upto
ranks_run = refl

decode-unfinished_example : decode 1000 (1 ∷ 0xff ∷ 1 ∷ 65 ∷ 0 ∷ 1 ∷ 0xff ∷ 1 ∷ []) ≡ unfinished
decode-unfinished_example = decode-unfinished 65 (omega arith) 1000

-- "abab" as two references to one rule.
abbrev two_references : List ℕ
two_references = 1 ∷ 97 ∷ 98 ∷ 0 ∷ 2 ∷ 0xff ∷ 1 ∷ 0xff ∷ 1 ∷ []

grammar_run : decode 20 two_references ≡ returned (codes "abab")
unfolding decode decode_body expand_body read_body read_rules get_rules get_sym get_varint
    get_groups get_syms expand
grammar_run = refl

one_rule-Ordered : Ordered ((97, 98) ∷ [])
one_rule-Ordered zero a b e = ground arith
one_rule-Ordered (suc k) a b e = cc

decode-returned_example :
    (body : List ℕ) × (out : List ℕ) × (read_body
        (read_rules two_references).0
        (read_rules two_references).1
      ≡ some body)
    × SpellsAll (read_rules two_references).0 body out
    × (fuel : ℕ) × ((extra : ℕ) → decode (fuel + extra) two_references ≡ returned out)
unfolding read_rules get_rules get_sym get_varint get_groups
decode-returned_example = decode-returned two_references one_rule-Ordered (omega arith)

decode-encode_ex_example :
    (fuel : ℕ) × ((extra : ℕ)
      → decode (fuel + extra) (encode_ex 8 2 true (codes "abcabcab") true)
        ≡ returned (codes "abcabcab"))
decode-encode_ex_example =
    decode-encode_ex (codes "abcabcab") 8 2 true true (omega arith) (omega arith) (omega arith)

-- One maximal repeat of three symbols makes two rules.
induced_run : repair_opts 8 2 true (codes "abcabc") ≡ ((97, 98) ∷ (256, 99) ∷ [], 257 ∷ 257 ∷ [])
unfolding repair_opts repair_loop best larger above occurrences starts_with pattern extended only
    followers all_are fitting substituted push_chain replaced
induced_run = refl
