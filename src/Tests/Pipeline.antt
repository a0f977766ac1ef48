-- ===== src/Tests/Pipeline.antt =====
-- Runs of the word transforms and of the whole pipeline.
use zentropy.Prelude.{
  ℕ, ◌≤◌, ◌≡◌, refl, true, false, some, List, [], ◌∷◌, ◌++◌, length, All, codes, arith, starts_with,
}
use zentropy.Archive.Coder.{Model}
use zentropy.Archive.Method.{Method}
use zentropy.Archive.Method.Stages.{token_kind, hoists, on_phase4_parent, reorder_kind}
use zentropy.Archive.Pipeline.{
  prepare_reorder, maybe_hoist, maybe_token, tokenise, encode_tuned, decode, decoded,
}
use zentropy.Archive.Pipeline.Stages.{Undone, prepare_reorder-Undone}
use zentropy.Archive.Pipeline.RoundTrip.{decode-encode_tuned}
use zentropy.Transform.Case.{case_encode, case_decode, case_encode_markonly, case_decode_markonly}
use zentropy.Transform.Case.RoundTrip.{
  case_decode-case_encode, case_decode_markonly-case_encode_markonly,
}
use zentropy.Transform.IdList.{IdMode, new, id, touch}
use zentropy.Transform.IdList.Refines.{moved, touch_refines}
use zentropy.Transform.IdList.IsOrder.{IsOrder, touch-IsOrder, new-IsOrder}
use zentropy.Transform.Stem.{stem_encode, stem_decode}
use zentropy.Transform.Stem.RoundTrip.{stem_decode-stem_encode}
use zentropy.Transform.Words.{
  put_entries, read_dict, build_word_vocab, max_tokens, word_token_encode, word_token_encode_mode,
  word_token_encode_vocab_filtered, word_token_decode_mode, candidates, word_counts,
  word_counts_loop, is_candidate, ranks_before, word_token_encode_vocab, token_word, token_byte,
}
use zentropy.Transform.Words.Vocab.{build_word_vocab_fits}
use zentropy.Transform.Words.RoundTrip.{
  read_dict-put_entries, word_token_decode_mode-encode_mode,
  word_token_decode_mode-encode_vocab_filtered,
}
use zentropy.Transform.Wordwise.{words_fit, is_word_byte, wordwise, wordwise_loop}
use zentropy.Prelude.Sort.{sort_by, insert}
use zentropy.Ir.Scan.{run, is_letter}
use zentropy.Reorder.Keys.{compare_bytes, and_then, not_after}
use zentropy.Reorder.Shuffle.{upto}
use zentropy.Transform.Hoist.{encode, encode_loop, best_match, match_loop, match_step, is_reserved}
use zentropy.Transform.WordMap.{same, get, add_one, index_words}
use zentropy.Tests.Coding.{adaptive}

abbrev text : List ℕ
text = codes "anna saw anna, anna saw"

text_fits : words_fit 255 text ≡ true
unfolding words_fit run is_word_byte is_letter
text_fits = refl

-- "anna" is worth a token, "saw" is not.
text_vocab : build_word_vocab text true ≡ codes "anna" ∷ []
unfolding build_word_vocab candidates sort_by word_counts word_counts_loop is_word_byte is_letter
    run add_one same is_candidate insert ranks_before and_then compare_bytes not_after
text_vocab = refl

text_tokens :
    word_token_encode text true
    ≡ 1 ∷ 4 ∷ codes "anna"
      ++ (0 ∷ 1 ∷ codes " saw ")
      ++ (0 ∷ 1 ∷ codes ", ")
      ++ (0 ∷ 1 ∷ codes " saw")
unfolding word_token_encode word_token_encode_mode word_token_encode_vocab
    word_token_encode_vocab_filtered put_entries wordwise wordwise_loop build_word_vocab candidates
    sort_by word_counts word_counts_loop is_word_byte is_letter run add_one same is_candidate insert
    ranks_before and_then compare_bytes not_after upto id new touch get index_words token_byte
    token_word
text_tokens = refl

word_token_decode_mode-encode_mode_example :
    word_token_decode_mode (word_token_encode_mode text true IdMode.mtf) IdMode.mtf ≡ text
word_token_decode_mode-encode_mode_example =
    word_token_decode_mode-encode_mode text true IdMode.mtf text_fits

word_token_decode_mode-encode_vocab_filtered_example :
    word_token_decode_mode
      (word_token_encode_vocab_filtered text
        (codes "saw" ∷ codes "anna" ∷ [])
        (λ w. false)
        IdMode.move_to_second)
      IdMode.move_to_second
    ≡ text
word_token_decode_mode-encode_vocab_filtered_example =
    word_token_decode_mode-encode_vocab_filtered text (codes "saw" ∷ codes "anna" ∷ []) (λ w. false)
      IdMode.move_to_second (omega arith) (omega arith)

build_word_vocab_fits_example :
    (length (build_word_vocab text false) ≤ max_tokens)
    × All (λ w. length w ≤ 255) (build_word_vocab text false)
build_word_vocab_fits_example = build_word_vocab_fits text false text_fits

read_dict-put_entries_example :
    read_dict 1 (put_entries (codes "anna" ∷ []) ++ (0 ∷ 1 ∷ [])) ≡ (codes "anna" ∷ [], 0 ∷ 1 ∷ [])
read_dict-put_entries_example = read_dict-put_entries (codes "anna" ∷ []) (0 ∷ 1 ∷ []) (omega arith)

touch-IsOrder_example : IsOrder 5 (touch (new 5) 3 IdMode.mtf)
touch-IsOrder_example =
    touch-IsOrder 5 3 IdMode.mtf (new 5) (omega arith) (omega arith) (new-IsOrder 5 (omega arith))

touch_refines_example : (touch (new 5) 3 IdMode.mtf).order ≡ moved IdMode.mtf 3 ((new 5).order)
touch_refines_example =
    touch_refines 5 3 IdMode.mtf (new 5) (omega arith) (new-IsOrder 5 (omega arith))

case_decode-case_encode_example :
    case_decode (case_encode (codes "A USA iPod.")) ≡ codes "A USA iPod."
case_decode-case_encode_example = case_decode-case_encode (codes "A USA iPod.")

case_decode_markonly-case_encode_markonly_example :
    case_decode_markonly (case_encode_markonly (codes "A USA iPod.")) ≡ codes "A USA iPod."
case_decode_markonly-case_encode_markonly_example =
    case_decode_markonly-case_encode_markonly (codes "A USA iPod.")

stem_decode-stem_encode_example :
    stem_decode (stem_encode (codes "nations sing")) ≡ codes "nations sing"
stem_decode-stem_encode_example = stem_decode-stem_encode (codes "nations sing")

prepare_reorder-Undone_example :
    (done : List ℕ × Method) × (prepare_reorder text Method.residual ≡ some done) × Undone text done
prepare_reorder-Undone_example = prepare_reorder-Undone text Method.residual

abbrev any_model : Method → ℕ → ℕ → Model
any_model method tune n = adaptive

text_as_it_is : prepare_reorder text Method.sse3 ≡ some (text, Method.sse3)
unfolding prepare_reorder reorder_kind
text_as_it_is = refl

text_hoisted : maybe_hoist Method.sse3 text ≡ text
unfolding maybe_hoist hoists on_phase4_parent encode encode_loop best_match match_loop match_step
    is_reserved starts_with
text_hoisted = refl

text_stream : maybe_token Method.sse3 text ≡ word_token_encode text true
unfolding maybe_token token_kind tokenise on_phase4_parent
text_stream = refl

decode-encode_tuned_example :
    (archive : List ℕ) × (encode_tuned any_model text Method.sse3 51 ≡ some archive)
    × (decode any_model archive ≡ decoded text)
decode-encode_tuned_example =
    decode-encode_tuned any_model text Method.sse3 Method.sse3 51 text text_as_it_is
      (rw text_hoisted text_fits) (rw (text_hoisted, text_stream, text_tokens) (omega arith))
      (rw (text_hoisted, text_stream, text_tokens) (omega arith))
