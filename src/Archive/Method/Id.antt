-- ===== src/Archive/Method/Id.antt =====
-- src/archive.rs: `method_from_id`.
use zentropy.Prelude.{ℕ, Option, none, some, ◌==◌, if◌then◌else◌, ◌≡◌, refl}
use zentropy.Archive.Method.{Method, id}

unfoldable pub method_from_id : ℕ → Option Method
method_from_id i =
    if i == 0
    then some Method.raw_cm
    else if i == 1
    then some Method.raw_cm_no_word
    else if i == 2
    then some Method.struct_hoist
    else if i == 3
    then some Method.alphabet_perm
    else if i == 4
    then some Method.alphabet_random
    else if i == 5
    then some Method.info_inherit
    else if i == 6
    then some Method.info_unrelated
    else if i == 7
    then some Method.alphabet_perm_info
    else if i == 8
    then some Method.column
    else if i == 9
    then some Method.column_shuffled
    else if i == 10
    then some Method.column_no_line
    else if i == 11
    then some Method.case
    else if i == 12
    then some Method.case_mark
    else if i == 13
    then some Method.column_case
    else if i == 14
    then some Method.column_case_mark
    else if i == 15
    then some Method.word_token
    else if i == 16
    then some Method.word_token_reverse
    else if i == 17
    then some Method.column_word_token
    else if i == 18
    then some Method.column_word_token_reverse
    else if i == 19
    then some Method.word_token2
    else if i == 20
    then some Method.column_word_token2
    else if i == 21
    then some Method.long_match6
    else if i == 22
    then some Method.long_match8
    else if i == 23
    then some Method.long_match12
    else if i == 24
    then some Method.long_match16
    else if i == 25
    then some Method.long_match24
    else if i == 26
    then some Method.sparse_match4g1
    else if i == 27
    then some Method.sparse_match6g1
    else if i == 28
    then some Method.sparse_match6g2
    else if i == 29
    then some Method.rep_state1
    else if i == 30
    then some Method.rep_state2
    else if i == 31
    then some Method.rep_state3
    else if i == 32
    then some Method.rep_state4
    else if i == 33
    then some Method.match_byte
    else if i == 34
    then some Method.match_byte_const
    else if i == 35
    then some Method.phase4
    else if i == 36
    then some Method.dist_match
    else if i == 37
    then some Method.stem
    else if i == 38
    then some Method.word_class
    else if i == 39
    then some Method.word_class_const
    else if i == 40
    then some Method.column_word_token_phrase
    else if i == 41
    then some Method.column_word_token_phrase_freq
    else if i == 42
    then some Method.column_word_token_front
    else if i == 43
    then some Method.column_word_token_affix
    else if i == 44
    then some Method.grammar
    else if i == 45
    then some Method.grammar_mtf
    else if i == 46
    then some Method.grammar_mr
    else if i == 47
    then some Method.grammar_rrank
    else if i == 48
    then some Method.grammar_first_use
    else if i == 49
    then some Method.grammar_one_shot
    else if i == 50
    then some Method.lzbe
    else if i == 51
    then some Method.state_map
    else if i == 52
    then some Method.state_map_ctl
    else if i == 53
    then some Method.state_map_rep
    else if i == 54
    then some Method.sse3
    else if i == 55
    then some Method.sse3_ctl
    else if i == 56
    then some Method.sparse4g1
    else if i == 57
    then some Method.sparse4g1_ctl
    else if i == 58
    then some Method.sparse4g1_rep
    else if i == 59
    then some Method.icm
    else if i == 60
    then some Method.icm_ctl
    else if i == 61
    then some Method.indirect_chain
    else if i == 62
    then some Method.indirect_deep
    else if i == 63
    then some Method.collision
    else if i == 64
    then some Method.collision_ctl
    else if i == 65
    then some Method.ppm
    else if i == 66
    then some Method.ppm_ctl
    else if i == 67
    then some Method.stem_model
    else if i == 68
    then some Method.stem_model_ctl
    else if i == 69
    then some Method.isse
    else if i == 70
    then some Method.isse_ctl
    else if i == 71
    then some Method.phase6
    else if i == 72
    then some Method.spine
    else if i == 73
    then some Method.reorder_id
    else if i == 74
    then some Method.reorder_title
    else if i == 75
    then some Method.reorder_size
    else if i == 76
    then some Method.reorder_struct
    else if i == 77
    then some Method.reorder_min_hash
    else if i == 78
    then some Method.reorder_greedy
    else if i == 79
    then some Method.reorder_template
    else if i == 80
    then some Method.reorder_shuffle
    else if i == 81
    then some Method.reorder_category
    else if i == 82
    then some Method.reorder_template_key
    else if i == 83
    then some Method.reorder_category_set
    else if i == 84
    then some Method.reorder_full
    else if i == 85
    then some Method.reorder_full_residual
    else if i == 86
    then some Method.residual
    else if i == 87
    then some Method.residual_ctl
    else if i == 88
    then some Method.residual_mtf
    else if i == 89
    then some Method.residual_move_to_second
    else if i == 90
    then some Method.residual_priced
    else if i == 91
    then some Method.residual_price_filter
    else if i == 92
    then some Method.residual_affix
    else if i == 93
    then some Method.residual_first_use
    else if i == 94
    then some Method.residual_subword
    else none

-- Every method is decodable: the id that the header stores leads back to the method.
pub method_from_id-id : (m : Method) → method_from_id (id m) ≡ some m
unfolding method_from_id id
method_from_id-id Method.raw_cm = refl
method_from_id-id _ = refl
