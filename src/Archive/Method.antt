-- ===== src/Archive/Method.antt =====
-- src/archive.rs: the coding methods, their ids, and what the scored build (`--features accepted`)
-- does for each of them (the child modules).
pub mod Id
pub mod Name
pub mod FromName
pub mod Stages
use zentropy.Prelude.{ℕ}

pub data Method : Type 0 where
  raw_cm raw_cm_no_word struct_hoist alphabet_perm alphabet_random info_inherit : Method
  info_unrelated alphabet_perm_info column column_shuffled column_no_line case : Method
  case_mark column_case column_case_mark word_token word_token_reverse : Method
  column_word_token column_word_token_reverse word_token2 column_word_token2 : Method
  long_match6 long_match8 long_match12 long_match16 long_match24 sparse_match4g1 : Method
  sparse_match6g1 sparse_match6g2 rep_state1 rep_state2 rep_state3 rep_state4 : Method
  match_byte match_byte_const phase4 dist_match stem word_class word_class_const : Method
  column_word_token_phrase column_word_token_phrase_freq column_word_token_front : Method
  column_word_token_affix grammar grammar_mtf grammar_mr grammar_rrank : Method
  grammar_first_use grammar_one_shot lzbe state_map state_map_ctl state_map_rep sse3 : Method
  sse3_ctl sparse4g1 sparse4g1_ctl sparse4g1_rep icm icm_ctl indirect_chain : Method
  indirect_deep collision collision_ctl ppm ppm_ctl stem_model stem_model_ctl isse : Method
  isse_ctl phase6 spine reorder_id reorder_title reorder_size reorder_struct : Method
  reorder_min_hash reorder_greedy reorder_template reorder_shuffle reorder_category : Method
  reorder_template_key reorder_category_set reorder_full reorder_full_residual residual : Method
  residual_ctl residual_mtf residual_move_to_second residual_priced : Method
  residual_price_filter residual_affix residual_first_use residual_subword : Method

-- `method as u8`
unfoldable pub id : Method → ℕ
id raw_cm = 0
id raw_cm_no_word = 1
id struct_hoist = 2
id alphabet_perm = 3
id alphabet_random = 4
id info_inherit = 5
id info_unrelated = 6
id alphabet_perm_info = 7
id column = 8
id column_shuffled = 9
id column_no_line = 10
id case = 11
id case_mark = 12
id column_case = 13
id column_case_mark = 14
id word_token = 15
id word_token_reverse = 16
id column_word_token = 17
id column_word_token_reverse = 18
id word_token2 = 19
id column_word_token2 = 20
id long_match6 = 21
id long_match8 = 22
id long_match12 = 23
id long_match16 = 24
id long_match24 = 25
id sparse_match4g1 = 26
id sparse_match6g1 = 27
id sparse_match6g2 = 28
id rep_state1 = 29
id rep_state2 = 30
id rep_state3 = 31
id rep_state4 = 32
id match_byte = 33
id match_byte_const = 34
id phase4 = 35
id dist_match = 36
id stem = 37
id word_class = 38
id word_class_const = 39
id column_word_token_phrase = 40
id column_word_token_phrase_freq = 41
id column_word_token_front = 42
id column_word_token_affix = 43
id grammar = 44
id grammar_mtf = 45
id grammar_mr = 46
id grammar_rrank = 47
id grammar_first_use = 48
id grammar_one_shot = 49
id lzbe = 50
id state_map = 51
id state_map_ctl = 52
id state_map_rep = 53
id sse3 = 54
id sse3_ctl = 55
id sparse4g1 = 56
id sparse4g1_ctl = 57
id sparse4g1_rep = 58
id icm = 59
id icm_ctl = 60
id indirect_chain = 61
id indirect_deep = 62
id collision = 63
id collision_ctl = 64
id ppm = 65
id ppm_ctl = 66
id stem_model = 67
id stem_model_ctl = 68
id isse = 69
id isse_ctl = 70
id phase6 = 71
id spine = 72
id reorder_id = 73
id reorder_title = 74
id reorder_size = 75
id reorder_struct = 76
id reorder_min_hash = 77
id reorder_greedy = 78
id reorder_template = 79
id reorder_shuffle = 80
id reorder_category = 81
id reorder_template_key = 82
id reorder_category_set = 83
id reorder_full = 84
id reorder_full_residual = 85
id residual = 86
id residual_ctl = 87
id residual_mtf = 88
id residual_move_to_second = 89
id residual_priced = 90
id residual_price_filter = 91
id residual_affix = 92
id residual_first_use = 93
id residual_subword = 94
