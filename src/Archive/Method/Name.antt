-- ===== src/Archive/Method/Name.antt =====
-- src/archive.rs: the names of the methods.
use zentropy.Archive.Method.{Method}
use Prim.Native.String.{String}

unfoldable pub name : Method → String
name Method.raw_cm = "rawcm"
name Method.raw_cm_no_word = "rawcm-noword"
name Method.struct_hoist = "struct-hoist"
name Method.alphabet_perm = "alphabet-perm"
name Method.alphabet_random = "alphabet-random"
name Method.info_inherit = "info-inherit"
name Method.info_unrelated = "info-unrelated"
name Method.alphabet_perm_info = "alphabet-perm+info-inherit"
name Method.column = "column"
name Method.column_shuffled = "column-shuffled"
name Method.column_no_line = "column-noline"
name Method.case = "case"
name Method.case_mark = "case-mark"
name Method.column_case = "column-case"
name Method.column_case_mark = "column-case-mark"
name Method.word_token = "word-token"
name Method.word_token_reverse = "word-token-reverse"
name Method.column_word_token = "column-word-token"
name Method.column_word_token_reverse = "column-word-token-reverse"
name Method.word_token2 = "word-token2"
name Method.column_word_token2 = "column-word-token2"
name Method.long_match6 = "long-match6"
name Method.long_match8 = "long-match8"
name Method.long_match12 = "long-match12"
name Method.long_match16 = "long-match16"
name Method.long_match24 = "long-match24"
name Method.sparse_match4g1 = "sparse-match4g1"
name Method.sparse_match6g1 = "sparse-match6g1"
name Method.sparse_match6g2 = "sparse-match6g2"
name Method.rep_state1 = "rep-state1"
name Method.rep_state2 = "rep-state2"
name Method.rep_state3 = "rep-state3"
name Method.rep_state4 = "rep-state4"
name Method.match_byte = "match-byte"
name Method.match_byte_const = "match-byte-const"
name Method.phase4 = "phase4"
name Method.dist_match = "dist-match"
name Method.stem = "stem"
name Method.word_class = "word-class"
name Method.word_class_const = "word-class-const"
name Method.column_word_token_phrase = "column-word-token-phrase"
name Method.column_word_token_phrase_freq = "column-word-token-phrase-freq"
name Method.column_word_token_front = "column-word-token-front"
name Method.column_word_token_affix = "column-word-token-affix"
name Method.grammar = "grammar"
name Method.grammar_mtf = "grammar-mtf"
name Method.grammar_mr = "grammar-mr"
name Method.grammar_rrank = "grammar-rrank"
name Method.grammar_first_use = "grammar-first-use"
name Method.grammar_one_shot = "grammar-oneshot"
name Method.lzbe = "lzbe"
name Method.state_map = "state-map"
name Method.state_map_ctl = "state-map-ctl"
name Method.state_map_rep = "state-map-rep"
name Method.sse3 = "sse-3"
name Method.sse3_ctl = "sse-3-ctl"
name Method.sparse4g1 = "sparse4g1"
name Method.sparse4g1_ctl = "sparse4g1-ctl"
name Method.sparse4g1_rep = "sparse4g1-rep"
name Method.icm = "icm"
name Method.icm_ctl = "icm-ctl"
name Method.indirect_chain = "indirect-chain"
name Method.indirect_deep = "indirect-deep"
name Method.collision = "collision"
name Method.collision_ctl = "collision-ctl"
name Method.ppm = "ppm"
name Method.ppm_ctl = "ppm-ctl"
name Method.stem_model = "stem-model"
name Method.stem_model_ctl = "stem-model-ctl"
name Method.isse = "isse"
name Method.isse_ctl = "isse-ctl"
name Method.phase6 = "phase6"
name Method.spine = "spine"
name Method.reorder_id = "reorder-id"
name Method.reorder_title = "reorder-title"
name Method.reorder_size = "reorder-size"
name Method.reorder_struct = "reorder-struct"
name Method.reorder_min_hash = "reorder-minhash"
name Method.reorder_greedy = "reorder-greedy"
name Method.reorder_template = "reorder-template"
name Method.reorder_shuffle = "reorder-shuffle"
name Method.reorder_category = "reorder-category"
name Method.reorder_template_key = "reorder-template-key"
name Method.reorder_category_set = "reorder-category-set"
name Method.reorder_full = "reorder-full"
name Method.reorder_full_residual = "reorder-full-residual"
name Method.residual = "residual"
name Method.residual_ctl = "residual-ctl"
name Method.residual_mtf = "residual-mtf"
name Method.residual_move_to_second = "residual-move-to-second"
name Method.residual_priced = "residual-priced"
name Method.residual_price_filter = "residual-price-filter"
name Method.residual_affix = "residual-affix"
name Method.residual_first_use = "residual-first-use"
name Method.residual_subword = "residual-subword"
