-- ===== src/Archive/Method/FromName.antt =====
-- src/archive.rs: `from_name`.
use zentropy.Prelude.{Option, none, some, if◌then◌else◌, ◌≡◌, refl}
use zentropy.Archive.Method.{Method}
use zentropy.Archive.Method.Name.{name}
use Prim.Native.String.{String}
use text.Mathlib.Text.{◌==◌}

unfoldable pub from_name : String → Option Method
from_name s =
    if s == "rawcm"
    then some Method.raw_cm
    else if s == "rawcm-noword"
    then some Method.raw_cm_no_word
    else if s == "struct-hoist"
    then some Method.struct_hoist
    else if s == "alphabet-perm"
    then some Method.alphabet_perm
    else if s == "alphabet-random"
    then some Method.alphabet_random
    else if s == "info-inherit"
    then some Method.info_inherit
    else if s == "info-unrelated"
    then some Method.info_unrelated
    else if s == "alphabet-perm+info-inherit"
    then some Method.alphabet_perm_info
    else if s == "column"
    then some Method.column
    else if s == "column-shuffled"
    then some Method.column_shuffled
    else if s == "column-noline"
    then some Method.column_no_line
    else if s == "case"
    then some Method.case
    else if s == "case-mark"
    then some Method.case_mark
    else if s == "column-case"
    then some Method.column_case
    else if s == "column-case-mark"
    then some Method.column_case_mark
    else if s == "word-token"
    then some Method.word_token
    else if s == "word-token-reverse"
    then some Method.word_token_reverse
    else if s == "column-word-token"
    then some Method.column_word_token
    else if s == "column-word-token-reverse"
    then some Method.column_word_token_reverse
    else if s == "word-token2"
    then some Method.word_token2
    else if s == "column-word-token2"
    then some Method.column_word_token2
    else if s == "long-match6"
    then some Method.long_match6
    else if s == "long-match8"
    then some Method.long_match8
    else if s == "long-match12"
    then some Method.long_match12
    else if s == "long-match16"
    then some Method.long_match16
    else if s == "long-match24"
    then some Method.long_match24
    else if s == "sparse-match4g1"
    then some Method.sparse_match4g1
    else if s == "sparse-match6g1"
    then some Method.sparse_match6g1
    else if s == "sparse-match6g2"
    then some Method.sparse_match6g2
    else if s == "rep-state1"
    then some Method.rep_state1
    else if s == "rep-state2"
    then some Method.rep_state2
    else if s == "rep-state3"
    then some Method.rep_state3
    else if s == "rep-state4"
    then some Method.rep_state4
    else if s == "match-byte"
    then some Method.match_byte
    else if s == "match-byte-const"
    then some Method.match_byte_const
    else if s == "phase4"
    then some Method.phase4
    else if s == "dist-match"
    then some Method.dist_match
    else if s == "stem"
    then some Method.stem
    else if s == "word-class"
    then some Method.word_class
    else if s == "word-class-const"
    then some Method.word_class_const
    else if s == "column-word-token-phrase"
    then some Method.column_word_token_phrase
    else if s == "column-word-token-phrase-freq"
    then some Method.column_word_token_phrase_freq
    else if s == "column-word-token-front"
    then some Method.column_word_token_front
    else if s == "column-word-token-affix"
    then some Method.column_word_token_affix
    else if s == "grammar"
    then some Method.grammar
    else if s == "grammar-mtf"
    then some Method.grammar_mtf
    else if s == "grammar-mr"
    then some Method.grammar_mr
    else if s == "grammar-rrank"
    then some Method.grammar_rrank
    else if s == "grammar-first-use"
    then some Method.grammar_first_use
    else if s == "grammar-oneshot"
    then some Method.grammar_one_shot
    else if s == "lzbe"
    then some Method.lzbe
    else if s == "state-map"
    then some Method.state_map
    else if s == "state-map-ctl"
    then some Method.state_map_ctl
    else if s == "state-map-rep"
    then some Method.state_map_rep
    else if s == "sse-3"
    then some Method.sse3
    else if s == "sse-3-ctl"
    then some Method.sse3_ctl
    else if s == "sparse4g1"
    then some Method.sparse4g1
    else if s == "sparse4g1-ctl"
    then some Method.sparse4g1_ctl
    else if s == "sparse4g1-rep"
    then some Method.sparse4g1_rep
    else if s == "icm"
    then some Method.icm
    else if s == "icm-ctl"
    then some Method.icm_ctl
    else if s == "indirect-chain"
    then some Method.indirect_chain
    else if s == "indirect-deep"
    then some Method.indirect_deep
    else if s == "collision"
    then some Method.collision
    else if s == "collision-ctl"
    then some Method.collision_ctl
    else if s == "ppm"
    then some Method.ppm
    else if s == "ppm-ctl"
    then some Method.ppm_ctl
    else if s == "stem-model"
    then some Method.stem_model
    else if s == "stem-model-ctl"
    then some Method.stem_model_ctl
    else if s == "isse"
    then some Method.isse
    else if s == "isse-ctl"
    then some Method.isse_ctl
    else if s == "phase6"
    then some Method.phase6
    else if s == "spine"
    then some Method.spine
    else if s == "reorder-id"
    then some Method.reorder_id
    else if s == "reorder-title"
    then some Method.reorder_title
    else if s == "reorder-size"
    then some Method.reorder_size
    else if s == "reorder-struct"
    then some Method.reorder_struct
    else if s == "reorder-minhash"
    then some Method.reorder_min_hash
    else if s == "reorder-greedy"
    then some Method.reorder_greedy
    else if s == "reorder-template"
    then some Method.reorder_template
    else if s == "reorder-shuffle"
    then some Method.reorder_shuffle
    else if s == "reorder-category"
    then some Method.reorder_category
    else if s == "reorder-template-key"
    then some Method.reorder_template_key
    else if s == "reorder-category-set"
    then some Method.reorder_category_set
    else if s == "reorder-full"
    then some Method.reorder_full
    else if s == "reorder-full-residual"
    then some Method.reorder_full_residual
    else if s == "residual"
    then some Method.residual
    else if s == "residual-ctl"
    then some Method.residual_ctl
    else if s == "residual-mtf"
    then some Method.residual_mtf
    else if s == "residual-move-to-second"
    then some Method.residual_move_to_second
    else if s == "residual-priced"
    then some Method.residual_priced
    else if s == "residual-price-filter"
    then some Method.residual_price_filter
    else if s == "residual-affix"
    then some Method.residual_affix
    else if s == "residual-first-use"
    then some Method.residual_first_use
    else if s == "residual-subword"
    then some Method.residual_subword
    else none

-- The command line's name of a method leads back to the method.
pub from_name-name : (m : Method) → from_name (name m) ≡ some m
unfolding from_name name
from_name-name Method.raw_cm = refl
from_name-name _ = refl
