-- ===== src/Archive/Method/Stages.antt =====
-- src/archive.rs: what the scored build (`--features accepted`) does for each method: the transforms
-- that run, and the experts that the accepted mechanisms add to the model. The predicates of
-- mechanisms that this build compiles out are constant there and are not modelled.
use zentropy.Prelude.{Bool, true, false, ◌||◌, Option, some, ◌≡◌, refl, arith}
use zentropy.Archive.Method.{Method}

-- Methods measured on the accepted Phase 4 configuration.
unfoldable pub on_phase4_parent : Method → Bool
on_phase4_parent Method.phase4 = true
on_phase4_parent Method.state_map = true
on_phase4_parent Method.state_map_ctl = true
on_phase4_parent Method.state_map_rep = true
on_phase4_parent Method.sse3 = true
on_phase4_parent Method.sse3_ctl = true
on_phase4_parent Method.sparse4g1 = true
on_phase4_parent Method.sparse4g1_ctl = true
on_phase4_parent Method.sparse4g1_rep = true
on_phase4_parent Method.icm = true
on_phase4_parent Method.icm_ctl = true
on_phase4_parent Method.indirect_chain = true
on_phase4_parent Method.indirect_deep = true
on_phase4_parent Method.collision = true
on_phase4_parent Method.collision_ctl = true
on_phase4_parent Method.ppm = true
on_phase4_parent Method.ppm_ctl = true
on_phase4_parent Method.stem_model = true
on_phase4_parent Method.stem_model_ctl = true
on_phase4_parent Method.isse = true
on_phase4_parent Method.isse_ctl = true
on_phase4_parent Method.phase6 = true
on_phase4_parent Method.spine = true
on_phase4_parent Method.reorder_id = true
on_phase4_parent Method.reorder_title = true
on_phase4_parent Method.reorder_size = true
on_phase4_parent Method.reorder_struct = true
on_phase4_parent Method.reorder_min_hash = true
on_phase4_parent Method.reorder_greedy = true
on_phase4_parent Method.reorder_template = true
on_phase4_parent Method.reorder_shuffle = true
on_phase4_parent Method.reorder_category = true
on_phase4_parent Method.reorder_template_key = true
on_phase4_parent Method.reorder_category_set = true
on_phase4_parent Method.reorder_full = true
on_phase4_parent Method.reorder_full_residual = true
on_phase4_parent Method.residual = true
on_phase4_parent Method.residual_ctl = true
on_phase4_parent Method.residual_mtf = true
on_phase4_parent Method.residual_move_to_second = true
on_phase4_parent Method.residual_priced = true
on_phase4_parent Method.residual_price_filter = true
on_phase4_parent Method.residual_affix = true
on_phase4_parent Method.residual_first_use = true
on_phase4_parent Method.residual_subword = true
on_phase4_parent _ = false

-- The second operand of `hoists`.
unfoldable pub hoists_itself : Method → Bool
hoists_itself Method.struct_hoist = true
hoists_itself Method.alphabet_perm = true
hoists_itself Method.alphabet_random = true
hoists_itself Method.info_inherit = true
hoists_itself Method.info_unrelated = true
hoists_itself Method.alphabet_perm_info = true
hoists_itself Method.column = true
hoists_itself Method.column_shuffled = true
hoists_itself Method.column_no_line = true
hoists_itself Method.column_case = true
hoists_itself Method.column_case_mark = true
hoists_itself Method.column_word_token = true
hoists_itself Method.column_word_token_reverse = true
hoists_itself Method.column_word_token2 = true
hoists_itself Method.long_match6 = true
hoists_itself Method.long_match8 = true
hoists_itself Method.long_match12 = true
hoists_itself Method.long_match16 = true
hoists_itself Method.long_match24 = true
hoists_itself Method.sparse_match4g1 = true
hoists_itself Method.sparse_match6g1 = true
hoists_itself Method.sparse_match6g2 = true
hoists_itself Method.rep_state1 = true
hoists_itself Method.rep_state2 = true
hoists_itself Method.rep_state3 = true
hoists_itself Method.rep_state4 = true
hoists_itself Method.match_byte = true
hoists_itself Method.match_byte_const = true
hoists_itself Method.phase4 = true
hoists_itself Method.dist_match = true
hoists_itself Method.word_class = true
hoists_itself Method.word_class_const = true
hoists_itself Method.column_word_token_phrase = true
hoists_itself Method.column_word_token_phrase_freq = true
hoists_itself Method.column_word_token_front = true
hoists_itself Method.column_word_token_affix = true
hoists_itself _ = false

unfoldable pub hoists : Method → Bool
hoists m = on_phase4_parent m || hoists_itself m

pub data TokenKind : Type 0 where
  none words reverse v2 phrase phrase_freq front affix first_use subword mtf move_to_second :
      TokenKind

-- The last match of `token_kind` under the feature word-token.
unfoldable pub token_kind_itself : Method → TokenKind
token_kind_itself Method.word_token = TokenKind.words
token_kind_itself Method.column_word_token = TokenKind.words
token_kind_itself Method.word_token_reverse = TokenKind.reverse
token_kind_itself Method.column_word_token_reverse = TokenKind.reverse
token_kind_itself Method.long_match6 = TokenKind.reverse
token_kind_itself Method.long_match8 = TokenKind.reverse
token_kind_itself Method.long_match12 = TokenKind.reverse
token_kind_itself Method.long_match16 = TokenKind.reverse
token_kind_itself Method.long_match24 = TokenKind.reverse
token_kind_itself Method.sparse_match4g1 = TokenKind.reverse
token_kind_itself Method.sparse_match6g1 = TokenKind.reverse
token_kind_itself Method.sparse_match6g2 = TokenKind.reverse
token_kind_itself Method.rep_state1 = TokenKind.reverse
token_kind_itself Method.rep_state2 = TokenKind.reverse
token_kind_itself Method.rep_state3 = TokenKind.reverse
token_kind_itself Method.rep_state4 = TokenKind.reverse
token_kind_itself Method.match_byte = TokenKind.reverse
token_kind_itself Method.match_byte_const = TokenKind.reverse
token_kind_itself Method.phase4 = TokenKind.reverse
token_kind_itself Method.dist_match = TokenKind.reverse
token_kind_itself Method.word_class = TokenKind.reverse
token_kind_itself Method.word_class_const = TokenKind.reverse
token_kind_itself _ = TokenKind.none

unfoldable pub token_kind : Method → TokenKind
token_kind m = elim (on_phase4_parent m) [ true ↦ TokenKind.reverse | false ↦ token_kind_itself m ]

-- `reorder::Order`
pub data Order : Type 0 where
  identity title size struct min_hash greedy template category category_set full full_residual
        template_key shuffle :
      Order

unfoldable pub reorder_kind : Method → Option Order
reorder_kind Method.reorder_id = some Order.identity
reorder_kind Method.reorder_title = some Order.title
reorder_kind Method.reorder_size = some Order.size
reorder_kind Method.reorder_struct = some Order.struct
reorder_kind Method.reorder_min_hash = some Order.min_hash
reorder_kind Method.reorder_greedy = some Order.greedy
reorder_kind Method.reorder_template = some Order.template
reorder_kind Method.reorder_shuffle = some Order.shuffle
reorder_kind Method.reorder_category = some Order.category
reorder_kind Method.reorder_template_key = some Order.template_key
reorder_kind Method.reorder_category_set = some Order.category_set
reorder_kind Method.reorder_full = some Order.full
reorder_kind Method.reorder_full_residual = some Order.full_residual
reorder_kind Method.residual = some Order.full
reorder_kind Method.residual_ctl = some Order.full
reorder_kind Method.residual_mtf = some Order.full
reorder_kind Method.residual_move_to_second = some Order.full
reorder_kind Method.residual_priced = some Order.full
reorder_kind Method.residual_price_filter = some Order.full
reorder_kind Method.residual_affix = some Order.full
reorder_kind Method.residual_first_use = some Order.full
reorder_kind Method.residual_subword = some Order.full
reorder_kind _ = Option.none

-- `reorder_kind().is_some()`
unfoldable pub reorders : Method → Bool
reorders m = elim (reorder_kind m) [ some order ↦ true | Option.none ↦ false ]

unfoldable pub reorder_parent : Method → Method
reorder_parent m = Method.sse3

-- A corpus that cannot be reordered is coded under the parent of its method: that method is never
-- restored by sorting, and its other transforms are those of the method that was asked for.
pub reorder_parent_same_stages :
    (m : Method)
    → reorders m ≡ true
    → (reorders (reorder_parent m) ≡ false)
      × (hoists m ≡ hoists (reorder_parent m))
      × (token_kind m ≡ token_kind (reorder_parent m))
unfolding reorders reorder_kind reorder_parent hoists on_phase4_parent hoists_itself token_kind
    token_kind_itself
reorder_parent_same_stages Method.reorder_id h = (refl, refl, refl)
reorder_parent_same_stages _ h = ground arith
