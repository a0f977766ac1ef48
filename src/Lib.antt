-- ===== src/Lib.antt =====
-- A model of Zentropy, the context-mixing compressor of this repository, and proofs of what makes
-- it lossless.
--
-- The program reads a file, rewrites it by reversible byte transforms, and codes the bits of the
-- result with a binary range coder whose probabilities come from a model that learns as it goes.
-- The decoder runs the same model, reads the bits back, and undoes the transforms in reverse order.
--
-- Files, and the code that they model (paths from the repository's root):
-- - Prelude: shared names, lists over the native numbers, laws of the bit operations.
-- - Entropy, Entropy/Range: `RangeEncoder` and `RangeDecoder` of src/entropy/mod.rs. Word has the
--   word operations, Interval the renormalising loops, Step one coded symbol, Sync the decoder
--   beside the encoder.
-- - Entropy/AdaptiveBit: `AdaptiveBit` of src/entropy/mod.rs.
-- - Entropy/Rans: the rANS coder of src/entropy/rans.rs over a given table. Slot has the arithmetic
--   of one symbol.
-- - Archive/Coder: the coding loops of `encode_tuned` and `decode` in src/archive.rs, over any model.
-- - Archive/Pipeline: `encode_tuned` and `decode` of src/archive.rs for the scored build, composed of
--   all its stages. Stages has what each stage owes to the next, RoundTrip the whole.
-- - Archive/Method, Archive/Header, Archive/Sfx: the coding methods, the header and the
--   self-extracting container of src/archive.rs.
-- - Transform/Hoist: structural hoisting, `encode` and `decode` of src/transform/mod.rs.
-- - Transform/Wordwise: the loop by words that the word transforms of src/transform/mod.rs share, with
--   what a decoder must do to undo it (Loop), and the marks and escapes of two of them (Escaped).
-- - Transform/Words, Transform/IdList, Transform/WordMap: the word tokenizer of src/transform/mod.rs,
--   `build_word_vocab`, `word_token_encode*`, `word_token_decode*`, with the list that gives a token its
--   id (`IdList`, which IdList/Refines describes on the tokens alone) and the hash maps, as association
--   lists.
-- - Transform/Case, Transform/Stem: case factoring and stemming of src/transform/mod.rs.
-- - Ir: the tokenisation of src/ir/mod.rs. Kinds has the token kinds, Scan the scanners, Spans how
--   far they reach, Partition the partition and the rendering.
-- - Reorder: the article reordering of src/reorder/mod.rs. Pages has the splitting of a page stream
--   (Find: the search for tags, Cut: a stream cut behind a page, Sound and Stream: what `split`
--   accepts, Complete: what it finds), Keys, Signature and Novelty what the orders sort by, Shuffle
--   the orders that do not sort, Orders `encode` and `restore`.
-- - Grammar: the grammar stream of src/grammar/mod.rs: varints, symbols, ranks (MoveToFront) and
--   `decode`, whose expansion takes its fuel from outside (Spelling: what a grammar derives, and the
--   expansion of rules that refer to earlier ones, Endless: of a rule that refers to itself), and the
--   writing of a grammar (Varint: the numbers, RoundTrip: the whole). Grammar/Repair has the
--   induction of the rules (Lossless: the substitution, Pattern: its pattern, RoundTrip: `encode_ex`).
-- - Mixer: src/mixer/mod.rs. Squash has the logistic curve, Stretch its inverse table, Mix the mixer,
--   Apm the adaptive map of predictions.
-- - Context: parts of src/context/mod.rs. Hash has the hashes and the stemming of a context, Match the
--   match model, Table the tables of probabilities and of bit histories.
-- - Tests: concrete runs, and the theorems at concrete inputs.
--
-- The model is of the scored build (`--features accepted`). A machine word is a number with its
-- wrap-around written out, a byte buffer a list of numbers. A signed word is an integer (Prelude/Int), or
-- a number with 2 ^ 31 added where the code takes its bits apart.
-- Where a sum overflows, the model wraps around, and a shift takes its amount modulo the width of the
-- word, as in the release profile; the scored profile has overflow checks and aborts there.
-- A loop runs on fuel: four rounds for the renormalisation of the range coder, which shifts a byte
-- out each time, and the length of the input where each round consumes a byte. A sort is a stable
-- insertion sort, since all that the code uses of a sort is its result.
--
-- Not modelled: the predictor that puts the experts together, its configurations, and the indirect
-- and PPM experts (the coding loops take the model as a parameter), the
-- variants of the word tokenizer that the scored build never runs (word_token2, first-use, phrase,
-- front-coded, affix, subword), the alphabet permutations, the variants of the grammar coder,
-- the building of rANS tables, the learned corrector, the search layer, scores, the memory guard, and
-- the command line with its input and output.
pub mod Prelude
pub mod Entropy
pub mod Transform
pub mod Ir
pub mod Mixer
pub mod Context
pub mod Reorder
pub mod Grammar
pub mod Archive
pub mod Tests
