-- ===== src/Transform/Words.antt =====
-- src/transform/mod.rs: the word tokenizer, `build_word_vocab`, `word_token_encode*` and
-- `word_token_decode*`.
pub mod Vocab
pub mod RoundTrip
use zentropy.Prelude.{
  filter_by, ℕ, zero, suc, ◌+◌, ◌-◌, ◌*◌, ◌%◌, ◌^◌, Bool, true, false, ◌&&◌, Option, none, some,
  List, [], ◌∷◌, ◌++◌, map, length, take, drop, get_or, ltb, leb, ◌==◌, if◌then◌else◌,
}
use Prim.Native.Nat.{compare}
use mathlib.Core.List.{reverse}
use zentropy.Prelude.Sort.{sort_by}
use zentropy.Ir.Scan.{run}
use zentropy.Reorder.Keys.{compare_bytes, and_then, not_after}
use zentropy.Transform.IdList.{IdList, IdMode, new, id, resolve, touch}
use zentropy.Transform.WordMap.{WordMap, get, add_one, index_words}
use zentropy.Transform.Wordwise.{is_word_byte, wordwise}

abbrev pub tok_esc : ℕ
tok_esc = 0x00

abbrev pub max_tokens : ℕ
max_tokens = 255

-- A round consumes a byte at least, so the length of the input is enough fuel.
unfoldable pub word_counts_loop : ℕ → WordMap → List ℕ → WordMap
word_counts_loop zero counts input = counts
word_counts_loop (suc fuel) counts [] = counts
word_counts_loop (suc fuel) counts (b ∷ rest) = elim (is_word_byte b) [
  | true ↦
      let j = run is_word_byte (b ∷ rest) in
      word_counts_loop fuel (add_one counts (take j (b ∷ rest))) (drop j (b ∷ rest))
  | false ↦ word_counts_loop fuel counts rest
]

unfoldable pub word_counts : List ℕ → WordMap
word_counts input = word_counts_loop (length input) [] input

-- The two filters: the subtraction is exact, since the length is 3 at least.
unfoldable pub is_candidate : List ℕ × ℕ → Bool
is_candidate e = (leb 3 (length e.0) && leb 2 e.1) && ltb (length e.0 + 1) (e.1 * (length e.0 - 2))

-- By descending count, then by word.
unfoldable pub ranks_before : List ℕ × ℕ → List ℕ × ℕ → Bool
ranks_before a b = not_after (and_then (compare b.1 a.1) (compare_bytes a.0 b.0))

unfoldable pub candidates : List ℕ → Bool → List (List ℕ × ℕ)
candidates input reversed =
    let cand =
      take max_tokens (sort_by ranks_before (filter_by is_candidate (word_counts input))) in
    if reversed then reverse cand else cand

unfoldable pub build_word_vocab : List ℕ → Bool → List (List ℕ)
build_word_vocab input reversed = map (λ e. e.0) (candidates input reversed)

-- The dictionary: for each word its length in a byte, and its bytes.
unfoldable pub put_entries : List (List ℕ) → List ℕ
put_entries [] = []
put_entries (w ∷ vocab) = (length w % 2 ^ 8) ∷ w ++ put_entries vocab

unfoldable pub token_word : WordMap → IdMode → IdList → List ℕ → List ℕ × IdList
token_word ids mode list w = elim (get ids w) [
  | some vi ↦ (tok_esc ∷ id list vi ∷ [], touch list vi mode)
  | none ↦ (w, list)
]

unfoldable pub token_byte : ℕ → List ℕ
token_byte b = if b == tok_esc then tok_esc ∷ 0 ∷ [] else b ∷ []

unfoldable pub word_token_encode_vocab_filtered :
    List ℕ → List (List ℕ) → (List ℕ → Bool) → IdMode → List ℕ
word_token_encode_vocab_filtered input vocab blocked mode =
    (length vocab % 2 ^ 8) ∷ put_entries vocab
    ++ wordwise (token_word (index_words 8 blocked 0 vocab []) mode) token_byte (new (length vocab))
        input

-- The same code with no word blocked.
unfoldable pub word_token_encode_vocab : List ℕ → List (List ℕ) → IdMode → List ℕ
word_token_encode_vocab input vocab mode =
    word_token_encode_vocab_filtered input vocab (λ w. false) mode

unfoldable pub word_token_encode_mode : List ℕ → Bool → IdMode → List ℕ
word_token_encode_mode input reversed mode =
    word_token_encode_vocab input (build_word_vocab input reversed) mode

unfoldable pub word_token_encode : List ℕ → Bool → List ℕ
word_token_encode input reversed = word_token_encode_mode input reversed IdMode.static

-- `for _ in 0..count`: the entries up to the first that is cut off, and what is left to read.
unfoldable pub read_dict : ℕ → List ℕ → List (List ℕ) × List ℕ
read_dict zero body = ([], body)
read_dict (suc count) [] = ([], [])
read_dict (suc count) (l ∷ body) =
    let more = read_dict count (drop l body) in
    if ltb (length body) l then ([], body) else (take l body ∷ more.0, more.1)

unfoldable pub decode_body : List (List ℕ) → IdMode → IdList → List ℕ → List ℕ
decode_body dict mode list [] = []
decode_body dict mode list (b ∷ []) = if b == tok_esc then [] else b ∷ []
decode_body dict mode list (b ∷ token ∷ rest) = elim (b == tok_esc) [
  | true ↦ elim (token == 0) [
    | true ↦ 0 ∷ decode_body dict mode list rest
    | false ↦ elim (leb token (length dict)) [
      | true ↦
          let vi = resolve list token in
          get_or dict vi [] ++ decode_body dict mode (touch list vi mode) rest
      | false ↦ decode_body dict mode list rest
    ]
  ]
  | false ↦ b ∷ decode_body dict mode list (token ∷ rest)
]

unfoldable pub word_token_decode_mode : List ℕ → IdMode → List ℕ
word_token_decode_mode [] mode = []
word_token_decode_mode (count ∷ rest) mode =
    let read = read_dict count rest in decode_body read.0 mode (new (length read.0)) read.1

unfoldable pub word_token_decode : List ℕ → List ℕ
word_token_decode input = word_token_decode_mode input IdMode.static
