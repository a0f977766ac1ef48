-- ===== src/Transform/Words/RoundTrip.antt =====
-- `word_token_decode_mode` undoes `word_token_encode_mode`, for every mode.
use zentropy.Transform.Words.{
  build_word_vocab, word_token_encode_vocab, word_token_encode_mode, tok_esc, put_entries,
  read_dict, token_word, token_byte, decode_body, word_token_encode_vocab_filtered,
  word_token_decode_mode,
}
use zentropy.Transform.Words.Vocab.{build_word_vocab_fits}
use zentropy.Transform.Wordwise.{words_fit, is_word_byte, wordwise}
use zentropy.Prelude.{
  ==→eq, ℕ, ◌-◌, ◌%◌, ◌^◌, ◌≤◌, ◌<◌, ◌≡◌, refl, sym, ap, ◌∙◌, Bool, true, false, none, some, List,
  [], ◌∷◌, ◌++◌, length, get_or, All, ltb, leb, ◌==◌, arith, Bool-cases, Option-cases, inl, inr,
  length-append, take-append_self, drop-append_self, append_assoc,
}
use mathlib.Core.Path.{ap₂, subst}
use zentropy.Ir.Scan.{is_letter}
use zentropy.Transform.IdList.{IdList, IdMode, new, id, resolve, touch}
use zentropy.Transform.IdList.IsOrder.{IsOrder, touch-IsOrder, new-IsOrder, resolve-id}
use zentropy.Transform.WordMap.{WordMap, get, index_words, get-index_words}
use zentropy.Transform.Wordwise.Loop.{IsWord, Stops, Stops-cons, undo-wordwise}

-- A dictionary of words of at most 255 bytes is read back as it was written, whatever follows it.
pub read_dict-put_entries :
    (vocab : List (List ℕ)) (rest : List ℕ)
    → All (λ w. length w ≤ 255) vocab
    → read_dict (length vocab) (put_entries vocab ++ rest) ≡ (vocab, rest)
unfolding read_dict put_entries
read_dict-put_entries [] rest h = refl
read_dict-put_entries (w ∷ vocab) rest h =
    let small : length w % 2 ^ 8 ≡ length w = omega (arith, h.0) in
    let fits : ltb (length (w ++ (put_entries vocab ++ rest))) (length w) ≡ false =
      ground (arith, length-append w (put_entries vocab ++ rest)) in
    rw
      (
        small,
        append_assoc w (put_entries vocab) rest,
        fits,
        take-append_self w (put_entries vocab ++ rest),
        drop-append_self w (put_entries vocab ++ rest),
        read_dict-put_entries vocab rest h.1,
      )
      refl

pub is_word_byte-ne_esc : (b : ℕ) → is_word_byte b ≡ true → (b == tok_esc) ≡ false
unfolding is_word_byte is_letter
is_word_byte-ne_esc b h = ground arith

pub esc_no_letter : is_word_byte tok_esc ≡ false
unfolding is_word_byte is_letter
esc_no_letter = refl

pub token_byte-Stops : (b : ℕ) (out : List ℕ) → is_word_byte b ≡ false → Stops (token_byte b ++ out)
unfolding token_byte
token_byte-Stops b out h = elim (Bool-cases (b == tok_esc)) [
  | inl y ↦ rw y (Stops-cons tok_esc (0 ∷ out) esc_no_letter)
  | inr n ↦ rw n (Stops-cons b out h)
]

module _ (dict : List (List ℕ)) (mode : IdMode) where
  decode_body-plain :
      (list : IdList) (b : ℕ) (rest : List ℕ)
      → (b == tok_esc) ≡ false
      → decode_body dict mode list (b ∷ rest) ≡ b ∷ decode_body dict mode list rest
  unfolding decode_body
  decode_body-plain list b [] h = rw h refl
  decode_body-plain list b (c ∷ rest) h = rw (h, decode_body) refl

  decode_body-nul :
      (list : IdList) (rest : List ℕ)
      → decode_body dict mode list (tok_esc ∷ 0 ∷ rest) ≡ 0 ∷ decode_body dict mode list rest
  unfolding decode_body
  decode_body-nul list rest = refl

  decode_body-token :
      (list : IdList) (token : ℕ) (rest : List ℕ)
      → 1 ≤ token
      → token ≤ length dict
      → decode_body dict mode list (tok_esc ∷ token ∷ rest)
        ≡ get_or dict (resolve list token) []
          ++ decode_body dict mode (touch list (resolve list token) mode) rest
  unfolding decode_body
  decode_body-token list token rest low high =
      let named : (token == 0) ≡ false = ground arith in
      let known : leb token (length dict) ≡ true = ground arith in
      rw (named, decode_body, known, decode_body) refl

  decode_body-word :
      (list : IdList) (w rest : List ℕ)
      → IsWord w
      → decode_body dict mode list (w ++ rest) ≡ w ++ decode_body dict mode list rest
  decode_body-word list [] rest h = refl
  decode_body-word list (b ∷ w) rest h =
      decode_body-plain list b (w ++ rest) (is_word_byte-ne_esc b h.0)
      ∙ ap (λ r. b ∷ r) (decode_body-word list w rest h.1)

  decode_body-byte :
      (list : IdList) (b : ℕ) (out rest : List ℕ)
      → decode_body dict mode list out ≡ rest
      → decode_body dict mode list (token_byte b ++ out) ≡ b ∷ rest
  unfolding token_byte
  decode_body-byte list b out rest h = elim (Bool-cases (b == tok_esc)) [
    | inl y ↦ rw (y, ==→eq b tok_esc y) (decode_body-nul list out ∙ ap (λ r. 0 ∷ r) h)
    | inr n ↦ rw n (decode_body-plain list b out n ∙ ap (λ r. b ∷ r) h)
  ]

-- A map that names the places of the words of a dictionary.
abbrev pub Names : List (List ℕ) → WordMap → Type 0
Names dict ids =
    (w : List ℕ) (vi : ℕ) → get ids w ≡ some vi → (vi < length dict) × (get_or dict vi [] ≡ w)

pub index_words-Names :
    (blocked : List ℕ → Bool) (vocab : List (List ℕ))
    → length vocab ≤ 255
    → Names vocab (index_words 8 blocked 0 vocab [])
index_words-Names blocked vocab bound w vi h =
    elim (get-index_words 8 blocked 0 vocab [] w vi (omega arith) h) [
      | inl empty ↦ absurd (unfold get in ground (arith, empty))
      | inr (low, high, at) ↦
          let here : vi - 0 ≡ vi = omega arith in
          (omega (arith, high), ap (λ (k : ℕ). get_or vocab k []) (sym here) ∙ at)
    ]

-- Encoder and decoder hold the same list.
abbrev InStep : List (List ℕ) → IdList → IdList → Type 0
InStep dict s d = (s ≡ d) × IsOrder (length dict) d

token_word-none :
    (ids : WordMap) (mode : IdMode) (s : IdList) (w : List ℕ)
    → get ids w ≡ none
    → token_word ids mode s w ≡ (w, s)
unfolding token_word
token_word-none ids mode s w h = rw (h, token_word) refl

token_word-some :
    (ids : WordMap) (mode : IdMode) (s : IdList) (w : List ℕ) (vi : ℕ)
    → get ids w ≡ some vi
    → token_word ids mode s w ≡ (tok_esc ∷ id s vi ∷ [], touch s vi mode)
unfolding token_word
token_word-some ids mode s w vi h = rw (h, token_word) refl

module _ (dict : List (List ℕ)) (ids : WordMap) (mode : IdMode) where
  -- What the decoder does with what was written for a word, when it can go on from there.
  abbrev Step : IdList → List ℕ → List ℕ → List ℕ → List ℕ × IdList → Type 0
  Step d w out rest done =
      ((d' : IdList) → InStep dict done.1 d' → decode_body dict mode d' out ≡ rest)
      → decode_body dict mode d (done.0 ++ out) ≡ w ++ rest

  token_word-Step :
      length dict ≤ 255
      → Names dict ids
      → (s d : IdList) (w out rest : List ℕ) → InStep dict s d
      → IsWord w
      → Step d w out rest (token_word ids mode s w)
  token_word-Step bound names s d w out rest (eq, order) letters = elim (Option-cases (get ids w)) [
    | inl missing ↦
        subst (Step d w out rest) (sym (token_word-none ids mode s w missing)) (λ next.
          decode_body-word dict mode d w out letters ∙ ap (λ r. w ++ r) (next d (eq, order)))
    | inr (vi, found) ↦
        let (inside, at) = names w vi found in
        let (low, high, back) = resolve-id (length dict) vi d bound inside order in
        subst (Step d w out rest) (sym (token_word-some ids mode s w vi found)) (λ next. rw eq (
          decode_body-token dict mode d (id d vi) out low high
          ∙ rw back (
              ap₂ ◌++◌ at (
                next (touch d vi mode) (
                  ap (λ l. touch l vi mode) eq,
                  touch-IsOrder (length dict) vi mode d bound inside order,
                )))))
  ]

  body_undone :
      length dict ≤ 255
      → Names dict ids
      → (input : List ℕ)
      → decode_body dict mode
          (new (length dict))
          (wordwise (token_word ids mode) token_byte (new (length dict)) input)
        ≡ input
  body_undone bound names input =
      undo-wordwise (token_word ids mode) token_byte (InStep dict)
        (λ d out rest. decode_body dict mode d out ≡ rest) (λ d. unfold decode_body in refl)
        (λ b out n. token_byte-Stops b out n)
        (λ d b out rest n h. decode_body-byte dict mode d b out rest h)
        (λ s d w out rest i letters long stop next.
          token_word-Step bound names s d w out rest i letters next)
        (new (length dict)) (new (length dict)) input (refl, new-IsOrder (length dict) bound)

-- Whatever vocabulary of at most 255 words of at most 255 bytes the input is encoded with, whichever
-- words are kept out of the substitution, and in each of the three modes, the decoder gives the input
-- back.
pub word_token_decode_mode-encode_vocab_filtered :
    (input : List ℕ) (vocab : List (List ℕ)) (blocked : List ℕ → Bool) (mode : IdMode)
    → length vocab ≤ 255
    → All (λ w. length w ≤ 255) vocab
    → word_token_decode_mode (word_token_encode_vocab_filtered input vocab blocked mode) mode
      ≡ input
unfolding word_token_decode_mode word_token_encode_vocab_filtered
word_token_decode_mode-encode_vocab_filtered input vocab blocked mode count short =
    let small : length vocab % 2 ^ 8 ≡ length vocab = omega arith in
    rw
      (
        small,
        read_dict-put_entries vocab
            (wordwise (token_word (index_words 8 blocked 0 vocab []) mode) token_byte
              (new (length vocab)) input)
            short,
      )
      (body_undone vocab (index_words 8 blocked 0 vocab []) mode count
        (index_words-Names blocked vocab count) input)

-- With the vocabulary that is built from the input, the decoder gives the input back, in each mode,
-- whether the ids are reversed or not, if no run of letters of the input is longer than 255 bytes.
pub word_token_decode_mode-encode_mode :
    (input : List ℕ) (reversed : Bool) (mode : IdMode)
    → words_fit 255 input ≡ true
    → word_token_decode_mode (word_token_encode_mode input reversed mode) mode ≡ input
unfolding word_token_encode_mode word_token_encode_vocab
word_token_decode_mode-encode_mode input reversed mode h =
    let (count, short) = build_word_vocab_fits input reversed h in
    word_token_decode_mode-encode_vocab_filtered input (build_word_vocab input reversed)
      (λ w. false) mode count short
