-- ===== src/Transform/Case.antt =====
-- src/transform/mod.rs: case factoring, `case_encode`, `case_encode_markonly` and their decoders.
pub mod RoundTrip
use zentropy.Prelude.{
  ℕ, zero, suc, ◌+◌, ◌-◌, Bool, true, false, ◌&&◌, List, [], ◌∷◌, ◌++◌, map, length, take, drop,
  leb, ◌==◌, if◌then◌else◌,
}
use zentropy.Ir.Scan.{is_letter, run}
use zentropy.Reorder.Keys.{to_lower}
use zentropy.Transform.Wordwise.{is_word_byte, wordwise}

abbrev pub case_esc : ℕ
case_esc = 0x00

abbrev pub case_title : ℕ
case_title = 0x01

abbrev pub case_upper : ℕ
case_upper = 0x02

abbrev pub case_mixed : ℕ
case_mixed = 0x03

-- `is_ascii_lowercase`, `is_ascii_uppercase`, `to_ascii_uppercase`
unfoldable pub is_lower : ℕ → Bool
is_lower b = leb b'a' b && leb b b'z'

unfoldable pub is_upper : ℕ → Bool
is_upper b = leb b'A' b && leb b b'Z'

unfoldable pub to_upper : ℕ → ℕ
to_upper b = if is_lower b then b - 32 else b

-- `iter().all(test)`
unfoldable pub every : (ℕ → Bool) → List ℕ → Bool
every test [] = true
every test (b ∷ w) = test b && every test w

pub data WordClass : Type 0 where
  lower title upper mixed : WordClass

-- Called for words of one letter at least: `w[0]` is there.
unfoldable pub word_class : List ℕ → WordClass
word_class [] = WordClass.lower
word_class (b ∷ w) =
    if every is_lower (b ∷ w)
    then WordClass.lower
    else if is_upper b && every is_lower w
    then WordClass.title
    else if every is_upper (b ∷ w)
    then WordClass.upper
    else WordClass.mixed

unfoldable pub case_word : List ℕ → WordClass → List ℕ
case_word w WordClass.lower = w
case_word w WordClass.title = case_title ∷ map to_lower w
case_word w WordClass.upper = case_upper ∷ map to_lower w
case_word w WordClass.mixed = case_mixed ∷ w

unfoldable pub mark_word : List ℕ → WordClass → List ℕ
mark_word w WordClass.lower = w
mark_word w WordClass.title = case_title ∷ w
mark_word w WordClass.upper = case_upper ∷ w
mark_word w WordClass.mixed = case_mixed ∷ w

unfoldable pub case_byte : ℕ → List ℕ
case_byte b = if leb b case_mixed then case_esc ∷ b ∷ [] else b ∷ []

unfoldable pub case_encode : List ℕ → List ℕ
case_encode input = wordwise {S = Unit} (λ s w. (case_word w (word_class w), tt)) case_byte tt input

unfoldable pub case_encode_markonly : List ℕ → List ℕ
case_encode_markonly input =
    wordwise {S = Unit} (λ s w. (mark_word w (word_class w), tt)) case_byte tt input

-- `out.push(input[s].to_ascii_uppercase()); out.extend_from_slice(&input[s + 1..i])`, if `i > s`.
unfoldable pub capitalise : List ℕ → List ℕ
capitalise [] = []
capitalise (b ∷ w) = to_upper b ∷ w

-- A round consumes a byte at least, so the length of the input is enough fuel.
unfoldable pub case_decode_loop : ℕ → List ℕ → List ℕ
case_decode_loop zero input = []
case_decode_loop (suc fuel) [] = []
case_decode_loop (suc fuel) (b ∷ rest) = elim (b == case_esc) [
  | true ↦ elim rest [ [] ↦ case_esc ∷ [] | c ∷ more ↦ c ∷ case_decode_loop fuel more ]
  | false ↦ elim (b == case_title) [
    | true ↦
        let j = run is_lower rest in capitalise (take j rest) ++ case_decode_loop fuel (drop j rest)
    | false ↦ elim (b == case_upper) [
      | true ↦
          let j = run is_lower rest in
          map to_upper (take j rest) ++ case_decode_loop fuel (drop j rest)
      | false ↦ elim (b == case_mixed) [
        | true ↦ let j = run is_word_byte rest in take j rest ++ case_decode_loop fuel (drop j rest)
        | false ↦ b ∷ case_decode_loop fuel rest
      ]
    ]
  ]
]

unfoldable pub case_decode : List ℕ → List ℕ
case_decode input = case_decode_loop (length input) input

unfoldable pub markonly_decode_loop : ℕ → List ℕ → List ℕ
markonly_decode_loop zero input = []
markonly_decode_loop (suc fuel) [] = []
markonly_decode_loop (suc fuel) (b ∷ rest) = elim (b == case_esc) [
  | true ↦ elim rest [ [] ↦ case_esc ∷ [] | c ∷ more ↦ c ∷ markonly_decode_loop fuel more ]
  | false ↦ elim (leb case_title b && leb b case_mixed) [
    | true ↦ let j = run is_word_byte rest in take j rest ++ markonly_decode_loop fuel (drop j rest)
    | false ↦ b ∷ markonly_decode_loop fuel rest
  ]
]

unfoldable pub case_decode_markonly : List ℕ → List ℕ
case_decode_markonly input = markonly_decode_loop (length input) input
