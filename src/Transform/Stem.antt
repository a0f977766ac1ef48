-- ===== src/Transform/Stem.antt =====
-- src/transform/mod.rs: the stem transform, `stem_encode` and `stem_decode`.
pub mod RoundTrip
use zentropy.Prelude.{
  ℕ, zero, suc, ◌+◌, ◌-◌, ◌%◌, ◌^◌, Bool, true, false, ◌&&◌, Option, none, some, List, [], ◌∷◌,
  ◌++◌, length, take, drop, get_or, ltb, leb, ◌==◌, if◌then◌else◌, codes,
}
use zentropy.Ir.Scan.{run}
use zentropy.Transform.WordMap.{same}
use zentropy.Transform.Wordwise.{is_word_byte, wordwise}

abbrev pub stem_esc : ℕ
stem_esc = 0x00

abbrev pub stem_mark : ℕ
stem_mark = 0x01

abbrev pub suffixes : List (List ℕ)
suffixes =
    codes "ation"
    ∷ codes "ition"
    ∷ codes "sion"
    ∷ codes "tion"
    ∷ codes "ness"
    ∷ codes "ment"
    ∷ codes "able"
    ∷ codes "ible"
    ∷ codes "less"
    ∷ codes "ing"
    ∷ codes "est"
    ∷ codes "ity"
    ∷ codes "ive"
    ∷ codes "ous"
    ∷ codes "ful"
    ∷ codes "ly"
    ∷ codes "es"
    ∷ codes "ed"
    ∷ codes "er"
    ∷ codes "s"
    ∷ []

-- `w.len() >= l + 2 && w.ends_with(suf)`
unfoldable pub fits : List ℕ → List ℕ → Bool
fits w suf = leb (length suf + 2) (length w) && same (drop (length w - length suf) w) suf

-- One round of the loop: a suffix that fits replaces a shorter one.
unfoldable pub stem_step : List ℕ → ℕ → List ℕ → Option (ℕ × ℕ) → Option (ℕ × ℕ)
stem_step w i suf none = if fits w suf then some (length suf, i % 2 ^ 8) else none
stem_step w i suf (some (bl, code)) =
    if fits w suf
    then if leb (length suf) bl then some (bl, code) else some (length suf, i % 2 ^ 8)
    else some (bl, code)

unfoldable pub stem_loop : List ℕ → ℕ → List (List ℕ) → Option (ℕ × ℕ) → Option (ℕ × ℕ)
stem_loop w i [] best = best
stem_loop w i (suf ∷ sufs) best = stem_loop w (i + 1) sufs (stem_step w i suf best)

unfoldable pub stem_split : List ℕ → Option (ℕ × ℕ)
stem_split w = stem_loop w 0 suffixes none

unfoldable pub stem_word : List ℕ → List ℕ
stem_word w = elim (stem_split w) [
  | some (l, code) ↦ stem_mark ∷ code ∷ take (length w - l) w
  | none ↦ w
]

unfoldable pub stem_byte : ℕ → List ℕ
stem_byte b = if leb b stem_mark then stem_esc ∷ b ∷ [] else b ∷ []

unfoldable pub stem_encode : List ℕ → List ℕ
stem_encode input = wordwise {S = Unit} (λ s w. (stem_word w, tt)) stem_byte tt input

-- A round consumes a byte at least, so the length of the input is enough fuel.
unfoldable pub stem_decode_loop : ℕ → List ℕ → List ℕ
stem_decode_loop zero input = []
stem_decode_loop (suc fuel) [] = []
stem_decode_loop (suc fuel) (b ∷ rest) = elim (b == stem_esc) [
  | true ↦ elim rest [ [] ↦ stem_esc ∷ [] | c ∷ more ↦ c ∷ stem_decode_loop fuel more ]
  | false ↦ elim (b == stem_mark) [
    | true ↦ elim rest [
      | [] ↦ stem_mark ∷ []
      | code ∷ more ↦
          let j = run is_word_byte more in
          take j more ++ get_or suffixes code [] ++ stem_decode_loop fuel (drop j more)
    ]
    | false ↦ b ∷ stem_decode_loop fuel rest
  ]
]

unfoldable pub stem_decode : List ℕ → List ℕ
stem_decode input = stem_decode_loop (length input) input
