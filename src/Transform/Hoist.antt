-- ===== src/Transform/Hoist.antt =====
-- src/transform/mod.rs: structural hoisting, `encode` and `decode`. The rest of the input from the
-- position `i` of the source on is a list, and the output is the list of the bytes that are pushed.
pub mod Match
pub mod RoundTrip
use zentropy.Prelude.{
  ℕ, zero, suc, ◌+◌, ◌-◌, ◌%◌, Bool, true, false, ◌&&◌, ◌||◌, Option, none, some, List, [], ◌∷◌,
  ◌++◌, leb, ◌==◌, if◌then◌else◌, length, drop, get_or, ◌^◌, codes, starts_with,
}

abbrev pub dict : List (List ℕ)
dict =
    codes "<page>"
    ∷ codes "</page>"
    ∷ codes "<title>"
    ∷ codes "</title>"
    ∷ codes "<text"
    ∷ codes "</text>"
    ∷ codes "<revision>"
    ∷ codes "</revision>"
    ∷ codes "<id>"
    ∷ codes "</id>"
    ∷ codes "<timestamp>"
    ∷ codes "</timestamp>"
    ∷ codes "<contributor>"
    ∷ codes "</contributor>"
    ∷ codes "<username>"
    ∷ codes "</username>"
    ∷ codes "<comment>"
    ∷ codes "</comment>"
    ∷ codes "<minor />"
    ∷ codes "&amp;"
    ∷ codes "&quot;"
    ∷ codes "&lt;"
    ∷ codes "&gt;"
    ∷ codes "&#"
    ∷ codes "{{"
    ∷ codes "}}"
    ∷ codes "[["
    ∷ codes "]]"
    ∷ codes "http://"
    ∷ codes "https://"
    ∷ codes "</mediawiki>"
    ∷ []

abbrev pub esc : ℕ
esc = 0x00

-- `DICT.len() as u8`
abbrev pub max_code : ℕ
max_code = 31

unfoldable pub is_reserved : ℕ → Bool
is_reserved b = leb b max_code || b == 0x7f

-- One round of the dictionary loop: an entry that fits replaces a shorter one.
unfoldable pub match_step : List ℕ → ℕ → List ℕ → Option (ℕ × ℕ) → Option (ℕ × ℕ)
match_step input idx entry none =
    if starts_with input entry then some (length entry, (idx + 1) % 2 ^ 8) else none
match_step input idx entry (some (bl, code)) =
    if starts_with input entry
    then if leb (length entry) bl then some (bl, code) else some (length entry, (idx + 1) % 2 ^ 8)
    else some (bl, code)

unfoldable pub match_loop : List ℕ → ℕ → List (List ℕ) → Option (ℕ × ℕ) → Option (ℕ × ℕ)
match_loop input idx [] best = best
match_loop input idx (entry ∷ entries) best =
    match_loop input (idx + 1) entries (match_step input idx entry best)

unfoldable pub best_match : List ℕ → Option (ℕ × ℕ)
best_match input = match_loop input 0 dict none

-- The main loop. A round consumes a byte at least, so the length of the input is enough fuel.
unfoldable pub encode_loop : ℕ → List ℕ → List ℕ
encode_loop zero input = []
encode_loop (suc fuel) [] = []
encode_loop (suc fuel) (b ∷ rest) = elim (best_match (b ∷ rest)) [
  | some (l, code) ↦ code ∷ encode_loop fuel (drop l (b ∷ rest))
  | none ↦ let out = encode_loop fuel rest in if is_reserved b then esc ∷ b ∷ out else b ∷ out
]

unfoldable pub encode : List ℕ → List ℕ
encode input = encode_loop (length input) input

-- What a byte other than the escape stands for.
unfoldable pub expand : ℕ → List ℕ
expand b = if leb 1 b && leb b max_code then get_or dict (b - 1) [] else b ∷ []

unfoldable pub decode : List ℕ → List ℕ
decode [] = []
decode (b ∷ []) = if b == esc then esc ∷ [] else expand b
decode (b ∷ c ∷ rest) = elim (b == esc) [
  | true ↦ c ∷ decode rest
  | false ↦ expand b ++ decode (c ∷ rest)
]
