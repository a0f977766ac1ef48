-- ===== src/Grammar.antt =====
-- src/grammar/mod.rs: the stream of a grammar: varints, symbols, move-to-front ranks, and `decode`.
-- A reader takes the bytes that are left and returns its value with the bytes behind it.
pub mod Endless
pub mod MoveToFront
pub mod Spelling
pub mod Varint
pub mod RoundTrip
pub mod Repair
use zentropy.Prelude.{
  ℕ, zero, suc, ◌+◌, ◌-◌, ◌*◌, ◌/◌, ◌%◌, ◌^◌, Bool, true, false, not, Option, none, some, List, [],
  ◌∷◌, ◌++◌, ltb, leb, ◌==◌, if◌then◌else◌, length, get_or, get_elem?, take, drop, min, bit_and,
  bit_or, ◌>>=◌,
}
use zentropy.Reorder.Shuffle.{upto}

-- A `u32` has five groups of seven bits: the fuel is 5.
unfoldable pub put_groups : ℕ → ℕ → List ℕ
put_groups zero v = []
put_groups (suc fuel) v =
    let more = bit_or (bit_and (v % 2 ^ 8) 0x7f) 0x80 ∷ put_groups fuel (v / 2 ^ 7) in
    if leb 0x80 v then more else (v % 2 ^ 8) ∷ []

unfoldable pub put_varint : ℕ → List ℕ
put_varint v = put_groups 5 v

unfoldable pub get_groups : ℕ → ℕ → ℕ → List ℕ → ℕ × List ℕ
get_groups zero v shift input = (v, input)
get_groups (suc fuel) v shift [] = (v, [])
get_groups (suc fuel) v shift (b ∷ input) =
    let v' = bit_or v (bit_and b 0x7f * 2 ^ shift % 2 ^ 32) in
    let more = get_groups fuel v' (shift + 7) input in
    if bit_and b 0x80 == 0 then (v', input) else if ltb 28 (shift + 7) then (v', input) else more

-- The shift goes up by 7 and stops above 28: five rounds.
unfoldable pub get_varint : List ℕ → ℕ × List ℕ
get_varint input = get_groups 5 0 0 input

unfoldable pub put_sym : ℕ → List ℕ
put_sym s =
    if ltb s 255
    then s % 2 ^ 8 ∷ []
    else if s == 255
    then 0xff ∷ 0x00 ∷ []
    else 0xff ∷ put_varint (s - 255)

unfoldable pub get_sym : List ℕ → Option (ℕ × List ℕ)
get_sym [] = none
get_sym (b ∷ input) =
    let (v, rest) = get_varint input in
    if not (b == 0xff)
    then some (b, input)
    else if v == 0
    then some (255, rest)
    else some ((255 + v) % 2 ^ 32, rest)

-- `list.iter().position(|&x| x == s)`
unfoldable pub position : List ℕ → ℕ → Option ℕ
position [] s = none
position (x ∷ list) s =
    let rest = position list s in if x == s then some 0 else (do i ← rest; some (suc i))

unfoldable pub or_zero : Option ℕ → ℕ
or_zero none = 0
or_zero (some i) = i

-- `list.remove(pos)` and `list.insert(0, v)`
unfoldable pub to_front : List ℕ → ℕ → List ℕ
to_front list pos = get_or list pos 0 ∷ (take pos list ++ drop (suc pos) list)

unfoldable pub mtf_encode_loop : List ℕ → List ℕ → List ℕ
mtf_encode_loop list [] = []
mtf_encode_loop list (s ∷ seq) =
    let pos = or_zero (position list s) in
    (pos % 2 ^ 32) ∷ mtf_encode_loop (if ltb 0 pos then to_front list pos else list) seq

-- `(0..alphabet as u32).collect()`: the cast wraps around.
unfoldable pub symbols : ℕ → List ℕ
symbols alphabet = upto 0 (alphabet % 2 ^ 32)

unfoldable pub mtf_encode : List ℕ → ℕ → List ℕ
mtf_encode seq alphabet = mtf_encode_loop (symbols alphabet) seq

-- `none` is the panic of `list.remove(pos)`, where the list is empty.
unfoldable pub mtf_decode_loop : List ℕ → List ℕ → Option (List ℕ)
mtf_decode_loop list [] = some []
mtf_decode_loop list (p ∷ seq) =
    let pos = min p (length list - 1) in
    let rest = mtf_decode_loop (to_front list pos) seq in
    if ltb pos (length list) then (do out ← rest; some (get_or list pos 0 ∷ out)) else none

unfoldable pub mtf_decode : List ℕ → ℕ → Option (List ℕ)
mtf_decode seq alphabet = mtf_decode_loop (symbols alphabet) seq

-- The rules that are left to read; a truncated one ends the loop.
unfoldable pub get_rules : ℕ → List ℕ → List (ℕ × ℕ) × List ℕ
get_rules zero input = ([], input)
get_rules (suc n) input = elim (get_sym input) [
  | none ↦ ([], input)
  | some (a, rest) ↦ elim (get_sym rest) [
    | none ↦ ([], rest)
    | some (b, rest') ↦ let (rules, left) = get_rules n rest' in ((a, b) ∷ rules, left)
  ]
]

unfoldable pub get_ranks : ℕ → List ℕ → List ℕ
get_ranks zero input = []
get_ranks (suc n) [] = []
get_ranks (suc n) (b ∷ input) = let (r, rest) = get_varint (b ∷ input) in r ∷ get_ranks n rest

unfoldable pub get_syms : ℕ → List ℕ → List ℕ
get_syms zero input = []
get_syms (suc n) input = elim (get_sym input) [ none ↦ [] | some (s, rest) ↦ s ∷ get_syms n rest ]

-- How `decode` ends: in a panic, with its bytes, or not within the fuel of the expansion; the code has
-- no bound of its own.
pub data Outcome : Type 0 where
  unfinished : Outcome
  crashed : Outcome
  returned : List ℕ → Outcome

abbrev pub prepend : ℕ → Outcome → Outcome
prepend s unfinished = unfinished
prepend s crashed = crashed
prepend s (returned out) = returned (s ∷ out)

-- The expansion of the nonterminals, with the top of the stack first.
unfoldable pub expand : ℕ → List (ℕ × ℕ) → List ℕ → Outcome
expand zero rules stack = unfinished
expand (suc fuel) rules [] = returned []
expand (suc fuel) rules (s ∷ stack) =
    let literal = expand fuel rules stack in
    let push = λ (r : Option (ℕ × ℕ)). elim r as (λ _. Outcome) [
      | none ↦ expand fuel rules stack
      | some (a, b) ↦ expand fuel rules (a ∷ b ∷ stack)
    ] in
    if ltb s 256 then prepend s literal else push (get_elem? rules (s - 256))

unfoldable pub expand_body : ℕ → List (ℕ × ℕ) → Option (List ℕ) → Outcome
expand_body fuel rules none = crashed
expand_body fuel rules (some body) = expand fuel rules body

-- The symbols behind the rules. `none` is a panic.
unfoldable pub read_body : List (ℕ × ℕ) → List ℕ → Option (List ℕ)
read_body rules [] = some []
read_body rules (flag ∷ input) =
    let (n, rest) = get_varint input in
    if not (flag == 0)
    then mtf_decode (get_ranks n rest) (256 + length rules)
    else some (get_syms n rest)

-- `decode`, with fuel for the expansion. Without a byte behind the rules it returns at once.
unfoldable pub decode_body : ℕ → List (ℕ × ℕ) → List ℕ → Outcome
decode_body fuel rules [] = returned []
decode_body fuel rules (flag ∷ input) = expand_body fuel rules (read_body rules (flag ∷ input))

unfoldable pub read_rules : List ℕ → List (ℕ × ℕ) × List ℕ
read_rules input = let (count, rest) = get_varint input in get_rules count rest

unfoldable pub decode : ℕ → List ℕ → Outcome
decode fuel input = let (rules, left) = read_rules input in decode_body fuel rules left

-- The rules, the ranks and the symbols, as `encode_ex` writes them.
unfoldable pub put_rules : List (ℕ × ℕ) → List ℕ
put_rules [] = []
put_rules ((a, b) ∷ rules) = put_sym a ++ (put_sym b ++ put_rules rules)

unfoldable pub put_ranks : List ℕ → List ℕ
put_ranks [] = []
put_ranks (r ∷ ranks) = put_varint r ++ put_ranks ranks

unfoldable pub put_syms : List ℕ → List ℕ
put_syms [] = []
put_syms (s ∷ body) = put_sym s ++ put_syms body

-- `encode_ex` behind the induction of `rules` and `body`, with `as u32` and `u8::from` written out.
unfoldable pub write : List (ℕ × ℕ) → List ℕ → Bool → List ℕ
write rules body mtf =
    put_varint (length rules % 2 ^ 32)
    ++ (put_rules rules
        ++ ((if mtf then 1 else 0)
            ∷ (put_varint (length body % 2 ^ 32)
                ++ (if mtf
                    then put_ranks (mtf_encode body (256 + length rules))
                    else put_syms body))))
