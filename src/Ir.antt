-- ===== src/Ir.antt =====
-- src/ir/mod.rs: ZIR-0, the exactly reversible tokenisation of Wikipedia XML. Kinds and Scan have the
-- token kinds and the scanners, this file the classifier, the tokeniser and the renderer.
pub mod Kinds
pub mod Scan
pub mod Spans
pub mod Partition
use zentropy.Prelude.{
  ℕ, zero, suc, ◌+◌, ◌-◌, ◌%◌, ◌^◌, Bool, true, false, ◌&&◌, ◌||◌, not, Option, none, some, List,
  [], ◌∷◌, ◌++◌, ltb, leb, ◌==◌, if◌then◌else◌, length, drop, take, get_or, ◌>>=◌,
}
use zentropy.Ir.Kinds.{Kind}
use zentropy.Ir.Scan.{
  is_letter, is_digit, is_space, is_graphic, run, scan_comment, scan_pi, scan_cdata, scan_tag,
  scan_entity, scan_balanced, scan_table, scan_url,
}

pub record Token : Type 0 where
  pub kind : Kind
  pub start : ℕ
  pub len : ℕ

-- `if let Some(len) = … { return (kind, len); }`, and what follows otherwise.
abbrev pub return_if : Option ℕ → Kind → Option (Kind × ℕ) → Option (Kind × ℕ)
return_if (some len) kind next = some (kind, len)
return_if none kind next = next

abbrev pub return_tag : Option (Bool × ℕ × Kind) → Option (Kind × ℕ)
return_tag (some (is_open, len, kind)) = some (kind, len)
return_tag none = none

abbrev pub or_else {ℓ} : {A : Type ℓ} → Option A → A → A
or_else (some a) b = a
or_else none b = b

-- The constructs behind `<`, in the order in which they are tried.
unfoldable pub classify_markup : List ℕ → Option (Kind × ℕ)
classify_markup s =
    if get_or s 0 0 == b'<'
    then return_if (scan_comment s) Kind.xml_comment (
        return_if (scan_pi s) Kind.xml_pi
          (return_if (scan_cdata s) Kind.cdata (return_tag (scan_tag s))))
    else none

unfoldable pub classify_entity : List ℕ → Option (Kind × ℕ)
classify_entity s =
    if get_or s 0 0 == b'&' then return_if (scan_entity s) Kind.entity none else none

-- `b == first && i + 1 < n && input[i + 1] == second`
abbrev pub opens : List ℕ → ℕ → ℕ → Bool
opens s first second = get_or s 0 0 == first && (ltb 1 (length s) && get_or s 1 0 == second)

unfoldable pub classify_wiki : List ℕ → Option (Kind × ℕ)
classify_wiki s =
    if opens s b'{' b'{'
    then return_if (scan_balanced s b'{' b'}') Kind.template (some (Kind.punct, 2))
    else if opens s b'[' b'['
    then return_if (scan_balanced s b'[' b']') Kind.wiki_link (some (Kind.punct, 2))
    else if opens s b'{' b'|'
    then return_if (scan_table s) Kind.wiki_table (some (Kind.punct, 2))
    else none

unfoldable pub classify_url : List ℕ → Option (Kind × ℕ)
classify_url s =
    if (get_or s 0 0 == b'h' || get_or s 0 0 == b'f') && leb 7 (length s)
    then return_if (scan_url s) Kind.url none
    else none

-- A byte that a run of punctuation goes on over.
unfoldable pub goes_on : ℕ → Bool
goes_on c =
    is_graphic c
    && (not (is_letter c)
        && (not (is_digit c) && not (c == b'<' || (c == b'&' || (c == b'[' || c == b'{')))))

unfoldable pub is_newline : ℕ → Bool
is_newline c = c == b'\n' || c == b'\r'

-- The runs of one character class, and the raw rest.
unfoldable pub classify_run : List ℕ → Kind × ℕ
classify_run s =
    let b = get_or s 0 0 in
    let rest = drop 1 s in
    if is_letter b
    then (Kind.word, 1 + run is_letter rest)
    else if is_digit b
    then (Kind.number, 1 + run is_digit rest)
    else if is_space b
    then (Kind.spaces, 1 + run is_space rest)
    else if is_newline b
    then (Kind.newlines, 1 + run is_newline rest)
    else if is_graphic b
    then (Kind.punct, 1 + run goes_on rest)
    else (Kind.raw, 1 + run (λ c. leb 128 c) rest)

-- `classify(input, i)`, on the input from `i` on.
unfoldable pub classify : List ℕ → Kind × ℕ
classify s = or_else (classify_markup s) (
    or_else (classify_entity s)
      (or_else (classify_wiki s) (or_else (classify_url s) (classify_run s))))

-- The loop of `tokenize` at position `i`; every token takes a byte at least.
unfoldable pub tokenize_loop : ℕ → ℕ → List ℕ → List Token
tokenize_loop zero i s = []
tokenize_loop (suc fuel) i [] = []
tokenize_loop (suc fuel) i (b ∷ rest) =
    let (kind, len) = classify (b ∷ rest) in
    record { kind = kind; start = i % 2 ^ 32; len = len % 2 ^ 32 }
    ∷ tokenize_loop fuel (i + len) (drop len (b ∷ rest))

unfoldable pub tokenize : List ℕ → List Token
tokenize input = tokenize_loop (length input) 0 input

-- `&input[from..to]`; `none` is the panic out of bounds.
unfoldable pub slice : List ℕ → ℕ → ℕ → Option (List ℕ)
slice input from to =
    if leb from to && leb to (length input) then some (take (to - from) (drop from input)) else none

-- `render`, with the sum of `Token::range` in 32 bits. Its debug assertions are not modelled.
unfoldable pub render : List ℕ → List Token → Option (List ℕ)
render input [] = some []
render input (t ∷ ts) = do
  span ← slice input t.start ((t.start + t.len) % 2 ^ 32)
  rest ← render input ts
  some (span ++ rest)
