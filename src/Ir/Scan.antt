-- ===== src/Ir/Scan.antt =====
-- src/ir/mod.rs: the character classes and the scanners. `input[i..]` is a list `s`, and positions
-- count from `i`.
use zentropy.Prelude.{
  ℕ, ◌+◌, ◌-◌, ◌^◌, Bool, ◌&&◌, ◌||◌, not, Option, none, some, List, [], ◌∷◌, ltb, leb, ◌==◌,
  if◌then◌else◌, length, drop, get_or, codes, starts_with, ◌>>=◌,
}
use zentropy.Ir.Kinds.{Kind}

unfoldable pub is_letter : ℕ → Bool
is_letter b = (leb b'A' b && leb b b'Z') || (leb b'a' b && leb b b'z')

unfoldable pub is_digit : ℕ → Bool
is_digit b = leb b'0' b && leb b b'9'

unfoldable pub is_space : ℕ → Bool
is_space b = b == b' ' || b == b'\t'

-- `is_ascii_alphanumeric`, `is_ascii_graphic`, `is_ascii_whitespace`
unfoldable pub is_alphanumeric : ℕ → Bool
is_alphanumeric b = is_letter b || is_digit b

unfoldable pub is_graphic : ℕ → Bool
is_graphic b = leb b'!' b && leb b b'~'

unfoldable pub is_whitespace : ℕ → Bool
is_whitespace b = b == b' ' || (b == b'\t' || (b == b'\n' || (b == 0x0c || b == b'\r')))

-- How many bytes at the front pass a test: `while j < n && test(input[j]) { j += 1 }`.
unfoldable pub run : (ℕ → Bool) → List ℕ → ℕ
run test [] = 0
run test (c ∷ s) = let more = run test s in if test c then 1 + more else 0

-- `windows(k).position(|w| w == pattern)`
unfoldable pub find : List ℕ → List ℕ → Option ℕ
find pattern [] = none
find pattern (c ∷ s) =
    let later = find pattern s in
    if starts_with (c ∷ s) pattern then some 0 else (do p ← later; some (p + 1))

-- A construct between two fixed texts.
unfoldable pub scan_between : List ℕ → List ℕ → List ℕ → Option ℕ
scan_between opening closing s =
    if starts_with s opening
    then (do p ← find closing (drop (length opening) s); some (length opening + p + length closing))
    else none

unfoldable pub scan_comment : List ℕ → Option ℕ
scan_comment = scan_between (codes "<!--") (codes "-->")

unfoldable pub scan_pi : List ℕ → Option ℕ
scan_pi = scan_between (codes "<?") (codes "?>")

unfoldable pub scan_cdata : List ℕ → Option ℕ
scan_cdata = scan_between (codes "<![CDATA[") (codes "]]>")

-- The loop of `scan_tag` at position `j`, where `previous` is the byte before it.
unfoldable pub tag_loop : Bool → ℕ → ℕ → List ℕ → Option (Bool × ℕ × Kind)
tag_loop is_close j previous [] = none
tag_loop is_close j previous (c ∷ s) =
    let later = tag_loop is_close (j + 1) c s in
    let self_closing = previous == b'/' in
    if c == b'>'
    then some (
      not is_close && not self_closing,
      j + 1,
      (if is_close then Kind.xml_close else if self_closing then Kind.xml_empty else Kind.xml_open),
    )
    else if c == b'\n' || c == b'<'
    then none
    else later

unfoldable pub scan_tag : List ℕ → Option (Bool × ℕ × Kind)
scan_tag s =
    if leb (length s) 1
    then none
    else (let is_close = get_or s 1 0 == b'/' in
        let ns = if is_close then 2 else 1 in
        if leb (length s) ns
        then none
        else (let c = get_or s ns 0 in
            if is_letter c || (c == b':' || c == b'_')
            then tag_loop is_close ns (get_or s (ns - 1) 0) (drop ns s)
            else none))

-- The loop of `scan_entity`: the position where it stops.
unfoldable pub entity_loop : ℕ → List ℕ → ℕ
entity_loop j [] = j
entity_loop j (c ∷ s) =
    let later = entity_loop (j + 1) s in
    if (is_alphanumeric c || c == b'#') && ltb j 34 then later else j

-- Where the name or the digits of an entity begin.
unfoldable pub digits_start : List ℕ → ℕ
digits_start s =
    if get_or s 1 0 == b'#'
    then if get_or s 2 0 == b'x' || get_or s 2 0 == b'X' then 3 else 2
    else 1

unfoldable pub scan_entity : List ℕ → Option ℕ
scan_entity s =
    let start = digits_start s in
    let j = entity_loop start (drop start s) in
    if j == start || (leb (length s) j || not (get_or s j 0 == b';')) then none else some (j + 1)

-- The depth counter is an `i32`, kept here with 2 ^ 31 added.
abbrev pub depth_zero : ℕ
depth_zero = 2 ^ 31

unfoldable pub balanced_loop : ℕ → ℕ → ℕ → ℕ → List ℕ → Option ℕ
balanced_loop opener closer j depth [] = none
balanced_loop opener closer j depth (b ∷ s) =
    let depth' = if b == opener then depth + 1 else if b == closer then depth - 1 else depth in
    let later = balanced_loop opener closer (j + 1) depth' s in
    if ltb j (2 ^ 16)
    then if not (b == opener) && (b == closer && depth' == depth_zero) then some (j + 1) else later
    else none

unfoldable pub scan_balanced : List ℕ → ℕ → ℕ → Option ℕ
scan_balanced s opener closer = balanced_loop opener closer 0 depth_zero s

unfoldable pub table_loop : ℕ → List ℕ → Option ℕ
table_loop j [] = none
table_loop j (a ∷ []) = none
table_loop j (a ∷ b ∷ s) =
    let later = table_loop (j + 1) (b ∷ s) in
    if ltb (j + 1) (2 ^ 20) then if a == b'|' && b == b'}' then some (j + 2) else later else none

unfoldable pub scan_table : List ℕ → Option ℕ
scan_table s = table_loop 2 (drop 2 s)

-- The length of the first of the four schemes that the input starts with.
unfoldable pub scheme : List ℕ → Option ℕ
scheme s =
    if starts_with s (codes "http://")
    then some 7
    else if starts_with s (codes "https://")
    then some 8
    else if starts_with s (codes "ftp://")
    then some 6
    else if starts_with s (codes "ftps://")
    then some 7
    else none

unfoldable pub in_url : ℕ → Bool
in_url b =
    not (is_whitespace b || (b == b'<' || (b == b'>' || (b == b'"' || (b == b']' || b == b'|')))))

unfoldable pub scan_url : List ℕ → Option ℕ
scan_url s = do start ← scheme s; some (start + run in_url (drop start s))
