-- ===== src/Archive/Header.antt =====
-- src/archive.rs: the container's header, as `encode_tuned` writes it and as `peek_len` and
-- `peek_header` read it.
use zentropy.Prelude.{ltb→le}
use zentropy.Prelude.{Option-cases}
use zentropy.Prelude.{
  ℕ, zero, suc, ◌+◌, ◌*◌, ◌/◌, ◌%◌, ◌^◌, ◌≤◌, ◌<◌, Bool, false, ◌||◌, not, Option, none, some, List,
  [], ◌∷◌, ◌++◌, ltb, if◌then◌else◌, length, drop, take, get_or, ◌>>=◌, codes, starts_with, ◌≡◌,
  refl, arith, ap, Bool-cases, inl, inr,
}
use native.Mathlib.Nat.{pow-suc}
use zentropy.Archive.Method.{Method, id}
use zentropy.Archive.Method.Id.{method_from_id, method_from_id-id}

abbrev pub magic : List ℕ
magic = codes "ZNT0"

abbrev pub header_len : ℕ
header_len = 4 + 1 + 1 + 8

abbrev pub max_output : ℕ
max_output = 2_000_000_000

-- `to_le_bytes` and `from_le_bytes` of an integer of `w` bytes.
unfoldable pub to_le_bytes : ℕ → ℕ → List ℕ
to_le_bytes zero n = []
to_le_bytes (suc w) n = (n % 256) ∷ to_le_bytes w (n / 256)

unfoldable pub from_le_bytes : List ℕ → ℕ
from_le_bytes [] = 0
from_le_bytes (b ∷ bs) = b + 256 * from_le_bytes bs

-- The bytes that `encode_tuned` puts in front of the payload, for a method without a permutation.
unfoldable pub header : Method → ℕ → ℕ → List ℕ
header method tune n = magic ++ id method ∷ tune ∷ to_le_bytes 8 n

-- `archive.len() < HEADER_LEN || &archive[0..4] != MAGIC`
unfoldable pub is_foreign : List ℕ → Bool
is_foreign archive = ltb (length archive) header_len || not (starts_with archive magic)

-- The length field.
unfoldable pub length_field : List ℕ → ℕ
length_field archive = from_le_bytes (take 8 (drop 6 archive))

unfoldable pub peek_len : List ℕ → Option ℕ
peek_len archive =
    if is_foreign archive
    then none
    else (let n = length_field archive in if ltb max_output n then none else some n)

unfoldable pub peek_header : List ℕ → Option (Method × ℕ × ℕ)
peek_header archive = if is_foreign archive then none else (do
  method ← method_from_id (get_or archive 4 0)
  let n = length_field archive
  if ltb max_output n then none else some (method, get_or archive 5 0, n))

pub from_le_bytes-to_le_bytes : (w n : ℕ) → n < 256 ^ w → from_le_bytes (to_le_bytes w n) ≡ n
unfolding from_le_bytes to_le_bytes
from_le_bytes-to_le_bytes zero n h = omega arith
from_le_bytes-to_le_bytes (suc w) n h =
    omega (arith, from_le_bytes-to_le_bytes w (n / 256) (omega (arith, pow-suc 256 w)))

pub length-to_le_bytes : (w n : ℕ) → length (to_le_bytes w n) ≡ w
unfolding to_le_bytes
length-to_le_bytes zero n = refl
length-to_le_bytes (suc w) n = ap suc (length-to_le_bytes w (n / 256))

pub header_own :
    (method : Method) (tune n : ℕ) (payload : List ℕ)
    → is_foreign (header method tune n ++ payload) ≡ false
unfolding header is_foreign starts_with to_le_bytes
header_own method tune n payload = ground arith

pub header_length :
    (method : Method) (tune n : ℕ) (payload : List ℕ)
    → n ≤ max_output
    → length_field (header method tune n ++ payload) ≡ n
unfolding header length_field to_le_bytes
header_length method tune n payload h =
    unfold to_le_bytes in from_le_bytes-to_le_bytes 8 n (omega arith)

-- The header that is written declares its method, its tune byte and its length, whatever follows.
pub peek_header-header :
    (method : Method) (tune n : ℕ) (payload : List ℕ)
    → n ≤ max_output
    → (peek_header (header method tune n ++ payload) ≡ some (method, tune, n))
      × (peek_len (header method tune n ++ payload) ≡ some n)
unfolding peek_header peek_len
peek_header-header method tune n payload h =
    let own = header_own method tune n payload in
    let field = header_length method tune n payload h in
    let small : ltb max_output n ≡ false = ground arith in
    let at4 : get_or (header method tune n ++ payload) 4 0 ≡ id method = unfold header in refl in
    let at5 : get_or (header method tune n ++ payload) 5 0 ≡ tune = unfold header in refl in
    (rw (own, at4, method_from_id-id method, field, small, at5), rw (own, field, small))

own_length : (archive : List ℕ) → is_foreign archive ≡ false → header_len ≤ length archive
unfolding is_foreign
own_length archive h = ground arith

same_triple :
    (m method : Method) (t tune k n : ℕ)
    → if◌then◌else◌ {A = Option (Method × ℕ × ℕ)} (ltb max_output k) none (some (m, t, k))
      ≡ some (method, tune, n)
    → (k ≡ n) × (ltb max_output k ≡ false)
same_triple m method t tune k n e = elim (Bool-cases (ltb max_output k)) [
  | inl big ↦ cc (rw big at e)
  | inr small ↦
      let e' : ◌≡◌ {A = Option (Method × ℕ × ℕ)} (some (m, t, k)) (some (method, tune, n)) =
        rw small at e in
      (cc, small)
]

-- The two readers agree: a header that declares a configuration declares the length that
-- `peek_len` returns, which is at most the limit, and the archive has a whole header.
pub peek_header_sound :
    (archive : List ℕ) (method : Method) (tune n : ℕ)
    → peek_header archive ≡ some (method, tune, n)
    → (peek_len archive ≡ some n) × (n ≤ max_output) × (header_len ≤ length archive)
unfolding peek_header peek_len
peek_header_sound archive method tune n e = elim (Bool-cases (is_foreign archive)) [
  | inl foreign ↦ cc (rw foreign at e)
  | inr own ↦ elim (Option-cases (method_from_id (get_or archive 4 0))) [
    | inl unknown ↦ cc (rw (own, unknown) at e)
    | inr (m, known) ↦
        let (same, small) =
          same_triple m method (get_or archive 5 0) tune (length_field archive) n
            (rw (own, known) at e) in
        (rw (own, small) (ap some same), omega (arith, ltb→le _ _ small), own_length archive own)
  ]
]
