-- ===== src/Archive/Sfx.antt =====
-- src/archive.rs: `append_sfx` and `extract_sfx`, the self-extracting container.
use zentropy.Prelude.{ltb→le}
use zentropy.Prelude.{take_self}
use zentropy.Prelude.{drop-append_self}
use zentropy.Prelude.{sym}
use zentropy.Prelude.{==→eq}
use zentropy.Prelude.{◌≢◌}
use zentropy.Prelude.{◌==◌}
use zentropy.Prelude.{
  ℕ, zero, suc, ◌+◌, ◌-◌, ◌%◌, ◌^◌, ◌≤◌, ◌<◌, Bool, true, false, Option, none, some, List, [], ◌∷◌,
  ◌++◌, ltb, if◌then◌else◌, length, drop, take, starts_with, ◌≡◌, arith, codes, Bool-cases, inl,
  inr, ap, ◌∙◌, length-append,
}
use zentropy.Archive.Header.{
  to_le_bytes, from_le_bytes, from_le_bytes-to_le_bytes, length-to_le_bytes,
}

-- b"\0ZNTROPY-SFX\0\0\0"
abbrev pub sfx_marker : List ℕ
sfx_marker = 0 ∷ (codes "ZNTROPY-SFX" ++ (0 ∷ 0 ∷ 0 ∷ []))

unfoldable pub append_sfx : List ℕ → List ℕ → List ℕ
append_sfx image archive = image ++ (sfx_marker ++ (to_le_bytes 8 (length archive) ++ archive))

-- What `extract_sfx` does: it returns, or it panics on a slice whose end lies before its start.
pub data Extracted : Type 0 where
  returned : Option (List ℕ) → Extracted
  panics : Extracted

-- `&image[i..i + SFX_MARKER.len()] == SFX_MARKER`, for an `i` from which the marker fits.
unfoldable pub marker_at : List ℕ → ℕ → Bool
marker_at image i = starts_with (drop i image) sfx_marker

-- The position of the last marker at `i` or before.
unfoldable pub last_marker : List ℕ → ℕ → Option ℕ
last_marker image zero = if marker_at image 0 then some 0 else none
last_marker image (suc i) = elim (marker_at image (suc i)) [
  | true ↦ some (suc i)
  | false ↦ last_marker image i
]

-- `start + len` wraps at 2 ^ 64, on a 64-bit machine without overflow checks, and the slice then
-- panics; with overflow checks the sum does.
unfoldable pub read_at : List ℕ → ℕ → Extracted
read_at image i =
    let len_off = i + 15 in
    if ltb (length image) (len_off + 8)
    then returned none
    else (let len = from_le_bytes (take 8 (drop len_off image)) in
        let start = len_off + 8 in
        let stop = (start + len) % 2 ^ 64 in
        if ltb (length image) stop
        then returned none
        else if ltb stop start
        then panics
        else returned (some (take (stop - start) (drop start image))))

unfoldable pub extract_sfx : List ℕ → Extracted
extract_sfx image =
    if ltb (length image) 15 then returned none else elim (last_marker image (length image - 15)) [
      | none ↦ returned none
      | some i ↦ read_at image i
    ]

last_marker_unique :
    (image : List ℕ) (i k : ℕ)
    → k ≤ i
    → marker_at image k ≡ true
    → ((j : ℕ) → k < j → j ≤ i → marker_at image j ≡ false)
    → last_marker image i ≡ some k
unfolding last_marker
last_marker_unique image zero zero h at none_later = rw at
last_marker_unique image zero (suc k) h at none_later = absurd (omega arith)
last_marker_unique image (suc i) k h at none_later = elim (Bool-cases (k == suc i)) [
  | inl here ↦
      let e : k ≡ suc i = ==→eq k (suc i) here in
      let at' : marker_at image (suc i) ≡ true = rw e at at in
      rw (at', last_marker) (ap some (sym e))
  | inr ne ↦
      let later = none_later (suc i) (ground arith) (omega arith) in
      let ih =
        last_marker_unique image i k (ground arith) at
          (λ j low high. none_later j low (omega arith)) in
      rw (later, last_marker) ih
]

last_marker-le :
    (image : List ℕ) (i j : ℕ)
    → j ≤ i
    → marker_at image j ≡ true
    → (k : ℕ) × (last_marker image i ≡ some k) × (j ≤ k)
unfolding last_marker
last_marker-le image zero zero h at = (zero, rw at, omega arith)
last_marker-le image zero (suc j) h at = absurd (omega arith)
last_marker-le image (suc i) j h at = elim (Bool-cases (marker_at image (suc i))) [
  | inl here ↦ (suc i, rw (here, last_marker), h)
  | inr gone ↦
      let e : j ≢ suc i = λ same. cc (rw same at at) in
      let (k, found, low) = last_marker-le image i j (omega arith) at in
      (k, rw (gone, last_marker) found, low)
]

drop-append_add {ℓ} :
    {A : Type ℓ} (xs ys : List A) (k : ℕ) → drop (length xs + k) (xs ++ ys) ≡ drop k ys
drop-append_add [] ys k = let e : 0 + k ≡ k = omega arith in rw e
drop-append_add (x ∷ xs) ys k =
    let e : suc (length xs) + k ≡ suc (length xs + k) = omega arith in
    rw e (drop-append_add xs ys k)

module _ (image archive : List ℕ) where
  abbrev pub whole : List ℕ
  whole = append_sfx image archive

  length-append_sfx : length whole ≡ length image + 23 + length archive
  unfolding append_sfx
  length-append_sfx =
      length-append image _
      ∙ omega (
        arith,
        length-append {0} (to_le_bytes 8 (length archive)) archive,
        length-to_le_bytes 8 (length archive),
      )

  length_stored :
      length whole < 2 ^ 64
      → from_le_bytes (take 8 (drop (length image + 15) whole)) ≡ length archive
  unfolding append_sfx to_le_bytes
  length_stored small =
      let fits : length archive < 256 ^ 8 = omega (arith, length-append_sfx) in
      ap (λ r. from_le_bytes (take 8 r)) (drop-append_add image _ 15)
      ∙ from_le_bytes-to_le_bytes 8 (length archive) fits

  archive_stored : drop (length image + 15 + 8) whole ≡ archive
  unfolding append_sfx to_le_bytes
  archive_stored =
      let e : length image + 15 + 8 ≡ length image + 23 = omega arith in
      rw e (drop-append_add image _ 23)

  read_at-own : length whole < 2 ^ 64 → read_at whole (length image) ≡ returned (some archive)
  unfolding read_at
  read_at-own small =
      let len = length-append_sfx in
      let field = length_stored small in
      let start = length image + 15 + 8 in
      let stop : (start + length archive) % 2 ^ 64 ≡ length whole = omega (arith, len) in
      let fits : ltb (length whole) start ≡ false = ground (arith, len) in
      let inside : ltb (length whole) (length whole) ≡ false = ground arith in
      let width : length whole - start ≡ length archive = omega (arith, len) in
      rw (field, stop, fits, inside)
        (rw (width, archive_stored) (ap (λ r. returned (some r)) (take_self archive)))

  marker_at-own : marker_at whole (length image) ≡ true
  unfolding marker_at append_sfx starts_with
  marker_at-own = rw (drop-append_self image _)

  -- What is appended is extracted, if the file is below 2 ^ 64 bytes and no marker begins behind the
  -- appended one.
  pub extract_sfx-append_sfx :
      length whole < 2 ^ 64
      → ((j : ℕ) → length image < j → j ≤ length whole - 15 → marker_at whole j ≡ false)
      → extract_sfx whole ≡ returned (some archive)
  unfolding extract_sfx
  extract_sfx-append_sfx small none_later =
      let long : ltb (length whole) 15 ≡ false = ground (arith, length-append_sfx) in
      let found =
        last_marker_unique whole (length whole - 15) (length image)
          (omega (arith, length-append_sfx)) marker_at-own none_later in
      rw (long, found) (read_at-own small)

length-take-le {ℓ} : {A : Type ℓ} (n : ℕ) (xs : List A) → length (take n xs) ≤ n
length-take-le zero xs = omega arith
length-take-le (suc n) [] = omega arith
length-take-le (suc n) (x ∷ xs) = omega (arith, length-take-le n xs)

returned-injective : {r s : List ℕ} → returned (some r) ≡ returned (some s) → r ≡ s
returned-injective e = cc

-- What is read at a marker lies behind the marker and its length field.
read_at_room :
    (image : List ℕ) (i : ℕ) (r : List ℕ)
    → read_at image i ≡ returned (some r)
    → i + 23 + length r ≤ length image
unfolding read_at
read_at_room image i r e =
    let len = from_le_bytes (take 8 (drop (i + 15) image)) in
    let start = i + 15 + 8 in
    let stop = (start + len) % 2 ^ 64 in
    elim (Bool-cases (ltb (length image) start)) [
      | inl short ↦ cc (rw short at e)
      | inr full ↦ elim (Bool-cases (ltb (length image) stop)) [
        | inl outside ↦ cc (rw (full, outside) at e)
        | inr inside ↦ elim (Bool-cases (ltb stop start)) [
          | inl wrapped ↦ cc (rw (full, inside, wrapped) at e)
          | inr ordered ↦
              let same : take (stop - start) (drop start image) ≡ r =
                returned-injective (rw (full, inside, ordered) at e) in
              omega (
                arith,
                ap length same,
                length-take-le (stop - start) (drop start image),
                ltb→le _ _ inside,
                ltb→le _ _ ordered,
              )
        ]
      ]
    ]

module _ (image archive : List ℕ) where
  -- An archive in which the marker occurs is not extracted: whatever `extract_sfx` does, it does not
  -- return the archive that was appended.
  pub extract_sfx-marker_inside :
      (j : ℕ)
      → length image < j
      → j ≤ length (whole image archive) - 15
      → marker_at (whole image archive) j ≡ true
      → extract_sfx (whole image archive) ≢ returned (some archive)
  unfolding extract_sfx
  extract_sfx-marker_inside j low high at e =
      let len = length-append_sfx image archive in
      let long : ltb (length (whole image archive)) 15 ≡ false = ground (arith, len) in
      let (k, found, after) =
        last_marker-le (whole image archive) (length (whole image archive) - 15) j high at in
      let e' : read_at (whole image archive) k ≡ returned (some archive) = rw (long, found) at e in
      absurd (omega (arith, len, read_at_room (whole image archive) k archive e'))
