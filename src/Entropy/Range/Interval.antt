-- ===== src/Entropy/Range/Interval.antt =====
-- The renormalising loops of the range coder, and what the emitted bytes say about the interval.
use zentropy.Prelude.{
  ℕ, zero, suc, ◌+◌, ◌*◌, ◌/◌, ◌%◌, ◌^◌, ◌≤◌, ◌<◌, ◌≡◌, refl, ap, sym, ◌∙◌, true, false, arith,
  Bool-cases, inl, inr, List, [], ◌∷◌, ◌++◌, get_or, All, append-nil, append_assoc,
}
use native.Mathlib.Nat.{pow-suc}
use zentropy.Prelude.{◌≢◌}
use zentropy.Entropy.{IsByte, IsWord}
use zentropy.Entropy.Range.{RangeEncoder, same_top, shift_byte, shift_in, emit}
use zentropy.Entropy.Range.Word.{shift_in-eq, shift_byte-eq, same_top-true, same_top_of_tops}

-- What holds between two symbols: the top bytes differ.
pub record IsOpen (x1 x2 : ℕ) : Type 0 where
  pub word : IsWord x2
  pub tops : x1 / 2 ^ 24 < x2 / 2 ^ 24

-- What holds inside the loop.
pub record IsInterval (x1 x2 : ℕ) : Type 0 where
  pub word : IsWord x2
  pub le : x1 ≤ x2

pub shift-IsInterval :
    (x1 x2 : ℕ)
    → IsInterval x1 x2
    → x1 / 2 ^ 24 ≡ x2 / 2 ^ 24
    → IsInterval (shift_byte x1) (shift_in x2 0xff)
shift-IsInterval x1 x2 v e = rw (shift_byte-eq x1, shift_in-eq x2 0xff (omega arith)) (omega arith)

abbrev pub top_byte : ℕ → ℕ
top_byte x = x / 2 ^ 24 % 256

abbrev pub shifted : RangeEncoder → RangeEncoder
shifted e = record {
  x1 = shift_byte e.x1;
  x2 = shift_in e.x2 0xff;
  out = e.out ++ (top_byte e.x2 ∷ []);
}

pub emit_more :
    (fuel : ℕ) (e : RangeEncoder)
    → same_top e.x1 e.x2 ≡ true
    → emit (suc fuel) e ≡ emit fuel (shifted e)
unfolding emit
emit_more fuel e h = rw (h, emit)

pub emit_done : (fuel : ℕ) (e : RangeEncoder) → same_top e.x1 e.x2 ≡ false → emit fuel e ≡ e
unfolding emit
emit_done zero e h = refl
emit_done (suc fuel) e h = rw (h, emit)

top_of_done : (x1 x2 : ℕ) → IsInterval x1 x2 → same_top x1 x2 ≡ false → IsOpen x1 x2
top_of_done x1 x2 v h =
    let ne : x1 / 2 ^ 24 ≢ x2 / 2 ^ 24 = λ e. cc (same_top_of_tops x1 x2 e, h) in
    record { word = v.word; tops = omega arith }

-- `w` is a width that the interval has at least; each round multiplies it by 256.
pub emit_wide :
    (fuel w : ℕ) (e : RangeEncoder)
    → IsInterval e.x1 e.x2
    → e.x1 + w ≤ e.x2 + 1
    → 2 ^ 32 ≤ w * 256 ^ fuel
    → IsOpen (emit fuel e).x1 (emit fuel e).x2
emit_wide zero w e v width enough = unfold emit in omega arith
emit_wide (suc fuel) w e v width enough = elim (Bool-cases (same_top e.x1 e.x2)) [
  | inl same ↦
      let tops : e.x1 / 2 ^ 24 ≡ e.x2 / 2 ^ 24 =
        same_top-true e.x1 e.x2 (omega arith) v.word same in
      rw (emit_more fuel e same) (
        emit_wide fuel (w * 256) (shifted e) (shift-IsInterval e.x1 e.x2 v tops)
          (rw (shift_byte-eq e.x1, shift_in-eq e.x2 0xff (omega arith)) (omega arith))
          (omega (arith, ap (λ (t : ℕ). w * t) (pow-suc 256 fuel))))
  | inr differs ↦ rw (emit_done (suc fuel) e differs) (top_of_done e.x1 e.x2 v differs)
]

-- The bytes that the loop emits, by the interval alone.
unfoldable pub pushed : ℕ → ℕ → ℕ → List ℕ
pushed zero x1 x2 = []
pushed (suc fuel) x1 x2 = elim (same_top x1 x2) [
  | true ↦ top_byte x2 ∷ pushed fuel (shift_byte x1) (shift_in x2 0xff)
  | false ↦ []
]

pub pushed_more :
    (fuel x1 x2 : ℕ)
    → same_top x1 x2 ≡ true
    → pushed (suc fuel) x1 x2 ≡ top_byte x2 ∷ pushed fuel (shift_byte x1) (shift_in x2 0xff)
unfolding pushed
pushed_more fuel x1 x2 h = rw (h, pushed)

pub pushed_done : (fuel x1 x2 : ℕ) → same_top x1 x2 ≡ false → pushed fuel x1 x2 ≡ []
unfolding pushed
pushed_done zero x1 x2 h = refl
pushed_done (suc fuel) x1 x2 h = rw (h, pushed)

pub out-emit : (fuel : ℕ) (e : RangeEncoder) → (emit fuel e).out ≡ e.out ++ pushed fuel e.x1 e.x2
out-emit zero e = unfold emit pushed in sym (append-nil e.out)
out-emit (suc fuel) e = elim (Bool-cases (same_top e.x1 e.x2)) [
  | inl same ↦
      rw (emit_more fuel e same, pushed_more fuel e.x1 e.x2 same)
        (out-emit fuel (shifted e)
          ∙ append_assoc e.out (top_byte e.x2 ∷ [])
              (pushed fuel (shift_byte e.x1) (shift_in e.x2 0xff)))
  | inr differs ↦
      rw (emit_done (suc fuel) e differs, pushed_done (suc fuel) e.x1 e.x2 differs, append-nil)
]

-- The first four bytes of a stream as a word, and the interval that a stream falls into.
abbrev pub window : List ℕ → ℕ
window r = get_or r 0 0 * 2 ^ 24 + get_or r 1 0 * 2 ^ 16 + get_or r 2 0 * 2 ^ 8 + get_or r 3 0

pub get_or-IsByte : (r : List ℕ) (i : ℕ) → All IsByte r → get_or r i 0 < 256
get_or-IsByte [] i h = omega arith
get_or-IsByte (b ∷ r) zero h = h.0
get_or-IsByte (b ∷ r) (suc i) h = get_or-IsByte r i h.1

pub window-cons : (b : ℕ) (r : List ℕ) → All IsByte r → window (b ∷ r) ≡ b * 2 ^ 24 + window r / 256
window-cons b r h = omega (arith, get_or-IsByte r 3 h)

pub record Holds (x1 x2 : ℕ) (r : List ℕ) : Type 0 where
  pub low : x1 ≤ window r
  pub high : window r ≤ x2
  pub bytes : All IsByte r

cons-Holds :
    (x1 x2 : ℕ) (r : List ℕ)
    → IsInterval x1 x2
    → x1 / 2 ^ 24 ≡ x2 / 2 ^ 24
    → Holds (shift_byte x1) (shift_in x2 0xff) r
    → Holds x1 x2 (top_byte x2 ∷ r)
cons-Holds x1 x2 r v tops h =
    let low : x1 % 2 ^ 24 * 256 ≤ window r = rw (shift_byte-eq x1) at h.low in
    let high : window r ≤ x2 % 2 ^ 24 * 256 + 255 =
      rw (shift_in-eq x2 0xff (omega arith)) at h.high in
    record {
      low = rw (window-cons (top_byte x2) r h.bytes) (omega arith);
      high = rw (window-cons (top_byte x2) r h.bytes) (omega arith);
      bytes = (omega arith, h.bytes);
    }

-- If the stream that follows lies in the interval after the loop, the stream with the emitted
-- bytes in front lies in the interval before it.
pub pushed-Holds :
    (fuel : ℕ) (e : RangeEncoder) (r : List ℕ)
    → IsInterval e.x1 e.x2
    → Holds (emit fuel e).x1 (emit fuel e).x2 r
    → Holds e.x1 e.x2 (pushed fuel e.x1 e.x2 ++ r)
pushed-Holds zero e r v h = unfold pushed in unfold emit in h
pushed-Holds (suc fuel) e r v h = elim (Bool-cases (same_top e.x1 e.x2)) [
  | inl same ↦
      let tops : e.x1 / 2 ^ 24 ≡ e.x2 / 2 ^ 24 =
        same_top-true e.x1 e.x2 (omega arith) v.word same in
      let rest : Holds (shift_byte e.x1) (shift_in e.x2 0xff)
          (pushed fuel (shift_byte e.x1) (shift_in e.x2 0xff) ++ r) =
        pushed-Holds fuel (shifted e) r (shift-IsInterval e.x1 e.x2 v tops)
          (rw (emit_more fuel e same) at h) in
      rw (pushed_more fuel e.x1 e.x2 same) (cons-Holds e.x1 e.x2 _ v tops rest)
  | inr differs ↦
      rw (pushed_done (suc fuel) e.x1 e.x2 differs) (rw (emit_done (suc fuel) e differs) at h)
]
