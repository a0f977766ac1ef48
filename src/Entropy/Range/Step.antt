-- ===== src/Entropy/Range/Step.antt =====
-- One coded symbol: the interval invariant of `encode`, and the bytes that it adds.
use zentropy.Prelude.{ℕ, zero, suc, ◌+◌, ◌≤◌, ◌<◌, ◌≡◌, ◌∙◌, ap, refl, arith, List, ◌++◌}
use zentropy.Entropy.{IsBit}
use zentropy.Entropy.Range.{RangeEncoder, midpoint, clamp_prob, narrow, encode}
use zentropy.Entropy.Range.Word.{clamp_prob_bounds, midpoint_bounds}
use zentropy.Entropy.Range.Interval.{
  IsOpen, IsInterval, Holds, pushed, emit_wide, out-emit, pushed-Holds,
}

abbrev pub mid : RangeEncoder → ℕ → ℕ
mid e p = midpoint e.x1 e.x2 (clamp_prob p)

pub mid_bounds : (e : RangeEncoder) (p : ℕ) → IsOpen e.x1 e.x2 → (e.x1 ≤ mid e p) × (mid e p < e.x2)
mid_bounds e p v =
    let (_, low, high) =
      midpoint_bounds e.x1 e.x2 (clamp_prob p) (omega arith) v.word (clamp_prob_bounds p).1 in
    (low, high)

pub narrow_zero :
    (e : RangeEncoder) (p : ℕ) → IsOpen e.x1 e.x2 → narrow e 0 p ≡ record e { x1 = mid e p + 1 }
unfolding narrow
narrow_zero e p v = let m = mid_bounds e p v in let w = v.word in ground arith

pub narrow_one : (e : RangeEncoder) (p : ℕ) → narrow e 1 p ≡ record e { x2 = mid e p }
unfolding narrow
narrow_one e p = refl

pub narrow-IsInterval :
    (e : RangeEncoder) (bit p : ℕ)
    → IsBit bit
    → IsOpen e.x1 e.x2
    → IsInterval (narrow e bit p).x1 (narrow e bit p).x2
narrow-IsInterval e zero p h v = let m = mid_bounds e p v in rw (narrow_zero e p v) (omega arith)
narrow-IsInterval e (suc zero) p h v = let m = mid_bounds e p v in rw narrow_one (omega arith)
narrow-IsInterval e (suc (suc n)) p h v = absurd (omega arith)

-- After every symbol, with any probability, the interval is a word interval whose ends differ
-- in the top byte.
pub encode-IsOpen :
    (e : RangeEncoder) (bit p : ℕ)
    → IsBit bit
    → IsOpen e.x1 e.x2
    → IsOpen (encode e bit p).x1 (encode e bit p).x2
unfolding encode
encode-IsOpen e bit p h v =
    let n = narrow-IsInterval e bit p h v in
    emit_wide 4 1 (narrow e bit p) n (omega arith) (omega arith)

-- The bytes that one symbol adds.
abbrev pub added : RangeEncoder → ℕ → ℕ → List ℕ
added e bit p = pushed 4 (narrow e bit p).x1 (narrow e bit p).x2

pub out-encode : (e : RangeEncoder) (bit p : ℕ) → (encode e bit p).out ≡ e.out ++ added e bit p
unfolding encode
out-encode e bit p = out-emit 4 (narrow e bit p) ∙ ap (λ r. r ++ added e bit p) (kept bit)
  where
    kept : (b : ℕ) → (narrow e b p).out ≡ e.out
    kept b = unfold narrow in ground arith

pub narrow-Holds :
    (e : RangeEncoder) (bit p : ℕ) (r : List ℕ)
    → IsBit bit
    → IsOpen e.x1 e.x2
    → Holds (encode e bit p).x1 (encode e bit p).x2 r
    → Holds (narrow e bit p).x1 (narrow e bit p).x2 (added e bit p ++ r)
unfolding encode
narrow-Holds e bit p r h v inside =
    pushed-Holds 4 (narrow e bit p) r (narrow-IsInterval e bit p h v) inside

pub widen-Holds :
    (e : RangeEncoder) (bit p : ℕ) (r : List ℕ)
    → IsBit bit
    → IsOpen e.x1 e.x2
    → Holds (narrow e bit p).x1 (narrow e bit p).x2 r
    → Holds e.x1 e.x2 r
widen-Holds e zero p r h v i =
    let m = mid_bounds e p v in
    let j : Holds (mid e p + 1) e.x2 r = rw (narrow_zero e p v) at i in
    record { low = omega arith; high = j.high; bytes = j.bytes }
widen-Holds e (suc zero) p r h v i =
    let m = mid_bounds e p v in
    let j : Holds e.x1 (mid e p) r = rw narrow_one at i in
    record { low = j.low; high = omega arith; bytes = j.bytes }
widen-Holds e (suc (suc n)) p r h v i = absurd (omega arith)
