-- ===== src/Entropy/Range/Sync.antt =====
-- The decoder follows the encoder: it has the same interval, and has read the four bytes of the
-- stream that the encoder has not settled yet.
use zentropy.Prelude.{
  ℕ, zero, suc, ◌+◌, ◌%◌, ◌^◌, ◌<◌, ◌≡◌, refl, ap, ◌∙◌, true, false, arith, List, ◌∷◌, ◌++◌,
  Bool-cases, inl, inr, get_or, All,
}
use mathlib.Core.Path.{ap₂}
use zentropy.Entropy.{IsBit}
use zentropy.Entropy.Range.{
  RangeEncoder, RangeDecoder, same_top, shift_byte, shift_in, emit, narrow, encode, next_byte,
  load_byte, fill, decide, take_side, decode, midpoint, clamp_prob,
}
use zentropy.Entropy.Range.Word.{shift_in-eq}
use zentropy.Entropy.Range.Interval.{
  IsOpen, Holds, pushed, pushed_more, pushed_done, emit_more, emit_done, shifted, top_byte, window,
  get_or-IsByte,
}
use zentropy.Entropy.Range.Step.{mid, narrow_zero, narrow_one, added, narrow-Holds}

pub record Synced (d : RangeDecoder) (e : RangeEncoder) (r : List ℕ) : Type 0 where
  pub x1 : d.x1 ≡ e.x1
  pub x2 : d.x2 ≡ e.x2
  pub word : d.x ≡ window r
  pub feed : (i : ℕ) → get_or d.input (d.pos + i) 0 ≡ get_or r (suc (suc (suc (suc i)))) 0

-- One more byte of the stream enters the window.
pub slide :
    (d : RangeDecoder) (b : ℕ) (r : List ℕ)
    → All (λ c. c < 256) (b ∷ r)
    → d.x ≡ window (b ∷ r)
    → ((i : ℕ) → get_or d.input (d.pos + i) 0 ≡ get_or r (suc (suc (suc i))) 0)
    → ((load_byte d).x ≡ window r)
      × ((i : ℕ) → get_or d.input (d.pos + 1 + i) 0 ≡ get_or r (suc (suc (suc (suc i)))) 0)
unfolding load_byte next_byte
slide d b r h w feed =
    let here : d.pos + 0 ≡ d.pos = omega arith in
    let next : get_or d.input d.pos 0 ≡ get_or r 3 0 = rw here at (feed 0) in
    let b0 = get_or-IsByte r 0 h.1 in
    let b1 = get_or-IsByte r 1 h.1 in
    let b2 = get_or-IsByte r 2 h.1 in
    let b3 = get_or-IsByte r 3 h.1 in
    let one : (i : ℕ) → d.pos + 1 + i ≡ d.pos + suc i = λ i. omega arith in
    (rw next (shift_in-eq d.x (get_or r 3 0) b3 ∙ omega arith), λ i. rw (one i) (feed (suc i)))

fill_more :
    (fuel : ℕ) (d : RangeDecoder)
    → same_top d.x1 d.x2 ≡ true
    → fill (suc fuel) d
      ≡ fill fuel (load_byte (record d { x1 = shift_byte d.x1; x2 = shift_in d.x2 0xff }))
unfolding fill
fill_more fuel d h = rw (h, fill)

fill_done : (fuel : ℕ) (d : RangeDecoder) → same_top d.x1 d.x2 ≡ false → fill fuel d ≡ d
unfolding fill
fill_done zero d h = refl
fill_done (suc fuel) d h = rw (h, fill)

load_shifted :
    (d : RangeDecoder) (e : RangeEncoder) (r : List ℕ)
    → All (λ c. c < 256) (top_byte e.x2 ∷ r)
    → Synced d e (top_byte e.x2 ∷ r)
    → Synced (load_byte (record d { x1 = shift_byte d.x1; x2 = shift_in d.x2 0xff })) (shifted e) r
load_shifted d e r h s =
    let (word, feed) =
      slide (record d { x1 = shift_byte d.x1; x2 = shift_in d.x2 0xff }) (top_byte e.x2) r h s.word
        s.feed in
    unfold load_byte in
    record {
      x1 = ap shift_byte s.x1;
      x2 = ap (λ (t : ℕ). shift_in t 0xff) s.x2;
      word = unfold load_byte in word;
      feed = feed;
    }

-- The decoder's loop reads exactly the bytes that the encoder's loop emits.
pub fill-Synced :
    (fuel : ℕ) (d : RangeDecoder) (e : RangeEncoder) (r : List ℕ)
    → All (λ c. c < 256) (pushed fuel e.x1 e.x2 ++ r)
    → Synced d e (pushed fuel e.x1 e.x2 ++ r)
    → Synced (fill fuel d) (emit fuel e) r
fill-Synced zero d e r h s = unfold fill emit in unfold pushed in s
fill-Synced (suc fuel) d e r h s = elim (Bool-cases (same_top e.x1 e.x2)) [
  | inl same ↦
      let same' : same_top d.x1 d.x2 ≡ true = rw (s.x1, s.x2) same in
      let rest : List ℕ = pushed fuel (shift_byte e.x1) (shift_in e.x2 0xff) ++ r in
      let h' : All (λ c. c < 256) (top_byte e.x2 ∷ rest) =
        rw (pushed_more fuel e.x1 e.x2 same) at h in
      let s' : Synced d e (top_byte e.x2 ∷ rest) = rw (pushed_more fuel e.x1 e.x2 same) at s in
      rw (fill_more fuel d same', emit_more fuel e same)
        (fill-Synced fuel _ (shifted e) r h'.1 (load_shifted d e rest h' s'))
  | inr differs ↦
      let differs' : same_top d.x1 d.x2 ≡ false = rw (s.x1, s.x2) differs in
      rw (fill_done (suc fuel) d differs', emit_done (suc fuel) e differs)
        (rw (pushed_done (suc fuel) e.x1 e.x2 differs) at s)
]

module _ (d : RangeDecoder) (e : RangeEncoder) (p : ℕ) (r : List ℕ) (v : IsOpen e.x1 e.x2)
    (s : Synced d e r) where
  -- The word that the decoder has read tells the bit that was coded.
  decide-eq :
      (bit : ℕ) → IsBit bit → Holds (narrow e bit p).x1 (narrow e bit p).x2 r → decide d p ≡ bit
  unfolding decide
  decide-eq zero h i =
      let j : Holds (mid e p + 1) e.x2 r = rw (narrow_zero e p v) at i in
      let low = j.low in rw (s.x1, s.x2, s.word) (ground arith)
  decide-eq (suc zero) h i =
      let j : Holds e.x1 (mid e p) r = rw narrow_one at i in
      let high = j.high in rw (s.x1, s.x2, s.word) (ground arith)
  decide-eq (suc (suc n)) h i = absurd (omega arith)

  take_side-Synced :
      (bit : ℕ) → IsBit bit → decide d p ≡ bit → Synced (take_side d p) (narrow e bit p) r
  unfolding take_side narrow
  take_side-Synced zero h eq = rw eq (record {
    x1 = ap₂ (λ (a b : ℕ). (midpoint a b (clamp_prob p) + 1) % 2 ^ 32) s.x1 s.x2;
    x2 = s.x2;
    word = s.word;
    feed = s.feed;
  })
  take_side-Synced (suc zero) h eq = rw eq (record {
    x1 = s.x1;
    x2 = ap₂ (λ (a b : ℕ). midpoint a b (clamp_prob p)) s.x1 s.x2;
    word = s.word;
    feed = s.feed;
  })
  take_side-Synced (suc (suc n)) h eq = absurd (omega arith)

-- From a decoder that follows the encoder, `decode` returns the coded bit and follows on.
pub decode-Synced :
    (d : RangeDecoder) (e : RangeEncoder) (bit p : ℕ) (r : List ℕ)
    → IsBit bit
    → IsOpen e.x1 e.x2
    → Holds (encode e bit p).x1 (encode e bit p).x2 r
    → Synced d e (added e bit p ++ r)
    → ((decode d p).0 ≡ bit) × Synced (decode d p).1 (encode e bit p) r
decode-Synced d e bit p r h v inside s =
    let n = narrow-Holds e bit p r h v inside in
    let eq = decide-eq d e p (added e bit p ++ r) v s bit h n in
    unfold decode encode in
    (
      eq,
      fill-Synced 4 (take_side d p) (narrow e bit p) r n.bytes
          (take_side-Synced d e p (added e bit p ++ r) v s bit h eq),
    )
