-- ===== src/Archive/Coder/Stream.antt =====
-- The payload as a function of the bits that are coded.
use zentropy.Prelude.{ℕ, ◌≡◌, refl, ◌∙◌, ap, List, [], ◌∷◌, ◌++◌, All, arith, append_assoc, length}
use mathlib.Core.List.{foldl}
use zentropy.Entropy.{IsBit}
use zentropy.Entropy.Range.{RangeEncoder, RangeDecoder, decode, finish, flush}
use zentropy.Entropy.Range.Interval.{IsOpen, Holds}
use zentropy.Entropy.Range.Step.{added, out-encode, encode-IsOpen, narrow-Holds, widen-Holds}
use zentropy.Entropy.Range.Sync.{Synced, decode-Synced}
use zentropy.Archive.Coder.{
  Model, push_bit, encode_bit, encode_masks, encode_data, decode_bit, decode_rounds,
}
use zentropy.Archive.Coder.Bytes.{bits_of, bits_of_all}

flush-Holds : (x1 x2 : ℕ) → IsOpen x1 x2 → Holds x1 x2 (flush x1)
unfolding flush
flush-Holds x1 x2 v =
    let w = v.word in
    let t = v.tops in record { low = omega arith; high = omega arith; bytes = omega arith }

module _ (M : Model) where
  open M use {State, predict, update}

  abbrev pub encode_bits : State × RangeEncoder → List ℕ → State × RangeEncoder
  encode_bits = foldl (encode_bit M)

  -- What the payload holds behind the bytes written so far.
  pub tail : State × RangeEncoder → List ℕ → List ℕ
  tail c [] = flush c.1.x1
  tail c (b ∷ bs) = added c.1 b (predict c.0).0 ++ tail (encode_bit M c b) bs

  encode_masks-bits :
      (byte : ℕ) (c : State × RangeEncoder)
      → encode_masks M 9 byte 0x80 c ≡ encode_bits c (bits_of byte)
  unfolding encode_masks
  encode_masks-bits byte c = refl

  pub encode_data-bits :
      (bytes : List ℕ) (c : State × RangeEncoder)
      → encode_data M bytes c ≡ encode_bits c (bits_of_all bytes)
  unfolding encode_data
  encode_data-bits [] c = refl
  encode_data-bits (b ∷ bs) c = encode_data-bits bs _ ∙ rw (encode_masks-bits b c)

  pub finish-tail :
      (bits : List ℕ) (c : State × RangeEncoder)
      → finish (encode_bits c bits).1 ≡ c.1.out ++ tail c bits
  unfolding tail encode_bit finish
  finish-tail [] c = refl
  finish-tail (b ∷ bs) c =
      let p = (predict c.0).0 in
      finish-tail bs (encode_bit M c b)
      ∙ ap (λ o. o ++ tail (encode_bit M c b) bs) (out-encode c.1 b p)
      ∙ append_assoc c.1.out (added c.1 b p) (tail (encode_bit M c b) bs)

  pub tail-Holds :
      (bits : List ℕ) (c : State × RangeEncoder)
      → All IsBit bits
      → IsOpen c.1.x1 c.1.x2
      → Holds c.1.x1 c.1.x2 (tail c bits)
  unfolding tail encode_bit
  tail-Holds [] c h v = flush-Holds c.1.x1 c.1.x2 v
  tail-Holds (b ∷ bs) c h v =
      let p = (predict c.0).0 in
      let rest = tail-Holds bs (encode_bit M c b) h.1 (encode-IsOpen c.1 b p h.0 v) in
      widen-Holds c.1 b p _ h.0 v (narrow-Holds c.1 b p _ h.0 v rest)

  -- A decoder beside the encoder after the same bits; their models are in the same state.
  pub record Follows (d : RangeDecoder) (e : State × RangeEncoder) (bits : List ℕ) : Type 0 where
    pub synced : Synced d e.1 (tail e bits)
    pub is_open : IsOpen e.1.x1 e.1.x2

  decode_bit-Follows :
      (d : RangeDecoder) (e : State × RangeEncoder) (b : ℕ) (bs : List ℕ)
      → All IsBit (b ∷ bs)
      → Follows d e (b ∷ bs)
      → (d' : RangeDecoder) × (decode_bit M (e.0, d) ≡ (b, ((encode_bit M e b).0, d')))
        × Follows d' (encode_bit M e b) bs
  unfolding tail encode_bit decode_bit
  decode_bit-Follows d e b bs h f =
      let p = (predict e.0).0 in
      let v = encode-IsOpen e.1 b p h.0 f.is_open in
      let (bit, s) =
        decode-Synced d e.1 b p (tail (encode_bit M e b) bs) h.0 f.is_open
          (tail-Holds bs (encode_bit M e b) h.1 v) f.synced in
      ((decode d p).1, rw bit, record { synced = s; is_open = v })

  -- Reading as many bits as were written gives them back.
  pub decode_rounds-Follows :
      (bits more : List ℕ) (acc : ℕ) (d : RangeDecoder) (e : State × RangeEncoder)
      → All IsBit (bits ++ more)
      → Follows d e (bits ++ more)
      → (d' : RangeDecoder) × (decode_rounds M (length bits) acc (e.0, d)
          ≡ (foldl push_bit acc bits, ((encode_bits e bits).0, d')))
        × Follows d' (encode_bits e bits) more
  unfolding decode_rounds
  decode_rounds-Follows [] more acc d e h f = (d, refl, f)
  decode_rounds-Follows (b ∷ bits) more acc d e h f =
      let (d1, step, f1) = decode_bit-Follows d e b (bits ++ more) h f in
      let (d2, rest, f2) =
        decode_rounds-Follows bits more (push_bit acc b) d1 (encode_bit M e b) h.1 f1 in
      (
        d2,
        ap
              (λ (r : ℕ × (State × RangeDecoder)).
                decode_rounds M (length bits) (push_bit acc r.0) r.1)
              step
            ∙ rest,
        f2,
      )
