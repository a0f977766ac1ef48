-- ===== src/Archive/Coder.antt =====
-- src/archive.rs: the coding loops of `encode_tuned` and `decode`, over any model. The model (`Cm`)
-- predicts, possibly changing its state, and is then told the bit. The runtime memory floor and the
-- progress report that the loops call have no effect on the data and are left out.
pub mod Bytes
pub mod Stream
pub mod RoundTrip
use zentropy.Prelude.{
  ℕ, zero, suc, ◌+◌, ◌*◌, ◌/◌, ◌%◌, ◌^◌, Bool, true, false, List, [], ◌∷◌, ◌==◌, if◌then◌else◌,
  bit_and, bit_or,
}
use zentropy.Entropy.Range.{
  RangeEncoder, RangeDecoder, new_encoder, new_decoder, encode, decode, finish,
}

-- `predict(&mut self)` and `update(&mut self, bit)`.
pub record Model : Type 1 where
  pub State : Type 0
  pub start : State
  pub predict : State → ℕ × State
  pub update : State → ℕ → State

-- `if (byte as u32) & mask != 0 { 1 } else { 0 }`
unfoldable pub bit_at : ℕ → ℕ → ℕ
bit_at byte mask = if bit_and byte mask == 0 then 0 else 1

-- `byte = (byte << 1) | bit` on a `u32`.
unfoldable pub push_bit : ℕ → ℕ → ℕ
push_bit byte bit = bit_or (byte * 2 % 2 ^ 32) bit

module _ (M : Model) where
  open M use {State, start, predict, update}

  unfoldable pub encode_bit : State × RangeEncoder → ℕ → State × RangeEncoder
  encode_bit (s, e) bit = let (p, s') = predict s in (update s' bit, encode e bit p)

  -- `while mask != 0 { … mask >>= 1 }`: eight rounds from 0x80, and the test that ends it.
  unfoldable pub encode_masks : ℕ → ℕ → ℕ → State × RangeEncoder → State × RangeEncoder
  encode_masks zero byte mask c = c
  encode_masks (suc fuel) byte mask c = elim (mask == 0) [
    | true ↦ c
    | false ↦ encode_masks fuel byte (mask / 2) (encode_bit c (bit_at byte mask))
  ]

  unfoldable pub encode_data : List ℕ → State × RangeEncoder → State × RangeEncoder
  encode_data [] c = c
  encode_data (byte ∷ rest) c = encode_data rest (encode_masks 9 byte 0x80 c)

  -- The payload of the archive.
  unfoldable pub encode_payload : List ℕ → List ℕ
  encode_payload bytes = finish (encode_data bytes (start, new_encoder)).1

  unfoldable pub decode_bit : State × RangeDecoder → ℕ × (State × RangeDecoder)
  decode_bit (s, d) =
      let (p, s') = predict s in let (bit, d') = decode d p in (bit, (update s' bit, d'))

  -- `for _ in 0..8`
  unfoldable pub decode_rounds : ℕ → ℕ → State × RangeDecoder → ℕ × (State × RangeDecoder)
  decode_rounds zero byte c = (byte, c)
  decode_rounds (suc n) byte c =
      let (bit, c') = decode_bit c in decode_rounds n (push_bit byte bit) c'

  unfoldable pub decode_data : ℕ → State × RangeDecoder → List ℕ
  decode_data zero c = []
  decode_data (suc n) c = let (byte, c') = decode_rounds 8 0 c in (byte % 2 ^ 8) ∷ decode_data n c'

  unfoldable pub decode_payload : ℕ → List ℕ → List ℕ
  decode_payload n payload = decode_data n (start, new_decoder payload)
