-- ===== src/Archive/Coder/RoundTrip.antt =====
-- The coding loops of `encode_tuned` and `decode` are inverse to one another, for every model.
use zentropy.Prelude.{
  ℕ, suc, ◌+◌, ◌%◌, ◌^◌, ◌≡◌, refl, ◌∙◌, ap, List, [], ◌∷◌, All, arith, length, get_or,
}
use mathlib.Core.Path.{ap₂}
use zentropy.Entropy.{IsByte}
use zentropy.Entropy.Range.{
  RangeEncoder, RangeDecoder, finish, new_encoder, new_decoder, load_byte, next_byte, shift_in,
}
use zentropy.Entropy.Range.Word.{shift_in-eq}
use zentropy.Entropy.Range.Interval.{IsOpen, get_or-IsByte}
use zentropy.Entropy.Range.Sync.{Synced}
use zentropy.Archive.Coder.{Model, decode_data, encode_data, encode_payload, decode_payload}
use zentropy.Archive.Coder.Bytes.{bits_of, bits_of_all, bits_of_all-IsBit, foldl-bits_of}
use zentropy.Archive.Coder.Stream.{
  encode_bits, tail, encode_data-bits, finish-tail, tail-Holds, Follows, decode_rounds-Follows,
}

-- A new decoder has read the first four bytes.
new_decoder-Synced : (r : List ℕ) → All IsByte r → Synced (new_decoder r) new_encoder r
unfolding new_decoder load_byte next_byte new_encoder
new_decoder-Synced r h =
    let b0 = get_or-IsByte r 0 h in
    let b1 = get_or-IsByte r 1 h in
    let b2 = get_or-IsByte r 2 h in
    let b3 = get_or-IsByte r 3 h in
    let word1 = shift_in-eq (shift_in 0 (get_or r 0 0)) (get_or r 1 0) b1 in
    let word2 =
      shift_in-eq (shift_in (shift_in 0 (get_or r 0 0)) (get_or r 1 0)) (get_or r 2 0) b2 in
    record {
      x1 = refl;
      x2 = refl;
      word =
          omega
            (arith, shift_in-eq _ (get_or r 3 0) b3, word2, word1, shift_in-eq 0 (get_or r 0 0) b0);
      feed = λ i.
          let at : 4 + i ≡ suc (suc (suc (suc i))) = omega arith in ap (λ (k : ℕ). get_or r k 0) at;
    }

module _ (M : Model) where
  open M use {State, start}

  decode_data-Follows :
      (bytes : List ℕ) (d : RangeDecoder) (e : State × RangeEncoder)
      → All IsByte bytes
      → Follows M d e (bits_of_all bytes)
      → decode_data M (length bytes) (e.0, d) ≡ bytes
  unfolding decode_data
  decode_data-Follows [] d e h f = refl
  decode_data-Follows (b ∷ bs) d e h f =
      let (d', step, f') =
        decode_rounds-Follows M (bits_of b) (bits_of_all bs) 0 d e (bits_of_all-IsBit (b ∷ bs)) f in
      ap (λ (r : ℕ × (State × RangeDecoder)). (r.0 % 2 ^ 8) ∷ decode_data M (length bs) r.1) step
      ∙ ap₂ ◌∷◌ (foldl-bits_of b h.0)
          (decode_data-Follows bs d' (encode_bits M e (bits_of b)) h.1 f')

  -- Whatever the model predicts and however it learns, decoding the payload of some bytes, for as
  -- many bytes as were encoded, gives these bytes back.
  pub decode_payload-encode_payload :
      (bytes : List ℕ)
      → All IsByte bytes
      → decode_payload M (length bytes) (encode_payload M bytes) ≡ bytes
  unfolding decode_payload encode_payload
  decode_payload-encode_payload bytes h =
      let bits = bits_of_all bytes in
      let e : State × RangeEncoder = (start, new_encoder) in
      let begin : IsOpen new_encoder.x1 new_encoder.x2 = unfold new_encoder in omega arith in
      let holds = tail-Holds M bits e (bits_of_all-IsBit bytes) begin in
      let payload : finish (encode_data M bytes e).1 ≡ tail M e bits =
        ap (λ (c : State × RangeEncoder). finish c.1) (encode_data-bits M bytes e)
        ∙ finish-tail M bits e
        ∙ unfold new_encoder in refl in
      rw payload (
        decode_data-Follows bytes (new_decoder (tail M e bits)) e h
          (record { synced = new_decoder-Synced (tail M e bits) holds.bytes; is_open = begin }))
