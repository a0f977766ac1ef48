-- ===== src/Tests/Coding.antt =====
-- Runs of the range coder and of the coding loops, with a small adaptive model.
use zentropy.Prelude.{
  ℕ, ◌≤◌, bit_and, ◌^◌, ◌<◌, ◌+◌, ◌-◌, ◌/◌, ◌≡◌, refl, [], ◌∷◌, ◌==◌, if◌then◌else◌, arith,
}
use zentropy.Entropy.Rans.{rans_l, place, advance}
use zentropy.Entropy.Rans.Slot.{advance-place}
use zentropy.Entropy.AdaptiveBit.{new, predict, update, Tracks, update-Tracks}
use zentropy.Entropy.Range.{
  new_encoder, encode, finish, emit, narrow, midpoint, clamp_prob, same_top, shift_in, flush,
}
use zentropy.Entropy.Range.Interval.{IsOpen}
use zentropy.Entropy.Range.Step.{encode-IsOpen}
use zentropy.Archive.Coder.{
  Model, encode_payload, decode_payload, encode_data, encode_masks, encode_bit, bit_at,
}
use zentropy.Archive.Coder.RoundTrip.{decode_payload-encode_payload}

-- A probability that moves towards the bits seen.
abbrev pub adaptive : Model
adaptive = record {
  State = ℕ;
  start = 2048;
  predict = λ p. (p, p);
  update = λ p bit. if bit == 0 then p - p / 16 else p + (4096 - p) / 16;
}

first_prediction : predict (new 4) ≡ 2048
unfolding predict new clamp_prob
first_prediction = refl

one_symbol : (encode new_encoder 1 2048).x2 ≡ 0x7fff_f800
unfolding encode new_encoder emit narrow midpoint clamp_prob same_top shift_in
one_symbol = refl

payload_bytes : encode_payload adaptive (90 ∷ []) ≡ 162 ∷ 200 ∷ 245 ∷ 33 ∷ []
unfolding encode_payload encode_data encode_masks encode_bit bit_at encode new_encoder emit narrow
    midpoint clamp_prob same_top shift_in finish flush
payload_bytes = refl

encode-IsOpen_example : IsOpen (encode new_encoder 1 0).x1 (encode new_encoder 1 0).x2
encode-IsOpen_example =
    encode-IsOpen new_encoder 1 0 (omega arith) (unfold new_encoder in omega arith)

decode_payload-encode_payload_example :
    decode_payload adaptive 2 (encode_payload adaptive (90 ∷ 255 ∷ [])) ≡ 90 ∷ 255 ∷ []
decode_payload-encode_payload_example =
    decode_payload-encode_payload adaptive (90 ∷ 255 ∷ []) (omega arith)

update-Tracks_example : ((update 1 (new 4)).p < 2 ^ 16) × Tracks 1 (new 4) (update 1 (new 4))
update-Tracks_example = update-Tracks 1 (new 4) (unfold new in omega arith)

advance-place_example :
    (rans_l ≤ place 1000 96 3_000_000)
    × (place 1000 96 3_000_000 < 2 ^ 31)
    × (96 ≤ bit_and (place 1000 96 3_000_000) 0xfff)
    × (bit_and (place 1000 96 3_000_000) 0xfff < 1096)
    × (advance 1000 96 (bit_and (place 1000 96 3_000_000) 0xfff) (place 1000 96 3_000_000)
        ≡ 3_000_000)
advance-place_example =
    advance-place 1000 96 3_000_000 (omega arith) (omega arith) (omega arith) (omega arith)
