-- ===== src/Archive/Pipeline.antt =====
-- src/archive.rs: `encode_tuned` and `decode` of the scored build (`--features accepted`), in which
-- the stages lzbe, grammar, stem, case and permutation are compiled out and pass their data on. The
-- model `Cm::new(&method.config_for(n).with_tune(tune), n)` is a parameter.
pub mod Stages
pub mod RoundTrip
use zentropy.Prelude.{
  ℕ, Bool, true, false, Option, none, some, List, [], ◌∷◌, ◌++◌, length, drop, get_or, ltb,
  if◌then◌else◌, ◌>>=◌,
}
use zentropy.Archive.Coder.{Model, encode_payload, decode_payload}
use zentropy.Archive.Header.{header, header_len, max_output, is_foreign, length_field}
use zentropy.Archive.Method.{Method}
use zentropy.Archive.Method.Id.{method_from_id}
use zentropy.Archive.Method.Stages.{
  hoists, TokenKind, token_kind, Order, reorder_kind, reorders, reorder_parent,
}
use zentropy.Reorder.Orders.{Reordered, declined, panicked, reordered}
use zentropy.Reorder.Orders
use zentropy.Transform.Hoist
use zentropy.Transform.IdList.{IdMode}
use zentropy.Transform.Words.{
  word_token_encode, word_token_decode, word_token_decode_mode, word_token_encode_mode,
}

-- `none` is a panic of the reordering.
unfoldable pub prepared : List ℕ → Method → Reordered → Option (List ℕ × Method)
prepared input method declined = some (input, reorder_parent method)
prepared input method panicked = none
prepared input method (reordered v) = some (v, method)

unfoldable pub prepare_reorder : List ℕ → Method → Option (List ℕ × Method)
prepare_reorder input method = elim (reorder_kind method) [
  | some order ↦ prepared input method (Orders.encode input order)
  | none ↦ some (input, method)
]

unfoldable pub maybe_hoist : Method → List ℕ → List ℕ
maybe_hoist method input = if hoists method then Hoist.encode input else input

unfoldable pub maybe_unhoist : Method → List ℕ → List ℕ
maybe_unhoist method stream = if hoists method then Hoist.decode stream else stream

-- `token_kind` returns no other kind in this build.
unfoldable pub tokenise : TokenKind → List ℕ → List ℕ
tokenise TokenKind.words stream = word_token_encode stream false
tokenise TokenKind.reverse stream = word_token_encode stream true
tokenise _ stream = stream

unfoldable pub maybe_token : Method → List ℕ → List ℕ
maybe_token method stream = tokenise (token_kind method) stream

unfoldable pub untokenise : TokenKind → List ℕ → List ℕ
untokenise TokenKind.words stream = word_token_decode stream
untokenise TokenKind.reverse stream = word_token_decode stream
untokenise _ stream = stream

unfoldable pub maybe_untoken : Method → List ℕ → List ℕ
maybe_untoken method stream = untokenise (token_kind method) stream

-- `none` is a panic of the restoration.
unfoldable pub maybe_unreorder : Method → List ℕ → Option (List ℕ)
maybe_unreorder method stream = if reorders method then Orders.restore stream else some stream

-- The first lines of `encode_tuned`: the byte stream that the predictor codes, with the method that the
-- header will store.
unfoldable pub transformed_stream : List ℕ → Method → Option (List ℕ × Method)
transformed_stream input method = do
  prepared ← prepare_reorder input method
  some (maybe_token prepared.1 (maybe_hoist prepared.1 prepared.0), prepared.1)

-- `decode` returns `None`, or panics, or returns the bytes.
pub data Decoded : Type 0 where
  refused : Decoded
  crashed : Decoded
  decoded : List ℕ → Decoded

unfoldable pub finished : Option (List ℕ) → Decoded
finished none = crashed
finished (some v) = decoded v

module _ (cm : Method → ℕ → ℕ → Model) where
  unfoldable pub encode_tuned : List ℕ → Method → ℕ → Option (List ℕ)
  encode_tuned input method tune = do
    coded ← transformed_stream input method
    some (
        header coded.1 tune (length coded.0)
        ++ encode_payload (cm coded.1 tune (length coded.0)) coded.0)

  unfoldable pub decode_with : List ℕ → Method → ℕ → Decoded
  decode_with archive method n =
      let payload = drop header_len archive in
      let stream = decode_payload (cm method (get_or archive 5 0) n) n payload in
      finished (maybe_unreorder method (maybe_unhoist method (maybe_untoken method stream)))

  unfoldable pub decode : List ℕ → Decoded
  decode archive =
      if is_foreign archive then refused else (elim (method_from_id (get_or archive 4 0)) [
        | none ↦ refused
        | some method ↦
            let n = length_field archive in
            let result = decode_with archive method n in
            if ltb max_output n then refused else result
      ])
