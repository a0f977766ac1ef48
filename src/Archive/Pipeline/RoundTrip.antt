-- ===== src/Archive/Pipeline/RoundTrip.antt =====
-- `decode` undoes `encode_tuned`, through every stage of the scored build.
use zentropy.Prelude.{
  sym, ℕ, ◌≤◌, ◌≡◌, refl, ap, ◌∙◌, true, false, some, List, ◌++◌, length, drop, get_or, All, ltb,
  arith,
}
use mathlib.Core.Path.{subst}
use mathlib.Core.Option.{some-injective}
use zentropy.Entropy.{IsByte}
use zentropy.Archive.Coder.{Model, encode_payload}
use zentropy.Archive.Coder.RoundTrip.{decode_payload-encode_payload}
use zentropy.Archive.Header.{header, header_len, max_output, header_own, header_length, to_le_bytes}
use zentropy.Archive.Method.{Method, id}
use zentropy.Archive.Method.Id.{method_from_id-id}
use zentropy.Transform.Wordwise.{words_fit}
use zentropy.Archive.Pipeline.{
  prepare_reorder, maybe_hoist, maybe_unhoist, maybe_token, maybe_untoken, maybe_unreorder,
  transformed_stream, decoded, finished, encode_tuned, decode_with, decode,
}
use zentropy.Archive.Pipeline.Stages.{Undone, unhoist-hoist, untoken-token, prepare_reorder-Undone}

module _ (cm : Method → ℕ → ℕ → Model) where
  -- The payload is read back under the header that was written.
  decode-header :
      (method : Method) (tune : ℕ) (stream : List ℕ)
      → All IsByte stream
      → length stream ≤ max_output
      → decode cm (
          header method tune (length stream)
          ++ encode_payload (cm method tune (length stream)) stream)
        ≡ finished (maybe_unreorder method (maybe_unhoist method (maybe_untoken method stream)))
  unfolding decode decode_with
  decode-header method tune stream bytes short =
      let n = length stream in
      let payload = encode_payload (cm method tune n) stream in
      let archive = header method tune n ++ payload in
      let own = header_own method tune n payload in
      let field = header_length method tune n payload short in
      let small : ltb max_output n ≡ false = ground arith in
      let at4 : get_or archive 4 0 ≡ id method = unfold header in refl in
      let at5 : get_or archive 5 0 ≡ tune = unfold header in refl in
      let rest : drop header_len archive ≡ payload = unfold header to_le_bytes in refl in
      rw
        (
          own,
          at4,
          method_from_id-id method,
          field,
          small,
          at5,
          rest,
          decode_payload-encode_payload (cm method tune n) stream bytes,
        )
        refl

  encode_tuned-some :
      (input : List ℕ) (method m : Method) (tune : ℕ) (arranged : List ℕ)
      → prepare_reorder input method ≡ some (arranged, m)
      → encode_tuned cm input method tune
        ≡ some (
            header m tune (length (maybe_token m (maybe_hoist m arranged)))
            ++ encode_payload
                (cm m tune (length (maybe_token m (maybe_hoist m arranged))))
                (maybe_token m (maybe_hoist m arranged)))
  unfolding encode_tuned transformed_stream
  encode_tuned-some input method m tune arranged h = rw (h, encode_tuned, transformed_stream) refl

  -- For every model, method and tune byte of the scored build: if no run of letters of the hoisted
  -- stream is longer than 255 bytes, and the coded stream is a list of bytes within the length limit,
  -- then encoding does not panic, and decoding the archive returns exactly the input. The stream that
  -- the outermost stage arranges, and the method `m` it is coded under, are those of `prepare_reorder`.
  pub decode-encode_tuned :
      (input : List ℕ) (method m : Method) (tune : ℕ) (arranged : List ℕ)
      → prepare_reorder input method ≡ some (arranged, m)
      → words_fit 255 (maybe_hoist m arranged) ≡ true
      → All IsByte (maybe_token m (maybe_hoist m arranged))
      → length (maybe_token m (maybe_hoist m arranged)) ≤ max_output
      → (archive : List ℕ) × (encode_tuned cm input method tune ≡ some archive)
        × (decode cm archive ≡ decoded input)
  decode-encode_tuned input method m tune arranged h words bytes short =
      let stream = maybe_token m (maybe_hoist m arranged) in
      let (done, same, undone) = prepare_reorder-Undone input method in
      let restored : maybe_unreorder m arranged ≡ some input =
        let agree : done ≡ (arranged, m) = some-injective done (arranged, m) (sym same ∙ h) in
        subst (Undone input) agree undone in
      (
        header m tune (length stream) ++ encode_payload (cm m tune (length stream)) stream,
        encode_tuned-some input method m tune arranged h,
        decode-header m tune stream bytes short
            ∙ ap (λ l. finished (maybe_unreorder m (maybe_unhoist m l)))
                (untoken-token m (maybe_hoist m arranged) words)
            ∙ ap (λ l. finished (maybe_unreorder m l)) (unhoist-hoist m arranged)
            ∙ ap finished restored
            ∙ unfold finished in refl,
      )
