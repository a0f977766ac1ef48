-- ===== src/Archive/Pipeline/Stages.antt =====
-- Each stage of the pipeline is undone by its counterpart.
use zentropy.Prelude.{
  ℕ, ◌≡◌, refl, true, false, none, some, List, Bool-cases, Option-cases, inl, inr,
}
use zentropy.Archive.Method.{Method}
use zentropy.Archive.Method.Stages.{
  hoists, TokenKind, token_kind, Order, reorder_kind, reorders, reorder_parent,
}
use zentropy.Reorder.Orders
use zentropy.Reorder.Orders.{Reordered, declined, panicked, reordered, restore}
use zentropy.Reorder.Orders.RoundTrip.{Restores, restore-encode}
use zentropy.Transform.Hoist.RoundTrip.{decode-encode}
use zentropy.Transform.IdList.{IdMode}
use zentropy.Transform.Wordwise.{words_fit}
use zentropy.Transform.Words.{word_token_encode, word_token_decode}
use zentropy.Transform.Words.RoundTrip.{word_token_decode_mode-encode_mode}
use zentropy.Archive.Pipeline.{
  prepared, prepare_reorder, maybe_hoist, maybe_unhoist, tokenise, untokenise, maybe_token,
  maybe_untoken, maybe_unreorder,
}

pub unhoist-hoist :
    (method : Method) (input : List ℕ) → maybe_unhoist method (maybe_hoist method input) ≡ input
unfolding maybe_unhoist maybe_hoist
unhoist-hoist method input = elim (Bool-cases (hoists method)) [
  | inl y ↦ rw y (decode-encode input)
  | inr n ↦ rw n refl
]

untokenise-tokenise :
    (kind : TokenKind) (stream : List ℕ)
    → words_fit 255 stream ≡ true
    → untokenise kind (tokenise kind stream) ≡ stream
unfolding untokenise tokenise word_token_encode word_token_decode
untokenise-tokenise TokenKind.words stream h =
    word_token_decode_mode-encode_mode stream false IdMode.static h
untokenise-tokenise TokenKind.reverse stream h =
    word_token_decode_mode-encode_mode stream true IdMode.static h
untokenise-tokenise _ stream h = refl

pub untoken-token :
    (method : Method) (stream : List ℕ)
    → words_fit 255 stream ≡ true
    → maybe_untoken method (maybe_token method stream) ≡ stream
unfolding maybe_untoken maybe_token
untoken-token method stream h = untokenise-tokenise (token_kind method) stream h

-- What the outermost stage passes on is restored to the input under the method that it passes on.
abbrev pub Undone : List ℕ → List ℕ × Method → Type 0
Undone input done = maybe_unreorder done.1 done.0 ≡ some input

prepare_reorder-none :
    (input : List ℕ) (method : Method)
    → reorder_kind method ≡ none
    → prepare_reorder input method ≡ some (input, method)
unfolding prepare_reorder
prepare_reorder-none input method h = rw (h, prepare_reorder) refl

prepare_reorder-some :
    (input : List ℕ) (method : Method) (order : Order)
    → reorder_kind method ≡ some order
    → prepare_reorder input method ≡ prepared input method (Orders.encode input order)
unfolding prepare_reorder
prepare_reorder-some input method order h = rw (h, prepare_reorder) refl

reorders-none : (method : Method) → reorder_kind method ≡ none → reorders method ≡ false
unfolding reorders
reorders-none method h = rw (h, reorders) refl

reorders-some :
    (method : Method) (order : Order) → reorder_kind method ≡ some order → reorders method ≡ true
unfolding reorders
reorders-some method order h = rw (h, reorders) refl

prepared-Undone :
    (input : List ℕ) (method : Method) (r : Reordered)
    → reorders method ≡ true
    → Restores input r
    → (done : List ℕ × Method) × (prepared input method r ≡ some done) × Undone input done
unfolding prepared maybe_unreorder Restores
prepared-Undone input method declined is h =
    ((input, reorder_parent method), refl, unfold reorder_parent reorders reorder_kind in refl)
prepared-Undone input method panicked is h = absurd h
prepared-Undone input method (reordered v) is h = ((v, method), refl, rw is h.0)

-- The outermost stage never panics. What it passes on, reordered under the method that was asked for
-- or as it is under a method without reordering, is restored to the input by the last stage of
-- `decode`.
pub prepare_reorder-Undone :
    (input : List ℕ) (method : Method)
    → (done : List ℕ × Method) × (prepare_reorder input method ≡ some done) × Undone input done
prepare_reorder-Undone input method = elim (Option-cases (reorder_kind method)) [
  | inl missing ↦
      let plain : reorders method ≡ false = reorders-none method missing in
      (
        (input, method),
        prepare_reorder-none input method missing,
        unfold maybe_unreorder in rw plain refl,
      )
  | inr (order, found) ↦ rw (prepare_reorder-some input method order found) (
      prepared-Undone input method (Orders.encode input order) (reorders-some method order found)
        (restore-encode input order))
]
