-- ===== src/Transform/Case/RoundTrip.antt =====
-- The decoders of case factoring undo its encoders.
use zentropy.Prelude.{
  ℕ, zero, suc, ◌≤◌, ◌≡◌, refl, sym, Bool, true, false, ◌&&◌, List, [], ◌∷◌, ◌++◌, map, length,
  take, drop, All, leb, ◌==◌, if◌then◌else◌, arith,
}
use mathlib.Core.Path.{ap₂, subst}
use native.Mathlib.Nat.{le_refl}
use zentropy.Ir.Scan.{run, is_letter}
use zentropy.Reorder.Keys.{to_lower}
use zentropy.Transform.Wordwise.{is_word_byte}
use zentropy.Transform.Wordwise.Loop.{IsWord, Stops}
use zentropy.Transform.Wordwise.Escaped.{Undone, Undone-word, Undone-marked, Undone-wordwise}
use zentropy.Transform.Case.{
  is_lower, is_upper, to_upper, every, WordClass, word_class, case_word, mark_word, case_byte,
  case_encode, case_encode_markonly, capitalise, case_decode_loop, case_decode,
  markonly_decode_loop, case_decode_markonly, case_mixed, case_title, case_upper,
}

-- One round of each decoder.
case-nil : (fuel : ℕ) → case_decode_loop fuel [] ≡ []
unfolding case_decode_loop
case-nil zero = refl
case-nil (suc fuel) = refl

case-esc :
    (fuel b : ℕ) (s : List ℕ)
    → case_decode_loop (suc fuel) (0 ∷ b ∷ s) ≡ b ∷ case_decode_loop fuel s
unfolding case_decode_loop
case-esc fuel b s = refl

case-plain :
    (fuel b : ℕ) (s : List ℕ)
    → leb b case_mixed ≡ false
    → case_decode_loop (suc fuel) (b ∷ s) ≡ b ∷ case_decode_loop fuel s
unfolding case_decode_loop
case-plain fuel b s h =
    let e0 : (b == 0) ≡ false = ground arith in
    let e1 : (b == 1) ≡ false = ground arith in
    let e2 : (b == 2) ≡ false = ground arith in
    let e3 : (b == 3) ≡ false = ground arith in
    rw (e0, case_decode_loop, e1, case_decode_loop, e2, case_decode_loop, e3, case_decode_loop) refl

mark-nil : (fuel : ℕ) → markonly_decode_loop fuel [] ≡ []
unfolding markonly_decode_loop
mark-nil zero = refl
mark-nil (suc fuel) = refl

mark-esc :
    (fuel b : ℕ) (s : List ℕ)
    → markonly_decode_loop (suc fuel) (0 ∷ b ∷ s) ≡ b ∷ markonly_decode_loop fuel s
unfolding markonly_decode_loop
mark-esc fuel b s = refl

mark-plain :
    (fuel b : ℕ) (s : List ℕ)
    → leb b case_mixed ≡ false
    → markonly_decode_loop (suc fuel) (b ∷ s) ≡ b ∷ markonly_decode_loop fuel s
unfolding markonly_decode_loop
mark-plain fuel b s h =
    let e0 : (b == 0) ≡ false = ground arith in
    let e1 : (leb 1 b && leb b 3) ≡ false = ground arith in
    rw (e0, markonly_decode_loop, e1, markonly_decode_loop) refl

mark-word :
    (m : ℕ)
    → (leb case_title m && leb m case_mixed) ≡ true
    → (fuel : ℕ) (s : List ℕ)
    → markonly_decode_loop (suc fuel) (m ∷ s)
      ≡ take (run is_word_byte s) s ++ markonly_decode_loop fuel (drop (run is_word_byte s) s)
unfolding markonly_decode_loop
mark-word m h fuel s =
    let e0 : (m == 0) ≡ false = ground arith in
    rw (e0, markonly_decode_loop, h, markonly_decode_loop) refl

-- What the class of a word says of it.
abbrev Classified : List ℕ → WordClass → Type 0
Classified [] c = Unit
Classified (b ∷ w) WordClass.lower = Unit
Classified (b ∷ w) WordClass.title = (is_upper b ≡ true) × (every is_lower w ≡ true)
Classified (b ∷ w) WordClass.upper = every is_upper (b ∷ w) ≡ true
Classified (b ∷ w) WordClass.mixed = Unit

class-of :
    (b : ℕ) (w : List ℕ) (low title up : Bool)
    → (title ≡ true → (is_upper b ≡ true) × (every is_lower w ≡ true))
    → (up ≡ true → every is_upper (b ∷ w) ≡ true)
    → Classified (b ∷ w) (
        if low
        then WordClass.lower
        else if title
        then WordClass.title
        else if up
        then WordClass.upper
        else WordClass.mixed)
class-of b w true title up t u = tt
class-of b w false true up t u = t refl
class-of b w false false true t u = u refl
class-of b w false false false t u = tt

word_class-Classified : (w : List ℕ) → Classified w (word_class w)
unfolding word_class
word_class-Classified [] = tt
word_class-Classified (b ∷ w) =
    class-of b w (every is_lower (b ∷ w)) (is_upper b && every is_lower w) (every is_upper (b ∷ w))
      (λ h. ground arith) (λ h. h)

lower-upper :
    (b : ℕ) → is_upper b ≡ true → (is_lower (to_lower b) ≡ true) × (to_upper (to_lower b) ≡ b)
unfolding is_upper is_lower to_lower to_upper
lower-upper b h = ground arith

lower-lower : (b : ℕ) → is_lower b ≡ true → to_lower b ≡ b
unfolding is_lower to_lower
lower-lower b h = ground arith

every-lower :
    (w : List ℕ) → every is_lower w ≡ true → (map to_lower w ≡ w) × All (λ b. is_lower b ≡ true) w
unfolding every
every-lower [] h = (refl, tt)
every-lower (b ∷ w) h =
    let first : is_lower b ≡ true = ground arith in
    let (same, all) = every-lower w (ground arith) in
    (ap₂ ◌∷◌ (lower-lower b first) same, (first, all))

every-upper :
    (w : List ℕ)
    → every is_upper w ≡ true
    → (map to_upper (map to_lower w) ≡ w) × All (λ b. is_lower b ≡ true) (map to_lower w)
unfolding every
every-upper [] h = (refl, tt)
every-upper (b ∷ w) h =
    let first : is_upper b ≡ true = ground arith in
    let (same, all) = every-upper w (ground arith) in
    let (low, back) = lower-upper b first in (ap₂ ◌∷◌ back same, (low, all))

-- A list that does not go on with a letter does not go on with a small one.
Stops-lower : (out : List ℕ) → Stops out → run is_lower out ≡ 0
unfolding run is_lower is_word_byte is_letter
Stops-lower [] h = refl
Stops-lower (b ∷ out) h = ground arith

-- What the decoders make of what was written for a word.
abbrev CaseUndone : List ℕ → List ℕ → Type 0
CaseUndone = Undone case_decode_loop case_mixed (omega arith) case-nil case-esc case-plain

abbrev MarkUndone : List ℕ → List ℕ → Type 0
MarkUndone = Undone markonly_decode_loop case_mixed (omega arith) mark-nil mark-esc mark-plain

case-title :
    (fuel : ℕ) (s : List ℕ)
    → case_decode_loop (suc fuel) (case_title ∷ s)
      ≡ capitalise (take (run is_lower s) s) ++ case_decode_loop fuel (drop (run is_lower s) s)
unfolding case_decode_loop
case-title fuel s = refl

case-upper :
    (fuel : ℕ) (s : List ℕ)
    → case_decode_loop (suc fuel) (case_upper ∷ s)
      ≡ map to_upper (take (run is_lower s) s) ++ case_decode_loop fuel (drop (run is_lower s) s)
unfolding case_decode_loop
case-upper fuel s = refl

case-mixed :
    (fuel : ℕ) (s : List ℕ)
    → case_decode_loop (suc fuel) (case_mixed ∷ s)
      ≡ take (run is_word_byte s) s ++ case_decode_loop fuel (drop (run is_word_byte s) s)
unfolding case_decode_loop
case-mixed fuel s = refl

module _ (out rest : List ℕ) (stop : Stops out) where
  case_word-undone :
      (w : List ℕ) (c : WordClass)
      → Classified w c
      → 1 ≤ length w
      → IsWord w
      → CaseUndone out rest
      → CaseUndone (case_word w c ++ out) (w ++ rest)
  unfolding case_word capitalise
  case_word-undone [] c is long letters u = absurd (omega arith)
  case_word-undone (b ∷ w) WordClass.lower is long letters u =
      Undone-word case_decode_loop case_mixed (omega arith) case-nil case-esc case-plain (b ∷ w) out
        rest letters u
  case_word-undone (b ∷ w) WordClass.title is long letters u =
      let (low, back) = lower-upper b is.0 in
      let (same, all) = every-lower w is.1 in
      subst (λ v. CaseUndone (case_title ∷ map to_lower (b ∷ w) ++ out) (v ++ rest))
        (ap₂ ◌∷◌ back same)
        (Undone-marked case_decode_loop case_mixed (omega arith) case-nil case-esc case-plain
          (case_title ∷ []) is_lower capitalise (map to_lower (b ∷ w)) out rest (omega arith)
          case-title (low, subst (All (λ c. is_lower c ≡ true)) (sym same) all)
          (Stops-lower out stop) u)
  case_word-undone (b ∷ w) WordClass.upper is long letters u =
      let (same, all) = every-upper (b ∷ w) is in
      subst (λ v. CaseUndone (case_upper ∷ map to_lower (b ∷ w) ++ out) (v ++ rest)) same
        (Undone-marked case_decode_loop case_mixed (omega arith) case-nil case-esc case-plain
          (case_upper ∷ []) is_lower (map to_upper) (map to_lower (b ∷ w)) out rest (omega arith)
          case-upper all (Stops-lower out stop) u)
  case_word-undone (b ∷ w) WordClass.mixed is long letters u =
      Undone-marked case_decode_loop case_mixed (omega arith) case-nil case-esc case-plain
        (case_mixed ∷ []) is_word_byte (λ v. v) (b ∷ w) out rest (omega arith) case-mixed letters
        stop u

  mark_marked :
      (m : ℕ) (w : List ℕ)
      → (leb case_title m && leb m case_mixed) ≡ true
      → IsWord w
      → MarkUndone out rest
      → MarkUndone (m ∷ w ++ out) (w ++ rest)
  mark_marked m w h letters u =
      Undone-marked markonly_decode_loop case_mixed (omega arith) mark-nil mark-esc mark-plain
        (m ∷ []) is_word_byte (λ v. v) w out rest (omega arith) (mark-word m h) letters stop u

  mark_word-undone :
      (w : List ℕ) (c : WordClass)
      → IsWord w
      → MarkUndone out rest
      → MarkUndone (mark_word w c ++ out) (w ++ rest)
  unfolding mark_word
  mark_word-undone w WordClass.lower letters u =
      Undone-word markonly_decode_loop case_mixed (omega arith) mark-nil mark-esc mark-plain w out
        rest letters u
  mark_word-undone w WordClass.title letters u = mark_marked case_title w refl letters u
  mark_word-undone w WordClass.upper letters u = mark_marked case_upper w refl letters u
  mark_word-undone w WordClass.mixed letters u = mark_marked case_mixed w refl letters u

-- Case factoring is lossless: the decoder gives back every input, whatever bytes it has.
pub case_decode-case_encode : (input : List ℕ) → case_decode (case_encode input) ≡ input
unfolding case_decode case_encode case_byte
case_decode-case_encode input =
    Undone-wordwise case_decode_loop case_mixed (omega arith) case-nil case-esc case-plain
      (λ w. case_word w (word_class w))
      (λ w out rest letters long stop u.
        case_word-undone out rest stop w (word_class w) (word_class-Classified w) long letters u)
      input (length (case_encode input)) (le_refl _)

-- The control that only marks the words is lossless too, on every list of bytes.
pub case_decode_markonly-case_encode_markonly :
    (input : List ℕ) → case_decode_markonly (case_encode_markonly input) ≡ input
unfolding case_decode_markonly case_encode_markonly case_byte
case_decode_markonly-case_encode_markonly input =
    Undone-wordwise markonly_decode_loop case_mixed (omega arith) mark-nil mark-esc mark-plain
      (λ w. mark_word w (word_class w))
      (λ w out rest letters long stop u. mark_word-undone out rest stop w (word_class w) letters u)
      input (length (case_encode_markonly input)) (le_refl _)
