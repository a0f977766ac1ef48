-- ===== src/Grammar/Varint.antt =====
-- src/grammar/mod.rs: the varints and the symbols, written and read.
use native.Mathlib.Nat.{add-mul, mul_assoc, pow-suc, mul-le-mul_right}
use zentropy.Prelude.{
  ℕ, zero, suc, ◌+◌, ◌-◌, ◌*◌, ◌/◌, ◌%◌, ◌^◌, ◌≤◌, ◌<◌, ◌≡◌, refl, ap, ◌∙◌, some, List, [], ◌∷◌,
  ◌++◌, ltb, leb, ◌==◌, true, false, Bool-cases, ltb→lt, ltb→le, ==→eq, if◌then◌else◌, inl, inr,
  bit_and, bit_or, arith,
}
use zentropy.Prelude.Bits.{bit_and_low, bit_and_high, bit_or_disjoint, bit_or_comm}
use zentropy.Grammar.{put_groups, put_varint, get_groups, get_varint, put_sym, get_sym}

-- The bits of a group: seven of the number, and the mark that another group follows.
last_group : (b : ℕ) → b < 128 → (bit_and b 0x7f ≡ b) × (bit_and b 0x80 ≡ 0)
last_group b h =
    let none_left : b / 2 ^ 7 ≡ 0 = omega arith in
    let top : bit_and (b / 2 ^ 7) 1 ≡ 0 = rw none_left refl in
    (omega (arith, bit_and_low 7 b), omega (arith, bit_and_high 7 b 1, top))

marked : (x : ℕ) → x < 128 → bit_or x 0x80 ≡ 128 + x
marked x h = bit_or_comm (x + 128) x 128 (omega arith) (omega arith) ∙ bit_or_disjoint 7 1 x h

other_group :
    (x : ℕ) → x < 128 → (bit_and (128 + x) 0x7f ≡ x) × ((bit_and (128 + x) 0x80 == 0) ≡ false)
other_group x h =
    let one : (128 + x) / 2 ^ 7 ≡ 1 = omega arith in
    let top : bit_and ((128 + x) / 2 ^ 7) 1 ≡ 1 = rw one refl in
    let mark : bit_and (128 + x) 0x80 ≡ 128 = omega (arith, bit_and_high 7 (128 + x) 1, top) in
    (omega (arith, bit_and_low 7 (128 + x)), rw mark refl)

-- A group that is put above the bits that were read.
placed :
    (acc x shift : ℕ)
    → acc < 2 ^ shift
    → x * 2 ^ shift < 2 ^ 32
    → bit_or acc (x * 2 ^ shift % 2 ^ 32) ≡ acc + x * 2 ^ shift
placed acc x shift h k =
    let fits : x * 2 ^ shift % 2 ^ 32 ≡ x * 2 ^ shift = omega (arith, k) in
    let swapped =
      bit_or_comm (acc + x * 2 ^ shift) acc (x * 2 ^ shift) (omega arith) (omega arith) in
    rw fits (omega (arith, swapped, bit_or_disjoint shift x acc h))

get_groups-last :
    (k acc shift b : ℕ) (rest : List ℕ)
    → b < 128
    → acc < 2 ^ shift
    → b * 2 ^ shift < 2 ^ 32
    → get_groups (suc k) acc shift (b ∷ rest) ≡ (acc + b * 2 ^ shift, rest)
unfolding get_groups
get_groups-last k acc shift b rest small h fits =
    let (low, mark) = last_group b small in rw (mark, low, placed acc b shift h fits) refl

get_groups-other :
    (k acc shift x : ℕ) (rest : List ℕ)
    → x < 128
    → acc < 2 ^ shift
    → x * 2 ^ shift < 2 ^ 32
    → shift + 7 ≤ 28
    → get_groups (suc k) acc shift ((128 + x) ∷ rest)
      ≡ get_groups k (acc + x * 2 ^ shift) (shift + 7) rest
unfolding get_groups
get_groups-other k acc shift x rest small h fits early =
    let (low, mark) = other_group x small in
    let on : ltb 28 (shift + 7) ≡ false = ground arith in
    rw (mark, low, placed acc x shift h fits, on) refl

pub put_groups-last : (k v : ℕ) → v < 128 → put_groups (suc k) v ≡ v ∷ []
unfolding put_groups
put_groups-last k v h =
    let last : leb 0x80 v ≡ false = ground arith in
    let byte : v % 2 ^ 8 ≡ v = omega arith in rw (last, byte) refl

pub put_groups-other :
    (k v : ℕ) → 128 ≤ v → put_groups (suc k) v ≡ (128 + v % 128) ∷ put_groups k (v / 2 ^ 7)
unfolding put_groups
put_groups-other k v h =
    let on : leb 0x80 v ≡ true = ground arith in
    let low : bit_and (v % 2 ^ 8) 0x7f ≡ v % 128 = omega (arith, bit_and_low 7 (v % 2 ^ 8)) in
    rw (on, low, marked (v % 128) (omega arith)) refl

pow-add_7 : (s : ℕ) → 2 ^ (s + 7) ≡ 128 * 2 ^ s
pow-add_7 s =
    let e : s + 7 ≡ suc (suc (suc (suc (suc (suc (suc s)))))) = omega arith in
    rw e (
      omega (
        arith,
        pow-suc 2 s,
        pow-suc 2 (suc s),
        pow-suc 2 (suc (suc s)),
        pow-suc 2 (suc (suc (suc s))),
        pow-suc 2 (suc (suc (suc (suc s)))),
        pow-suc 2 (suc (suc (suc (suc (suc s))))),
        pow-suc 2 (suc (suc (suc (suc (suc (suc s)))))),
      ))

-- The lowest group and the rest of a number, at their place.
record Halved (acc v p : ℕ) : Type 0 where
  low_fits : v % 128 * p < 2 ^ 32
  high_fits : v / 2 ^ 7 * (128 * p) < 2 ^ 32
  small : acc + v % 128 * p < 128 * p
  whole : acc + v % 128 * p + v / 2 ^ 7 * (128 * p) ≡ acc + v * p

halve : (acc v p : ℕ) → acc < p → v * p < 2 ^ 32 → Halved acc v p
halve acc v p h fits =
    let q = v / 2 ^ 7 in
    let parts : v ≡ q * 128 + v % 128 = omega arith in
    let split : v * p ≡ q * (128 * p) + v % 128 * p =
      ap (λ (t : ℕ). t * p) parts
      ∙ add-mul (q * 128) (v % 128) p
      ∙ ap (λ (t : ℕ). t + v % 128 * p) (mul_assoc q 128 p) in
    let below : v % 128 * p ≤ 127 * p = mul-le-mul_right p (omega arith) in
    record {
      low_fits = omega (arith, split, fits);
      high_fits = omega (arith, split, fits);
      small = omega (arith, below, h);
      whole = omega (arith, split);
    }

get_groups-put_groups :
    (k acc shift v : ℕ) (rest : List ℕ)
    → shift + 7 * k ≡ 28
    → acc < 2 ^ shift
    → v * 2 ^ shift < 2 ^ 32
    → get_groups (suc k) acc shift (put_groups (suc k) v ++ rest) ≡ (acc + v * 2 ^ shift, rest)
get_groups-put_groups zero acc shift v rest e h fits =
    let last : shift ≡ 28 = omega arith in
    let small : v < 128 = omega (arith, rw last at fits) in
    rw (put_groups-last 0 v small) (get_groups-last 0 acc shift v rest small h fits)
get_groups-put_groups (suc k) acc shift v rest e h fits = elim (Bool-cases (ltb v 128)) [
  | inl small ↦
      rw (put_groups-last (suc k) v (ltb→lt v 128 small))
        (get_groups-last (suc k) acc shift v rest (ltb→lt v 128 small) h fits)
  | inr large ↦
      let r = halve acc v (2 ^ shift) h fits in
      let up = pow-add_7 shift in
      rw (put_groups-other (suc k) v (ltb→le v 128 large)) (
        get_groups-other (suc k) acc shift (v % 128) _ (omega arith) h r.low_fits (omega arith)
        ∙ get_groups-put_groups k (acc + v % 128 * 2 ^ shift) (shift + 7) (v / 2 ^ 7) rest
            (omega arith) (rw up r.small) (rw up r.high_fits)
        ∙ ap (λ (t : ℕ). (t, rest)) (rw up r.whole))
]

-- A varint is read back, and the bytes behind it are left.
pub get_varint-put_varint :
    (v : ℕ) (rest : List ℕ) → v < 2 ^ 32 → get_varint (put_varint v ++ rest) ≡ (v, rest)
unfolding get_varint put_varint
get_varint-put_varint v rest h =
    get_groups-put_groups 4 0 0 v rest refl (omega arith) (omega arith)
    ∙ ap (λ (t : ℕ). (t, rest)) (omega arith)

get_sym-escape :
    (v : ℕ) (input rest : List ℕ)
    → get_varint input ≡ (v, rest)
    → get_sym (0xff ∷ input)
      ≡ (if v == 0 then some (255, rest) else some ((255 + v) % 2 ^ 32, rest))
unfolding get_sym
get_sym-escape v input rest e =
    ap (λ (r : ℕ × List ℕ). if r.0 == 0 then some (255, r.1) else some ((255 + r.0) % 2 ^ 32, r.1))
      e

get_varint-zero : (rest : List ℕ) → get_varint (0 ∷ rest) ≡ (0, rest)
unfolding get_varint get_groups
get_varint-zero rest = refl

pub get_sym-put_sym :
    (s : ℕ) (rest : List ℕ) → s < 2 ^ 32 → get_sym (put_sym s ++ rest) ≡ some (s, rest)
unfolding put_sym
get_sym-put_sym s rest h = elim (Bool-cases (ltb s 255)) [
  | inl literal ↦
      let byte : s % 2 ^ 8 ≡ s = ground arith in
      let plain : (s == 0xff) ≡ false = ground arith in
      rw (literal, byte) (unfold get_sym in rw plain refl)
  | inr big ↦ elim (Bool-cases (s == 255)) [
    | inl last ↦
        rw (big, last)
          (rw (==→eq s 255 last) (get_sym-escape 0 (0 ∷ rest) rest (get_varint-zero rest)))
    | inr other ↦
        let v = get_varint-put_varint (s - 255) rest (omega arith) in
        let some_v : (s - 255 == 0) ≡ false = ground arith in
        let back : (255 + (s - 255)) % 2 ^ 32 ≡ s = ground arith in
        rw (big, other)
          (rw (get_sym-escape (s - 255) (put_varint (s - 255) ++ rest) rest v, some_v, back) refl)
  ]
]
