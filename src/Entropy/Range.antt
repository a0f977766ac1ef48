-- ===== src/Entropy/Range.antt =====
-- src/entropy/mod.rs: `RangeEncoder` and `RangeDecoder`. A `u32` is a number below 2 ^ 32, with its
-- wrap-around written out; a byte buffer is a list of numbers. The `vocab-price` field `cost` is
-- compiled out of the scored build and is not modelled.
pub mod Word
pub mod Interval
pub mod Step
pub mod Sync
use zentropy.Prelude.{
  ℕ, zero, suc, ◌+◌, ◌-◌, ◌*◌, ◌/◌, ◌%◌, ◌^◌, Bool, true, false, List, [], ◌∷◌, ◌++◌, ltb, leb,
  ◌==◌, if◌then◌else◌, get_or, bit_and, bit_or, bit_xor,
}
use zentropy.Entropy.{prob_bits, prob_scale}

pub record RangeEncoder : Type 0 where
  pub x1 : ℕ
  pub x2 : ℕ
  pub out : List ℕ

-- `RangeEncoder::new`; `with_capacity` only reserves memory.
unfoldable pub new_encoder : RangeEncoder
new_encoder = record { x1 = 0; x2 = 0xffff_ffff; out = [] }

-- `p.clamp(1, PROB_SCALE - 1)`
unfoldable pub clamp_prob : ℕ → ℕ
clamp_prob p = if ltb p 1 then 1 else if ltb (prob_scale - 1) p then prob_scale - 1 else p

-- `self.x1 + (((self.x2 - self.x1) >> PROB_BITS) * p)` in wrapping 32-bit arithmetic.
unfoldable pub midpoint : ℕ → ℕ → ℕ → ℕ
midpoint x1 x2 p = (x1 + (x2 + 2 ^ 32 - x1) % 2 ^ 32 / 2 ^ prob_bits * p % 2 ^ 32) % 2 ^ 32

-- `(self.x1 ^ self.x2) & 0xff00_0000 == 0`
unfoldable pub same_top : ℕ → ℕ → Bool
same_top x1 x2 = bit_and (bit_xor x1 x2) 0xff00_0000 == 0

-- `x << 8`, and `(x << 8) | b`
unfoldable pub shift_byte : ℕ → ℕ
shift_byte x = x * 2 ^ 8 % 2 ^ 32

unfoldable pub shift_in : ℕ → ℕ → ℕ
unfolding shift_byte
shift_in x b = bit_or (shift_byte x) b

-- The loop of `encode`. Four rounds are enough from any two words: see Range/Interval.
unfoldable pub emit : ℕ → RangeEncoder → RangeEncoder
emit zero e = e
emit (suc fuel) e = elim (same_top e.x1 e.x2) [
  | true ↦ emit fuel (record {
    x1 = shift_byte e.x1;
    x2 = shift_in e.x2 0xff;
    out = e.out ++ ((e.x2 / 2 ^ 24 % 256) ∷ []);
  })
  | false ↦ e
]

-- The two branches on `bit != 0`.
unfoldable pub narrow : RangeEncoder → ℕ → ℕ → RangeEncoder
narrow e bit p =
    let xmid = midpoint e.x1 e.x2 (clamp_prob p) in
    if bit == 0 then record e { x1 = (xmid + 1) % 2 ^ 32 } else record e { x2 = xmid }

unfoldable pub encode : RangeEncoder → ℕ → ℕ → RangeEncoder
encode e bit p = emit 4 (narrow e bit p)

-- `(self.x1 >> shift) as u8` for the shifts 24, 16, 8, 0.
unfoldable pub flush : ℕ → List ℕ
flush x1 = (x1 / 2 ^ 24 % 256) ∷ (x1 / 2 ^ 16 % 256) ∷ (x1 / 2 ^ 8 % 256) ∷ (x1 / 2 ^ 0 % 256) ∷ []

unfoldable pub finish : RangeEncoder → List ℕ
finish e = e.out ++ flush e.x1

pub record RangeDecoder : Type 0 where
  pub x1 : ℕ
  pub x2 : ℕ
  pub x : ℕ
  pub input : List ℕ
  pub pos : ℕ

-- `next_byte`: a read past the end yields 0, and the position moves on all the same.
unfoldable pub next_byte : RangeDecoder → ℕ
next_byte d = get_or d.input d.pos 0

-- `d.x = (d.x << 8) | d.next_byte()`
unfoldable pub load_byte : RangeDecoder → RangeDecoder
load_byte d = record d { x = shift_in d.x (next_byte d); pos = d.pos + 1 }

unfoldable pub new_decoder : List ℕ → RangeDecoder
new_decoder input = load_byte (
    load_byte
      (load_byte (load_byte (record { x1 = 0; x2 = 0xffff_ffff; x = 0; input = input; pos = 0 }))))

-- The loop of `decode`.
unfoldable pub fill : ℕ → RangeDecoder → RangeDecoder
fill zero d = d
fill (suc fuel) d = elim (same_top d.x1 d.x2) [
  | true ↦ fill fuel (load_byte (record d { x1 = shift_byte d.x1; x2 = shift_in d.x2 0xff }))
  | false ↦ d
]

-- `if self.x <= xmid { 1 } else { 0 }`
unfoldable pub decide : RangeDecoder → ℕ → ℕ
decide d p = if leb d.x (midpoint d.x1 d.x2 (clamp_prob p)) then 1 else 0

unfoldable pub take_side : RangeDecoder → ℕ → RangeDecoder
take_side d p =
    let xmid = midpoint d.x1 d.x2 (clamp_prob p) in
    if decide d p == 0 then record d { x1 = (xmid + 1) % 2 ^ 32 } else record d { x2 = xmid }

-- The bit, and the decoder after it.
unfoldable pub decode : RangeDecoder → ℕ → ℕ × RangeDecoder
decode d p = (decide d p, fill 4 (take_side d p))
