-- ===== src/Entropy/Rans.antt =====
-- src/entropy/rans.rs: the byte-interleaved rANS coder over a given table. Symbols and frequencies
-- are numbers, the state is a `u32` with its wrap-around written out. The encoder's buffer is kept
-- last byte first, which is the order that the final `buf.reverse()` gives.
pub mod Slot
use zentropy.Prelude.{
  ℕ, zero, suc, ◌+◌, ◌-◌, ◌*◌, ◌/◌, ◌%◌, ◌^◌, true, false, Option, none, some, List, [], ◌∷◌, ◌++◌,
  ltb, leb, ◌==◌, if◌then◌else◌, length, get_or, get_elem?, ◌>>=◌, bit_and, bit_or,
}

abbrev pub rans_l : ℕ
rans_l = 2 ^ 23

abbrev pub scale_bits : ℕ
scale_bits = 12

pub record Table : Type 0 where
  pub freq : List ℕ
  pub cum : List ℕ
  pub slot_to_sym : List ℕ

-- `Table::sym`: the frequency and the cumulative frequency of a symbol of the alphabet.
unfoldable pub sym_freq : Table → ℕ → ℕ
sym_freq table s = get_or table.freq s 0

unfoldable pub sym_cum : Table → ℕ → ℕ
sym_cum table s = get_or table.cum s 0

-- `while state as u64 >= x_max { buf.push(…); state >>= 8 }`; a state below 2 ^ 31 leaves within
-- three rounds where the frequency is not 0.
unfoldable pub shrink : ℕ → ℕ → ℕ × List ℕ → ℕ × List ℕ
shrink zero x_max (state, buf) = (state, buf)
shrink (suc fuel) x_max (state, buf) = elim (leb x_max state) [
  | true ↦ shrink fuel x_max (state / 2 ^ 8, (state % 2 ^ 8) ∷ buf)
  | false ↦ (state, buf)
]

-- `((state / f) << SCALE_BITS) + (state % f) + c` in wrapping arithmetic.
unfoldable pub place : ℕ → ℕ → ℕ → ℕ
place f c state = (state / f * 2 ^ scale_bits % 2 ^ 32 + state % f + c) % 2 ^ 32

-- One round of `encode`.
unfoldable pub put_symbol : ℕ → ℕ → ℕ × List ℕ → ℕ × List ℕ
put_symbol f c (state, buf) =
    let (state', buf') = shrink 4 (rans_l / 2 ^ scale_bits * 2 ^ 8 * f) (state, buf) in
    (place f c state', buf')

-- `for &s in symbols.iter().rev()`: the last symbol is put first.
unfoldable pub put_symbols : Table → List ℕ → ℕ × List ℕ
put_symbols table [] = (rans_l, [])
put_symbols table (s ∷ symbols) =
    put_symbol (sym_freq table s) (sym_cum table s) (put_symbols table symbols)

-- The state's bytes, lowest first, at the head of the stream.
unfoldable pub state_bytes : ℕ → List ℕ
state_bytes state =
    (state % 256) ∷ (state / 2 ^ 8 % 256) ∷ (state / 2 ^ 16 % 256) ∷ (state / 2 ^ 24 % 256) ∷ []

unfoldable pub encode : List ℕ → Table → List ℕ
encode symbols table = let (state, buf) = put_symbols table symbols in state_bytes state ++ buf

pub record Decoder : Type 0 where
  pub state : ℕ
  pub input : List ℕ
  pub pos : ℕ

-- `state |= (input[i] as u32) << (8 * i)` for the first four bytes.
unfoldable pub initial_state : List ℕ → ℕ
initial_state input =
    bit_or
      (bit_or (bit_or (bit_or 0 (get_or input 0 0)) (get_or input 1 0 * 2 ^ 8))
        (get_or input 2 0 * 2 ^ 16))
      (get_or input 3 0 * 2 ^ 24)

unfoldable pub new_decoder : List ℕ → Option Decoder
new_decoder input =
    if ltb (length input) 4
    then none
    else if ltb (initial_state input) rans_l
    then none
    else some (record { state = initial_state input; input = input; pos = 4 })

-- `while self.state < RANS_L`: a read past the end yields 0.
unfoldable pub refill : ℕ → Decoder → Decoder
refill zero d = d
refill (suc fuel) d = elim (ltb d.state rans_l) [
  | true ↦ refill fuel (record d {
    state = bit_or (d.state * 2 ^ 8 % 2 ^ 32) (get_or d.input d.pos 0);
    pos = d.pos + 1;
  })
  | false ↦ d
]

-- `f * (state >> SCALE_BITS) + slot - c` in wrapping arithmetic.
unfoldable pub advance : ℕ → ℕ → ℕ → ℕ → ℕ
advance f c slot state = (f * (state / 2 ^ scale_bits) % 2 ^ 32 + slot + 2 ^ 32 - c) % 2 ^ 32

unfoldable pub decode : Decoder → Table → Option (ℕ × Decoder)
decode d table =
    let slot = bit_and d.state 0xfff in
    do
      s ← get_elem? table.slot_to_sym slot
      let f = sym_freq table s
      if f == 0
          then none
          else some (s, refill 4 (record d { state = advance f (sym_cum table s) slot d.state }))

-- `decode_n`: the symbols, or `none` where it returns false.
unfoldable pub decode_n : ℕ → Decoder → Table → Option (List ℕ)
decode_n zero d table = some []
decode_n (suc n) d table = do (s, d') ← decode d table; rest ← decode_n n d' table; some (s ∷ rest)
