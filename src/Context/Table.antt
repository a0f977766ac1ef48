-- ===== src/Context/Table.antt =====
-- src/context/mod.rs: `ContextModel`, one adaptive probability for each context and partial byte, and
-- `StateModel` with `StateMap`, bit histories and what they predict.
pub mod Sound
use zentropy.Prelude.{
  ℕ, ◌+◌, ◌-◌, ◌*◌, ◌/◌, ◌%◌, ◌^◌, min, max, Bool, true, false, ◌&&◌, not, Option, none, some, List,
  [], ◌∷◌, map, length, get_or, set, replicate, ltb, leb, ◌==◌, if◌then◌else◌, bit_and, bit_or,
  bit_xor,
}
use zentropy.Reorder.Shuffle.{upto}
use zentropy.Prelude.Int.{ℤ, pos, negsuc}
use zentropy.Mixer.Apm.{adapt}
use zentropy.Mixer.Stretch.{stretch}
use zentropy.Context.Hash.{mix_c}

pub data Layout : Type 0 where
  hashed nibble : Layout

pub record ContextModel : Type 0 where
  pub table : List ℕ
  pub chk : List ℕ
  pub mask : ℕ
  pub ctx : ℕ
  pub idx : ℕ
  pub rate : ℕ
  pub verify : ℕ
  pub chk_shift : ℕ
  pub last_p : ℕ
  pub is_nibble : Bool
  pub hi_base : ℕ
  pub lo_base : ℕ
  pub lo_ready : Bool

unfoldable pub is_nibble_layout : Layout → Bool
is_nibble_layout Layout.hashed = false
is_nibble_layout Layout.nibble = true

unfoldable pub fresh : ℕ → ℕ → ℕ → Layout → ContextModel
fresh bits rate verify layout = record {
  table = replicate (2 ^ bits) 0;
  chk = if verify == 0 then [] else replicate (2 ^ bits) 0;
  mask = 2 ^ bits - 1;
  ctx = 0;
  idx = 0;
  rate = rate;
  verify = verify;
  chk_shift = bits;
  last_p = 32768;
  is_nibble = is_nibble_layout layout;
  hi_base = 0;
  lo_base = 0;
  lo_ready = false;
}

-- `none` is the failed assertion.
unfoldable pub new_full : ℕ → ℕ → ℕ → Layout → Option ContextModel
new_full bits rate verify layout =
    if is_nibble_layout layout && ltb bits 5 then none else some (fresh bits rate verify layout)

unfoldable pub new_verify : ℕ → ℕ → ℕ → Option ContextModel
new_verify bits rate verify = new_full bits rate verify Layout.hashed

unfoldable pub new : ℕ → ℕ → Option ContextModel
new bits rate = new_full bits rate 0 Layout.hashed

unfoldable pub scrambled : ℕ → ℕ → ℕ
scrambled ctx k = bit_xor ctx (k * mix_c % 2 ^ 32)

-- `& !0xF` takes the low four bits away.
unfoldable pub nibble_base : ContextModel → ℕ → ℕ
nibble_base m k = bit_and (scrambled m.ctx k) m.mask / 16 * 16

-- The low bucket is derived once for a byte.
unfoldable pub ready_low : ContextModel → ℕ → ContextModel
ready_low m c0 =
    if m.lo_ready then m else record m { lo_base = nibble_base m (c0 % 16 + 1); lo_ready = true }

-- The source of the checksum, the slot, and the model with its low bucket.
unfoldable pub locate : ContextModel → ℕ → ℕ × ℕ × ContextModel
locate m c0 =
    let low = ready_low m c0 in
    let h = scrambled m.ctx c0 in
    if m.is_nibble
    then if leb 16 c0
      then (low.lo_base, bit_or low.lo_base (c0 / 16 % 16), low)
      else (m.hi_base, bit_or m.hi_base (c0 % 16), m)
    else (h, bit_and h m.mask, m)

unfoldable pub set_context : ContextModel → ℕ → ContextModel
set_context m ctx =
    let m' = record m { ctx = ctx } in
    if m.is_nibble then record m' { hi_base = nibble_base m' 0; lo_ready = false } else m'

unfoldable pub checksum : ContextModel → ℕ → ℕ
checksum m h =
    if m.verify == 1
    then if m.is_nibble then m.idx / 16 % 2 ^ 8 else h / 2 ^ m.chk_shift % 2 ^ 8
    else 0

-- A slot that another context wrote is taken for one that was never used.
unfoldable pub verified : ContextModel → ℕ → ContextModel
verified m h =
    let want = checksum m h in
    if m.verify == 0
    then m
    else if get_or m.chk m.idx 0 == want
    then m
    else record m { chk = set m.chk m.idx want; table = set m.table m.idx 0 }

unfoldable pub seeded : ContextModel → ℕ → ContextModel
seeded m seed =
    if get_or m.table m.idx 0 == 0
    then record m { table = set m.table m.idx (max seed 1); last_p = max seed 1 }
    else record m { last_p = get_or m.table m.idx 0 }

unfoldable pub selected : ContextModel → ℕ → ContextModel
selected m c0 = let (h, idx, low) = locate m c0 in verified (record low { idx = idx }) h

unfoldable pub predict : ContextModel → ℕ → List ℕ → ℕ → ℕ × ContextModel
predict m c0 st seed = let m' = seeded (selected m c0) seed in (stretch st (m'.last_p / 16), m')

-- `np.clamp(1, 65535)`
unfoldable pub real : ℤ → ℕ
real (pos p) = min (max p 1) 65535
real (negsuc p) = 1

unfoldable pub update : ContextModel → ℕ → ContextModel
update m bit =
    let target = pos (if bit == 0 then 0 else 65535) in
    let np = adapt m.rate target (pos (get_or m.table m.idx 0)) in
    record m { table = set m.table m.idx (real np) }

pub record StateModel : Type 0 where
  pub histories : List ℕ
  pub state_mask : ℕ
  pub state_ctx : ℕ
  pub state_idx : ℕ
  pub cur : ℕ

unfoldable pub new_states : ℕ → StateModel
new_states bits = record {
  histories = replicate (2 ^ bits) 0;
  state_mask = 2 ^ bits - 1;
  state_ctx = 0;
  state_idx = 0;
  cur = 0;
}

unfoldable pub set_state_context : StateModel → ℕ → StateModel
set_state_context m c = record m { state_ctx = c }

unfoldable pub count_up : ℕ → ℕ
count_up n = if ltb n 15 then n + 1 else n

-- `(n0 << 4) | n1`: two counts that stop at 15.
unfoldable pub next_state : ℕ → ℕ → ℕ
next_state s bit =
    let n0 = s / 16 in
    let n1 = s % 16 in
    if bit == 0
    then bit_or (count_up n0 * 16) n1 % 2 ^ 8
    else bit_or (n0 * 16) (count_up n1) % 2 ^ 8

unfoldable pub begin : StateModel → ℕ → ℕ × StateModel
begin m c0 =
    let i = bit_and (scrambled m.state_ctx c0) m.state_mask in
    let s = get_or m.histories i 0 in (s, record m { state_idx = i; cur = s })

unfoldable pub update_state : StateModel → ℕ → StateModel
update_state m bit = record m { histories = set m.histories m.state_idx (next_state m.cur bit) }

-- The probability that a state starts with: `(n1 + 1) / (n0 + n1 + 2)`, in 16 bits.
unfoldable pub initial_map : List ℕ
initial_map = map (λ s. real (pos ((s % 16 + 1) * 65536 / (s / 16 + s % 16 + 2)))) (upto 0 256)

unfoldable pub predict_state : List ℕ → ℕ → List ℕ → ℕ
predict_state t s st = stretch st (get_or t s 0 / 16)

unfoldable pub update_map : List ℕ → ℕ → ℕ → List ℕ
update_map t s bit =
    set t s (real (adapt 6 (pos (if bit == 0 then 0 else 65535)) (pos (get_or t s 0))))
