-- ===== src/Context/Match.antt =====
-- src/context/mod.rs: `MatchModel`, which predicts that what followed an earlier occurrence of the
-- last bytes follows again. `buf` is the history; a position in it is a `u32` in the table.
pub mod Agrees
use zentropy.Prelude.{
  ℕ, zero, suc, ◌+◌, ◌-◌, ◌*◌, ◌/◌, ◌%◌, ◌^◌, min, Bool, true, false, ◌&&◌, Option, none, some,
  List, [], ◌∷◌, length, take, drop, get_or, set, replicate, map, ltb, leb, ◌==◌, if◌then◌else◌,
  bit_and,
}
use zentropy.Prelude.Int.{ℤ, pos, negsuc, sub_ℕ}
use zentropy.Reorder.Shuffle.{upto}
use zentropy.Transform.WordMap.{same}
use zentropy.Mixer.Squash.{bias, squash}
use zentropy.Mixer.Stretch.{stretch_table, stretch}
use zentropy.Context.Hash.{hash_bytes}

pub record MatchModel : Type 0 where
  pub min_len : ℕ
  pub gap : ℕ
  pub dist_scaled : Bool
  pub off : ℕ
  pub table : List ℕ
  pub table_mask : ℕ
  pub ptr : ℕ
  pub len : ℕ
  pub max_len : ℕ
  pub pred_byte : ℕ
  pub st_tab : List ℕ

-- The confidence of a match of each length, stretched, with 2 ^ 31 added.
unfoldable pub confidences : List ℕ
confidences =
    map
      (λ i. stretch stretch_table (
        let p = squash (bias + min (i * 96) 2047) in
        if ltb p 1 then 1 else if ltb 4094 p then 4094 else p))
      (upto 0 64)

unfoldable pub new : ℕ → ℕ → ℕ → Bool → MatchModel
new bits min_len gap dist_scaled = record {
  min_len = min_len;
  gap = gap;
  dist_scaled = dist_scaled;
  off = 0;
  table = replicate (2 ^ bits) 0;
  table_mask = 2 ^ bits - 1;
  ptr = 0;
  len = 0;
  max_len = 63;
  pred_byte = 0;
  st_tab = confidences;
}

-- `&buf[s..e]`
abbrev pub slice : List ℕ → ℕ → ℕ → List ℕ
slice buf s e = take (e - s) (drop s buf)

-- The match goes on if it predicted the byte that came, and ends if not.
unfoldable pub extend : MatchModel → List ℕ → MatchModel
extend m buf =
    let pos = length buf in
    if ltb 0 m.len && (ltb m.ptr pos && get_or buf m.ptr 0 == get_or buf (pos - 1) 0)
    then record m { ptr = m.ptr + 1; len = min (m.len + 1) m.max_len }
    else record m { len = 0 }

unfoldable pub slot_of : MatchModel → List ℕ → ℕ
slot_of m buf =
    let pos = length buf in
    bit_and (hash_bytes (slice buf (pos - m.min_len - m.gap) (pos - m.gap))) m.table_mask

-- The candidate is an earlier position behind the same bytes.
unfoldable pub accepts : MatchModel → List ℕ → ℕ → Bool
accepts m buf cand =
    let pos = length buf in
    m.len == 0
    && (leb (m.min_len + m.gap) cand
        && (ltb cand pos
            && same (slice buf (cand - m.min_len - m.gap) (cand - m.gap))
                (slice buf (pos - m.min_len - m.gap) (pos - m.gap))))

unfoldable pub look_up : MatchModel → List ℕ → Option ℕ × MatchModel
look_up m buf =
    let pos = length buf in
    let slot = slot_of m buf in
    let cand = get_or m.table slot 0 in
    let entered = record m { table = set m.table slot (pos % 2 ^ 32) } in
    if accepts m buf cand
    then (
      some (pos - cand),
      record entered { ptr = cand; len = m.min_len % 2 ^ 32; off = pos - cand },
    )
    else (none, entered)

unfoldable pub byte_boundary : MatchModel → List ℕ → Option ℕ × MatchModel
byte_boundary m buf =
    if ltb (length buf) (m.min_len + m.gap) then (none, m) else look_up (extend m buf) buf

unfoldable pub begin_byte : MatchModel → List ℕ → MatchModel
begin_byte m buf =
    if ltb 0 m.len && ltb m.ptr (length buf)
    then record m { pred_byte = get_or buf m.ptr 0 }
    else record m { len = 0 }

-- `usize::BITS - x.leading_zeros()`: how many bits a number has, 64 at most.
unfoldable pub bit_length : ℕ → ℕ → ℕ
bit_length zero x = 0
bit_length (suc fuel) x = let more = bit_length fuel (x / 2) in if x == 0 then 0 else suc more

-- `saturating_sub` is the subtraction on ℕ.
unfoldable pub effective_len : MatchModel → ℕ
effective_len m =
    if m.dist_scaled then m.len - (bit_length 64 (if m.off == 0 then 1 else m.off) - 10) else m.len

unfoldable pub predict : MatchModel → ℕ → ℤ
predict m bitpos =
    let conf = get_or m.st_tab (min (effective_len m) (length m.st_tab - 1)) 0 in
    if m.len == 0
    then pos 0
    else if bit_and (m.pred_byte / 2 ^ (7 - bitpos)) 1 == 0
    then sub_ℕ bias conf
    else sub_ℕ conf bias

unfoldable pub state : MatchModel → ℕ
state m =
    let l = effective_len m in
    if m.len == 0 then 0 else if ltb l 12 then 1 else if ltb l 24 then 2 else 3
