-- ===== src/Transform/IdList.antt =====
-- src/transform/mod.rs: `IdMode` and `IdList`, the order of the vocabulary that gives a token its id.
pub mod Hole
pub mod IsOrder
pub mod Refines
use zentropy.Prelude.{ℕ, zero, suc, ◌+◌, ◌-◌, ◌%◌, ◌^◌, min, List, get_or, set, ◌==◌, if◌then◌else◌}
use zentropy.Reorder.Shuffle.{upto}

pub data IdMode : Type 0 where
  static : IdMode
  mtf : IdMode
  move_to_second : IdMode

-- `order[position] = vocabulary index` and `pos[vocabulary index] = position`, both `Vec<u8>`.
pub record IdList : Type 0 where
  pub order : List ℕ
  pub pos : List ℕ

unfoldable pub new : ℕ → IdList
new n = let m = min n 255 % 2 ^ 8 in record { order = upto 0 m; pos = upto 0 m }

unfoldable pub id : IdList → ℕ → ℕ
id list vi = (get_or list.pos vi 0 + 1) % 2 ^ 8

unfoldable pub resolve : IdList → ℕ → ℕ
resolve list id = get_or list.order (id - 1) 0

-- One round of the loop: the token at `k` moves back by one.
unfoldable pub shift : IdList → ℕ → IdList
shift list k =
    let v = get_or list.order k 0 in
    record { order = set list.order (k + 1) v; pos = set list.pos v ((k + 1) % 2 ^ 8) }

-- `for k in (target..target + d).rev()`
unfoldable pub shift_loop : ℕ → ℕ → IdList → IdList
shift_loop target zero list = list
shift_loop target (suc d) list = shift_loop target d (shift list (target + d))

unfoldable pub put_at : IdList → ℕ → ℕ → IdList
put_at list vi target = record {
  order = set list.order target vi;
  pos = set list.pos vi (target % 2 ^ 8);
}

unfoldable pub promote : IdList → ℕ → ℕ → ℕ → IdList
promote list vi p target =
    let moved = put_at (shift_loop target (p - target) list) vi target in
    if p == target then list else moved

unfoldable pub touch : IdList → ℕ → IdMode → IdList
touch list vi IdMode.static = list
touch list vi IdMode.mtf = promote list vi (get_or list.pos vi 0) 0
touch list vi IdMode.move_to_second = let p = get_or list.pos vi 0 in promote list vi p (min 1 p)
