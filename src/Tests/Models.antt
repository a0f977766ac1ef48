-- ===== src/Tests/Models.antt =====
-- Runs of the mixer and of the context tables.
use zentropy.Prelude.{
  ◌-◌, ℕ, zero, suc, ◌+◌, ◌*◌, ◌/◌, ◌%◌, ◌≤◌, ◌<◌, ◌≡◌, refl, some, false, List, [], ◌∷◌, ◌++◌,
  length, get_or, codes, replicate, arith,
}
use zentropy.Prelude.Int.{ℤ, pos, negsuc, ◌+ℤ◌, ◌-ℤ◌, to_i32, modulo, shift_right}
use zentropy.Reorder.Shuffle.{upto}
use zentropy.Mixer.Squash.{bias, squash, interpolate}
use zentropy.Mixer.Stretch.{stretch_table, stretch}
use zentropy.Mixer.Stretch.Inverse.{Least, stretch-Least}
use zentropy.Mixer.Apm.{Apm, interpolated}
use zentropy.Mixer.Apm
use zentropy.Mixer.Apm.InRange.{InRange, new-InRange, update-predict-InRange}
use zentropy.Mixer.Mix
use zentropy.Mixer.Mix.Isolation.{Isolated, new-IsValid, update-mix-Isolated}
use zentropy.Context.Match.{MatchModel, byte_boundary}
use zentropy.Context.Match.Agrees.{Agrees, Leads, byte_boundary-Agrees}
use zentropy.Context.Table.{ContextModel, Layout, fresh, is_nibble_layout}
use zentropy.Context.Table
use zentropy.Context.Table.Sound.{Shaped, Used, Learnt, update-predict-Used}

middle_of_curve : squash bias ≡ 2047
unfolding squash interpolate
middle_of_curve = refl

stretch-Least_example : Least 2048 (stretch stretch_table 2048)
stretch-Least_example = stretch-Least 2048 (omega arith)

abbrev small_map : Apm
small_map = Apm.new 4 7

update-predict-InRange_example :
    (pos (Apm.predict small_map 3000 9).0
      ≡ interpolated small_map.t (9 % small_map.n * 33 + 3000 / 128) (3000 % 128))
    × ((Apm.predict small_map 3000 9).0 ≤ 4095)
    × InRange (Apm.predict small_map 3000 9).1
    × InRange (Apm.update (Apm.predict small_map 3000 9).1 1)
unfolding Apm.new
update-predict-InRange_example =
    update-predict-InRange small_map 3000 9 1 (omega arith) (omega arith)
      (new-InRange 4 7 (omega arith))

-- At rate 31, `1 << rate` is the least `i32`, and an entry goes below zero.
steep_rate : get_or (Apm.update (Apm.predict (Apm.new 1 31) 0 0).1 1).t 0 (pos 0) ≡ negsuc 0
unfolding Apm.update Apm.predict Apm.new Apm.rows Apm.identity_row Apm.adapt_at Apm.adapt Apm.goal
    Apm.one_shifted ◌+ℤ◌ ◌-ℤ◌ to_i32 modulo shift_right squash interpolate upto
steep_rate = refl

abbrev two_experts : Mix.Mixer
two_experts = Mix.new 2 3

abbrev stretched : List ℤ
stretched = pos 100 ∷ negsuc 50 ∷ []

update-mix-Isolated_example :
    (p : ℕ) × (m' : Mix.Mixer) × (m'' : Mix.Mixer) × (Mix.mix two_experts stretched 4
      ≡ some (p, m'))
    × (Mix.update m' 1 ≡ some m'')
    × (1 ≤ p)
    × (p ≤ 4094)
    × Isolated (4 % two_experts.n_ctx) two_experts m''
unfolding Mix.new
update-mix-Isolated_example =
    update-mix-Isolated two_experts stretched 4 1 (new-IsValid 2 3 (omega arith)) refl

-- A match of three bytes in "abcabc", after which "a" comes.
abbrev matching : MatchModel
matching = record {
  min_len = 3;
  gap = 0;
  dist_scaled = false;
  off = 3;
  table = replicate 16 0;
  table_mask = 15;
  ptr = 3;
  len = 3;
  max_len = 63;
  pred_byte = b'a';
  st_tab = [];
}

abbrev history : List ℕ
history = codes "abcabc"

matching_agree :
    (k : ℕ) → k < 3 → get_or history (3 - suc k) 0 ≡ get_or history (length history - suc k) 0
matching_agree zero h = refl
matching_agree (suc zero) h = refl
matching_agree (suc (suc zero)) h = refl
matching_agree (suc (suc (suc k))) h = absurd (omega arith)

byte_boundary-Agrees_example :
    Agrees (byte_boundary matching (history ++ b'a' ∷ [])).1 (history ++ b'a' ∷ [])
    × Leads
        (byte_boundary matching (history ++ b'a' ∷ [])).0
        (byte_boundary matching (history ++ b'a' ∷ [])).1
        (history ++ b'a' ∷ [])
byte_boundary-Agrees_example = byte_boundary-Agrees matching history b'a' refl (λ some_len. record {
  begun = omega arith;
  earlier = omega arith;
  room = omega arith;
  agree = matching_agree;
})

fresh-Shaped : Shaped 5 (fresh 5 4 1 Layout.nibble)
unfolding fresh
fresh-Shaped = record {
  size = refl;
  masked = refl;
  enough = λ h. omega arith;
  high = (refl, omega arith);
  low = (refl, omega arith);
}

update-predict-Used_example :
    Used 5 (Table.predict (fresh 5 4 1 Layout.nibble) 21 stretch_table 2048).1
    × Learnt 5
        (Table.predict (fresh 5 4 1 Layout.nibble) 21 stretch_table 2048).1
        (Table.update (Table.predict (fresh 5 4 1 Layout.nibble) 21 stretch_table 2048).1 1)
update-predict-Used_example =
    update-predict-Used 5 (fresh 5 4 1 Layout.nibble) 21 stretch_table 2048 1 fresh-Shaped
