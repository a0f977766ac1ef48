-- ===== src/Mixer/Stretch.antt =====
-- src/mixer/mod.rs: `StretchTable`. Its entries are kept with 2 ^ 31 added, as the `i32` that they are
-- read as.
pub mod Inverse
use zentropy.Prelude.{
  ℕ, zero, suc, ◌+◌, ◌-◌, ◌^◌, min, ◌&&◌, List, [], ◌∷◌, get_or, set, replicate, ltb, leb,
  if◌then◌else◌,
}
use zentropy.Mixer.Squash.{bias, squash}

-- `while j <= p && j < 4096 { t[j] = x as i16; j += 1; }`: 4096 rounds are enough.
unfoldable pub fill_entries : ℕ → ℕ → ℕ → ℕ → List ℕ → List ℕ
fill_entries zero p x j t = t
fill_entries (suc fuel) p x j t =
    let more = fill_entries fuel p x (j + 1) (set t j x) in
    if leb j p && ltb j 4096 then more else t

-- `for x in …`, `n` values of it from `x` on, then the loop that fills the rest.
unfoldable pub fill_all : ℕ → ℕ → ℕ → List ℕ → List ℕ
fill_all zero x pi t = fill_entries 4096 4095 (bias + 2047) pi t
fill_all (suc n) x pi t =
    let p = squash x in fill_all n (x + 1) (p + 1) (fill_entries 4096 p x pi t)

unfoldable pub stretch_table : List ℕ
stretch_table = fill_all 4095 (bias - 2047) 0 (replicate 4096 bias)

-- `p` is not negative where the code calls it.
unfoldable pub stretch : List ℕ → ℕ → ℕ
stretch t p = get_or t (min p 4095) bias
