-- ===== src/Context/Hash.antt =====
-- src/context/mod.rs: `hash_bytes`, `stem_bytes`, `fold_bytes` and `word_add`.
use zentropy.Prelude.{
  ℕ, ◌-◌, ◌*◌, ◌/◌, ◌%◌, ◌^◌, Bool, ◌&&◌, not, List, [], ◌∷◌, length, take, drop, ltb, leb,
  if◌then◌else◌, bit_xor, bit_or, codes,
}
use zentropy.Transform.WordMap.{same}

abbrev pub mix_c : ℕ
mix_c = 0x9E37_79B1

abbrev pub hash_c : ℕ
hash_c = 0x9E37_79B9_7F4A_7C15

-- `wrapping_mul` on `u64`
unfoldable pub hash_loop : ℕ → List ℕ → ℕ
hash_loop h [] = h
hash_loop h (b ∷ bytes) = hash_loop (bit_xor h b * hash_c % 2 ^ 64) bytes

unfoldable pub hash_bytes : List ℕ → ℕ
hash_bytes bytes = hash_loop hash_c bytes / 2 ^ 32

unfoldable pub ends_with : List ℕ → List ℕ → Bool
ends_with s suffix =
    leb (length suffix) (length s) && same (drop (length s - length suffix) s) suffix

-- `n > longer && s.ends_with(suffix)`
unfoldable pub strips : List ℕ → ℕ → List ℕ → Bool
strips s longer suffix = ltb longer (length s) && ends_with s suffix

unfoldable pub stem_bytes : List ℕ → List ℕ
stem_bytes s =
    let n = length s in
    if strips s 5 (codes "ingly")
    then take (n - 5) s
    else if strips s 4 (codes "ies")
    then take (n - 3) s
    else if strips s 4 (codes "ing")
    then take (n - 3) s
    else if strips s 4 (codes "ely")
    then take (n - 3) s
    else if strips s 4 (codes "ly")
    then take (n - 2) s
    else if strips s 3 (codes "ed")
    then take (n - 2) s
    else if strips s 3 (codes "es")
    then take (n - 2) s
    else if strips s 2 (codes "s") && not (ends_with s (codes "ss"))
    then take (n - 1) s
    else s

unfoldable pub word_add : ℕ → ℕ → ℕ
word_add h b = bit_xor (h * hash_c % 2 ^ 64) (bit_or b 0x100)

unfoldable pub fold_loop : ℕ → List ℕ → ℕ
fold_loop h [] = h
fold_loop h (b ∷ bytes) = fold_loop (word_add h b) bytes

unfoldable pub fold_bytes : List ℕ → ℕ
fold_bytes bytes = fold_loop 0 bytes
