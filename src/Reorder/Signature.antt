-- ===== src/Reorder/Signature.antt =====
-- src/reorder/mod.rs: the MinHash signatures of pages, and the generator of the shuffle.
use zentropy.Prelude.{
  starts_with, ℕ, zero, suc, ◌+◌, ◌-◌, ◌*◌, ◌/◌, ◌%◌, ◌^◌, Bool, true, false, ◌&&◌, ◌||◌, List, [],
  ◌∷◌, ltb, if◌then◌else◌, length, take, drop, replicate, codes, bit_xor,
}
use zentropy.Ir.Scan.{is_letter}
use zentropy.Reorder.Keys.{to_lower, starts_with_ci, name_length, opens_template, template_name}

-- `splitmix64`, in wrapping 64-bit arithmetic.
unfoldable pub splitmix64 : ℕ → ℕ
splitmix64 x =
    let a = (x + 0x9e37_79b9_7f4a_7c15) % 2 ^ 64 in
    let b = bit_xor a (a / 2 ^ 30) * 0xbf58_476d_1ce4_e5b9 % 2 ^ 64 in
    let c = bit_xor b (b / 2 ^ 27) * 0x94d0_49bb_1331_11eb % 2 ^ 64 in bit_xor c (c / 2 ^ 31)

abbrev pub minhash_k : ℕ
minhash_k = 8

-- A signature: `minhash_k` words.
abbrev pub empty_signature : List ℕ
empty_signature = replicate minhash_k (2 ^ 64 - 1)

-- `flush`: each word takes the least hash, from the word of index `k`.
unfoldable pub flush_from : ℕ → ℕ → List ℕ → List ℕ
flush_from k h [] = []
flush_from k h (s ∷ sig) =
    let v = splitmix64 (bit_xor h (k * 0x9e37_79b9_7f4a_7c15 % 2 ^ 64)) in
    (if ltb v s then v else s) ∷ flush_from (k + 1) h sig

abbrev pub fnv_basis : ℕ
fnv_basis = 0xcbf2_9ce4_8422_2325

unfoldable pub hash_byte : ℕ → ℕ → ℕ
hash_byte h b = bit_xor h (to_lower b) * 0x100_0000_01b3 % 2 ^ 64

-- The loop of `minhash_signature`: the hash of the word so far, and whether there is one.
unfoldable pub shingle_loop : List ℕ → ℕ → Bool → List ℕ → List ℕ
shingle_loop [] h have_word sig = if have_word then flush_from 0 h sig else sig
shingle_loop (b ∷ page) h have_word sig =
    if is_letter (to_lower b)
    then shingle_loop page (hash_byte h b) true sig
    else if have_word
    then shingle_loop page fnv_basis false (flush_from 0 h sig)
    else shingle_loop page h false sig

unfoldable pub minhash_signature : List ℕ → List ℕ
minhash_signature page = shingle_loop page fnv_basis false empty_signature

-- `flush` of `boilerplate_signature`: an empty name changes nothing.
unfoldable pub hash_name : ℕ → List ℕ → ℕ
hash_name h [] = h
hash_name h (b ∷ name) = hash_name (hash_byte h b) name

unfoldable pub flush_name : List ℕ → List ℕ → List ℕ
flush_name [] sig = sig
flush_name (b ∷ name) sig = flush_from 0 (hash_name fnv_basis (b ∷ name)) sig

unfoldable pub opens_link : List ℕ → Bool
opens_link s =
    starts_with s (codes "[[")
    && (starts_with_ci (drop 2 s) (codes "category:")
        || (starts_with_ci (drop 2 s) (codes "file:")
            || starts_with_ci (drop 2 s) (codes "image:")))

unfoldable pub link_name : List ℕ → List ℕ
link_name s = take (name_length b']' (drop 2 s)) (drop 2 s)

-- The loop of `boilerplate_signature`; each round passes over a byte at least.
unfoldable pub boilerplate_loop : ℕ → List ℕ → List ℕ → List ℕ
boilerplate_loop zero s sig = sig
boilerplate_loop (suc fuel) s sig =
    let template =
      boilerplate_loop fuel (drop (2 + length (template_name s)) s)
        (flush_name (template_name s) sig) in
    let link =
      boilerplate_loop fuel (drop (2 + length (link_name s)) s) (flush_name (link_name s) sig) in
    let next = boilerplate_loop fuel (drop 1 s) sig in
    if ltb (length s) 2
    then sig
    else if opens_template s
    then template
    else if opens_link s
    then link
    else next

unfoldable pub boilerplate_signature : List ℕ → List ℕ
boilerplate_signature page = boilerplate_loop (length page) page empty_signature

-- `u64::count_ones`: the binary digits of a word, 64 at most.
unfoldable pub count_ones : ℕ → ℕ → ℕ
count_ones zero x = 0
count_ones (suc bits) x = x % 2 + count_ones bits (x / 2)

unfoldable pub sig_distance : List ℕ → List ℕ → ℕ
sig_distance [] bs = 0
sig_distance (a ∷ as') [] = 0
sig_distance (a ∷ as') (b ∷ bs) = count_ones 64 (bit_xor a b) + sig_distance as' bs
