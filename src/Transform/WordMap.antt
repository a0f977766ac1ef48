-- ===== src/Transform/WordMap.antt =====
-- src/transform/mod.rs: the hash maps of the word transforms, from words to numbers, as association
-- lists: the newest entry of a word counts. The source reads a map by its keys alone, or sorts what
-- is in it by a key that no two entries share.
use zentropy.Prelude.{
  ◌∙◌, sym, ℕ, suc, ◌+◌, ◌-◌, ◌%◌, ◌^◌, ◌≤◌, ◌<◌, ◌≡◌, refl, Bool, true, false, ◌&&◌, Option, none,
  some, List, [], ◌∷◌, length, get_or, ◌==◌, if◌then◌else◌, arith, Bool-cases, inl, inr, ==→eq, ◌⊎◌,
}
use native.Mathlib.Nat.{mod-eq_of_lt}
use mathlib.Core.Path.{ap₂}

unfoldable pub same : List ℕ → List ℕ → Bool
same [] [] = true
same [] (b ∷ v) = false
same (a ∷ w) [] = false
same (a ∷ w) (b ∷ v) = a == b && same w v

abbrev pub WordMap : Type 0
WordMap = List (List ℕ × ℕ)

unfoldable pub get : WordMap → List ℕ → Option ℕ
get [] w = none
get (e ∷ m) w = if same e.0 w then some e.1 else get m w

-- `*counts.entry(w).or_insert(0) += 1`, on `u64`.
unfoldable pub add_one : WordMap → List ℕ → WordMap
add_one [] w = (w, 1) ∷ []
add_one (e ∷ m) w = if same e.0 w then (e.0, (e.1 + 1) % 2 ^ 64) ∷ m else e ∷ add_one m w

-- `for (k, w) in vocab.iter().enumerate() { ids.insert(w, k as …) }`, with `k` from `start` on, for
-- the words that are not blocked.
unfoldable pub index_words : ℕ → (List ℕ → Bool) → ℕ → List (List ℕ) → WordMap → WordMap
index_words width blocked start [] m = m
index_words width blocked start (w ∷ vocab) m =
    index_words width blocked (start + 1) vocab
      (if blocked w then m else (w, start % 2 ^ width) ∷ m)

pub same→eq : (w v : List ℕ) → same w v ≡ true → w ≡ v
unfolding same
same→eq [] [] h = refl
same→eq [] (b ∷ v) h = cc
same→eq (a ∷ w) [] h = cc
same→eq (a ∷ w) (b ∷ v) h = elim (Bool-cases (a == b)) [
  | inl y ↦ ap₂ ◌∷◌ (==→eq a b y) (same→eq w v (rw y at h))
  | inr n ↦ cc (rw n at h)
]

get-put :
    (m : WordMap) (v w : List ℕ) (k i : ℕ)
    → get ((v, k) ∷ m) w ≡ some i
    → (get m w ≡ some i) ⊎ ((v ≡ w) × (k ≡ i))
unfolding get
get-put m v w k i h = elim (Bool-cases (same v w)) [
  | inl y ↦ inr (same→eq v w y, ground (arith, rw y at h))
  | inr n ↦ inl (rw n at h)
]

get-entry :
    (m : WordMap) (v w : List ℕ) (skip : Bool) (k i : ℕ)
    → get (if skip then m else (v, k) ∷ m) w ≡ some i
    → (get m w ≡ some i) ⊎ ((v ≡ w) × (k ≡ i))
get-entry m v w true k i h = inl h
get-entry m v w false k i h = get-put m v w k i h

-- A number that an indexed vocabulary gives a word is the place of that word.
pub get-index_words :
    (width : ℕ) (blocked : List ℕ → Bool) (start : ℕ) (vocab : List (List ℕ)) (m : WordMap)
    (w : List ℕ) (i : ℕ)
    → start + length vocab ≤ 2 ^ width
    → get (index_words width blocked start vocab m) w ≡ some i
    → (get m w ≡ some i)
      ⊎ ((start ≤ i) × (i < start + length vocab) × (get_or vocab (i - start) [] ≡ w))
unfolding index_words
get-index_words width blocked start [] m w i bound h = inl h
get-index_words width blocked start (v ∷ vocab) m w i bound h =
    let rest =
      get-index_words width blocked (start + 1) vocab
        (if blocked v then m else (v, start % 2 ^ width) ∷ m) w i (omega arith) h in
    elim rest [
      | inr (low, high, at) ↦
          let place : i - start ≡ suc (i - (start + 1)) = omega (arith, low) in
          inr (omega (arith, low), omega (arith, high), rw place at)
      | inl now ↦ elim (get-entry m v w (blocked v) (start % 2 ^ width) i now) [
        | inl before ↦ inl before
        | inr (eq, number) ↦
            let wide : start % 2 ^ width ≡ start = mod-eq_of_lt (omega arith) in
            let here : i ≡ start = sym number ∙ wide in
            let first : i - start ≡ 0 = omega (arith, here) in
            inr (omega (arith, here), omega (arith, here), rw first eq)
      ]
    ]
