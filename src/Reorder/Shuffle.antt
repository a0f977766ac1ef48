-- ===== src/Reorder/Shuffle.antt =====
-- src/reorder/mod.rs: `shuffled_index` and the greedy walk, the two orders that do not sort, and that
-- they lose no page.
use zentropy.Prelude.{
  length-set, length-drop, length-take, length-append, take-append-drop, append_assoc, ℕ, zero, suc,
  ◌+◌, ◌-◌, ◌%◌, ◌^◌, ◌<◌, ◌≤◌, ◌≡◌, refl, ap, ◌∙◌, List, [], ◌∷◌, ◌++◌, ltb, if◌then◌else◌, length,
  get_or, set, take, drop, arith,
}
use mathlib.Core.Path.{subst}
use mathlib.Core.List.{Permᴰ}
use mathlib.Core.List.Permᴰ
use zentropy.Reorder.Signature.{splitmix64}

-- The numbers from `i`, `n` of them.
unfoldable pub upto : ℕ → ℕ → List ℕ
upto i zero = []
upto i (suc n) = i ∷ upto (suc i) n

-- `idx.swap(i, j)`
unfoldable pub swap : List ℕ → ℕ → ℕ → List ℕ
swap idx i j = set (set idx i (get_or idx j 0)) j (get_or idx i 0)

-- `for i in (1..n).rev()`: position `i` is swapped with one that is not behind it.
unfoldable pub shuffle_loop : ℕ → ℕ → List ℕ → List ℕ
shuffle_loop zero state idx = idx
shuffle_loop (suc i) state idx =
    let state' = splitmix64 state in shuffle_loop i state' (swap idx (suc i) (state' % (suc i + 1)))

unfoldable pub shuffled_index : ℕ → List ℕ
shuffled_index n = shuffle_loop (n - 1) 0x5eed_1234_abcd_9876 (upto 0 n)

-- The candidate of the window that is closest to the current page: its place, the first of several.
unfoldable pub closest : (ℕ → ℕ) → List ℕ → ℕ → ℕ → ℕ → ℕ
closest distance [] k best_d best_pos = best_pos
closest distance (j ∷ window) k best_d best_pos =
    if ltb (distance j) best_d
    then closest distance window (k + 1) (distance j) k
    else closest distance window (k + 1) best_d best_pos

-- `while !window.is_empty()`: the closest candidate leaves the window, and the next page enters it.
unfoldable pub greedy_loop : (ℕ → ℕ → ℕ) → ℕ → ℕ → List ℕ → List ℕ → List ℕ
greedy_loop distance zero cur window waiting = []
greedy_loop distance (suc fuel) cur [] waiting = []
greedy_loop distance (suc fuel) cur (w ∷ window) waiting =
    let all = w ∷ window in
    let pos = closest (distance cur) all 0 (2 ^ 64 - 1) 0 in
    let next = get_or all pos 0 in
    next
    ∷ greedy_loop distance fuel next (take pos all ++ drop (suc pos) all ++ take 1 waiting)
        (drop 1 waiting)

-- The walk over the pages in signature order, with a window of 64.
unfoldable pub greedy_walk : (ℕ → ℕ → ℕ) → List ℕ → List ℕ
greedy_walk distance [] = []
greedy_walk distance (first ∷ sorted) =
    first ∷ greedy_loop distance (length sorted) first (take 63 sorted) (drop 63 sorted)

-- A value written over another, with the other put in front.
exchange : (b : ℕ) (l : List ℕ) (i : ℕ) → i < length l → Permᴰ (get_or l i 0 ∷ set l i b) (b ∷ l)
exchange b [] i h = absurd (omega arith)
exchange b (x ∷ xs) zero h = Permᴰ.swap refl refl
exchange b (x ∷ xs) (suc i) h =
    Permᴰ.trans (Permᴰ.swap refl refl)
      (Permᴰ.trans (Permᴰ.cons refl (exchange b xs i (omega arith))) (Permᴰ.swap refl refl))

swap-perm : (l : List ℕ) (i j : ℕ) → i < length l → j < length l → Permᴰ (swap l i j) l
unfolding swap
swap-perm [] i j h k = absurd (omega arith)
swap-perm (x ∷ xs) zero zero h k = Permᴰ.refl (x ∷ xs)
swap-perm (x ∷ xs) zero (suc j) h k = exchange x xs j (omega arith)
swap-perm (x ∷ xs) (suc i) zero h k = exchange x xs i (omega arith)
swap-perm (x ∷ xs) (suc i) (suc j) h k =
    Permᴰ.cons refl (swap-perm xs i j (omega arith) (omega arith))

length-swap : (l : List ℕ) (i j : ℕ) → length (swap l i j) ≡ length l
unfolding swap
length-swap l i j =
    length-set (set l i (get_or l j 0)) j (get_or l i 0) ∙ length-set l i (get_or l j 0)

shuffle_loop-perm :
    (i state : ℕ) (idx : List ℕ) → i < length idx → Permᴰ (shuffle_loop i state idx) idx
unfolding shuffle_loop
shuffle_loop-perm zero state idx h = Permᴰ.refl idx
shuffle_loop-perm (suc i) state idx h =
    let j = splitmix64 state % (suc i + 1) in
    Permᴰ.trans
      (shuffle_loop-perm i (splitmix64 state) (swap idx (suc i) j)
        (rw (length-swap idx (suc i) j) (omega arith)))
      (swap-perm idx (suc i) j h (omega arith))

length-upto : (i n : ℕ) → length (upto i n) ≡ n
unfolding upto
length-upto i zero = refl
length-upto i (suc n) = ap (λ (k : ℕ). suc k) (length-upto (suc i) n)

pub shuffled_index-perm : (n : ℕ) → Permᴰ (shuffled_index n) (upto 0 n)
unfolding shuffled_index shuffle_loop
shuffled_index-perm zero = Permᴰ.refl (upto 0 0)
shuffled_index-perm (suc n) =
    let rounds : suc n - 1 ≡ n = omega arith in
    rw rounds (
      shuffle_loop-perm n 0x5eed_1234_abcd_9876 (upto 0 (suc n))
        (omega (arith, length-upto 0 (suc n))))

closest-lt :
    (distance : ℕ → ℕ) (window : List ℕ) (k best_d best_pos : ℕ)
    → best_pos < k + length window
    → closest distance window k best_d best_pos < k + length window
unfolding closest
closest-lt distance [] k best_d best_pos h = h
closest-lt distance (j ∷ window) k best_d best_pos h = ground (
  arith,
  closest-lt distance window (k + 1) (distance j) k,
  closest-lt distance window (k + 1) best_d best_pos,
)

-- An item of a list in front of the others.
pick-perm :
    (l : List ℕ) (i : ℕ) → i < length l → Permᴰ (get_or l i 0 ∷ (take i l ++ drop (suc i) l)) l
pick-perm [] i h = absurd (omega arith)
pick-perm (x ∷ xs) zero h = Permᴰ.refl (x ∷ xs)
pick-perm (x ∷ xs) (suc i) h =
    Permᴰ.trans (Permᴰ.swap refl refl) (Permᴰ.cons refl (pick-perm xs i (omega arith)))

enters : (n : ℕ) (l : List ℕ) → 0 < length (drop (suc n) l) → 0 < length (take (suc n) l)
enters n [] h = absurd (omega arith)
enters n (x ∷ l) h = omega arith

greedy_loop-perm :
    (distance : ℕ → ℕ → ℕ) (fuel cur : ℕ) (window waiting : List ℕ)
    → length window + length waiting ≤ fuel
    → (0 < length waiting → 0 < length window)
    → Permᴰ (greedy_loop distance fuel cur window waiting) (window ++ waiting)
unfolding greedy_loop
greedy_loop-perm distance zero cur [] [] h k = Permᴰ.nil
greedy_loop-perm distance zero cur [] (v ∷ waiting) h k = absurd (omega arith)
greedy_loop-perm distance zero cur (w ∷ window) waiting h k = absurd (omega arith)
greedy_loop-perm distance (suc fuel) cur [] [] h k = Permᴰ.nil
greedy_loop-perm distance (suc fuel) cur [] (v ∷ waiting) h k =
    absurd (omega (arith, k (omega arith)))
greedy_loop-perm distance (suc fuel) cur (w ∷ window) waiting h k =
    let all = w ∷ window in
    let pos = closest (distance cur) all 0 (2 ^ 64 - 1) 0 in
    let inside : pos < length all =
      omega (arith, closest-lt (distance cur) all 0 (2 ^ 64 - 1) 0 (omega arith)) in
    let others = take pos all ++ drop (suc pos) all in
    let regroup : others ++ take 1 waiting ++ drop 1 waiting ≡ others ++ waiting =
      append_assoc others (take 1 waiting) (drop 1 waiting)
      ∙ ap (λ r. others ++ r) (take-append-drop 1 waiting) in
    let entering = ap length (take-append-drop 1 waiting) in
    let both = length-append (take 1 waiting) (drop 1 waiting) in
    let size : length others + 1 ≡ length all = omega (
      arith,
      length-append (take pos all) (drop (suc pos) all),
      length-take pos all (omega arith),
      length-drop (suc pos) all,
    ) in
    let sum = length-append others (take 1 waiting) in
    Permᴰ.trans
      (Permᴰ.cons refl (
        greedy_loop-perm distance fuel (get_or all pos 0) (others ++ take 1 waiting)
          (drop 1 waiting) (omega arith) (λ more. omega (arith, sum, enters 0 waiting more))))
      (rw regroup (Permᴰ.append_right waiting (pick-perm all pos inside)))

pub greedy_walk-perm :
    (distance : ℕ → ℕ → ℕ) (sorted : List ℕ) → Permᴰ (greedy_walk distance sorted) sorted
unfolding greedy_walk
greedy_walk-perm distance [] = Permᴰ.nil
greedy_walk-perm distance (first ∷ sorted) = Permᴰ.cons refl (
    subst
      (λ l. Permᴰ (greedy_loop distance (length sorted) first (take 63 sorted) (drop 63 sorted)) l)
      (take-append-drop 63 sorted)
      (greedy_loop-perm distance (length sorted) first (take 63 sorted) (drop 63 sorted)
        (omega (
          arith,
          ap length (take-append-drop 63 sorted),
          length-append (take 63 sorted) (drop 63 sorted),
        ))
        (enters 62 sorted)))
