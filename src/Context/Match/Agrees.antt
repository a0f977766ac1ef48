-- ===== src/Context/Match/Agrees.antt =====
-- While a match lasts, the bytes before the predicted one are the bytes at the end of the history.
use zentropy.Prelude.{
  ℕ, zero, suc, ◌+◌, ◌-◌, ◌≤◌, ◌<◌, ◌≡◌, refl, sym, ap, ◌∙◌, min, Bool, true, false, ◌&&◌, Option,
  none, some, List, [], ◌∷◌, ◌++◌, length, take, drop, get_or, ltb, leb, ◌==◌, if◌then◌else◌, arith,
  Bool-cases, inl, inr, length-append, ==→eq, ltb→lt,
}
use native.Mathlib.Nat.{zero-add}
use zentropy.Transform.WordMap.{same→eq}
use zentropy.Context.Match.{
  MatchModel, begin_byte, slice, extend, accepts, look_up, slot_of, byte_boundary,
}

-- A match of `len` bytes: its pointer lies in the history, and the `len` bytes in front of it are the
-- last bytes of the history.
pub record Lasts (m : MatchModel) (buf : List ℕ) : Type 0 where
  pub begun : m.min_len ≤ length buf
  pub earlier : m.ptr < length buf
  pub room : m.len ≤ m.ptr
  pub agree : (k : ℕ) → k < m.len → get_or buf (m.ptr - suc k) 0 ≡ get_or buf (length buf - suc k) 0

abbrev pub Agrees : MatchModel → List ℕ → Type 0
Agrees m buf = 0 < m.len → Lasts m buf

module _ {ℓ} {A : Type ℓ} where
  get_or-append :
      (xs ys : List A) (i : ℕ) (d : A) → i < length xs → get_or (xs ++ ys) i d ≡ get_or xs i d
  get_or-append [] ys i d h = absurd (omega arith)
  get_or-append (x ∷ xs) ys zero d h = refl
  get_or-append (x ∷ xs) ys (suc i) d h = get_or-append xs ys i d (omega arith)

  get_or-take :
      (n : ℕ) (xs : List A) (i : ℕ) (d : A) → i < n → get_or (take n xs) i d ≡ get_or xs i d
  get_or-take zero xs i d h = absurd (omega arith)
  get_or-take (suc n) [] i d h = refl
  get_or-take (suc n) (x ∷ xs) zero d h = refl
  get_or-take (suc n) (x ∷ xs) (suc i) d h = get_or-take n xs i d (omega arith)

  get_or-drop : (s : ℕ) (xs : List A) (i : ℕ) (d : A) → get_or (drop s xs) i d ≡ get_or xs (s + i) d
  get_or-drop zero xs i d = ap (λ (k : ℕ). get_or xs k d) (sym (zero-add i))
  get_or-drop (suc s) [] i d = refl
  get_or-drop (suc s) (x ∷ xs) i d =
      let e : suc s + i ≡ suc (s + i) = omega arith in rw e (get_or-drop s xs i d)

get_or-slice :
    (buf : List ℕ) (s e i : ℕ) → i < e - s → get_or (slice buf s e) i 0 ≡ get_or buf (s + i) 0
get_or-slice buf s e i h = get_or-take (e - s) (drop s buf) i 0 h ∙ get_or-drop s buf i 0

module _ (m : MatchModel) (buf : List ℕ) (b : ℕ) where
  abbrev now : List ℕ
  now = buf ++ b ∷ []

  now-length : length now ≡ suc (length buf)
  now-length = omega (arith, length-append buf (b ∷ []))

  abbrev hits : Bool
  hits =
      ltb 0 m.len && (ltb m.ptr (length now) && get_or now m.ptr 0 == get_or now (length now - 1) 0)

  extend-hit :
      hits ≡ true → extend m now ≡ record m { ptr = m.ptr + 1; len = min (m.len + 1) m.max_len }
  unfolding extend
  extend-hit h = rw (h, extend) refl

  extend-miss : hits ≡ false → extend m now ≡ record m { len = 0 }
  unfolding extend
  extend-miss h = rw (h, extend) refl

  -- A match that goes on agrees in one byte more.
  longer :
      Lasts m buf
      → get_or now m.ptr 0 ≡ get_or now (length now - 1) 0
      → (k : ℕ) → k ≤ m.len
      → get_or now (m.ptr + 1 - suc k) 0 ≡ get_or now (length now - suc k) 0
  longer l last zero h = let e : m.ptr + 1 - 1 ≡ m.ptr = omega arith in rw e last
  longer l last (suc k) h =
      let e : m.ptr + 1 - suc (suc k) ≡ m.ptr - suc k = omega arith in
      let f : length now - suc (suc k) ≡ length buf - suc k = omega (arith, now-length) in
      rw (e, f)
        (get_or-append buf (b ∷ []) (m.ptr - suc k) 0 (omega (arith, l.earlier))
          ∙ l.agree k (omega arith)
          ∙ sym (
              get_or-append buf (b ∷ []) (length buf - suc k) 0 (omega (arith, l.earlier, l.room))))

  extend-Agrees : Agrees m buf → Agrees (extend m now) now
  extend-Agrees a = elim (Bool-cases hits) [
    | inl y ↦ rw (extend-hit y) (λ some_len.
        let l = a (ground arith) in
        let last : get_or now m.ptr 0 ≡ get_or now (length now - 1) 0 = ==→eq _ _ (ground arith) in
        record {
          begun = omega (arith, l.begun, now-length);
          earlier = omega (arith, l.earlier, now-length);
          room = omega (arith, l.room);
          agree = λ k h. longer l last k (omega arith);
        })
    | inr n0 ↦ rw (extend-miss n0) (λ some_len. absurd (omega arith))
  ]

extend-gap : (m : MatchModel) (buf : List ℕ) → (extend m buf).gap ≡ m.gap
unfolding extend
extend-gap m buf =
    if_gap (
      ltb 0 m.len
      && (ltb m.ptr (length buf) && get_or buf m.ptr 0 == get_or buf (length buf - 1) 0))
  where
    if_gap :
        (t : Bool)
        → (if t
            then record m { ptr = m.ptr + 1; len = min (m.len + 1) m.max_len }
            else record m { len = 0 }).gap
          ≡ m.gap
    if_gap true = refl
    if_gap false = refl

-- What an accepted candidate is.
record Accepted (m : MatchModel) (buf : List ℕ) (cand : ℕ) : Type 0 where
  behind : m.min_len + m.gap ≤ cand
  before : cand < length buf
  alike :
      slice buf (cand - m.min_len - m.gap) (cand - m.gap)
      ≡ slice buf (length buf - m.min_len - m.gap) (length buf - m.gap)

and-both : (a b : Bool) → (a && b) ≡ true → (a ≡ true) × (b ≡ true)
and-both true true h = (refl, refl)
and-both true false h = cc
and-both false b h = cc

accepts-Accepted :
    (m : MatchModel) (buf : List ℕ) (cand : ℕ) → accepts m buf cand ≡ true → Accepted m buf cand
unfolding accepts
accepts-Accepted m buf cand h =
    let (idle, rest) = and-both (m.len == 0) _ h in
    let (behind, rest') = and-both (leb (m.min_len + m.gap) cand) _ rest in
    let (before, alike) = and-both (ltb cand (length buf)) _ rest' in
    record { behind = ground arith; before = ground arith; alike = same→eq _ _ alike }

-- The bytes in front of an accepted candidate, one by one.
Accepted-agree :
    (m : MatchModel) (buf : List ℕ) (cand : ℕ)
    → m.gap ≡ 0
    → Accepted m buf cand
    → (k : ℕ) → k < m.min_len
    → get_or buf (cand - suc k) 0 ≡ get_or buf (length buf - suc k) 0
Accepted-agree m buf cand dense a k h =
    let i = m.min_len - suc k in
    let e : cand - m.min_len - m.gap + i ≡ cand - suc k = omega (arith, dense, a.behind) in
    let f : length buf - m.min_len - m.gap + i ≡ length buf - suc k =
      omega (arith, dense, a.behind, a.before) in
    rw (← e, ← f)
      (sym (
          get_or-slice buf (cand - m.min_len - m.gap) (cand - m.gap) i
            (omega (arith, dense, a.behind)))
        ∙ ap (λ l. get_or l i 0) a.alike
        ∙ get_or-slice buf (length buf - m.min_len - m.gap) (length buf - m.gap) i
            (omega (arith, dense, a.behind, a.before)))

-- The distance that is returned leads from the end of the history back to the pointer.
abbrev pub Leads : Option ℕ → MatchModel → List ℕ → Type 0
Leads none m buf = Unit
Leads (some distance) m buf = (m.ptr + distance ≡ length buf) × (m.off ≡ distance)

look_up-Agrees :
    (m : MatchModel) (buf : List ℕ)
    → m.gap ≡ 0
    → Agrees m buf
    → Agrees (look_up m buf).1 buf × Leads (look_up m buf).0 (look_up m buf).1 buf
unfolding look_up
look_up-Agrees m buf dense a =
    let cand = get_or m.table (slot_of m buf) 0 in
    elim (Bool-cases (accepts m buf cand)) [
      | inr n0 ↦ rw n0 (
        (λ some_len.
            let l = a some_len in
            record { begun = l.begun; earlier = l.earlier; room = l.room; agree = l.agree }),
        tt,
      )
      | inl y ↦
          let c = accepts-Accepted m buf cand y in
          rw y (
            (λ some_len. record {
              begun = omega (arith, c.behind, c.before);
              earlier = c.before;
              room = omega (arith, c.behind);
              agree = λ k h. Accepted-agree m buf cand dense c k (omega arith);
            }),
            (omega (arith, c.before), refl),
          )
    ]

-- A byte `b` is appended to the history. For a model without a gap: if a match was under way, its
-- last bytes being those in front of its pointer, then the same holds after the byte, whether the
-- match goes on, ends or begins anew; and a distance that is returned leads to the pointer.
pub byte_boundary-Agrees :
    (m : MatchModel) (buf : List ℕ) (b : ℕ)
    → m.gap ≡ 0
    → Agrees m buf
    → Agrees (byte_boundary m (buf ++ b ∷ [])).1 (buf ++ b ∷ [])
      × Leads
          (byte_boundary m (buf ++ b ∷ [])).0
          (byte_boundary m (buf ++ b ∷ [])).1
          (buf ++ b ∷ [])
unfolding byte_boundary
byte_boundary-Agrees m buf b dense a =
    elim (Bool-cases (ltb (length (buf ++ b ∷ [])) (m.min_len + m.gap))) [
      | inl y ↦ rw y (
        (λ some_len.
            absurd (omega (arith, (a some_len).begun, now-length m buf b, dense, ltb→lt _ _ y))),
        tt,
      )
      | inr n0 ↦ rw n0 (
          look_up-Agrees (extend m (buf ++ b ∷ [])) (buf ++ b ∷ [])
            (extend-gap m (buf ++ b ∷ []) ∙ dense) (extend-Agrees m buf b a))
    ]

-- What the next bits are predicted from is the byte behind the agreeing ones.
pub begin_byte-Agrees :
    (m : MatchModel) (buf : List ℕ)
    → Agrees m buf
    → 0 < m.len
    → (begin_byte m buf).pred_byte ≡ get_or buf m.ptr 0
unfolding begin_byte
begin_byte-Agrees m buf a some_len =
    let on : (ltb 0 m.len && ltb m.ptr (length buf)) ≡ true =
      ground (arith, (a some_len).earlier) in
    rw on refl
