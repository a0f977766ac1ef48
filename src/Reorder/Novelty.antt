-- ===== src/Reorder/Novelty.antt =====
-- src/reorder/mod.rs: `NoveltyScratch`, the count of new (context, byte) events of a page.
use zentropy.Prelude.{
  ℕ, ◌+◌, ◌-◌, ◌*◌, ◌%◌, ◌^◌, List, [], ◌∷◌, ◌==◌, if◌then◌else◌, length, get_or, set, replicate,
  bit_and, bit_or, bit_xor,
}

pub record NoveltyScratch : Type 0 where
  pub seen : List ℕ
  pub gen : ℕ
  pub mask : ℕ

unfoldable pub new_scratch : ℕ → NoveltyScratch
new_scratch bits = record { seen = replicate (2 ^ bits) 0; gen = 0; mask = 2 ^ bits - 1 }

-- The generation of the next page; where it wraps around, the table is cleared.
unfoldable pub next_gen : NoveltyScratch → NoveltyScratch
next_gen s =
    if (s.gen + 1) % 2 ^ 32 == 0
    then record s { seen = replicate (length s.seen) 0; gen = 1 }
    else record s { gen = (s.gen + 1) % 2 ^ 32 }

-- The loop of `novelty`: the context is the last four bytes.
unfoldable pub novelty_loop : List ℕ → ℕ → ℕ → NoveltyScratch → ℕ × NoveltyScratch
novelty_loop [] ctx n s = (n, s)
novelty_loop (b ∷ page) ctx n s =
    let idx = bit_and (bit_xor (ctx * 0x9e37_79b1 % 2 ^ 32) b) s.mask in
    let ctx' = bit_or (ctx * 2 ^ 8 % 2 ^ 32) b in
    let old = get_or s.seen idx 0 == s.gen in
    novelty_loop page ctx' (if old then n else n + 1)
      (if old then s else record s { seen = set s.seen idx s.gen })

unfoldable pub novelty : List ℕ → NoveltyScratch → ℕ × NoveltyScratch
novelty page s = novelty_loop page 0 0 (next_gen s)

-- The novelty of each page, in turn, on one table.
unfoldable pub novelties : List (List ℕ) → NoveltyScratch → List ℕ
novelties [] s = []
novelties (p ∷ pages) s = let (n, s') = novelty p s in n ∷ novelties pages s'
