-- ===== src/Store/Contiguous.antt =====
-- Lists of blocks of block_store.rs without gaps: each block starts where the one before it ends.
use crdt_probe.Prelude.{
  ℕ, zero, suc, ◌+◌, ◌-◌, ◌^◌, ◌≤◌, ◌<◌, ◌≡◌, refl, ap, some, List, [], ◌∷◌, length, get_elem?,
  arith, inl, inr, Bool-cases, ltb, ltb→lt, ltb→le,
}
use crdt_probe.Store.{
  Block, item, gc, skip, clock_start, block_len, next_clock, clock_range, last_block,
}

-- The blocks cover the clocks from `lo` up to, but not including, `hi`, and none is empty.
abbrev pub IsContiguous : ℕ → List Block → ℕ → Type 0
IsContiguous lo [] hi = lo ≡ hi
IsContiguous lo (b ∷ bs) hi =
    (clock_start b ≡ lo) × (0 < block_len b) × IsContiguous (lo + block_len b) bs hi

pub IsContiguous-le : (bs : List Block) (lo hi : ℕ) → IsContiguous lo bs hi → lo ≤ hi
IsContiguous-le [] lo hi c = omega (arith, c)
IsContiguous-le (b ∷ bs) lo hi c = omega (arith, IsContiguous-le bs (lo + block_len b) hi c.2)

-- Where a block of such a list stands.
pub block_inside :
    (bs : List Block) (lo hi i : ℕ) (b : Block)
    → IsContiguous lo bs hi
    → get_elem? bs i ≡ some b
    → (lo ≤ clock_start b) × (0 < block_len b) × (clock_start b + block_len b ≤ hi)
block_inside [] lo hi i b c e = absurd (ground arith)
block_inside (x ∷ bs) lo hi zero b c e =
    let le = IsContiguous-le bs (lo + block_len x) hi c.2 in ground (arith, le, c.0, c.1)
block_inside (x ∷ bs) lo hi (suc i) b c e =
    let (low, some_len, high) = block_inside bs (lo + block_len x) hi i b c.2 e in
    (omega (arith, low), some_len, high)

pub block_order :
    (bs : List Block) (lo hi i j : ℕ) (a b : Block)
    → IsContiguous lo bs hi
    → get_elem? bs i ≡ some a
    → get_elem? bs j ≡ some b
    → i < j
    → clock_start a + block_len a ≤ clock_start b
block_order [] lo hi i j a b c e f h = absurd (ground arith)
block_order (x ∷ bs) lo hi zero zero a b c e f h = absurd (omega arith)
block_order (x ∷ bs) lo hi (suc i) zero a b c e f h = absurd (omega arith)
block_order (x ∷ bs) lo hi zero (suc j) a b c e f h =
    let (low, _, _) = block_inside bs (lo + block_len x) hi j b c.2 f in ground (arith, low, c.0)
block_order (x ∷ bs) lo hi (suc i) (suc j) a b c e f h =
    block_order bs (lo + block_len x) hi i j a b c.2 e f (omega arith)

-- Each clock of the list is in a block.
pub block_at :
    (bs : List Block) (lo hi clock : ℕ)
    → IsContiguous lo bs hi
    → lo ≤ clock
    → clock < hi
    → (i : ℕ) × (b : Block) × (get_elem? bs i ≡ some b)
      × (clock_start b ≤ clock)
      × (clock < clock_start b + block_len b)
block_at [] lo hi clock c low high = absurd (omega (arith, c))
block_at (x ∷ bs) lo hi clock c low high = elim (Bool-cases (ltb clock (lo + block_len x))) [
  | inl here ↦
      (0, x, refl, omega (arith, c.0), omega (arith, c.0, ltb→lt clock (lo + block_len x) here))
  | inr behind ↦
      let (i, b, e, from, to) =
        block_at bs (lo + block_len x) hi clock c.2 (ltb→le clock (lo + block_len x) behind) high in
      (suc i, b, e, from, to)
]

-- Sums of clocks do not wrap below 2 ^ 32.
pub range_exact :
    (b : Block)
    → 0 < block_len b
    → clock_start b + block_len b < 2 ^ 32
    → clock_range b ≡ (clock_start b, clock_start b + block_len b - 1)
unfolding clock_range clock_start block_len
range_exact (item i) pos h = ap (λ (n : ℕ). (i.id.clock, n)) (omega arith)
range_exact (gc r) pos h = ap (λ (n : ℕ). (r.clock, n)) (omega arith)
range_exact (skip r) pos h = ap (λ (n : ℕ). (r.clock, n)) (omega arith)

pub next_exact :
    (b : Block) → clock_start b + block_len b < 2 ^ 32 → next_clock b ≡ clock_start b + block_len b
unfolding next_clock clock_start block_len
next_exact (item i) h = omega arith
next_exact (gc r) h = omega arith
next_exact (skip r) h = omega arith

pub last_in_list :
    (bs : List Block) (lo hi : ℕ)
    → IsContiguous lo bs hi
    → lo < hi
    → (i : ℕ) × (b : Block) × (last_block bs ≡ some b)
      × (get_elem? bs i ≡ some b)
      × (length bs ≡ suc i)
      × (clock_start b + block_len b ≡ hi)
unfolding last_block
last_in_list [] lo hi c h = absurd (omega (arith, c))
last_in_list (b ∷ []) lo hi c h = (0, b, refl, refl, refl, omega (arith, c.0, c.2))
last_in_list (b ∷ x ∷ bs) lo hi c h =
    let more = IsContiguous-le bs (lo + block_len b + block_len x) hi c.2.2 in
    let (i, z, last, e, n, end) =
      last_in_list (x ∷ bs) (lo + block_len b) hi c.2 (omega (arith, more, c.2.1)) in
    (suc i, z, last, e, ap suc n, end)
