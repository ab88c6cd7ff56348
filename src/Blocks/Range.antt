-- ===== src/Blocks/Range.antt =====
-- `BlockRange` of block.rs: clocks of a client from a first one on, as many as `len`. Sums are
-- those of u32, which wrap.
use crdt_probe.Prelude.{
  ℕ, ◌+◌, ◌-◌, ◌%◌, ◌^◌, ◌≤◌, ◌<◌, ◌≡◌, refl, ap, ap₂, Bool, true, false, ◌&&◌, ◌||◌, ltb, leb,
  ◌==◌, if◌then◌else◌, arith,
}
use crdt_probe.Blocks.{BlockId}

pub record BlockRange : Type 0 where
  pub client : ℕ
  pub clock : ℕ
  pub len : ℕ

abbrev pub add_u32 : ℕ → ℕ → ℕ
add_u32 a b = (a + b) % 2 ^ 32

abbrev pub sub_u32 : ℕ → ℕ → ℕ
sub_u32 a b = (a + 2 ^ 32 - b) % 2 ^ 32

unfoldable pub range_of : BlockId → ℕ → BlockRange
range_of id len = record { client = id.client; clock = id.clock; len = len }

unfoldable pub first_id : BlockRange → BlockId
first_id r = record { client = r.client; clock = r.clock }

-- The id behind the last one, whatever its name says.
unfoldable pub last_id : BlockRange → BlockId
last_id r = record { client = r.client; clock = add_u32 r.clock r.len }

unfoldable pub block_clock_end : BlockRange → ℕ
block_clock_end r = add_u32 r.clock r.len

unfoldable pub trim_start : ℕ → BlockRange → BlockRange
trim_start count r = record r { clock = add_u32 r.clock count; len = sub_u32 r.len count }

unfoldable pub trim_block_end : ℕ → BlockRange → BlockRange
trim_block_end count r = record r { len = sub_u32 r.len count }

unfoldable pub slice : ℕ → BlockRange → BlockRange
slice offset r = record r { clock = add_u32 r.clock offset; len = sub_u32 r.len offset }

unfoldable pub integrate_range : ℕ → BlockRange → BlockRange
integrate_range pivot r =
    if ltb 0 pivot then record r { clock = add_u32 r.clock pivot; len = sub_u32 r.len pivot } else r

unfoldable pub merge_range : BlockRange → BlockRange → BlockRange
merge_range r other = record r { len = add_u32 r.len other.len }

unfoldable pub range_contains : BlockId → BlockRange → Bool
range_contains id r =
    (r.client == id.client) && leb r.clock id.clock && ltb id.clock (add_u32 r.clock r.len)

-- The clocks of the range fit 32 bits.
abbrev pub IsRange : BlockRange → Type 0
IsRange r = r.clock + r.len < 2 ^ 32

head_end : (len k : ℕ) → k ≤ len → len < 2 ^ 32 → sub_u32 len (sub_u32 len k) ≡ k
head_end len k h b = omega arith

tail_start : (clock len k : ℕ) → k ≤ len → clock + len < 2 ^ 32 → add_u32 clock k ≡ clock + k
tail_start clock len k h b = omega arith

tail_len : (len k : ℕ) → k ≤ len → len < 2 ^ 32 → sub_u32 len k ≡ len - k
tail_len len k h b = omega arith

abbrev inside : Bool → ℕ → ℕ → ℕ → Bool
inside same lo hi x = same && leb lo x && ltb x hi

in_range :
    (r : BlockRange) (id : BlockId)
    → IsRange r
    → range_contains id r ≡ inside (r.client == id.client) r.clock (r.clock + r.len) id.clock
unfolding range_contains
in_range r id h = ap (λ (n : ℕ). inside (r.client == id.client) r.clock n id.clock) (omega arith)

inside_either :
    (same : Bool) (lo mid hi x : ℕ)
    → lo ≤ mid
    → mid ≤ hi
    → (inside same lo hi x ≡ (inside same lo mid x || inside same mid hi x))
      × ((inside same lo mid x && inside same mid hi x) ≡ false)
inside_either true lo mid hi x h k = ground arith
inside_either false lo mid hi x h k = (refl, refl)

-- Where a range is cut at an offset, an id is in the range exactly when it is in the part in front
-- of the cut or in the slice behind it, and never in both; the two parts merge to the range.
pub slice-contains :
    (r : BlockRange) (k : ℕ) (id : BlockId)
    → IsRange r
    → k ≤ r.len
    → let front = trim_block_end (sub_u32 r.len k) r in
      (range_contains id r ≡ (range_contains id front || range_contains id (slice k r)))
      × ((range_contains id front && range_contains id (slice k r)) ≡ false)
      × (merge_range front (slice k r) ≡ r)
unfolding trim_block_end slice merge_range
slice-contains r k id h le =
    let front : BlockRange = record r { len = k } in
    let rest : BlockRange = record r { clock = r.clock + k; len = r.len - k } in
    let front_is : trim_block_end (sub_u32 r.len k) r ≡ front =
      ap (λ (n : ℕ). record r { len = n }) (head_end r.len k le (omega arith)) in
    let rest_is : slice k r ≡ rest =
      ap₂ (λ (c n : ℕ). record r { clock = c; len = n }) (tail_start r.clock r.len k le h)
        (tail_len r.len k le (omega arith)) in
    let end_is : r.clock + k + (r.len - k) ≡ r.clock + r.len = omega arith in
    let cut =
      inside_either (r.client == id.client) r.clock (r.clock + k) (r.clock + r.len) id.clock
        (omega arith) (omega arith) in
    rw
      (
        front_is,
        rest_is,
        in_range r id h,
        in_range front id (omega arith),
        in_range rest id (omega arith),
        end_is,
      )
      (cut.0, cut.1, ap (λ (n : ℕ). record r { len = n }) (omega arith))
