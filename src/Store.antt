-- ===== src/Store.antt =====
-- `Block` of native/yrs-src/yrs/src/block.rs and `ClientBlockList` of block_store.rs: the blocks of
-- a client, in the order of their clocks. Sums are those of u32, which wrap.
pub mod Search
pub mod Contiguous
pub mod Clients
pub mod Replace
pub mod Push
pub mod Vector
pub mod Valid
pub mod Codec
use crdt_probe.Prelude.{
  ℕ, zero, suc, ◌+◌, ◌-◌, ◌*◌, ◌/◌, ◌%◌, ◌^◌, Bool, true, false, Option, none, some, List, [], ◌∷◌,
  ◌++◌, ◌||◌, ltb, leb, ◌==◌, if◌then◌else◌, length, get_elem?, take, drop,
}
use crdt_probe.Encoding.Result.{Result, ok, fault, panic, out_of_fuel, ◌>>=◌}
use crdt_probe.Blocks.{BlockId}
use crdt_probe.Blocks.Range.{BlockRange, add_u32, sub_u32, range_of, first_id, block_clock_end}
use crdt_probe.Items.{Item, is_deleted}
use crdt_probe.Prelude.Maps.{Map, find, insert}
use crdt_probe.IdMap.{contains}
use crdt_probe.IdSet.{IdSet, remove_range}
use crdt_probe.StateVector.{StateVector}
use crdt_probe.Ids.Ranges

pub data Block : Type 0 where
  item : Item → Block
  gc skip : BlockRange → Block

unfoldable pub clock_start : Block → ℕ
clock_start (item i) = i.id.clock
clock_start (gc r) = r.clock
clock_start (skip r) = r.clock

unfoldable pub block_len : Block → ℕ
block_len (item i) = i.len
block_len (gc r) = r.len
block_len (skip r) = r.len

unfoldable pub next_clock : Block → ℕ
next_clock (item i) = add_u32 i.id.clock i.len
next_clock (gc r) = add_u32 r.clock r.len
next_clock (skip r) = add_u32 r.clock r.len

-- The first clock and the last one.
unfoldable pub clock_range : Block → ℕ × ℕ
clock_range (item i) = (i.id.clock, sub_u32 (add_u32 i.id.clock i.len) 1)
clock_range (gc r) = (r.clock, sub_u32 (add_u32 r.clock r.len) 1)
clock_range (skip r) = (r.clock, sub_u32 (add_u32 r.clock r.len) 1)

unfoldable pub block_id : Block → BlockId
unfolding first_id
block_id (item i) = i.id
block_id (gc r) = first_id r
block_id (skip r) = first_id r

unfoldable pub block_range : Block → BlockRange
unfolding range_of
block_range (item i) = range_of i.id i.len
block_range (gc r) = r
block_range (skip r) = r

unfoldable pub is_block_deleted : Block → Bool
is_block_deleted (item i) = is_deleted i
is_block_deleted (gc r) = true
is_block_deleted (skip r) = false

unfoldable pub same_type : Block → Block → Bool
same_type (item a) (item b) = true
same_type (gc a) (gc b) = true
same_type (skip a) (skip b) = true
same_type a b = false

unfoldable pub last_block : List Block → Option Block
last_block [] = none
last_block (b ∷ []) = some b
last_block (b ∷ c ∷ bs) = last_block (c ∷ bs)

-- `ClientBlockList::clock`.
unfoldable pub list_clock : List Block → ℕ
unfolding last_block next_clock
list_clock bs = elim (last_block bs) [ none ↦ 0 | some b ↦ next_clock b ]

-- The loop `while left <= right` of `find_index`. Each round takes at least one index away from
-- `left..=right`, so that a round more than there are blocks is enough. Where `mid` is 0, `mid - 1`
-- is no index.
unfoldable pub find_loop : ℕ → List Block → ℕ → ℕ → ℕ → ℕ → Result (Option ℕ)
unfolding clock_range
find_loop zero bs clock left mid right = fault out_of_fuel
find_loop (suc rounds) bs clock left mid right =
    let past = find_loop rounds bs clock (mid + 1) ((mid + 1 + right) / 2) right in
    let before = find_loop rounds bs clock left ((left + (mid - 1)) / 2) (mid - 1) in
    if ltb right left then ok none else elim (get_elem? bs mid) [
      | none ↦ fault panic
      | some b ↦
          if leb (clock_range b).0 clock
          then if leb clock (clock_range b).1 then ok (some mid) else past
          else if mid == 0
          then fault panic
          else before
    ]

-- `find_index` on a list whose last block, at the index `right`, is `b`. A last clock of 0 panics at
-- `clock / end`. The product wraps at 32 bits.
unfoldable pub find_from : List Block → ℕ → ℕ → Block → Result (Option ℕ)
find_from bs clock right b =
    let (start, end) = clock_range b in
    if start == clock
    then ok (some right)
    else if end == 0
    then fault panic
    else find_loop (suc (length bs)) bs clock 0 (clock / end * right % 2 ^ 32) right

-- An empty list panics at `len() - 1`.
unfoldable pub find_index : List Block → ℕ → Result (Option ℕ)
find_index bs clock = elim (last_block bs) [
  | none ↦ fault panic
  | some b ↦ find_from bs clock (length bs - 1) b
]

unfoldable pub get_block : List Block → ℕ → Result (Option Block)
get_block bs clock = do
  index ← find_index bs clock
  ok (elim index [ none ↦ none | some i ↦ get_elem? bs i ])
