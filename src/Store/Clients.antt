-- ===== src/Store/Clients.antt =====
-- `BlockStore` of native/yrs-src/yrs/src/block_store.rs: the lists of all clients, and the clocks
-- that are missing in them.
use crdt_probe.Prelude.{
  ℕ, suc, ◌+◌, Bool, true, false, Option, none, some, List, [], ◌∷◌, ◌++◌, ◌||◌, ltb, leb, ◌==◌,
  if◌then◌else◌, get_elem?, take, drop,
}
use crdt_probe.Encoding.Result.{Result, ok, fault, panic, ◌>>=◌}
use crdt_probe.Blocks.{BlockId}
use crdt_probe.Blocks.Range.{add_u32, sub_u32, range_of, block_clock_end}
use crdt_probe.Prelude.Maps.{Map, find, insert}
use crdt_probe.IdMap.{contains}
use crdt_probe.IdSet.{IdSet, remove_range}
use crdt_probe.StateVector.{StateVector}
use crdt_probe.Ids.Ranges
use crdt_probe.Store.{
  Block, skip, clock_start, block_len, next_clock, block_id, block_range, last_block, list_clock,
  find_index,
}

-- `Vec::insert`, and an assignment to an index, inside the vector.
abbrev pub insert_at : ℕ → Block → List Block → List Block
insert_at i b bs = take i bs ++ b ∷ drop i bs

abbrev pub replace_at : ℕ → Block → List Block → List Block
replace_at i b bs = take i bs ++ b ∷ drop (suc i) bs

-- `BlockStore`.
pub record BlockStore : Type 0 where
  pub clients : Map (List Block)
  pub skips : IdSet

-- The branch of `push` for a block that takes the place of clocks of the skip at `index`: what is
-- left of the skip is put in behind that index, which the block takes.
unfoldable pub put_behind : Block → ℕ → Block → List Block → List Block
unfolding block_id block_len next_clock range_of
put_behind block index skipped list =
    let diff_end = sub_u32 (next_clock skipped) (next_clock block) in
    let id = block_id block in
    let behind =
      skip (range_of (record id { clock = add_u32 id.clock (block_len block) }) diff_end) in
    replace_at index block (if ltb 0 diff_end then insert_at (index + 1) behind list else list)

unfoldable pub replace_skip : Block → ℕ → Block → List Block → List Block
unfolding put_behind block_id clock_start range_of
replace_skip block index skipped list =
    let diff_start = sub_u32 (clock_start block) (clock_start skipped) in
    let before = skip (range_of (block_id skipped) diff_start) in
    if ltb 0 diff_start
    then put_behind block (index + 1) skipped (insert_at index before list)
    else put_behind block index skipped list

-- The block that `find_index` has found gives way; `unwrap` panics where there is none.
unfoldable pub put_inside : Block → List Block → Option ℕ → Result (Bool × List Block)
unfolding replace_skip
put_inside block list none = fault panic
put_inside block list (some i) = elim (get_elem? list i) [
  | none ↦ fault panic
  | some skipped ↦ ok (true, replace_skip block i skipped list)
]

-- What `push` does where the client has a list already; the flag tells that a skip was replaced.
unfoldable pub push_list : Block → List Block → Result (Bool × List Block)
unfolding put_inside next_clock clock_start
push_list block list =
    let at_end : Result (Bool × List Block) = ok (false, list ++ block ∷ []) in
    let inside : Result (Bool × List Block) = (do
      index ← find_index list (clock_start block)
      put_inside block list index) in
    elim (last_block list) [
      | none ↦ at_end
      | some last ↦ if next_clock last == clock_start block then at_end else inside
    ]

-- The store with a client's new list; a block that replaced a skip is no skip any more.
unfoldable pub with_list : Block → Bool → List Block → BlockStore → BlockStore
unfolding insert remove_range block_id block_range
with_list block replaced list store =
    let r = block_range block in
    record {
      clients = insert (block_id block).client list store.clients;
      skips =
          if replaced
          then remove_range r.client r.clock (block_clock_end r) store.skips
          else store.skips;
    }

-- `BlockStore::push`.
unfoldable pub push : Block → BlockStore → Result BlockStore
unfolding find with_list push_list block_id
push block store = elim (find (block_id block).client store.clients) [
  | none ↦ ok (with_list block false (block ∷ []) store)
  | some list ↦ do
    (replaced, list') ← push_list block list
    ok (with_list block replaced list' store)
]

unfoldable pub get_clock : ℕ → BlockStore → ℕ
unfolding list_clock find
get_clock client store = elim (find client store.clients) [ none ↦ 0 | some list ↦ list_clock list ]

-- `BlockStore::contains` and `is_missing`.
unfoldable pub has_id : BlockId → BlockStore → Bool
unfolding list_clock find
has_id id store = elim (find id.client store.clients) [
  | none ↦ false
  | some list ↦ ltb id.clock (list_clock list)
]

unfoldable pub is_missing : BlockId → BlockStore → Bool
unfolding get_clock contains
is_missing id store =
    leb (get_clock id.client store) id.clock || contains id.client id.clock store.skips

-- The loop over the skips in `get_state_vector`: the first clock of a client's skips.
unfoldable pub cut_skips : IdSet → StateVector → StateVector
unfolding insert Ranges.clock_start
cut_skips [] sv = sv
cut_skips (x ∷ skips) sv = elim (Ranges.clock_start x.1) [
  | none ↦ cut_skips skips sv
  | some clock ↦ cut_skips skips (insert x.0 clock sv)
]

unfoldable pub clocks_of : Map (List Block) → StateVector
unfolding list_clock
clocks_of [] = []
clocks_of (x ∷ clients) = (x.0, list_clock x.1) ∷ clocks_of clients

unfoldable pub get_state_vector : BlockStore → StateVector
unfolding cut_skips clocks_of
get_state_vector store = cut_skips store.skips (clocks_of store.clients)
