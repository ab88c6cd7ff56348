-- ===== src/IdSet.antt =====
-- `IdSet` of native/yrs-src/yrs/src/id_set.rs: sets of ids, as maps of ranges without values.
pub mod Meaning
pub mod Codec
use crdt_probe.Prelude.{ℕ, ◌+◌, ◌%◌, ◌^◌, Bool, true, false, Option, none, some, List, [], ◌∷◌}
use crdt_probe.Prelude.Maps.{find, upsert, insert}
use crdt_probe.Ids.Ranges.{Entry, unit_merge}
use crdt_probe.Ids.Insert.{insert_with}
use crdt_probe.Ids.Remove
use crdt_probe.IdMap.{IdMap, or_empty, joined}
use crdt_probe.Prelude.Maps

abbrev pub IdRange : Type 0
IdRange = List (Entry (Unit {0}))

abbrev pub IdSet : Type 0
IdSet = IdMap (Unit {0})

-- `IdRanges::insert` and `IdRanges::from_ranges`.
unfoldable pub insert_clocks : ℕ → ℕ → IdRange → IdRange
unfolding insert_with
insert_clocks start end ranges = insert_with start end tt ranges

unfoldable pub from_ranges : List (ℕ × ℕ) → IdRange → IdRange
unfolding insert_clocks
from_ranges [] ranges = ranges
from_ranges (r ∷ rs) ranges = from_ranges rs (insert_clocks r.0 r.1 ranges)

-- `IdSet::from_iter`: a client that comes twice keeps its last ranges.
unfoldable pub from_iter : List (ℕ × List (ℕ × ℕ)) → IdSet → IdSet
unfolding insert from_ranges
from_iter [] set = set
from_iter (x ∷ xs) set = from_iter xs (insert x.0 (from_ranges x.1 []) set)

-- `clock + len` wraps at 32 bits, as in a release build.
unfoldable pub insert_id : ℕ → ℕ → ℕ → IdSet → IdSet
unfolding upsert insert_clocks
insert_id client clock len set =
    upsert client (λ old. insert_clocks clock ((clock + len) % 2 ^ 32) (or_empty old)) set

unfoldable pub insert_ranges : ℕ → IdRange → IdSet → IdSet
unfolding upsert
insert_ranges client range set = upsert client (λ old. joined old range) set

-- What is left of a client's ranges, if anything, takes their place.
unfoldable pub remove_one : ℕ → IdRange → IdSet → IdSet
unfolding upsert Maps.remove
remove_one client [] set = Maps.remove client set
remove_one client (x ∷ left) set = upsert client (λ old. x ∷ left) set

-- `BlockRange::clock_range` gives `start..end`.
unfoldable pub remove_range : ℕ → ℕ → ℕ → IdSet → IdSet
unfolding find remove_one Remove.remove
remove_range client start end set = elim (find client set) [
  | none ↦ set
  | some ranges ↦ remove_one client (Remove.remove ranges start end) set
]
