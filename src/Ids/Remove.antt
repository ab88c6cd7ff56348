-- ===== src/Ids/Remove.antt =====
-- `IdRanges::remove`: clocks are taken out, entries trimmed, split or dropped.
pub mod Lookup
use crdt_probe.Prelude.{ℕ, Bool, true, false, ◌&&◌, List, [], ◌∷◌, ◌++◌, ltb, leb, if◌then◌else◌}
use crdt_probe.Ids.Ranges.{Entry, entry}
use crdt_probe.Ids.Query.{partition}

module _ {T : Type 0} where
  -- The entries from index `i` on, the first of which may straddle the start of the removed range:
  -- it is split, or trimmed and left in front of what is dropped.
  unfoldable pub trim_end : List (Entry T) → ℕ → List (Entry T)
  trim_end [] stop = []
  trim_end (x ∷ xs) stop = if ltb x.start stop then record x { start = stop } ∷ xs else x ∷ xs

  unfoldable pub drop_covered : List (Entry T) → ℕ → List (Entry T)
  unfolding partition trim_end
  drop_covered vec stop = trim_end (partition (λ x. leb x.end stop) vec).1 stop

  unfoldable pub remove_from : List (Entry T) → ℕ → ℕ → List (Entry T)
  remove_from [] start stop = []
  remove_from (x ∷ xs) start stop =
      if ltb x.start start && ltb stop x.end
      then record x { end = start } ∷ record x { start = stop } ∷ xs
      else if ltb x.start start
      then record x { end = start } ∷ drop_covered xs stop
      else drop_covered (x ∷ xs) stop

  unfoldable pub remove : List (Entry T) → ℕ → ℕ → List (Entry T)
  unfolding partition
  remove vec start stop =
      let (front, back) = partition (λ x. leb x.end start) vec in
      if leb stop start then vec else front ++ remove_from back start stop
