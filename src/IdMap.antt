-- ===== src/IdMap.antt =====
-- `IdMapInner<T>` of native/yrs-src/yrs/src/ids.rs: clock ranges with values for each client.
pub mod Meaning
pub mod Combine
use crdt_probe.Prelude.{ℕ, Bool, true, false, Option, none, some, List, [], ◌∷◌}
use crdt_probe.Prelude.Maps.{Map, find, upsert, retain}
use crdt_probe.Ids.Ranges.{Entry, Merge}
use crdt_probe.Ids.Query.{contains_clock}
use crdt_probe.Ids.Insert.{insert_with}
use crdt_probe.Ids.Exclude.{exclude}
use crdt_probe.Ids.Union
use crdt_probe.Ids.Intersect

-- `BTreeMap<ClientID, IdRanges<T>>`.
abbrev pub IdMap : Type 0 → Type 0
IdMap T = Map (List (Entry T))

-- `or_default()`
abbrev pub or_empty : {T : Type 0} → Option (List (Entry T)) → List (Entry T)
or_empty none = []
or_empty (some ranges) = ranges

-- `!ranges.is_empty()`, with the ranges that are kept.
abbrev pub keep_nonempty : {T : Type 0} → List (Entry T) → Option (List (Entry T))
keep_nonempty [] = none
keep_nonempty (x ∷ ranges) = some (x ∷ ranges)

module _ {T : Type 0} where
  unfoldable pub is_empty : IdMap T → Bool
  is_empty [] = true
  is_empty (x ∷ map) = false

  unfoldable pub contains : ℕ → ℕ → IdMap T → Bool
  unfolding find contains_clock
  contains client clock map = elim (find client map) [
    | none ↦ false
    | some ranges ↦ contains_clock ranges clock
  ]

module _ {T : Type 0} ⦃m : Merge T⦄ where
  unfoldable pub insert_range : ℕ → ℕ → ℕ → T → IdMap T → IdMap T
  unfolding upsert insert_with
  insert_range client start end v map =
      upsert client (λ old. insert_with start end v (or_empty old)) map

  -- The entry of one client: merged into the one there is, or put in.
  abbrev pub joined : Option (List (Entry T)) → List (Entry T) → List (Entry T)
  joined none other_ranges = other_ranges
  joined (some ranges) other_ranges = Union.merge ranges other_ranges

  unfoldable pub merge_with : IdMap T → IdMap T → IdMap T
  unfolding upsert
  merge_with map [] = map
  merge_with map (x ∷ other) = merge_with (upsert x.0 (λ old. joined old x.1) map) other

  unfoldable pub intersect_with : IdMap T → IdMap T → IdMap T
  unfolding retain find
  intersect_with map other =
      retain
        (λ client ranges. elim (find client other) [
          | some other_ranges ↦ keep_nonempty (Intersect.intersect ranges other_ranges)
          | none ↦ none
        ])
        map

module _ {T U : Type 0} where
  unfoldable pub diff_with : IdMap T → IdMap U → IdMap T
  unfolding retain find exclude
  diff_with map other =
      retain
        (λ client ranges. elim (find client other) [
          | some other_ranges ↦ keep_nonempty (exclude ranges other_ranges)
          | none ↦ keep_nonempty ranges
        ])
        map
