-- ===== src/Ids/Query.antt =====
-- The searches of `IdRanges`: `contains_clock` by `partition_point`, `find_start` by a binary search
-- of its own, and `subset_of`.
pub mod Contains
use crdt_probe.Prelude.{
  ℕ, zero, suc, ◌+◌, ◌-◌, ◌/◌, ◌*◌, Bool, true, false, ◌&&◌, Option, none, some, List, [], ◌∷◌, ltb,
  leb, ◌==◌, if◌then◌else◌, length, get_elem?,
}
use crdt_probe.Ids.Ranges.{Entry}

module _ {T : Type 0} where
  -- `partition_point` cuts a slice where its test first fails. On a slice where the test holds up
  -- to some index and fails from there on, this is what the standard library documents.
  unfoldable pub partition : (Entry T → Bool) → List (Entry T) → List (Entry T) × List (Entry T)
  partition test [] = ([], [])
  partition test (x ∷ xs) =
      let (front, back) = partition test xs in if test x then (x ∷ front, back) else ([], x ∷ xs)

  unfoldable pub last : List (Entry T) → Option (Entry T)
  last [] = none
  last (x ∷ []) = some x
  last (x ∷ y ∷ xs) = last (y ∷ xs)

  -- `idx > 0 && self.0[idx - 1].0.end > clock`
  unfoldable pub contains_clock : List (Entry T) → ℕ → Bool
  unfolding partition last
  contains_clock vec clock = elim (last (partition (λ x. leb x.start clock) vec).0) [
    | none ↦ false
    | some x ↦ ltb clock x.end
  ]

  -- The loop `while left <= right`. Each round halves `right + 1 - left`, so that `right + 2 - left`
  -- rounds are enough; `none` is an index out of bounds, or the end of the fuel.
  unfoldable pub search_loop : ℕ → List (Entry T) → ℕ → ℕ → ℕ → Option (Option ℕ)
  search_loop zero vec clock left right = none
  search_loop (suc rounds) vec clock left right =
      let mid = (left + right) / 2 in
      let past = search_loop rounds vec clock (mid + 1) right in
      let before = search_loop rounds vec clock left (mid - 1) in
      let finish = some (if ltb left (length vec) then some left else none) in
      if ltb right left then finish else elim (get_elem? vec mid) [
        | none ↦ none
        | some x ↦
            if leb x.start clock
            then if ltb clock x.end then some (some mid) else past
            else if mid == 0
            then finish
            else before
      ]

  unfoldable pub find_start : List (Entry T) → ℕ → Option (Option ℕ)
  unfolding search_loop
  find_start [] clock = some none
  find_start (x ∷ xs) clock = search_loop (length xs + 2) (x ∷ xs) clock 0 (length xs)

  -- `is_range_covered` after its test for an empty range: the loop over `other` from `current`.
  unfoldable pub covered_from : ℕ → ℕ → List (Entry T) → Bool
  covered_from current end [] = leb end current
  covered_from current end (y ∷ ys) =
      let skip = covered_from current end ys in
      let next = covered_from y.end end ys in
      if leb y.end current
      then skip
      else if ltb current y.start
      then false
      else if leb end y.end
      then true
      else next

  unfoldable pub is_range_covered : Entry T → List (Entry T) → Bool
  unfolding covered_from
  is_range_covered x other = if leb x.end x.start then true else covered_from x.start x.end other

  unfoldable pub subset_of : List (Entry T) → List (Entry T) → Bool
  unfolding is_range_covered
  subset_of [] other = true
  subset_of (x ∷ xs) other = is_range_covered x other && subset_of xs other
