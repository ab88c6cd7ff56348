-- ===== src/Ids/Intersect.antt =====
-- `IdRanges::intersect`: the clocks that both vectors hold, in one pass.
pub mod Lookup
use crdt_probe.Prelude.{ℕ, max, min, Bool, ◌&&◌, List, [], ◌∷◌, ltb, leb, ◌==◌, if◌then◌else◌}
use crdt_probe.Ids.Ranges.{Entry, entry, Merge}
use crdt_probe.Ids.Exclude.{skip_left}

module _ {T : Type 0} ⦃m : Merge T⦄ where
  -- The push onto the result, which extends its last entry if that ends at `lo` with an equal value.
  unfoldable pub push_touching : List (Entry T) → ℕ → ℕ → T → List (Entry T)
  push_touching [] lo hi v = entry lo hi v ∷ []
  push_touching (x ∷ []) lo hi v =
      if x.end == lo && m.eq x.value v then record x { end = hi } ∷ [] else x ∷ entry lo hi v ∷ []
  push_touching (x ∷ y ∷ xs) lo hi v = x ∷ push_touching (y ∷ xs) lo hi v

  -- `if lo < hi { … }`
  unfoldable pub push_meet : ℕ → ℕ → T → List (Entry T) → List (Entry T)
  unfolding push_touching
  push_meet lo hi v result = if ltb lo hi then push_touching result lo hi v else result

  -- The loop over `j` for one entry: what is left of `other` from `j` on, and the result so far.
  unfoldable pub meet :
      ℕ → ℕ → T → List (Entry T) → List (Entry T) → List (Entry T) × List (Entry T)
  unfolding push_meet
  meet start end v [] result = ([], result)
  meet start end v (o ∷ other) result =
      let result' = push_meet (max start o.start) (min end o.end) (m.merge v o.value) result in
      let more = meet start end v other result' in
      if leb end o.start
      then (o ∷ other, result)
      else if ltb o.end end
      then more
      else (o ∷ other, result')

  unfoldable pub intersect_loop : List (Entry T) → List (Entry T) → List (Entry T) → List (Entry T)
  unfolding meet skip_left
  intersect_loop [] other result = result
  intersect_loop (x ∷ xs) other result =
      let (rest, result') = meet x.start x.end x.value (skip_left x.start other) result in
      intersect_loop xs rest result'

  unfoldable pub intersect : List (Entry T) → List (Entry T) → List (Entry T)
  unfolding intersect_loop
  intersect [] other = []
  intersect (x ∷ xs) [] = []
  intersect (x ∷ xs) (o ∷ other) = intersect_loop (x ∷ xs) (o ∷ other) []
