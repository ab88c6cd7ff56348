-- ===== src/Ids/Insert.antt =====
-- `IdRanges::insert_with`: a range with a value is put in, merged with what it overlaps.
pub mod Split
pub mod Replace
pub mod Lookup
use crdt_probe.Prelude.{
  ℕ, zero, suc, ◌+◌, max, min, Bool, true, false, ◌&&◌, Option, none, some, List, [], ◌∷◌, ◌++◌,
  ltb, leb, ◌==◌, if◌then◌else◌, length,
}
use crdt_probe.Ids.Ranges.{Entry, entry, Merge, push_coalesced}
use crdt_probe.Ids.Query.{partition, last}

module _ {T : Type 0} where
  -- `if lo > 0 && self.0[lo - 1].0.end >= range.start { lo -= 1 }`, on the entries in front of `lo`
  -- and those from it on.
  unfoldable pub give_back : ℕ → List (Entry T) → List (Entry T) → List (Entry T) × List (Entry T)
  give_back start [] back = ([], back)
  give_back start (x ∷ []) back = if leb start x.end then ([], x ∷ back) else (x ∷ [], back)
  give_back start (x ∷ y ∷ front) back =
      let (kept, rest) = give_back start (y ∷ front) back in (x ∷ kept, rest)

  -- The last entry's new end, on the path that extends it.
  unfoldable pub extend_last : ℕ → List (Entry T) → List (Entry T)
  extend_last end [] = []
  extend_last end (x ∷ []) = record x { end = max x.end end } ∷ []
  extend_last end (x ∷ y ∷ vec) = x ∷ extend_last end (y ∷ vec)

module _ {T : Type 0} ⦃m : Merge T⦄ where
  -- `if test { push_coalesced(…) }`
  unfoldable pub push_when : Bool → ℕ → ℕ → T → List (Entry T) → List (Entry T)
  unfolding push_coalesced
  push_when test start end v repl = if test then push_coalesced repl start end v else repl

  -- One round of the loop over `lo..hi`: the gap in front of the entry, the part of the entry in front
  -- of the range, the one in it, and the one behind it.
  unfoldable pub replace_one : ℕ → ℕ → T → ℕ → Entry T → List (Entry T) → List (Entry T)
  unfolding push_when
  replace_one new_start new_end v cursor x repl =
      let gap =
        push_when (leb new_start cursor && ltb cursor x.start) cursor (min x.start new_end) v
          repl in
      let prefix = push_when (ltb x.start new_start) x.start new_start x.value gap in
      let overlap_start = max x.start new_start in
      let overlap_end = min x.end new_end in
      let overlap =
        push_when (ltb overlap_start overlap_end) overlap_start overlap_end (m.merge x.value v)
          prefix in
      push_when (ltb new_end x.end) new_end x.end x.value overlap

  -- The loop that builds the replacement, and the gap behind it.
  unfoldable pub replace : ℕ → ℕ → T → ℕ → List (Entry T) → List (Entry T) → List (Entry T)
  unfolding replace_one push_when
  replace new_start new_end v cursor [] repl = push_when (ltb cursor new_end) cursor new_end v repl
  replace new_start new_end v cursor (x ∷ xs) repl =
      replace new_start new_end v x.end xs (replace_one new_start new_end v cursor x repl)

  -- The entry at index `i` is joined to the one in front of it, if they touch with equal values.
  unfoldable pub coalesce_at : ℕ → List (Entry T) → List (Entry T)
  coalesce_at zero vec = vec
  coalesce_at (suc i) [] = []
  coalesce_at (suc i) (x ∷ []) = x ∷ []
  coalesce_at (suc zero) (x ∷ y ∷ vec) =
      if leb y.start x.end && m.eq x.value y.value
      then record x { end = max x.end y.end } ∷ vec
      else x ∷ y ∷ vec
  coalesce_at (suc (suc i)) (x ∷ y ∷ vec) = x ∷ coalesce_at (suc i) (y ∷ vec)

  -- The entries between `lo` and `hi`, if any, give way to the replacement; both ends are coalesced.
  unfoldable pub splice :
      ℕ → ℕ → T → List (Entry T) → List (Entry T) → List (Entry T) → List (Entry T)
  unfolding replace coalesce_at
  splice start end v front [] rest =
      let lo = length front in
      coalesce_at lo (coalesce_at (lo + 1) (front ++ entry start end v ∷ rest))
  splice start end v front (x ∷ xs) rest =
      let lo = length front in
      let replacement = replace start end v (min x.start start) (x ∷ xs) [] in
      coalesce_at lo (coalesce_at (lo + length replacement) (front ++ (replacement ++ rest)))

  -- The path behind the fast one.
  unfoldable pub insert_general : ℕ → ℕ → T → List (Entry T) → List (Entry T)
  unfolding splice give_back partition
  insert_general start end v vec =
      let (below, above) = partition (λ x. ltb x.start start) vec in
      let (front, from_lo) = give_back start below above in
      let (overlapping, rest) = partition (λ x. leb x.start end) from_lo in
      splice start end v front overlapping rest

  unfoldable pub insert_with : ℕ → ℕ → T → List (Entry T) → List (Entry T)
  unfolding insert_general extend_last last
  insert_with start end v vec =
      let general = insert_general start end v vec in
      if leb end start then vec else elim (last vec) [
        | none ↦ general
        | some x ↦
            if leb x.start start
            then if ltb x.end start
              then vec ++ entry start end v ∷ []
              else if m.eq x.value v
              then extend_last end vec
              else if start == x.end
              then vec ++ entry start end v ∷ []
              else general
            else general
      ]
