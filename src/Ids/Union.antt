-- ===== src/Ids/Union.antt =====
-- `IdRanges::merge`, the union of two sorted vectors in one pass.
pub mod Round
pub mod State
pub mod Lookup
use crdt_probe.Prelude.{ℕ, max, min, Option, none, some, List, [], ◌∷◌, ltb, leb, if◌then◌else◌}
use crdt_probe.Ids.Ranges.{Entry, Merge, push_coalesced}

-- `if ai < a.len() { a[ai].0.start } else { 0 }`, for what is left of `a`.
abbrev pub next_start : {T : Type 0} → List (Entry T) → ℕ
next_start [] = 0
next_start (x ∷ xs) = x.start

module _ {T : Type 0} ⦃m : Merge T⦄ where
  -- The loops that drain one side.
  unfoldable pub push_all : List (Entry T) → List (Entry T) → List (Entry T)
  push_all [] result = result
  push_all (x ∷ xs) result = push_all xs (push_coalesced result x.start x.end x.value)

  -- The part of `a` or `b` in front of their overlap.
  unfoldable pub push_prefix : ℕ → T → ℕ → T → List (Entry T) → List (Entry T)
  push_prefix a_cur a_value b_cur b_value result =
      if ltb a_cur b_cur
      then push_coalesced result a_cur b_cur a_value
      else if ltb b_cur a_cur
      then push_coalesced result b_cur a_cur b_value
      else result

  -- The loop over what is left of `a` (from index `ai`) and of `b` (from `bi`): `a_cur` and `b_cur`
  -- stand for the starts of the first entries.
  unfoldable pub merge_loop :
      List (Entry T) → ℕ → List (Entry T) → ℕ → List (Entry T) → List (Entry T)
  unfolding push_all push_prefix
  merge_loop [] a_cur [] b_cur result = result
  merge_loop (x ∷ a) a_cur [] b_cur result = push_all a (push_coalesced result a_cur x.end x.value)
  merge_loop [] a_cur (y ∷ b) b_cur result = push_all b (push_coalesced result b_cur y.end y.value)
  merge_loop (x ∷ a) a_cur (y ∷ b) b_cur result =
      let only_a =
        merge_loop a (next_start a) (y ∷ b) b_cur (push_coalesced result a_cur x.end x.value) in
      let only_b =
        merge_loop (x ∷ a) a_cur b (next_start b) (push_coalesced result b_cur y.end y.value) in
      let overlap_start = max a_cur b_cur in
      let overlap_end = min x.end y.end in
      let both =
        push_coalesced (push_prefix a_cur x.value b_cur y.value result) overlap_start overlap_end
          (m.merge x.value y.value) in
      let a_ends = merge_loop a (next_start a) (y ∷ b) overlap_end both in
      let b_ends = merge_loop (x ∷ a) overlap_end b (next_start b) both in
      let both_end = merge_loop a (next_start a) b (next_start b) both in
      if leb x.end b_cur
      then only_a
      else if leb y.end a_cur
      then only_b
      else if ltb x.end y.end
      then a_ends
      else if ltb y.end x.end
      then b_ends
      else both_end

  unfoldable pub merge : List (Entry T) → List (Entry T) → List (Entry T)
  unfolding merge_loop
  merge a [] = a
  merge [] (y ∷ b) = y ∷ b
  merge (x ∷ a) (y ∷ b) = merge_loop (x ∷ a) x.start (y ∷ b) y.start []
