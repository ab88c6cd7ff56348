-- ===== src/Ids/Exclude.antt =====
-- `IdRanges::exclude`: the clocks of another vector are taken out in one pass.
pub mod Lookup
use crdt_probe.Prelude.{ℕ, max, Bool, List, [], ◌∷◌, ◌++◌, ltb, leb, if◌then◌else◌}
use crdt_probe.Ids.Ranges.{Entry, entry}

-- `while i < other.len() && other[i].0.end <= start`, on what is left of `other`.
unfoldable pub skip_left : {U : Type 0} → ℕ → List (Entry U) → List (Entry U)
skip_left start [] = []
skip_left start (o ∷ other) = if leb o.end start then skip_left start other else o ∷ other

-- `if start < end { result.push(…) }`
unfoldable pub push_rest : {T : Type 0} → ℕ → ℕ → T → List (Entry T) → List (Entry T)
push_rest start end v result = if ltb start end then result ++ entry start end v ∷ [] else result

module _ {T U : Type 0} where
  -- The loop over `j` that cuts the other ranges from `start..end`: `start` when it stops, what is
  -- left of `other` from `j` on, and the result so far.
  unfoldable pub cut :
      ℕ → ℕ → T → List (Entry U) → List (Entry T) → ℕ × List (Entry U) × List (Entry T)
  cut start end v [] result = (start, [], result)
  cut start end v (o ∷ other) result =
      let result' = push_rest start o.start v result in
      let more = cut (max start o.end) end v other result' in
      if leb end start
      then (start, o ∷ other, result)
      else if leb end o.start
      then (start, o ∷ other, result)
      else if ltb o.end end
      then more
      else (max start o.end, o ∷ other, result')

  unfoldable pub exclude_loop : List (Entry T) → List (Entry U) → List (Entry T) → List (Entry T)
  exclude_loop [] other result = result
  exclude_loop (x ∷ xs) other result =
      let (start, rest, result') = cut x.start x.end x.value (skip_left x.start other) result in
      exclude_loop xs rest (push_rest start x.end x.value result')

  unfoldable pub exclude : List (Entry T) → List (Entry U) → List (Entry T)
  unfolding exclude_loop
  exclude [] other = []
  exclude (x ∷ xs) [] = x ∷ xs
  exclude (x ∷ xs) (o ∷ other) = exclude_loop (x ∷ xs) (o ∷ other) []
