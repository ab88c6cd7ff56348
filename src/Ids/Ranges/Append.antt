-- ===== src/Ids/Ranges/Append.antt =====
-- What `push` of an entry does to a vector that ends at or before it.
use crdt_probe.Prelude.{ℕ, ◌≤◌, ◌<◌, ◌≡◌, refl, some, List, [], ◌∷◌, ◌++◌, arith, if◌then◌else◌}
use crdt_probe.Ids.Ranges.{Entry, entry, in_range, lookup, Run}
use crdt_probe.Ids.Ranges.Push.{Run-le}

module _ {T : Type 0} where
  pub append-Run :
      (xs : List (Entry T)) (lo w s e : ℕ) (v : T)
      → Run lo w xs
      → w ≤ s
      → s < e
      → Run lo e (xs ++ entry s e v ∷ [])
  append-Run [] lo w s e v r h k = (omega arith, k, omega arith)
  append-Run (x ∷ xs) lo w s e v r h k = (r.0, r.1, append-Run xs x.end w s e v r.2 h k)

  pub append-lookup :
      (xs : List (Entry T)) (lo w s e c : ℕ) (v : T)
      → Run lo w xs
      → w ≤ s
      → lookup (xs ++ entry s e v ∷ []) c ≡ (if in_range s e c then some v else lookup xs c)
  unfolding lookup
  append-lookup [] lo w s e c v r h = refl
  append-lookup (x ∷ xs) lo w s e c v r h =
      ground (arith, append-lookup xs x.end w s e c v r.2 h, Run-le x.end w xs r.2)
