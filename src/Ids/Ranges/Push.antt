-- ===== src/Ids/Ranges/Push.antt =====
-- What `push_coalesced` does to a vector that ends at or before the new range.
use crdt_probe.Prelude.{
  ℕ, ◌≤◌, ◌<◌, ◌≡◌, refl, none, some, List, [], ◌∷◌, arith, leb, Bool-cases, inl, inr, leb→lt,
  if◌then◌else◌,
}
use crdt_probe.Ids.Ranges.{Entry, Merge, in_range, lookup, Run, push_last, push_coalesced}

module _ {T : Type 0} where
  pub Run-le : (lo hi : ℕ) (xs : List (Entry T)) → Run lo hi xs → lo ≤ hi
  Run-le lo hi [] r = r
  Run-le lo hi (x ∷ xs) r = omega (arith, Run-le x.end hi xs r.2)

  -- A vector holds no clock below its first bound, nor from its second on.
  pub lookup_below :
      (lo hi c : ℕ) (xs : List (Entry T)) → Run lo hi xs → c < lo → lookup xs c ≡ none
  unfolding lookup
  lookup_below lo hi c [] r h = refl
  lookup_below lo hi c (x ∷ xs) r h = ground (arith, lookup_below x.end hi c xs r.2)

  pub lookup_above :
      (lo hi c : ℕ) (xs : List (Entry T)) → Run lo hi xs → hi ≤ c → lookup xs c ≡ none
  unfolding lookup
  lookup_above lo hi c [] r h = refl
  lookup_above lo hi c (x ∷ xs) r h =
      ground (arith, lookup_above x.end hi c xs r.2, Run-le x.end hi xs r.2)

  pub Run-widen :
      (lo hi lo' hi' : ℕ) (xs : List (Entry T))
      → Run lo hi xs
      → lo' ≤ lo
      → hi ≤ hi'
      → Run lo' hi' xs
  Run-widen lo hi lo' hi' [] r p q = omega arith
  Run-widen lo hi lo' hi' (x ∷ xs) r p q =
      (omega arith, r.1, Run-widen x.end hi x.end hi' xs r.2 (omega arith) q)

module _ {T : Type 0} ⦃m : Merge T⦄ where
  push_last-Run :
      (xs : List (Entry T)) (lo s e : ℕ) (v : T)
      → Run lo s xs
      → s < e
      → Run lo e (push_last xs s e v)
  unfolding push_last
  push_last-Run [] lo s e v r h = (r, h, omega arith)
  push_last-Run (x ∷ []) lo s e v r h = ground arith
  push_last-Run (x ∷ y ∷ xs) lo s e v r h = (r.0, r.1, push_last-Run (y ∷ xs) x.end s e v r.2 h)

  pub push_coalesced-Run :
      (xs : List (Entry T)) (lo s e : ℕ) (v : T)
      → Run lo s xs
      → s ≤ e
      → Run lo e (push_coalesced xs s e v)
  unfolding push_coalesced
  push_coalesced-Run xs lo s e v r h = elim (Bool-cases (leb e s)) [
    | inl stop ↦ rw stop (Run-widen lo s lo e xs r (omega arith) h)
    | inr go ↦ rw go (push_last-Run xs lo s e v r (leb→lt e s go))
  ]

  push_last-lookup :
      (xs : List (Entry T)) (lo s e c : ℕ) (v : T)
      → Run lo s xs
      → s < e
      → lookup (push_last xs s e v) c ≡ (if in_range s e c then some v else lookup xs c)
  unfolding push_last lookup
  push_last-lookup [] lo s e c v r h = refl
  push_last-lookup (x ∷ []) lo s e c v r h = ground (arith, m.eq_iff x.value v)
  push_last-lookup (x ∷ y ∷ xs) lo s e c v r h =
      ground (arith, push_last-lookup (y ∷ xs) x.end s e c v r.2 h, Run-le x.end s (y ∷ xs) r.2)

  -- The new range gets its value, and every other clock keeps its own.
  pub push_coalesced-lookup :
      (xs : List (Entry T)) (lo s e c : ℕ) (v : T)
      → Run lo s xs
      → lookup (push_coalesced xs s e v) c ≡ (if in_range s e c then some v else lookup xs c)
  unfolding push_coalesced
  push_coalesced-lookup xs lo s e c v r = ground (arith, push_last-lookup xs lo s e c v)
