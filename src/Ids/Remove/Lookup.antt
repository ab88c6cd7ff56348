-- ===== src/Ids/Remove/Lookup.antt =====
-- `IdRanges::remove` (ids.rs) against the values of the clocks.
use crdt_probe.Prelude.{
  ℕ, ◌≤◌, ◌<◌, ◌≡◌, Option, none, List, [], ◌∷◌, ◌++◌, arith, ltb, leb, if◌then◌else◌, Bool-cases,
  inl, inr, ltb→lt, ltb→le, leb→lt,
}
use crdt_probe.Ids.Ranges.{Entry, lookup, Run, in_range}
use crdt_probe.Ids.Ranges.Push.{lookup_below}
use crdt_probe.Ids.Query.{partition}
use crdt_probe.Ids.Remove.{drop_covered, remove_from, remove}

module _ {T : Type 0} where
  abbrev without : ℕ → ℕ → ℕ → Option T → Option T
  without start stop c o = if in_range start stop c then none else o

  drop_covered-lookup :
      (xs : List (Entry T)) (lo hi low start stop c : ℕ)
      → Run lo hi xs
      → low ≤ lo
      → start ≤ lo
      → start ≤ stop
      → Run low hi (drop_covered xs stop)
        × (lookup (drop_covered xs stop) c ≡ without start stop c (lookup xs c))
  unfolding drop_covered lookup
  drop_covered-lookup [] lo hi low start stop c r l h k = ground arith
  drop_covered-lookup (x ∷ xs) lo hi low start stop c r l h k = elim (Bool-cases (leb x.end stop)) [
    | inl covered ↦
        let rest =
          drop_covered-lookup xs x.end hi low start stop c r.2 (omega arith) (omega arith) k in
        rw covered (rest.0, ground (arith, rest.1))
    | inr over ↦ rw over (ground arith, ground (arith, lookup_below x.end hi c xs r.2))
  ]

  remove_from-lookup :
      (x : Entry T) (xs : List (Entry T)) (lo hi start stop c : ℕ)
      → Run lo hi (x ∷ xs)
      → start < stop
      → start < x.end
      → Run lo hi (remove_from (x ∷ xs) start stop)
        × (lookup (remove_from (x ∷ xs) start stop) c ≡ without start stop c (lookup (x ∷ xs) c))
  unfolding remove_from
  remove_from-lookup x xs lo hi start stop c r k l = elim (Bool-cases (ltb x.start start)) [
    | inl head ↦ elim (Bool-cases (ltb stop x.end)) [
      | inl tail ↦
          rw (head, tail)
            (
              (r.0, ltb→lt x.start start head, (omega arith, ltb→lt stop x.end tail, r.2)),
              unfold lookup in ground (arith, lookup_below x.end hi c xs r.2),
            )
      | inr whole ↦
          let rest =
            drop_covered-lookup xs x.end hi start start stop c r.2 (omega arith) (omega arith)
              (omega arith) in
          rw (head, whole)
            (
              (r.0, ltb→lt x.start start head, rest.0),
              unfold lookup in ground (arith, rest.1, lookup_below x.end hi c xs r.2),
            )
    ]
    | inr inside ↦ rw inside (
        drop_covered-lookup (x ∷ xs) x.start hi lo start stop c (omega arith, r.1, r.2) r.0
          (ltb→le x.start start inside) (omega arith))
  ]

  remove-parts :
      (xs : List (Entry T)) (lo hi start stop c : ℕ)
      → Run lo hi xs
      → start < stop
      → let (front, back) = partition (λ x. leb x.end start) xs in
        Run lo hi (front ++ remove_from back start stop)
        × (lookup (front ++ remove_from back start stop) c ≡ without start stop c (lookup xs c))
  unfolding partition lookup
  remove-parts [] lo hi start stop c r k = unfold remove_from in ground arith
  remove-parts (x ∷ xs) lo hi start stop c r k = elim (Bool-cases (leb x.end start)) [
    | inl front ↦
        let rest = remove-parts xs x.end hi start stop c r.2 k in
        rw front ((r.0, r.1, rest.0), ground (arith, rest.1))
    | inr back ↦ rw back (remove_from-lookup x xs lo hi start stop c r k (leb→lt x.end start back))
  ]

  -- `remove` keeps a sorted vector sorted, takes out exactly the clocks of the range, and leaves the
  -- value of every other clock alone.
  pub remove-lookup :
      (xs : List (Entry T)) (lo hi start stop c : ℕ)
      → Run lo hi xs
      → Run lo hi (remove xs start stop)
        × (lookup (remove xs start stop) c ≡ (if in_range start stop c then none else lookup xs c))
  unfolding remove
  remove-lookup xs lo hi start stop c r = elim (Bool-cases (leb stop start)) [
    | inl empty ↦ rw empty (r, ground arith)
    | inr some_ ↦ rw some_ (remove-parts xs lo hi start stop c r (leb→lt stop start some_))
  ]
