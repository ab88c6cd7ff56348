-- ===== src/IdMap/Combine.antt =====
-- `insert_range`, `merge_with`, `diff_with` and `intersect_with` of the maps (ids.rs), id by id.
use crdt_probe.Prelude.{
  ℕ, ◌≡◌, ◌≤◌, max, refl, sym, ap, subst, ◌∙◌, Option, none, some, List, [], ◌∷◌, ◌==◌,
  if◌then◌else◌, Bool-cases, inl, inr, arith, ==_iff,
}
use crdt_probe.Prelude.Maps.{
  find, upsert, and_then, IsMap, find-upsert, upsert-IsMap, find-retain, retain-IsMap,
}
use crdt_probe.Ids.Ranges.{Entry, Merge, lookup, Run}
use crdt_probe.Ids.Ranges.Push.{Run-widen}
use crdt_probe.Ids.Exclude.{exclude}
use crdt_probe.Ids.Exclude.Lookup.{minus, minus-none, exclude-lookup}
use crdt_probe.Ids.Insert.{insert_with}
use crdt_probe.Ids.Insert.Replace.{inserted}
use crdt_probe.Ids.Insert.Lookup.{insert_with-inserted}
use crdt_probe.Ids.Union.Round.{union}
use crdt_probe.Ids.Union.State.{union-none}
use crdt_probe.Ids.Union.Lookup.{merge-union}
use crdt_probe.Ids.Intersect
use crdt_probe.Ids.Intersect.Lookup.{both, both-none, intersect-both}
use crdt_probe.IdMap.{
  IdMap, or_empty, keep_nonempty, joined, insert_range, merge_with, diff_with, intersect_with,
}
use crdt_probe.IdMap.Meaning.{value_in, value_at, RunIn, IsIdMap, RunIn-upsert}

module _ {T : Type 0} where
  value_at-upsert :
      (client k c : ℕ) (f : Option (List (Entry T)) → List (Entry T)) (map : IdMap T)
      → value_at k c (upsert client f map)
        ≡ (if client == k then lookup (f (find client map)) c else value_at k c map)
  unfolding value_at
  value_at-upsert client k c f map =
      ap (value_in c) (find-upsert map client k f)
      ∙ elim (Bool-cases (client == k)) [ inl same ↦ rw same refl | inr other ↦ rw other refl ]

  value_at-nil : (k c : ℕ) → value_at {T = T} k c [] ≡ none
  unfolding value_at find
  value_at-nil k c = refl

  value_at-find : (k c : ℕ) (map : IdMap T) → value_in c (find k map) ≡ value_at k c map
  unfolding value_at
  value_at-find k c map = refl

  value_at-cons :
      (k c : ℕ) (x : ℕ × List (Entry T)) (map : IdMap T)
      → value_at k c (x ∷ map) ≡ (if x.0 == k then lookup x.1 c else value_at k c map)
  unfolding value_at find
  value_at-cons k c x map = elim (Bool-cases (x.0 == k)) [
    | inl same ↦ rw same refl
    | inr other ↦ rw other refl
  ]

  value_at-absent : (k c : ℕ) (map : IdMap T) → find k map ≡ none → value_at k c map ≡ none
  unfolding value_at
  value_at-absent k c map h = rw h refl

  RunIn-head :
      (hi : ℕ) (x : ℕ × List (Entry T)) (map : IdMap T)
      → RunIn hi (find x.0 (x ∷ map))
      → Run 0 hi x.1
  unfolding find
  RunIn-head hi x map r = rw ((==_iff x.0 x.0).1 refl) at r

  RunIn-tail :
      (hi k : ℕ) (x : ℕ × List (Entry T)) (map : IdMap T)
      → IsMap (x ∷ map)
      → RunIn hi (find k (x ∷ map))
      → RunIn hi (find k map)
  unfolding find
  RunIn-tail hi k x map h r = elim (Bool-cases (x.0 == k)) [
    | inl same ↦
        let gone : find k map ≡ none =
          ap (λ (j : ℕ). find j map) (sym ((==_iff x.0 k).0 same)) ∙ h.0 in
        rw gone tt
    | inr other ↦ rw other at r
  ]

  or_empty-Run : (hi : ℕ) (o : Option (List (Entry T))) → RunIn hi o → Run 0 hi (or_empty o)
  or_empty-Run hi none r = omega arith
  or_empty-Run hi (some ranges) r = r

  or_empty-lookup : (c : ℕ) (o : Option (List (Entry T))) → lookup (or_empty o) c ≡ value_in c o
  unfolding lookup
  or_empty-lookup c none = refl
  or_empty-lookup c (some ranges) = refl

  RunIn-widen : (hi hi' : ℕ) (o : Option (List (Entry T))) → hi ≤ hi' → RunIn hi o → RunIn hi' o
  RunIn-widen hi hi' none h r = tt
  RunIn-widen hi hi' (some ranges) h r = Run-widen 0 hi 0 hi' ranges r (omega arith) h

  keep_nonempty-RunIn : (hi : ℕ) (xs : List (Entry T)) → Run 0 hi xs → RunIn hi (keep_nonempty xs)
  keep_nonempty-RunIn hi [] r = tt
  keep_nonempty-RunIn hi (x ∷ xs) r = r

  value_in-keep_nonempty :
      (c : ℕ) (xs : List (Entry T)) → value_in c (keep_nonempty xs) ≡ lookup xs c
  unfolding lookup
  value_in-keep_nonempty c [] = refl
  value_in-keep_nonempty c (x ∷ xs) = refl

module _ {T : Type 0} ⦃m : Merge T⦄ where
  -- Where a value merged with itself is itself: `insert_range` merges the new value into those of the
  -- ids of the client in the range, and changes no other id.
  pub insert_range-inserted :
      (map : IdMap T) (hi client s e : ℕ) (v : T) (k c : ℕ)
      → ((a : T) → m.merge a a ≡ a)
      → IsIdMap hi map
      → IsIdMap (max hi e) (insert_range client s e v map)
        × (value_at k c (insert_range client s e v map)
            ≡ (if client == k then inserted s e v c (value_at k c map) else value_at k c map))
  unfolding insert_range
  insert_range-inserted map hi client s e v k c idem h =
      let f = λ (old : Option (List (Entry T))). insert_with s e v (or_empty old) in
      let old = find client map in
      let out =
        insert_with-inserted (or_empty old) hi s e c v idem (or_empty-Run hi old (h.1 client)) in
      (
        (
          upsert-IsMap map client f h.0,
          λ j.
              RunIn-upsert (max hi e) client j f map out.0
                (RunIn-widen hi (max hi e) (find j map) (omega arith) (h.1 j)),
        ),
        value_at-upsert client k c f map ∙ elim (Bool-cases (client == k)) [
          | inl same ↦ rw same (
              out.1
              ∙ ap (inserted s e v c) (
                  or_empty-lookup c old
                  ∙ ap (λ (j : ℕ). value_in c (find j map)) ((==_iff client k).0 same)
                  ∙ value_at-find k c map))
          | inr other ↦ rw other refl
        ],
      )

  joined-union :
      (hi c : ℕ) (o : Option (List (Entry T))) (xs : List (Entry T))
      → RunIn hi o
      → Run 0 hi xs
      → Run 0 hi (joined o xs) × (lookup (joined o xs) c ≡ union (value_in c o) (lookup xs c))
  joined-union hi c none xs r s = (s, refl)
  joined-union hi c (some ranges) xs r s = merge-union hi c ranges xs r s

  -- The union of two maps gives each id the merged value of both, or that of the one that has it.
  pub merge_with-union :
      (hi k c : ℕ) (a b : IdMap T)
      → IsIdMap hi a
      → IsIdMap hi b
      → IsIdMap hi (merge_with a b)
        × (value_at k c (merge_with a b) ≡ union (value_at k c a) (value_at k c b))
  unfolding merge_with value_at
  merge_with-union hi k c a [] h i = (h, sym (ap (union _) (value_at-nil k c) ∙ union-none _))
  merge_with-union hi k c a (x ∷ b) h i =
      let f = λ (old : Option (List (Entry T))). joined old x.1 in
      let out = joined-union hi c (find x.0 a) x.1 (h.1 x.0) (RunIn-head hi x b (i.1 x.0)) in
      let a' = upsert x.0 f a in
      let h' : IsIdMap hi a' =
        (upsert-IsMap a x.0 f h.0, λ j. RunIn-upsert hi x.0 j f a out.0 (h.1 j)) in
      let rest = merge_with-union hi k c a' b h' (i.0.1, λ j. RunIn-tail hi j x b i.0 (i.1 j)) in
      (
        rest.0,
        rest.1
            ∙ rw (value_at-upsert x.0 k c f a, value_at-cons k c x b)
                (elim (Bool-cases (x.0 == k)) [
                  | inl same ↦
                      let e = (==_iff x.0 k).0 same in
                      rw same (
                        ap (union _)
                          (ap (λ (j : ℕ). value_at j c b) (sym e) ∙ value_at-absent x.0 c b i.0.0)
                        ∙ union-none _
                        ∙ out.1
                        ∙ ap (λ (j : ℕ). union (value_at j c a) (lookup x.1 c)) e)
                  | inr other ↦ rw other refl
                ]),
      )

  -- One client's part of the intersection.
  abbrev met : Option (List (Entry T)) → List (Entry T) → Option (List (Entry T))
  met o ranges = elim o [
    | some other_ranges ↦ keep_nonempty (Intersect.intersect ranges other_ranges)
    | none ↦ none
  ]

  met-both :
      (hi hi' c : ℕ) (o p : Option (List (Entry T)))
      → RunIn hi o
      → RunIn hi' p
      → RunIn hi (and_then (met p) o)
        × (value_in c (and_then (met p) o) ≡ both (value_in c o) (value_in c p))
  met-both hi hi' c none p r s = (tt, refl)
  met-both hi hi' c (some xs) none r s = (tt, sym (both-none (lookup xs c)))
  met-both hi hi' c (some xs) (some ys) r s =
      let out = intersect-both hi hi' c xs ys r s in
      (keep_nonempty-RunIn hi _ out.0, value_in-keep_nonempty c _ ∙ out.1)

  -- The intersection of two maps keeps the ids that both have, with the merged value.
  pub intersect_with-both :
      (hi hi' k c : ℕ) (a b : IdMap T)
      → IsIdMap hi a
      → IsIdMap hi' b
      → IsIdMap hi (intersect_with a b)
        × (value_at k c (intersect_with a b) ≡ both (value_at k c a) (value_at k c b))
  unfolding intersect_with value_at
  intersect_with-both hi hi' k c a b h i =
      let f = λ (client : ℕ) (ranges : List (Entry T)). met (find client b) ranges in
      let at_client = λ (j : ℕ). find-retain f a j h.0 in
      (
        (
          retain-IsMap f a h.0,
          λ j.
              subst (RunIn hi) (sym (at_client j))
                (met-both hi hi' c (find j a) (find j b) (h.1 j) (i.1 j)).0,
        ),
        ap (value_in c) (at_client k) ∙ (met-both hi hi' c (find k a) (find k b) (h.1 k) (i.1 k)).1,
      )

module _ {T U : Type 0} where
  -- One client's part of the difference.
  abbrev left : Option (List (Entry U)) → List (Entry T) → Option (List (Entry T))
  left o ranges = elim o [
    | some other_ranges ↦ keep_nonempty (exclude ranges other_ranges)
    | none ↦ keep_nonempty ranges
  ]

  left-minus :
      (hi hi' c : ℕ) (o : Option (List (Entry T))) (p : Option (List (Entry U)))
      → RunIn hi o
      → RunIn hi' p
      → RunIn hi (and_then (left p) o)
        × (value_in c (and_then (left p) o) ≡ minus (value_in c o) (value_in c p))
  left-minus hi hi' c none p r s = (tt, sym (minus-none (value_in c p)))
  left-minus hi hi' c (some xs) none r s =
      (keep_nonempty-RunIn hi xs r, value_in-keep_nonempty c xs)
  left-minus hi hi' c (some xs) (some ys) r s =
      let out = exclude-lookup hi hi' c xs ys r s in
      (keep_nonempty-RunIn hi _ out.0, value_in-keep_nonempty c _ ∙ out.1)

  -- The difference of two maps takes out the ids that the other map has, and changes no other id.
  pub diff_with-minus :
      (hi hi' k c : ℕ) (a : IdMap T) (b : IdMap U)
      → IsIdMap hi a
      → IsIdMap hi' b
      → IsIdMap hi (diff_with a b)
        × (value_at k c (diff_with a b) ≡ minus (value_at k c a) (value_at k c b))
  unfolding diff_with value_at
  diff_with-minus hi hi' k c a b h i =
      let f = λ (client : ℕ) (ranges : List (Entry T)). left (find client b) ranges in
      let at_client = λ (j : ℕ). find-retain f a j h.0 in
      (
        (
          retain-IsMap f a h.0,
          λ j.
              subst (RunIn hi) (sym (at_client j))
                (left-minus hi hi' c (find j a) (find j b) (h.1 j) (i.1 j)).0,
        ),
        ap (value_in c) (at_client k)
            ∙ (left-minus hi hi' c (find k a) (find k b) (h.1 k) (i.1 k)).1,
      )
