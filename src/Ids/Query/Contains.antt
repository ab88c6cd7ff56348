-- ===== src/Ids/Query/Contains.antt =====
-- `contains_clock` (ids.rs) and `subset_of` (id_set.rs) against the values of the clocks.
use crdt_probe.Prelude.{
  ℕ, ◌≤◌, ◌<◌, ◌≡◌, ◌≢◌, ◌↔◌, refl, sym, ◌∙◌, Bool, true, false, Option, none, some, List, [], ◌∷◌,
  arith, ltb, leb, Bool-cases, inl, inr, leb→lt,
}
use crdt_probe.Ids.Ranges.{Entry, lookup, Run}
use crdt_probe.Ids.Ranges.Push.{lookup_below}
use crdt_probe.Ids.Query.{partition, last, contains_clock, covered_from, subset_of}

true≢false : true ≢ false
true≢false h = cc

abbrev pub is_some : {T : Type 0} → Option T → Bool
is_some none = false
is_some (some a) = true

module _ {T : Type 0} where
  abbrev found : ℕ → Option (Entry T) → Bool
  found c none = false
  found c (some x) = ltb c x.end

  partition-found :
      (xs : List (Entry T)) (lo hi c : ℕ)
      → Run lo hi xs
      → found c (last (partition (λ x. leb x.start c) xs).0) ≡ is_some (lookup xs c)
  unfolding partition last lookup
  partition-found [] lo hi c r = refl
  partition-found (x ∷ []) lo hi c r = ground arith
  partition-found (x ∷ y ∷ xs) lo hi c r =
      ground (arith, partition-found (y ∷ xs) x.end hi c r.2, lookup_below x.end hi c (y ∷ xs) r.2)

  -- A clock is contained exactly when the vector has a value for it.
  pub contains_clock-lookup :
      (xs : List (Entry T)) (hi c : ℕ) → Run 0 hi xs → contains_clock xs c ≡ is_some (lookup xs c)
  unfolding contains_clock
  contains_clock-lookup xs hi c r = ground (arith, partition-found xs 0 hi c r)

  covered_from_sound :
      (ys : List (Entry T)) (lo hi current end c : ℕ)
      → Run lo hi ys
      → covered_from current end ys ≡ true
      → current ≤ c
      → c < end
      → is_some (lookup ys c) ≡ true
  unfolding covered_from lookup
  covered_from_sound [] lo hi current end c r h p q = ground arith
  covered_from_sound (y ∷ ys) lo hi current end c r h p q = ground (
    arith,
    covered_from_sound ys y.end hi current end c r.2,
    covered_from_sound ys y.end hi y.end end c r.2,
  )

  -- A clock of the range that is missing, where the loop answers false.
  covered_from-Gap :
      (ys : List (Entry T)) (lo hi current end : ℕ)
      → Run lo hi ys
      → current < end
      → covered_from current end ys ≡ false
      → (c : ℕ) × (current ≤ c) × (c < end) × (is_some (lookup ys c) ≡ false)
  unfolding covered_from lookup
  covered_from-Gap [] lo hi current end r p h = (current, omega arith, p, refl)
  covered_from-Gap (y ∷ ys) lo hi current end r p h = elim (Bool-cases (leb y.end current)) [
    | inl skip ↦
        let q = covered_from-Gap ys y.end hi current end r.2 p (rw skip at h) in
        (q.0, q.1, q.2, ground (arith, q.1, q.2, q.3))
    | inr over ↦ elim (Bool-cases (ltb current y.start)) [
      | inl gap ↦ (current, omega arith, p, ground (arith, lookup_below y.end hi current ys r.2))
      | inr in_y ↦ elim (Bool-cases (leb end y.end)) [
        | inl done ↦ cc (rw (over, in_y, done) at h)
        | inr more ↦
            let q =
              covered_from-Gap ys y.end hi y.end end r.2 (leb→lt end y.end more)
                (rw (over, in_y, more) at h) in
            (q.0, ground (arith, q.1), q.2, ground (arith, q.1, q.3))
      ]
    ]
  ]

  subset_of_sound :
      (xs ys : List (Entry T)) (lo hi hi' c : ℕ)
      → Run lo hi xs
      → Run 0 hi' ys
      → subset_of xs ys ≡ true
      → is_some (lookup xs c) ≡ true
      → is_some (lookup ys c) ≡ true
  unfolding subset_of lookup
  subset_of_sound [] ys lo hi hi' c r s h k = cc
  subset_of_sound (x ∷ xs) ys lo hi hi' c r s h k = ground (
    arith,
    covered_from_sound ys 0 hi' x.start x.end c s,
    subset_of_sound xs ys x.end hi hi' c r.2 s,
  )

  -- A clock of the first vector that the second has not.
  abbrev Gap : List (Entry T) → List (Entry T) → Type 0
  Gap xs ys = (c : ℕ) × (is_some (lookup xs c) ≡ true) × (is_some (lookup ys c) ≡ false)

  subset_of-Gap :
      (xs ys : List (Entry T)) (lo hi hi' : ℕ)
      → Run lo hi xs
      → Run 0 hi' ys
      → subset_of xs ys ≡ false
      → Gap xs ys
  unfolding subset_of lookup
  subset_of-Gap [] ys lo hi hi' r s h = absurd (cc)
  subset_of-Gap (x ∷ xs) ys lo hi hi' r s h = elim (Bool-cases (covered_from x.start x.end ys)) [
    | inr gap ↦
        let q = covered_from-Gap ys 0 hi' x.start x.end s r.1 gap in
        (q.0, ground (arith, q.1, q.2), q.3)
    | inl all ↦
        let q = subset_of-Gap xs ys x.end hi hi' r.2 s (ground (arith, all)) in
        (q.0, ground (arith, q.1), q.2)
  ]

  -- `subset_of` answers true exactly when each clock of the first vector is one of the second.
  pub subset_of_iff :
      (xs ys : List (Entry T)) (hi hi' : ℕ)
      → Run 0 hi xs
      → Run 0 hi' ys
      → (subset_of xs ys ≡ true)
        ↔ ((c : ℕ) → is_some (lookup xs c) ≡ true → is_some (lookup ys c) ≡ true)
  subset_of_iff xs ys hi hi' r s = (
    λ h c. subset_of_sound xs ys 0 hi hi' c r s h,
    λ all. elim (Bool-cases (subset_of xs ys)) [
      | inl yes_ ↦ yes_
      | inr no_ ↦
          let q = subset_of-Gap xs ys 0 hi hi' r s no_ in
          absurd (true≢false (sym (all q.0 q.1) ∙ q.2))
    ],
  )
