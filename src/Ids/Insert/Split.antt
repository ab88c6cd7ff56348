-- ===== src/Ids/Insert/Split.antt =====
-- How `insert_with` cuts a sorted vector: in front of the range, touching it, and behind it.
use crdt_probe.Prelude.{
  ℕ, zero, suc, ◌≤◌, max, ◌≡◌, refl, ap, Bool, true, false, ◌&&◌, some, List, [], ◌∷◌, ◌++◌, arith,
  ltb, leb, if◌then◌else◌, Bool-cases, inl, inr, ltb→lt, ltb→le, leb→le, leb→lt,
}
use mathlib.Core.Option.{some-injective}
use crdt_probe.Ids.Ranges.{Entry, Merge, in_range, lookup, Run}
use crdt_probe.Ids.Ranges.Push.{Run-widen}
use crdt_probe.Ids.Query.{partition, last}
use crdt_probe.Ids.Union.Round.{first}
use crdt_probe.Ids.Insert.{give_back, coalesce_at, extend_last}

module _ {T : Type 0} where
  pub lookup-append :
      (xs ys : List (Entry T)) (c : ℕ) → lookup (xs ++ ys) c ≡ first (lookup xs c) (lookup ys c)
  unfolding lookup
  lookup-append [] ys c = refl
  lookup-append (x ∷ xs) ys c = ground (arith, lookup-append xs ys c)

  pub Run-append :
      (xs ys : List (Entry T)) (lo w hi : ℕ) → Run lo w xs → Run w hi ys → Run lo hi (xs ++ ys)
  Run-append [] ys lo w hi r s = Run-widen w hi lo hi ys s r (omega arith)
  Run-append (x ∷ xs) ys lo w hi r s = (r.0, r.1, Run-append xs ys x.end w hi r.2 s)

  -- The first entry fails the test.
  abbrev pub Fails : (Entry T → Bool) → List (Entry T) → Type 0
  Fails test [] = Unit
  Fails test (x ∷ xs) = test x ≡ false

  abbrev pub Passes : (Entry T → Bool) → List (Entry T) → Type 0
  Passes test [] = Unit
  Passes test (x ∷ xs) = (test x ≡ true) × Passes test xs

  -- A sorted vector is cut in two, with `w` between the parts.
  pub record IsCut (test : Entry T → Bool) (lo hi : ℕ) (xs front back : List (Entry T))
      : Type 0 where
    pub w : ℕ
    pub whole : xs ≡ front ++ back
    pub front_run : Run lo w front
    pub back_run : Run w hi back
    pub front_passes : Passes test front
    pub back_fails : Fails test back

  pub partition-IsCut :
      (test : Entry T → Bool) (xs : List (Entry T)) (lo hi : ℕ)
      → Run lo hi xs
      → IsCut test lo hi xs (partition test xs).0 (partition test xs).1
  unfolding partition
  partition-IsCut test [] lo hi r = record {
    w = lo;
    whole = refl;
    front_run = omega arith;
    back_run = r;
    front_passes = tt;
    back_fails = tt;
  }
  partition-IsCut test (x ∷ xs) lo hi r = elim (Bool-cases (test x)) [
    | inl yes_ ↦
        let rest = partition-IsCut test xs x.end hi r.2 in
        rw yes_ (record {
          w = rest.w;
          whole = ap (λ t. x ∷ t) rest.whole;
          front_run = (r.0, r.1, rest.front_run);
          back_run = rest.back_run;
          front_passes = (yes_, rest.front_passes);
          back_fails = rest.back_fails;
        })
    | inr no_ ↦ rw no_ (record {
      w = lo;
      whole = refl;
      front_run = omega arith;
      back_run = r;
      front_passes = tt;
      back_fails = no_;
    })
  ]

  -- The part in front ends before the range; the other part begins at the range, or with an entry
  -- that reaches it.
  abbrev pub Reaches : ℕ → List (Entry T) → Type 0
  Reaches start [] = Unit
  Reaches start (x ∷ xs) = start ≤ x.end

  pub record IsSplit (start lo hi : ℕ) (xs front back : List (Entry T)) : Type 0 where
    pub w : ℕ
    pub whole : xs ≡ front ++ back
    pub front_run : Run lo w front
    pub back_run : Run w hi back
    pub reaches : Reaches start back
    pub in_front : w ≤ start

  Fails-Reaches :
      (start lo hi : ℕ) (xs : List (Entry T))
      → Run lo hi xs
      → Fails (λ x. ltb x.start start) xs
      → Reaches start xs
  Fails-Reaches start lo hi [] r q = tt
  Fails-Reaches start lo hi (x ∷ xs) r q = omega (arith, ltb→le x.start start q, r.1)

  pub give_back-IsSplit :
      (start lo w hi : ℕ) (below above : List (Entry T))
      → lo ≤ start
      → Run lo w below
      → Run w hi above
      → Passes (λ x. ltb x.start start) below
      → Fails (λ x. ltb x.start start) above
      → IsSplit start lo hi
          (below ++ above)
          (give_back start below above).0
          (give_back start below above).1
  unfolding give_back
  give_back-IsSplit start lo w hi [] above l r s p q = record {
    w = lo;
    whole = refl;
    front_run = omega arith;
    back_run = Run-widen w hi lo hi above s r (omega arith);
    reaches = Fails-Reaches start w hi above s q;
    in_front = l;
  }
  give_back-IsSplit start lo w hi (x ∷ []) above l r s p q = elim (Bool-cases (leb start x.end)) [
    | inl reach ↦ rw reach (record {
      w = lo;
      whole = refl;
      front_run = omega arith;
      back_run = (r.0, r.1, Run-widen w hi x.end hi above s r.2 (omega arith));
      reaches = leb→le start x.end reach;
      in_front = l;
    })
    | inr apart ↦ rw apart (record {
      w = x.end;
      whole = refl;
      front_run = (r.0, r.1, omega arith);
      back_run = Run-widen w hi x.end hi above s r.2 (omega arith);
      reaches = Fails-Reaches start w hi above s q;
      in_front = omega (arith, leb→lt start x.end apart);
    })
  ]
  give_back-IsSplit start lo w hi (x ∷ y ∷ below) above l r s p q =
      let rest =
        give_back-IsSplit start x.end w hi (y ∷ below) above
          (omega (arith, ltb→lt y.start start p.1.0, r.2.0)) r.2 s p.1 q in
      record {
        w = rest.w;
        whole = ap (λ t. x ∷ t) rest.whole;
        front_run = (r.0, r.1, rest.front_run);
        back_run = rest.back_run;
        reaches = rest.reaches;
        in_front = rest.in_front;
      }

module _ {T : Type 0} ⦃m : Merge T⦄ where
  -- Joining neighbours changes neither the order nor the value of a clock.
  pub coalesce_at-lookup :
      (i : ℕ) (xs : List (Entry T)) (lo hi c : ℕ)
      → Run lo hi xs
      → Run lo hi (coalesce_at i xs) × (lookup (coalesce_at i xs) c ≡ lookup xs c)
  unfolding coalesce_at lookup
  coalesce_at-lookup zero xs lo hi c r = (r, refl)
  coalesce_at-lookup (suc i) [] lo hi c r = (r, refl)
  coalesce_at-lookup (suc zero) (x ∷ []) lo hi c r = (r, refl)
  coalesce_at-lookup (suc (suc i)) (x ∷ []) lo hi c r = (r, refl)
  coalesce_at-lookup (suc zero) (x ∷ y ∷ vec) lo hi c r =
      elim (Bool-cases (leb y.start x.end && m.eq x.value y.value)) [
        | inl join ↦ rw join (
          (
            r.0,
            omega (arith, r.1, r.2.0, r.2.1),
            Run-widen y.end hi (max x.end y.end) hi vec r.2.2 (omega (arith, r.2.0, r.2.1))
                (omega arith),
          ),
          ground (arith, m.eq_iff x.value y.value),
        )
        | inr keep ↦ rw keep (r, refl)
      ]
  coalesce_at-lookup (suc (suc i)) (x ∷ y ∷ vec) lo hi c r =
      let rest = coalesce_at-lookup (suc i) (y ∷ vec) x.end hi c r.2 in
      ((r.0, r.1, rest.0), ground (arith, rest.1))

module _ {T : Type 0} where
  pub last-Run :
      (xs : List (Entry T)) (x : Entry T) (lo hi : ℕ)
      → Run lo hi xs
      → last xs ≡ some x
      → (lo ≤ x.start) × (x.end ≤ hi) × Run lo x.end xs
  unfolding last
  last-Run [] x lo hi r l = cc
  last-Run (y ∷ []) x lo hi r l =
      let start_eq : y.start ≡ x.start = ap (λ (t : Entry T). t.start) (some-injective y x l) in
      let end_eq : y.end ≡ x.end = ap (λ (t : Entry T). t.end) (some-injective y x l) in
      (omega (arith, r.0), omega (arith, r.2), (r.0, r.1, omega arith))
  last-Run (y ∷ z ∷ xs) x lo hi r l =
      let rest = last-Run (z ∷ xs) x y.end hi r.2 l in
      (omega (arith, rest.0, r.0, r.1), rest.1, (r.0, r.1, rest.2))

  -- Where the new range begins in or at the end of the last entry, with its value, the entry grows.
  pub extend_last-lookup :
      (xs : List (Entry T)) (x : Entry T) (lo hi s e c : ℕ)
      → Run lo hi xs
      → last xs ≡ some x
      → x.start ≤ s
      → s ≤ x.end
      → Run lo (max hi e) (extend_last e xs)
        × (lookup (extend_last e xs) c ≡ (if in_range s e c then some x.value else lookup xs c))
  unfolding extend_last last lookup
  extend_last-lookup [] x lo hi s e c r l h k = cc
  extend_last-lookup (y ∷ []) x lo hi s e c r l h k =
      let same : y ≡ x = some-injective y x l in
      let start_eq : y.start ≡ x.start = ap (λ (t : Entry T). t.start) same in
      let end_eq : y.end ≡ x.end = ap (λ (t : Entry T). t.end) same in
      let value_eq : y.value ≡ x.value = ap (λ (t : Entry T). t.value) same in
      (
        (r.0, omega (arith, r.1), omega (arith, r.2)),
        rw value_eq (ground (arith, r.1, start_eq, end_eq)),
      )
  extend_last-lookup (y ∷ z ∷ xs) x lo hi s e c r l h k =
      let rest = extend_last-lookup (z ∷ xs) x y.end hi s e c r.2 l h k in
      ((r.0, r.1, rest.0), ground (arith, rest.1, last-Run (z ∷ xs) x y.end hi r.2 l))
