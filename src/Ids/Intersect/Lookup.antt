-- ===== src/Ids/Intersect/Lookup.antt =====
-- `IdRanges::intersect` (ids.rs) against the values of the clocks.
use crdt_probe.Prelude.{
  ℕ, ◌≤◌, ◌<◌, max, min, ◌≡◌, refl, sym, Option, none, some, List, [], ◌∷◌, arith, ltb, leb,
  if◌then◌else◌, Bool-cases, inl, inr, ltb→lt, ltb→le,
}
use crdt_probe.Ids.Ranges.{Entry, Merge, lookup, Run, in_range}
use crdt_probe.Ids.Ranges.Push.{lookup_below, lookup_above, Run-le, Run-widen}
use crdt_probe.Ids.Union.Round.{first, first-none}
use crdt_probe.Ids.Exclude.{skip_left}
use crdt_probe.Ids.Exclude.Lookup.{skip_left-lookup}
use crdt_probe.Ids.Intersect.{push_touching, push_meet, meet, intersect_loop, intersect}

module _ {T : Type 0} ⦃m : Merge T⦄ where
  push_touching-Run :
      (xs : List (Entry T)) (lo s e : ℕ) (v : T)
      → Run lo s xs
      → s < e
      → Run lo e (push_touching xs s e v)
  unfolding push_touching
  push_touching-Run [] lo s e v r h = (r, h, omega arith)
  push_touching-Run (x ∷ []) lo s e v r h = ground arith
  push_touching-Run (x ∷ y ∷ xs) lo s e v r h =
      (r.0, r.1, push_touching-Run (y ∷ xs) x.end s e v r.2 h)

  push_touching-lookup :
      (xs : List (Entry T)) (lo s e c : ℕ) (v : T)
      → Run lo s xs
      → s < e
      → lookup (push_touching xs s e v) c ≡ (if in_range s e c then some v else lookup xs c)
  unfolding push_touching lookup
  push_touching-lookup [] lo s e c v r h = refl
  push_touching-lookup (x ∷ []) lo s e c v r h = ground (arith, m.eq_iff x.value v)
  push_touching-lookup (x ∷ y ∷ xs) lo s e c v r h =
      ground (arith, push_touching-lookup (y ∷ xs) x.end s e c v r.2 h, Run-le x.end s (y ∷ xs) r.2)

  push_meet-Run :
      (lo hi w w' : ℕ) (v : T) (result : List (Entry T))
      → Run 0 w result
      → w ≤ lo
      → w ≤ w'
      → hi ≤ w'
      → Run 0 w' (push_meet lo hi v result)
  unfolding push_meet
  push_meet-Run lo hi w w' v result d h k l = elim (Bool-cases (ltb lo hi)) [
    | inl lt ↦ rw lt (
        Run-widen 0 hi 0 w' _
          (push_touching-Run result 0 lo hi v (Run-widen 0 w 0 lo result d (omega arith) h)
            (ltb→lt lo hi lt))
          (omega arith) l)
    | inr ge ↦ rw ge (Run-widen 0 w 0 w' result d (omega arith) k)
  ]

  push_meet-lookup :
      (lo hi w c : ℕ) (v : T) (result : List (Entry T))
      → Run 0 w result
      → w ≤ lo
      → lookup (push_meet lo hi v result) c ≡ (if in_range lo hi c then some v else lookup result c)
  unfolding push_meet
  push_meet-lookup lo hi w c v result d h =
      ground (
        arith,
        push_touching-lookup result 0 lo hi c v (Run-widen 0 w 0 lo result d (omega arith) h),
      )

  abbrev pub both : Option T → Option T → Option T
  both (some a) (some b) = some (m.merge a b)
  both a b = none

  pub both-none : (o : Option T) → both o none ≡ none
  both-none none = refl
  both-none (some a) = refl

  -- One entry is met with the other vector as it should be at the clock `c`, and what is left of the
  -- other vector still serves the entries that follow.
  record IsMet (hi c start end : ℕ) (v : T) (other result : List (Entry T))
      (out : List (Entry T) × List (Entry T)) : Type 0 where
    run : Run 0 end out.1
    reads :
        lookup out.1 c
        ≡ first
            (lookup result c)
            (if in_range start end c then both (some v) (lookup other c) else none)
    rest : Run 0 hi out.0
    later : end ≤ c → lookup out.0 c ≡ lookup other c

  meet-IsMet :
      (other : List (Entry T)) (lo hi c start end : ℕ) (v : T) (result : List (Entry T))
      → Run lo hi other
      → Run 0 (max start lo) result
      → start < end
      → lo < end
      → IsMet hi c start end v other result (meet start end v other result)
  unfolding meet lookup
  meet-IsMet [] lo hi c start end v result r d h k = record {
    run = Run-widen 0 (max start lo) 0 end result d (omega arith) (omega arith);
    reads = ground (arith, first-none (lookup result c));
    rest = omega arith;
    later = λ l. refl;
  }
  meet-IsMet (o ∷ other) lo hi c start end v result r d h k = elim (Bool-cases (leb end o.start)) [
    | inl after ↦ rw after (record {
      run = Run-widen 0 (max start lo) 0 end result d (omega arith) (omega arith);
      reads = ground (arith, first-none (lookup result c), lookup_below o.end hi c other r.2);
      rest = (omega arith, r.1, r.2);
      later = λ l. refl;
    })
    | inr over ↦
        let merged = m.merge v o.value in
        let result' = push_meet (max start o.start) (min end o.end) merged result in
        let pushed =
          push_meet-lookup (max start o.start) (min end o.end) (max start lo) c merged result d
            (omega arith) in
        elim (Bool-cases (ltb o.end end)) [
          | inl inner ↦
              let d' =
                push_meet-Run (max start o.start) (min end o.end) (max start lo) (max start o.end)
                  merged result d (omega arith) (omega arith) (omega arith) in
              let more =
                meet-IsMet other o.end hi c start end v result' r.2 d' h (ltb→lt o.end end inner) in
              rw (over, inner)
                (record {
                  run = more.run;
                  reads = ground (
                    arith,
                    more.reads,
                    pushed,
                    lookup_above 0 (max start lo) c result d,
                    lookup_below o.end hi c other r.2,
                  );
                  rest = more.rest;
                  later = ground (arith, more.later);
                })
          | inr covers ↦
              rw (over, covers)
                (record {
                  run =
                      push_meet-Run (max start o.start) (min end o.end) (max start lo) end merged
                        result d (omega arith) (omega arith) (omega arith);
                  reads = ground (
                    arith,
                    pushed,
                    lookup_above 0 (max start lo) c result d,
                    lookup_below o.end hi c other r.2,
                    ltb→le o.end end covers,
                    first-none (lookup result c),
                  );
                  rest = (omega arith, r.1, r.2);
                  later = λ l. refl;
                })
        ]
  ]

  intersect_loop-both :
      (hi hi' c w lo : ℕ) (xs other result : List (Entry T))
      → Run 0 w result
      → Run w hi xs
      → Run lo hi' other
      → Run 0 hi (intersect_loop xs other result)
        × (lookup (intersect_loop xs other result) c
            ≡ first (lookup result c) (both (lookup xs c) (lookup other c)))
  unfolding intersect_loop lookup
  intersect_loop-both hi hi' c w lo [] other result d r s =
      (Run-widen 0 w 0 hi result d (omega arith) r, rw (first-none (lookup result c)))
  intersect_loop-both hi hi' c w lo (x ∷ xs) other result d r s =
      let skipped = skip_left-lookup other lo hi' x.start c s in
      let rest = skip_left x.start other in
      let d' = Run-widen 0 w 0 (max x.start 0) result d (omega arith) (omega (arith, r.0)) in
      let step =
        meet-IsMet rest 0 hi' c x.start x.end x.value result
          (Run-widen lo hi' 0 hi' rest skipped.0 (omega arith) (omega arith)) d' r.1
          (omega (arith, r.1)) in
      let out = meet x.start x.end x.value rest result in
      let more = intersect_loop-both hi hi' c x.end 0 xs out.0 out.1 step.run r.2 step.rest in
      (
        more.0,
        ground (
          arith,
          more.1,
          skipped.1,
          step.reads,
          step.later,
          lookup_above 0 w c result d,
          lookup_below x.end hi c xs r.2,
        ),
      )

  -- The intersection of two sorted vectors is sorted, and gives a clock the merged value of both
  -- vectors where both hold it, and none elsewhere.
  pub intersect-both :
      (hi hi' c : ℕ) (a b : List (Entry T))
      → Run 0 hi a
      → Run 0 hi' b
      → Run 0 hi (intersect a b) × (lookup (intersect a b) c ≡ both (lookup a c) (lookup b c))
  unfolding intersect lookup
  intersect-both hi hi' c [] b r s = (omega arith, refl)
  intersect-both hi hi' c (x ∷ a) [] r s = (omega arith, sym (both-none _))
  intersect-both hi hi' c (x ∷ a) (o ∷ b) r s =
      intersect_loop-both hi hi' c 0 0 (x ∷ a) (o ∷ b) [] (omega arith) r s
