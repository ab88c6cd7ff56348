-- ===== src/Ids/Exclude/Lookup.antt =====
-- `IdRanges::exclude` (ids.rs) against the values of the clocks.
use crdt_probe.Prelude.{
  ℕ, ◌≤◌, ◌<◌, max, ◌≡◌, refl, sym, Option, none, some, List, [], ◌∷◌, arith, ltb, leb,
  if◌then◌else◌, Bool-cases, inl, inr, ltb→lt, ltb→le, leb→lt, le→ltb, lt→leb,
}
use crdt_probe.Ids.Ranges.{Entry, lookup, Run, in_range}
use crdt_probe.Ids.Ranges.Push.{lookup_below, lookup_above, Run-widen}
use crdt_probe.Ids.Ranges.Append.{append-Run, append-lookup}
use crdt_probe.Ids.Union.Round.{first, first-none}
use crdt_probe.Ids.Exclude.{skip_left, cut, push_rest, exclude_loop, exclude}

pub skip_left-lookup :
    {U : Type 0} (other : List (Entry U)) (lo hi start c : ℕ)
    → Run lo hi other
    → Run lo hi (skip_left start other)
      × (start ≤ c → lookup (skip_left start other) c ≡ lookup other c)
unfolding skip_left lookup
skip_left-lookup [] lo hi start c r = (r, λ h. refl)
skip_left-lookup (o ∷ other) lo hi start c r = elim (Bool-cases (leb o.end start)) [
  | inl left ↦
      let rest = skip_left-lookup other o.end hi start c r.2 in
      rw left (
        Run-widen o.end hi lo hi (skip_left start other) rest.0 (omega arith) (omega arith),
        ground (arith, rest.1),
      )
  | inr over ↦ rw over (r, λ h. refl)
]

module _ {T : Type 0} where
  push_rest-Run :
      (start end w : ℕ) (v : T) (result : List (Entry T))
      → Run 0 start result
      → start ≤ w
      → end ≤ w
      → Run 0 w (push_rest start end v result)
  unfolding push_rest
  push_rest-Run start end w v result d h k = elim (Bool-cases (ltb start end)) [
    | inl lt ↦ rw lt (
        Run-widen 0 end 0 w _
          (append-Run result 0 start start end v d (omega arith) (ltb→lt start end lt))
          (omega arith) k)
    | inr ge ↦ rw ge (Run-widen 0 start 0 w result d (omega arith) h)
  ]

  push_rest-none :
      (start end : ℕ) (v : T) (result : List (Entry T))
      → end ≤ start
      → push_rest start end v result ≡ result
  unfolding push_rest
  push_rest-none start end v result h = rw (le→ltb start end h)

  push_rest-lookup :
      (start end c : ℕ) (v : T) (result : List (Entry T))
      → Run 0 start result
      → lookup (push_rest start end v result) c
        ≡ (if in_range start end c then some v else lookup result c)
  unfolding push_rest
  push_rest-lookup start end c v result d =
      ground (arith, append-lookup result 0 start start end c v d)

module _ {T U : Type 0} where
  abbrev pub minus : Option T → Option U → Option T
  minus a none = a
  minus a (some _) = none

  pub minus-none : (o : Option U) → minus none o ≡ none
  minus-none none = refl
  minus-none (some o) = refl

  -- The cut of an entry, with what is left of it pushed, is right at the clock `c`; what is left of
  -- the other vector still serves the entries that follow.
  record IsCut (hi c start end : ℕ) (v : T) (other : List (Entry U)) (result : List (Entry T))
      (out : ℕ × List (Entry U) × List (Entry T)) : Type 0 where
    run : Run 0 end (push_rest out.0 end v out.2)
    reads :
        lookup (push_rest out.0 end v out.2) c
        ≡ (if in_range start end c then minus (some v) (lookup other c) else lookup result c)
    rest : Run 0 hi out.1
    later : end ≤ c → lookup out.1 c ≡ lookup other c

  cut-IsCut :
      (other : List (Entry U)) (lo hi c start end : ℕ) (v : T) (result : List (Entry T))
      → Run lo hi other
      → Run 0 start result
      → start < end
      → IsCut hi c start end v other result (cut start end v other result)
  unfolding cut lookup
  cut-IsCut [] lo hi c start end v result r d h = record {
    run = push_rest-Run start end end v result d (omega arith) (omega arith);
    reads = push_rest-lookup start end c v result d;
    rest = omega arith;
    later = λ k. refl;
  }
  cut-IsCut (o ∷ other) lo hi c start end v result r d h = elim (Bool-cases (leb end o.start)) [
    | inl after ↦
        rw (lt→leb end start h, after)
          (record {
            run = push_rest-Run start end end v result d (omega arith) (omega arith);
            reads =
                ground (
                  arith,
                  push_rest-lookup start end c v result d,
                  lookup_below o.end hi c other r.2,
                );
            rest = (omega arith, r.1, r.2);
            later = λ k. refl;
          })
    | inr over ↦
        let start' = max start o.end in
        let result' = push_rest start o.start v result in
        let d' = push_rest-Run start o.start start' v result d (omega arith) (omega arith) in
        elim (Bool-cases (ltb o.end end)) [
          | inl inner ↦
              let more =
                cut-IsCut other o.end hi c start' end v result' r.2 d'
                  (omega (arith, ltb→lt o.end end inner)) in
              rw (lt→leb end start h, over, inner)
                (record {
                  run = more.run;
                  reads = ground (
                    arith,
                    more.reads,
                    push_rest-lookup start o.start c v result d,
                    lookup_above 0 start c result d,
                    lookup_below o.end hi c other r.2,
                  );
                  rest = more.rest;
                  later = ground (arith, more.later);
                })
          | inr covers ↦
              let done =
                push_rest-none start' end v result' (omega (arith, ltb→le o.end end covers)) in
              rw (lt→leb end start h, over, covers)
                (record {
                  run = rw done (
                      push_rest-Run start o.start end v result d (omega arith)
                        (omega (arith, leb→lt end o.start over)));
                  reads = rw done (
                      ground (
                        arith,
                        push_rest-lookup start o.start c v result d,
                        lookup_above 0 start c result d,
                        lookup_below o.end hi c other r.2,
                      ));
                  rest = (omega arith, r.1, r.2);
                  later = λ k. refl;
                })
        ]
  ]

  exclude_loop-minus :
      (hi hi' c w lo : ℕ) (xs : List (Entry T)) (other : List (Entry U)) (result : List (Entry T))
      → Run 0 w result
      → Run w hi xs
      → Run lo hi' other
      → Run 0 hi (exclude_loop xs other result)
        × (lookup (exclude_loop xs other result) c
            ≡ first (lookup result c) (minus (lookup xs c) (lookup other c)))
  unfolding exclude_loop lookup
  exclude_loop-minus hi hi' c w lo [] other result d r s = (
    Run-widen 0 w 0 hi result d (omega arith) r,
    rw (minus-none (lookup other c), first-none (lookup result c)),
  )
  exclude_loop-minus hi hi' c w lo (x ∷ xs) other result d r s =
      let skipped = skip_left-lookup other lo hi' x.start c s in
      let d' = Run-widen 0 w 0 x.start result d (omega arith) r.0 in
      let step =
        cut-IsCut (skip_left x.start other) lo hi' c x.start x.end x.value result skipped.0 d'
          r.1 in
      let out = cut x.start x.end x.value (skip_left x.start other) result in
      let more =
        exclude_loop-minus hi hi' c x.end 0 xs out.1 (push_rest out.0 x.end x.value out.2) step.run
          r.2 step.rest in
      (
        more.0,
        ground (
          arith,
          more.1,
          skipped.1,
          step.reads,
          step.later,
          lookup_above 0 w c result d,
          lookup_below x.end hi c xs r.2,
        ),
      )

  -- `exclude` keeps a sorted vector sorted; a clock has its value exactly if the other vector does not
  -- hold the clock.
  pub exclude-lookup :
      (hi hi' c : ℕ) (a : List (Entry T)) (b : List (Entry U))
      → Run 0 hi a
      → Run 0 hi' b
      → Run 0 hi (exclude a b) × (lookup (exclude a b) c ≡ minus (lookup a c) (lookup b c))
  unfolding exclude lookup
  exclude-lookup hi hi' c [] b r s = (r, sym (minus-none (lookup b c)))
  exclude-lookup hi hi' c (x ∷ a) [] r s = (r, refl)
  exclude-lookup hi hi' c (x ∷ a) (o ∷ b) r s =
      exclude_loop-minus hi hi' c 0 0 (x ∷ a) (o ∷ b) [] (omega arith) r s
