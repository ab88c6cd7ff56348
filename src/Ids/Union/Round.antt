-- ===== src/Ids/Union/Round.antt =====
-- One round of the loop of `merge`, at one clock: what the round pushes, and how it carries on what
-- the rest of the loop does.
use crdt_probe.Prelude.{
  ℕ, ◌≤◌, ◌<◌, max, min, ◌≡◌, refl, sym, Option, none, some, List, [], ◌∷◌, arith, ltb,
  if◌then◌else◌, Bool-cases, inl, inr, ltb→lt, ◌∙◌,
}
use crdt_probe.Ids.Ranges.{Entry, entry, Merge, in_range, lookup, Run, push_coalesced}
use crdt_probe.Ids.Ranges.Push.{
  lookup_below, lookup_above, Run-widen, push_coalesced-Run, push_coalesced-lookup,
}
use crdt_probe.Ids.Union.{next_start, push_all, push_prefix}

-- What is left of a vector whose first entry has been consumed up to `cur`.
abbrev pub trim : {T : Type 0} → ℕ → List (Entry T) → List (Entry T)
trim cur [] = []
trim cur (x ∷ xs) = entry cur x.end x.value ∷ xs

pub trim-next_start : {T : Type 0} (xs : List (Entry T)) → trim (next_start xs) xs ≡ xs
trim-next_start [] = refl
trim-next_start (x ∷ xs) = refl

abbrev pub first : {T : Type 0} → Option T → Option T → Option T
first none b = b
first (some a) b = some a

pub first-none : {T : Type 0} (o : Option T) → first o none ≡ o
first-none none = refl
first-none (some a) = refl

module _ {T : Type 0} ⦃m : Merge T⦄ where
  -- The value of a clock that two vectors hold, or one of them.
  abbrev pub union : Option T → Option T → Option T
  union none b = b
  union (some a) none = some a
  union (some a) (some b) = some (m.merge a b)

  -- A vector `result` that ends at or before `w`, where what is left of `a` and `b` begins.
  pub record IsState (w hi : ℕ) (a b result : List (Entry T)) : Type 0 where
    pub done : Run 0 w result
    pub left : Run w hi a
    pub right : Run w hi b

  -- The loop has produced `out` as it should at the clock `c`.
  pub record Finishes (hi c : ℕ) (a b result out : List (Entry T)) : Type 0 where
    pub run : Run 0 hi out
    pub reads : lookup out c ≡ first (lookup result c) (union (lookup a c) (lookup b c))

  pub push_all-Finishes :
      (hi c w : ℕ) (xs result : List (Entry T))
      → Run 0 w result
      → Run w hi xs
      → Run 0 hi (push_all xs result)
        × (lookup (push_all xs result) c ≡ first (lookup result c) (lookup xs c))
  unfolding push_all lookup
  push_all-Finishes hi c w [] result d r =
      (Run-widen 0 w 0 hi result d (omega arith) r, sym (first-none (lookup result c)))
  push_all-Finishes hi c w (x ∷ xs) result d r =
      let result' = push_coalesced result x.start x.end x.value in
      let d' = Run-widen 0 w 0 x.start result d (omega arith) r.0 in
      let rest =
        push_all-Finishes hi c x.end xs result'
          (push_coalesced-Run result 0 x.start x.end x.value d' (omega arith)) r.2 in
      (
        rest.0,
        ground (
          arith,
          rest.1,
          push_coalesced-lookup result 0 x.start x.end c x.value d',
          lookup_above 0 w c result d,
          lookup_below x.end hi c xs r.2,
        ),
      )

  -- The entry that ends first lies in front of the other side.
  pub only_a :
      (hi c w s e : ℕ) (v : T) (a b result out : List (Entry T))
      → IsState w hi (entry s e v ∷ a) b result
      → Run e hi b
      → Finishes hi c a b (push_coalesced result s e v) out
      → Finishes hi c (entry s e v ∷ a) b result out
  unfolding lookup
  only_a hi c w s e v a b result out st rb f = record {
    run = f.run;
    reads = ground (
      arith,
      f.reads,
      push_coalesced-lookup result 0 s e c v
          (Run-widen 0 w 0 s result st.done (omega arith) st.left.0),
      lookup_above 0 w c result st.done,
      lookup_below e hi c b rb,
      lookup_below e hi c a st.left.2,
    );
  }

  pub only_b :
      (hi c w s e : ℕ) (v : T) (a b result out : List (Entry T))
      → IsState w hi a (entry s e v ∷ b) result
      → Run e hi a
      → Finishes hi c a b (push_coalesced result s e v) out
      → Finishes hi c a (entry s e v ∷ b) result out
  unfolding lookup
  only_b hi c w s e v a b result out st ra f = record {
    run = f.run;
    reads = ground (
      arith,
      f.reads,
      push_coalesced-lookup result 0 s e c v
          (Run-widen 0 w 0 s result st.done (omega arith) st.right.0),
      lookup_above 0 w c result st.done,
      lookup_below e hi c a ra,
      lookup_below e hi c b st.right.2,
      first-none (lookup a c),
    );
  }

  push_prefix-Run :
      (w s t : ℕ) (u v : T) (result : List (Entry T))
      → Run 0 w result
      → w ≤ s
      → w ≤ t
      → Run 0 (max s t) (push_prefix s u t v result)
  unfolding push_prefix
  push_prefix-Run w s t u v result d hs ht = elim (Bool-cases (ltb s t)) [
    | inl lt ↦ rw lt (
        Run-widen 0 t 0 (max s t) _
          (push_coalesced-Run result 0 s t u (Run-widen 0 w 0 s result d (omega arith) hs)
            (omega (arith, ltb→lt s t lt)))
          (omega arith) (omega arith))
    | inr ge ↦ elim (Bool-cases (ltb t s)) [
      | inl lt ↦
          rw (ge, lt)
            (Run-widen 0 s 0 (max s t) _
              (push_coalesced-Run result 0 t s v (Run-widen 0 w 0 t result d (omega arith) ht)
                (omega (arith, ltb→lt t s lt)))
              (omega arith) (omega arith))
      | inr ge' ↦ rw (ge, ge') (Run-widen 0 w 0 (max s t) result d (omega arith) (omega arith))
    ]
  ]

  push_prefix-lookup :
      (w s t c : ℕ) (u v : T) (result : List (Entry T))
      → Run 0 w result
      → w ≤ s
      → w ≤ t
      → lookup (push_prefix s u t v result) c
        ≡ (if in_range s t c then some u else if in_range t s c then some v else lookup result c)
  unfolding push_prefix
  push_prefix-lookup w s t c u v result d hs ht = ground (
    arith,
    push_coalesced-lookup result 0 s t c u (Run-widen 0 w 0 s result d (omega arith) hs),
    push_coalesced-lookup result 0 t s c v (Run-widen 0 w 0 t result d (omega arith) ht),
  )

  -- What one round has pushed where the first entries overlap.
  abbrev pub pushed : ℕ → ℕ → T → ℕ → ℕ → T → List (Entry T) → List (Entry T)
  pushed s e u t f v result =
      push_coalesced (push_prefix s u t v result) (max s t) (min e f) (m.merge u v)

  pub pushed-Run :
      (w s e t f : ℕ) (u v : T) (result : List (Entry T))
      → Run 0 w result
      → w ≤ s
      → w ≤ t
      → max s t ≤ min e f
      → Run 0 (min e f) (pushed s e u t f v result)
  pushed-Run w s e t f u v result d hs ht h =
      push_coalesced-Run _ 0 (max s t) (min e f) _ (push_prefix-Run w s t u v result d hs ht) h

  pushed-lookup :
      (w s e t f c : ℕ) (u v : T) (result : List (Entry T))
      → Run 0 w result
      → w ≤ s
      → w ≤ t
      → lookup (pushed s e u t f v result) c ≡ (
          if in_range (max s t) (min e f) c
          then some (m.merge u v)
          else if in_range s t c
          then some u
          else if in_range t s c
          then some v
          else lookup result c)
  pushed-lookup w s e t f c u v result d hs ht =
      push_coalesced-lookup _ 0 (max s t) (min e f) c (m.merge u v)
        (push_prefix-Run w s t u v result d hs ht)
      ∙ rw (push_prefix-lookup w s t c u v result d hs ht)

  pub a_ends :
      (hi c w s e t f : ℕ) (u v : T) (a b result out : List (Entry T))
      → IsState w hi (entry s e u ∷ a) (entry t f v ∷ b) result
      → t < e
      → s < f
      → e < f
      → Finishes hi c a (entry (min e f) f v ∷ b) (pushed s e u t f v result) out
      → Finishes hi c (entry s e u ∷ a) (entry t f v ∷ b) result out
  unfolding lookup
  a_ends hi c w s e t f u v a b result out st h k l g = record {
    run = g.run;
    reads = ground (
      arith,
      g.reads,
      pushed-lookup w s e t f c u v result st.done st.left.0 st.right.0,
      lookup_above 0 w c result st.done,
      lookup_below e hi c a st.left.2,
      lookup_below f hi c b st.right.2,
    );
  }

  pub b_ends :
      (hi c w s e t f : ℕ) (u v : T) (a b result out : List (Entry T))
      → IsState w hi (entry s e u ∷ a) (entry t f v ∷ b) result
      → t < e
      → s < f
      → f < e
      → Finishes hi c (entry (min e f) e u ∷ a) b (pushed s e u t f v result) out
      → Finishes hi c (entry s e u ∷ a) (entry t f v ∷ b) result out
  unfolding lookup
  b_ends hi c w s e t f u v a b result out st h k l g = record {
    run = g.run;
    reads = ground (
      arith,
      g.reads,
      pushed-lookup w s e t f c u v result st.done st.left.0 st.right.0,
      lookup_above 0 w c result st.done,
      lookup_below e hi c a st.left.2,
      lookup_below f hi c b st.right.2,
    );
  }

  pub both_end :
      (hi c w s e t f : ℕ) (u v : T) (a b result out : List (Entry T))
      → IsState w hi (entry s e u ∷ a) (entry t f v ∷ b) result
      → t < e
      → s < f
      → e ≡ f
      → Finishes hi c a b (pushed s e u t f v result) out
      → Finishes hi c (entry s e u ∷ a) (entry t f v ∷ b) result out
  unfolding lookup
  both_end hi c w s e t f u v a b result out st h k l g = record {
    run = g.run;
    reads = ground (
      arith,
      g.reads,
      pushed-lookup w s e t f c u v result st.done st.left.0 st.right.0,
      lookup_above 0 w c result st.done,
      lookup_below e hi c a st.left.2,
      lookup_below f hi c b st.right.2,
    );
  }
