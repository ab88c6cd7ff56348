-- ===== src/Ids/Insert/Lookup.antt =====
-- `IdRanges::insert_with` (ids.rs) against the values of the clocks.
use mathlib.Core.Option.{some-injective}
use crdt_probe.Prelude.{
  ℕ, ◌≤◌, ◌<◌, max, min, ◌≡◌, sym, ap, subst, ◌∙◌, Option, none, some, List, [], ◌∷◌, ◌++◌, arith,
  ltb, leb, ◌==◌, if◌then◌else◌, Bool-cases, Option-cases, inl, inr, ltb→lt, ltb→le, leb→le, leb→lt,
}
use crdt_probe.Ids.Ranges.{Entry, entry, Merge, lookup, Run}
use crdt_probe.Ids.Ranges.Push.{lookup_below, lookup_above, Run-widen}
use crdt_probe.Ids.Ranges.Append.{append-Run, append-lookup}
use crdt_probe.Ids.Query.{partition, last}
use crdt_probe.Ids.Insert.Split.{
  lookup-append, Run-append, Fails, Passes, partition-IsCut, Reaches, give_back-IsSplit,
  coalesce_at-lookup, extend_last-lookup, last-Run,
}
use crdt_probe.Ids.Insert.Replace.{inserted, replace_all-inserted}
use crdt_probe.Ids.Insert.{
  give_back, replace, coalesce_at, splice, insert_general, extend_last, insert_with,
}

module _ {T : Type 0} ⦃m : Merge T⦄ where
  -- `out` is `xs` with the range inserted, at the clock `c`.
  abbrev IsInserted : ℕ → ℕ → ℕ → T → ℕ → List (Entry T) → List (Entry T) → Type 0
  IsInserted hi s e v c xs out = Run 0 hi out × (lookup out c ≡ inserted s e v c (lookup xs c))

  behind_range :
      (e u hi : ℕ) (rest : List (Entry T))
      → Run u hi rest
      → Fails (λ x. leb x.start e) rest
      → Run (max u e) (max hi e) rest
  behind_range e u hi [] r f = omega arith
  behind_range e u hi (x ∷ rest) r f = (
    omega (arith, r.0, leb→lt x.start e f),
    r.1,
    Run-widen x.end hi x.end (max hi e) rest r.2 (omega arith) (omega arith),
  )

  twice :
      (i j hi s e c : ℕ) (v : T) (xs out : List (Entry T))
      → IsInserted hi s e v c xs out
      → IsInserted hi s e v c xs (coalesce_at i (coalesce_at j out))
  twice i j hi s e c v xs out h =
      let one = coalesce_at-lookup j out 0 hi c h.0 in
      let two = coalesce_at-lookup i (coalesce_at j out) 0 hi c one.0 in
      (two.0, two.1 ∙ one.1 ∙ h.1)

  splice-IsInserted :
      (front mid rest : List (Entry T)) (w u hi s e c : ℕ) (v : T)
      → Run 0 w front
      → w ≤ s
      → s < e
      → Run w u mid
      → Run u hi rest
      → Reaches s (mid ++ rest)
      → Passes (λ x. leb x.start e) mid
      → Fails (λ x. leb x.start e) rest
      → IsInserted (max hi e) s e v c (front ++ (mid ++ rest)) (splice s e v front mid rest)
  unfolding splice
  splice-IsInserted front [] rest w u hi s e c v rf l h rm rr q p f =
      let behind_ = behind_range e u hi rest rr f in
      twice _ _ (max hi e) s e c v _ _ (
        Run-append front (entry s e v ∷ rest) 0 w (max hi e) rf (
          l,
          h,
          Run-widen (max u e) (max hi e) e (max hi e) rest behind_ (omega arith) (omega arith),
        ),
        rw (lookup-append front (entry s e v ∷ rest) c, lookup-append front rest c)
            (unfold lookup in
              ground (
                arith,
                lookup_above 0 w c front rf,
                lookup_below (max u e) (max hi e) c rest behind_,
              )),
      )
  splice-IsInserted front (x ∷ mid) rest w u hi s e c v rf l h rm rr q p f =
      let behind_ = behind_range e u hi rest rr f in
      let repl = replace_all-inserted x mid w u s e c v rm l h q p in
      let replacement = replace s e v (min x.start s) (x ∷ mid) [] in
      twice _ _ (max hi e) s e c v _ _ (
        Run-append front (replacement ++ rest) 0 w (max hi e) rf
            (Run-append replacement rest w (max u e) (max hi e) repl.0 behind_),
        rw
            (
              lookup-append front (replacement ++ rest) c,
              lookup-append front ((x ∷ mid) ++ rest) c,
              lookup-append replacement rest c,
              lookup-append (x ∷ mid) rest c,
              repl.1,
            )
            (ground (
              arith,
              lookup_above 0 w c front rf,
              lookup_below w u c (x ∷ mid) rm,
              lookup_above w u c (x ∷ mid) rm,
              lookup_below (max u e) (max hi e) c rest behind_,
            )),
      )

  insert_general-IsInserted :
      (xs : List (Entry T)) (hi s e c : ℕ) (v : T)
      → Run 0 hi xs
      → s < e
      → IsInserted (max hi e) s e v c xs (insert_general s e v xs)
  unfolding insert_general
  insert_general-IsInserted xs hi s e c v r h =
      let below = (partition (λ x. ltb x.start s) xs).0 in
      let above = (partition (λ x. ltb x.start s) xs).1 in
      let cut = partition-IsCut (λ x. ltb x.start s) xs 0 hi r in
      let split =
        give_back-IsSplit s 0 cut.w hi below above (omega arith) cut.front_run cut.back_run
          cut.front_passes cut.back_fails in
      let front = (give_back s below above).0 in
      let from_lo = (give_back s below above).1 in
      let mid = partition-IsCut (λ x. leb x.start e) from_lo split.w hi split.back_run in
      let done =
        splice-IsInserted front (partition (λ x. leb x.start e) from_lo).0
          (partition (λ x. leb x.start e) from_lo).1 split.w mid.w hi s e c v split.front_run
          split.in_front h mid.front_run mid.back_run (subst (Reaches s) mid.whole split.reaches)
          mid.front_passes mid.back_fails in
      let whole : xs
          ≡ front
            ++ ((partition (λ x. leb x.start e) from_lo).0
                ++ (partition (λ x. leb x.start e) from_lo).1) =
        cut.whole ∙ split.whole ∙ ap (λ t. front ++ t) mid.whole in
      (done.0, done.1 ∙ ap (λ t. inserted s e v c (lookup t c)) (sym whole))

  last-lookup :
      (xs : List (Entry T)) (x : Entry T) (lo hi c : ℕ)
      → Run lo hi xs
      → last xs ≡ some x
      → x.start ≤ c
      → c < x.end
      → lookup xs c ≡ some x.value
  unfolding last lookup
  last-lookup [] x lo hi c r l h k = cc
  last-lookup (y ∷ []) x lo hi c r l h k =
      let same : y ≡ x = some-injective y x l in rw same (ground arith)
  last-lookup (y ∷ z ∷ xs) x lo hi c r l h k =
      ground
        (arith, last-lookup (z ∷ xs) x y.end hi c r.2 l h k, last-Run (z ∷ xs) x y.end hi r.2 l)

  inserted-empty : (s e : ℕ) (v : T) (c : ℕ) (o : Option T) → e ≤ s → o ≡ inserted s e v c o
  inserted-empty s e v c none h = ground arith
  inserted-empty s e v c (some a) h = ground arith

  push_behind-IsInserted :
      (xs : List (Entry T)) (x : Entry T) (hi s e c : ℕ) (v : T)
      → Run 0 hi xs
      → last xs ≡ some x
      → x.end ≤ s
      → s < e
      → IsInserted (max hi e) s e v c xs (xs ++ entry s e v ∷ [])
  push_behind-IsInserted xs x hi s e c v r l h k =
      let tight = (last-Run xs x 0 hi r l).2 in
      (
        Run-widen 0 e 0 (max hi e) _ (append-Run xs 0 x.end s e v tight h k) (omega arith)
            (omega arith),
        append-lookup xs 0 x.end s e c v tight h ∙ ground (arith, lookup_above 0 x.end c xs tight),
      )

  extend_last-IsInserted :
      (xs : List (Entry T)) (x : Entry T) (hi s e c : ℕ) (v : T)
      → ((a : T) → m.merge a a ≡ a)
      → Run 0 hi xs
      → last xs ≡ some x
      → x.start ≤ s
      → s ≤ x.end
      → x.value ≡ v
      → IsInserted (max hi e) s e v c xs (extend_last e xs)
  extend_last-IsInserted xs x hi s e c v idem r l h k same =
      let out = extend_last-lookup xs x 0 hi s e c r l h k in
      let tight = (last-Run xs x 0 hi r l).2 in
      (
        out.0,
        out.1
            ∙ rw same (
                ground (
                  arith,
                  idem v,
                  same,
                  lookup_above 0 x.end c xs tight,
                  last-lookup xs x 0 hi c r l,
                )),
      )

  -- Where a value merged with itself is itself: `insert_with` keeps a sorted vector sorted; a clock of
  -- the new range gets the new value, merged into the one it may have had, and every other clock
  -- keeps its own. An empty range changes nothing.
  pub insert_with-inserted :
      (xs : List (Entry T)) (hi s e c : ℕ) (v : T)
      → ((a : T) → m.merge a a ≡ a)
      → Run 0 hi xs
      → Run 0 (max hi e) (insert_with s e v xs)
        × (lookup (insert_with s e v xs) c ≡ inserted s e v c (lookup xs c))
  unfolding insert_with
  insert_with-inserted xs hi s e c v idem r = elim (Bool-cases (leb e s)) [
    | inl empty ↦ rw empty (
      Run-widen 0 hi 0 (max hi e) xs r (omega arith) (omega arith),
      inserted-empty s e v c (lookup xs c) (leb→le e s empty),
    )
    | inr range ↦
        let h = leb→lt e s range in
        let general = insert_general-IsInserted xs hi s e c v r h in
        elim (Option-cases (last xs)) [
          | inl empty ↦ rw (range, empty) general
          | inr (x, l) ↦ rw (range, l) (by_last x l h general)
        ]
  ]
    where
      by_last :
          (x : Entry T)
          → last xs ≡ some x
          → s < e
          → IsInserted (max hi e) s e v c xs (insert_general s e v xs)
          → IsInserted (max hi e) s e v c xs (
              if leb x.start s
              then if ltb x.end s
                then xs ++ entry s e v ∷ []
                else if m.eq x.value v
                then extend_last e xs
                else if s == x.end
                then xs ++ entry s e v ∷ []
                else insert_general s e v xs
              else insert_general s e v xs)
      by_last x l h general = elim (Bool-cases (leb x.start s)) [
        | inr early ↦ rw early general
        | inl late ↦ elim (Bool-cases (ltb x.end s)) [
          | inl apart ↦
              rw (late, apart)
                (push_behind-IsInserted xs x hi s e c v r l (omega (arith, ltb→lt x.end s apart)) h)
          | inr near ↦ elim (Bool-cases (m.eq x.value v)) [
            | inl same ↦
                rw (late, near, same)
                  (extend_last-IsInserted xs x hi s e c v idem r l (leb→le x.start s late)
                    (ltb→le x.end s near) ((m.eq_iff x.value v).0 same))
            | inr differ ↦ elim (Bool-cases (s == x.end)) [
              | inl touch ↦
                  rw (late, near, differ, touch)
                    (push_behind-IsInserted xs x hi s e c v r l (ground arith) h)
              | inr over ↦ rw (late, near, differ, over) general
            ]
          ]
        ]
      ]
