-- ===== src/Ids/Insert/Replace.antt =====
-- The replacement that `insert_with` builds for the entries that touch the new range.
use crdt_probe.Prelude.{
  ℕ, ◌≤◌, ◌<◌, max, min, ◌≡◌, refl, ◌∙◌, Bool, true, false, ◌&&◌, Option, none, some, List, [], ◌∷◌,
  arith, ltb, leb, if◌then◌else◌, Bool-cases, inl, inr, ltb→lt, ltb→le, leb→le, leb→lt,
}
use crdt_probe.Ids.Ranges.{Entry, Merge, in_range, lookup, Run}
use crdt_probe.Ids.Ranges.Push.{
  lookup_below, lookup_above, Run-widen, push_coalesced-Run, push_coalesced-lookup,
}
use crdt_probe.Ids.Insert.Split.{Passes}
use crdt_probe.Ids.Insert.{push_when, replace_one, replace}

module _ {T : Type 0} ⦃m : Merge T⦄ where
  push_when-Run :
      (test : Bool) (lo w w' s e : ℕ) (v : T) (repl : List (Entry T))
      → Run lo w repl
      → w ≤ w'
      → (test ≡ true → (w ≤ s) × (s ≤ e) × (e ≤ w'))
      → Run lo w' (push_when test s e v repl)
  unfolding push_when
  push_when-Run true lo w w' s e v repl r h k =
      let (p, q, l) = k refl in
      Run-widen lo e lo w' _
        (push_coalesced-Run repl lo s e v (Run-widen lo w lo s repl r (omega arith) p) q)
        (omega arith) l
  push_when-Run false lo w w' s e v repl r h k = Run-widen lo w lo w' repl r (omega arith) h

  push_when-lookup :
      (test : Bool) (lo w s e c : ℕ) (v : T) (repl : List (Entry T))
      → Run lo w repl
      → (test ≡ true → w ≤ s)
      → lookup (push_when test s e v repl) c
        ≡ (if test && in_range s e c then some v else lookup repl c)
  unfolding push_when
  push_when-lookup true lo w s e c v repl r h =
      push_coalesced-lookup repl lo s e c v (Run-widen lo w lo s repl r (omega arith) (h refl))
  push_when-lookup false lo w s e c v repl r h = refl

  -- The value of a clock that may have one already, where the range gives it `v`.
  abbrev pub inserted : ℕ → ℕ → T → ℕ → Option T → Option T
  inserted s e v c none = if in_range s e c then some v else none
  inserted s e v c (some old) = if in_range s e c then some (m.merge old v) else some old

  abbrev held : Entry T → ℕ → Option T
  held x c = if in_range x.start x.end c then some x.value else none

  -- The four pieces of a round, tested last to first, against the clocks they stand for.
  pieces :
      (cur s e a b c : ℕ) (u v : T) (old : Option T)
      → s < e
      → cur ≤ a
      → a < b
      → a ≤ e
      → s ≤ b
      → (leb s cur ≡ false → cur ≡ a)
      → (if ltb e b && in_range e b c
          then some u
          else if ltb (max a s) (min b e) && in_range (max a s) (min b e) c
          then some (m.merge u v)
          else if ltb a s && in_range a s c
          then some u
          else if (leb s cur && ltb cur a) && in_range cur (min a e) c
          then some v
          else old)
        ≡ (if in_range cur b c
            then inserted s e v c (if in_range a b c then some u else none)
            else old)
  pieces cur s e a b c u v old h k l n o d = elim (Bool-cases (ltb c b)) [
    | inr behind_ ↦ let p = ltb→le c b behind_ in ground arith
    | inl in_b ↦ elim (Bool-cases (ltb c a)) [
      | inl gap ↦
          let p = ltb→lt c a gap in
          elim (Bool-cases (leb s cur)) [
            | inl late ↦ ground arith
            | inr early ↦ let q = d early in ground arith
          ]
      | inr in_a ↦
          let p = ltb→le c a in_a in
          let q = ltb→lt c b in_b in
          elim (Bool-cases (ltb c s)) [ inl prefix ↦ ground arith | inr in_s ↦ ground arith ]
    ]
  ]

  replace_one-inserted :
      (lo cur s e c : ℕ) (v : T) (x : Entry T) (repl : List (Entry T))
      → Run lo cur repl
      → s < e
      → cur ≤ x.start
      → x.start < x.end
      → x.start ≤ e
      → s ≤ x.end
      → (leb s cur ≡ false → cur ≡ x.start)
      → Run lo x.end (replace_one s e v cur x repl)
        × (lookup (replace_one s e v cur x repl) c
            ≡ (if in_range cur x.end c then inserted s e v c (held x c) else lookup repl c))
  unfolding replace_one
  replace_one-inserted lo cur s e c v x repl r h k l n o d =
      let os = max x.start s in
      let oe = min x.end e in
      let g = leb s cur && ltb cur x.start in
      let gap = push_when g cur (min x.start e) v repl in
      let prefix = push_when (ltb x.start s) x.start s x.value gap in
      let overlap = push_when (ltb os oe) os oe (m.merge x.value v) prefix in
      let r1 =
        push_when-Run g lo cur x.start cur (min x.start e) v repl r k
          (λ t. (omega arith, omega arith, omega arith)) in
      let r2 =
        push_when-Run (ltb x.start s) lo x.start os x.start s x.value gap r1 (omega arith)
          (λ t. (omega arith, omega (arith, ltb→lt x.start s t), omega arith)) in
      let r3 =
        push_when-Run (ltb os oe) lo os (max os oe) os oe _ prefix r2 (omega arith)
          (λ t. (omega arith, omega (arith, ltb→lt os oe t), omega arith)) in
      let r4 =
        push_when-Run (ltb e x.end) lo (max os oe) x.end e x.end x.value overlap r3 (omega arith)
          (λ t. (omega arith, omega (arith, ltb→lt e x.end t), omega arith)) in
      let l1 = push_when-lookup g lo cur cur (min x.start e) c v repl r (λ t. omega arith) in
      let l2 =
        push_when-lookup (ltb x.start s) lo x.start x.start s c x.value gap r1 (λ t. omega arith) in
      let l3 =
        push_when-lookup (ltb os oe) lo os os oe c (m.merge x.value v) prefix r2
          (λ t. omega arith) in
      let l4 =
        push_when-lookup (ltb e x.end) lo (max os oe) e x.end c x.value overlap r3
          (λ t. omega arith) in
      (
        r4,
        l4 ∙ rw (l3, l2, l1) (pieces cur s e x.start x.end c x.value v (lookup repl c) h k l n o d),
      )

  replace-inserted :
      (xs repl : List (Entry T)) (lo cur hi s e c : ℕ) (v : T)
      → Run lo cur repl
      → Run cur hi xs
      → s < e
      → s ≤ cur
      → Passes (λ x. leb x.start e) xs
      → Run lo (max hi e) (replace s e v cur xs repl)
        × (lookup (replace s e v cur xs repl) c
            ≡ (if leb cur c then inserted s e v c (lookup xs c) else lookup repl c))
  unfolding replace lookup
  replace-inserted [] repl lo cur hi s e c v r q h k p = (
    push_when-Run (ltb cur e) lo cur (max hi e) cur e v repl r (omega arith)
        (λ t. (omega arith, omega (arith, ltb→lt cur e t), omega arith)),
    push_when-lookup (ltb cur e) lo cur cur e c v repl r (λ t. omega arith)
        ∙ ground (arith, lookup_above lo cur c repl r),
  )
  replace-inserted (x ∷ xs) repl lo cur hi s e c v r q h k p =
      let step =
        replace_one-inserted lo cur s e c v x repl r h q.0 q.1 (leb→le x.start e p.0)
          (omega (arith, q.0, q.1)) (λ t. ground arith) in
      let rest =
        replace-inserted xs (replace_one s e v cur x repl) lo x.end hi s e c v step.0 q.2 h
          (omega (arith, q.0, q.1)) p.1 in
      (rest.0, rest.1 ∙ rw step.1 (ground (arith, q.0, q.1, lookup_below x.end hi c xs q.2)))

  -- From the entry that is cut first on.
  pub replace_all-inserted :
      (x : Entry T) (xs : List (Entry T)) (lo w s e c : ℕ) (v : T)
      → Run lo w (x ∷ xs)
      → lo ≤ s
      → s < e
      → s ≤ x.end
      → Passes (λ x. leb x.start e) (x ∷ xs)
      → Run lo (max w e) (replace s e v (min x.start s) (x ∷ xs) [])
        × (lookup (replace s e v (min x.start s) (x ∷ xs) []) c
            ≡ inserted s e v c (lookup (x ∷ xs) c))
  unfolding replace lookup
  replace_all-inserted x xs lo w s e c v q l h k p =
      let cur = min x.start s in
      let step =
        replace_one-inserted lo cur s e c v x [] (omega (arith, q.0)) h (omega arith) q.1
          (leb→le x.start e p.0) k (λ t. omega (arith, leb→lt s cur t)) in
      let rest =
        replace-inserted xs (replace_one s e v cur x []) lo x.end w s e c v step.0 q.2 h k p.1 in
      (rest.0, rest.1 ∙ rw step.1 (ground (arith, q.0, q.1, lookup_below x.end w c xs q.2)))
