-- ===== src/Ids/Union/Lookup.antt =====
-- `IdRanges::merge` (ids.rs) against the values of the clocks.
use crdt_probe.Prelude.{
  ℕ, min, ◌≡◌, refl, sym, ap, ◌∙◌, false, List, [], ◌∷◌, arith, ltb, leb, Bool-cases, inl, inr,
  ltb→lt, ltb→le, leb→le, leb→lt,
}
use crdt_probe.Ids.Ranges.{Entry, entry, Merge, lookup, Run, push_coalesced}
use crdt_probe.Ids.Ranges.Push.{Run-widen}
use crdt_probe.Ids.Union.{next_start, merge_loop, merge}
use crdt_probe.Ids.Union.Round.{
  trim, trim-next_start, first, first-none, union, IsState, Finishes, push_all-Finishes, only_a,
  only_b, pushed, a_ends, b_ends, both_end,
}
use crdt_probe.Ids.Union.State.{
  union-none, only_a-IsState, only_b-IsState, a_ends-IsState, b_ends-IsState, both_end-IsState,
}

both_eq : (e f : ℕ) → ltb e f ≡ false → ltb f e ≡ false → e ≡ f
both_eq e f h k = omega (arith, ltb→le e f h, ltb→le f e k)

module _ {T : Type 0} ⦃m : Merge T⦄ where
  merge_loop-Finishes :
      (hi c w : ℕ) (a : List (Entry T)) (a_cur : ℕ) (b : List (Entry T)) (b_cur : ℕ)
      (result : List (Entry T))
      → IsState w hi (trim a_cur a) (trim b_cur b) result
      → Finishes hi c (trim a_cur a) (trim b_cur b) result (merge_loop a a_cur b b_cur result)
  unfolding merge_loop lookup
  merge_loop-Finishes hi c w [] a_cur [] b_cur result st = record {
    run = Run-widen 0 w 0 hi result st.done (omega arith) st.left;
    reads = sym (first-none (lookup result c));
  }
  merge_loop-Finishes hi c w (x ∷ a) a_cur [] b_cur result st =
      let out = push_all-Finishes hi c w (entry a_cur x.end x.value ∷ a) result st.done st.left in
      record { run = out.0; reads = out.1 ∙ ap (first (lookup result c)) (sym (union-none _)) }
  merge_loop-Finishes hi c w [] a_cur (y ∷ b) b_cur result st =
      let out = push_all-Finishes hi c w (entry b_cur y.end y.value ∷ b) result st.done st.right in
      record { run = out.0; reads = out.1 }
  merge_loop-Finishes hi c w (x ∷ a) s (y ∷ b) t result st =
      let e = x.end in
      let f = y.end in
      let u = x.value in
      let v = y.value in
      let a' = next_start a in
      let b' = next_start b in
      let n = min e f in
      let both = pushed s e u t f v result in
      elim (Bool-cases (leb e t)) [
        | inl before ↦
            let le = leb→le e t before in
            let next = only_a-IsState w hi s e t f u v a b result st le in
            let rest =
              merge_loop-Finishes hi c e a a' (y ∷ b) t (push_coalesced result s e u) next in
            rw before (
              only_a hi c w s e u a (entry t f v ∷ b) result _ st next.right
                (rw (trim-next_start a) at rest))
        | inr over ↦ elim (Bool-cases (leb f s)) [
          | inl before ↦
              let le = leb→le f s before in
              let next = only_b-IsState w hi s e t f u v a b result st le in
              let rest =
                merge_loop-Finishes hi c f (x ∷ a) s b b' (push_coalesced result t f v) next in
              rw (over, before)
                (only_b hi c w t f v (entry s e u ∷ a) b result _ st next.left
                  (rw (trim-next_start b) at rest))
          | inr over' ↦
              let h = leb→lt e t over in
              let k = leb→lt f s over' in
              elim (Bool-cases (ltb e f)) [
                | inl lt ↦
                    let l = ltb→lt e f lt in
                    let next = a_ends-IsState w hi s e t f u v a b result st h k l in
                    let rest = merge_loop-Finishes hi c n a a' (y ∷ b) n both next in
                    rw (over, over', lt)
                      (a_ends hi c w s e t f u v a b result _ st h k l
                        (rw (trim-next_start a) at rest))
                | inr ge ↦ elim (Bool-cases (ltb f e)) [
                  | inl lt ↦
                      let l = ltb→lt f e lt in
                      let next = b_ends-IsState w hi s e t f u v a b result st h k l in
                      let rest = merge_loop-Finishes hi c n (x ∷ a) n b b' both next in
                      rw (over, over', ge, lt)
                        (b_ends hi c w s e t f u v a b result _ st h k l
                          (rw (trim-next_start b) at rest))
                  | inr ge' ↦
                      let l = both_eq e f ge ge' in
                      let next = both_end-IsState w hi s e t f u v a b result st h k l in
                      let rest = merge_loop-Finishes hi c n a a' b b' both next in
                      rw (over, over', ge, ge')
                        (both_end hi c w s e t f u v a b result _ st h k l
                          (rw (trim-next_start a, trim-next_start b) at rest))
                ]
              ]
        ]
      ]

  Run-merge_cons :
      (hi c : ℕ) (x y : Entry T) (a b : List (Entry T))
      → Run 0 hi (x ∷ a)
      → Run 0 hi (y ∷ b)
      → Finishes hi c (x ∷ a) (y ∷ b) [] (merge_loop (x ∷ a) x.start (y ∷ b) y.start [])
  Run-merge_cons hi c x y a b r s =
      merge_loop-Finishes hi c 0 (x ∷ a) x.start (y ∷ b) y.start []
        (record { done = omega arith; left = r; right = s })

  -- The union of two sorted vectors below `hi` is sorted, and gives each clock the merged value of
  -- both vectors, the value of the one that has it, or none.
  pub merge-union :
      (hi c : ℕ) (a b : List (Entry T))
      → Run 0 hi a
      → Run 0 hi b
      → Run 0 hi (merge a b) × (lookup (merge a b) c ≡ union (lookup a c) (lookup b c))
  unfolding merge lookup
  merge-union hi c [] [] r s = (r, refl)
  merge-union hi c (x ∷ a) [] r s = (r, sym (union-none _))
  merge-union hi c [] (y ∷ b) r s = (s, refl)
  merge-union hi c (x ∷ a) (y ∷ b) r s = let f = Run-merge_cons hi c x y a b r s in (f.run, f.reads)
