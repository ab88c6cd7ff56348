-- ===== src/Ids/Union/State.antt =====
-- The state that each round of the loop of `merge` leaves for the next one.
use crdt_probe.Prelude.{ℕ, ◌≤◌, ◌<◌, max, min, ◌≡◌, refl, Option, none, some, List, ◌∷◌, arith}
use crdt_probe.Ids.Ranges.{Entry, entry, Merge, Run, push_coalesced}
use crdt_probe.Ids.Ranges.Push.{Run-widen, push_coalesced-Run}
use crdt_probe.Ids.Union.{next_start}
use crdt_probe.Ids.Union.Round.{trim, trim-next_start, union, IsState, pushed, pushed-Run}

overlap : (s e t f : ℕ) → s < e → t < f → t < e → s < f → max s t ≤ min e f
overlap s e t f p q h k = omega arith

module _ {T : Type 0} ⦃m : Merge T⦄ where
  pub union-none : (o : Option T) → union o none ≡ o
  union-none none = refl
  union-none (some a) = refl

  after_push :
      (w s e : ℕ) (v : T) (result : List (Entry T))
      → Run 0 w result
      → w ≤ s
      → s ≤ e
      → Run 0 e (push_coalesced result s e v)
  after_push w s e v result d h k =
      push_coalesced-Run result 0 s e v (Run-widen 0 w 0 s result d (omega arith) h) k

  Run-next :
      (e n hi : ℕ) (xs : List (Entry T)) → Run e hi xs → n ≤ e → Run n hi (trim (next_start xs) xs)
  Run-next e n hi xs r h = rw (trim-next_start xs) (Run-widen e hi n hi xs r h (omega arith))

module _ {T : Type 0} ⦃m : Merge T⦄ (w hi s e t f : ℕ) (u v : T) (a b result : List (Entry T))
    (st : IsState w hi (entry s e u ∷ a) (entry t f v ∷ b) result) where
  pub only_a-IsState :
      e ≤ t → IsState e hi (trim (next_start a) a) (entry t f v ∷ b) (push_coalesced result s e u)
  only_a-IsState h = record {
    done = after_push w s e u result st.done st.left.0 (omega arith);
    left = Run-next e e hi a st.left.2 (omega arith);
    right = (h, st.right.1, st.right.2);
  }

  pub only_b-IsState :
      f ≤ s → IsState f hi (entry s e u ∷ a) (trim (next_start b) b) (push_coalesced result t f v)
  only_b-IsState h = record {
    done = after_push w t f v result st.done st.right.0 (omega arith);
    left = (h, st.left.1, st.left.2);
    right = Run-next f f hi b st.right.2 (omega arith);
  }

  both-Run : t < e → s < f → Run 0 (min e f) (pushed s e u t f v result)
  both-Run h k =
      pushed-Run w s e t f u v result st.done st.left.0 st.right.0
        (overlap s e t f st.left.1 st.right.1 h k)

  pub a_ends-IsState :
      t < e
      → s < f
      → e < f
      → IsState
          (min e f)
          hi
          (trim (next_start a) a)
          (entry (min e f) f v ∷ b)
          (pushed s e u t f v result)
  a_ends-IsState h k l = record {
    done = both-Run h k;
    left = Run-next e (min e f) hi a st.left.2 (omega arith);
    right = (omega arith, omega arith, st.right.2);
  }

  pub b_ends-IsState :
      t < e
      → s < f
      → f < e
      → IsState
          (min e f)
          hi
          (entry (min e f) e u ∷ a)
          (trim (next_start b) b)
          (pushed s e u t f v result)
  b_ends-IsState h k l = record {
    done = both-Run h k;
    left = (omega arith, omega arith, st.left.2);
    right = Run-next f (min e f) hi b st.right.2 (omega arith);
  }

  pub both_end-IsState :
      t < e
      → s < f
      → e ≡ f
      → IsState
          (min e f)
          hi
          (trim (next_start a) a)
          (trim (next_start b) b)
          (pushed s e u t f v result)
  both_end-IsState h k l = record {
    done = both-Run h k;
    left = Run-next e (min e f) hi a st.left.2 (omega arith);
    right = Run-next f (min e f) hi b st.right.2 (omega arith);
  }
