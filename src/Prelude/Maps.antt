-- ===== src/Prelude/Maps.antt =====
-- Finite maps with numbers as keys, as lists of entries: `HashMap` and `BTreeMap` of the standard
-- library, in any order of iteration.
use Prim.Native.Nat.{ℕ}
use mathlib.Core.Path.{◌≡◌, refl, ap, ◌∙◌}
use mathlib.Core.List.{List, [], ◌∷◌, ◌++◌}
use mathlib.Core.Option.{Option, none, some}
use native.Mathlib.Omega.{arith}
use crdt_probe.Prelude.Tests.{◌==◌, if◌then◌else◌, Bool-cases, ==_iff}
use mathlib.Core.Logic.{inl, inr}
use mathlib.Core.Bool.{false}

abbrev pub Map : Type 0 → Type 0
Map V = List (ℕ × V)

module _ {V : Type 0} where
  unfoldable pub find : ℕ → Map V → Option V
  find k [] = none
  find k (x ∷ m) = if x.0 == k then some x.1 else find k m

  -- Writes what `f` makes of the old value of a key, in its place, or as a new entry.
  unfoldable pub upsert : ℕ → (Option V → V) → Map V → Map V
  upsert k f [] = (k, f none) ∷ []
  upsert k f (x ∷ m) = if x.0 == k then (x.0, f (some x.1)) ∷ m else x ∷ upsert k f m

  unfoldable pub insert : ℕ → V → Map V → Map V
  unfolding upsert
  insert k v m = upsert k (λ old. v) m

  -- No key has two entries.
  abbrev pub IsMap : Map V → Type 0
  IsMap [] = Unit
  IsMap (x ∷ m) = (find x.0 m ≡ none) × IsMap m

  pub find-upsert :
      (m : Map V) (k j : ℕ) (f : Option V → V)
      → find j (upsert k f m) ≡ (if k == j then some (f (find k m)) else find j m)
  unfolding find upsert
  find-upsert [] k j f = refl
  find-upsert (x ∷ m) k j f = ground (arith, find-upsert m k j f)

  pub find-insert_other :
      (q k : ℕ) (v : V) (m : Map V) → (q == k) ≡ false → find k (insert q v m) ≡ find k m
  unfolding insert
  find-insert_other q k v m ne = find-upsert m q k (λ old. v) ∙ rw ne refl

  pub find-insert_same : (q : ℕ) (v : V) (m : Map V) → find q (insert q v m) ≡ some v
  unfolding insert
  find-insert_same q v m = find-upsert m q q (λ old. v) ∙ ground arith

  pub upsert-IsMap : (m : Map V) (k : ℕ) (f : Option V → V) → IsMap m → IsMap (upsert k f m)
  unfolding upsert
  upsert-IsMap [] k f h = (unfold find in refl, tt)
  upsert-IsMap (x ∷ m) k f h = elim (Bool-cases (x.0 == k)) [
    | inl same ↦ rw same h
    | inr other ↦ rw other (ground (arith, find-upsert m k x.0 f, h.0), upsert-IsMap m k f h.1)
  ]

  pub insert-IsMap : (m : Map V) (k : ℕ) (v : V) → IsMap m → IsMap (insert k v m)
  unfolding insert
  insert-IsMap m k v h = upsert-IsMap m k (λ old. v) h

  -- A key that is new is written behind the others.
  pub insert-new : (m : Map V) (k : ℕ) (v : V) → find k m ≡ none → insert k v m ≡ m ++ (k, v) ∷ []
  unfolding insert upsert find
  insert-new [] k v h = refl
  insert-new (x ∷ m) k v h = elim (Bool-cases (x.0 == k)) [
    | inl same ↦ ground arith
    | inr other ↦ rw (other, insert-new m k v (ground arith))
  ]

  unfoldable pub keep : ℕ → Option V → Map V → Map V
  keep k none m = m
  keep k (some v) m = (k, v) ∷ m

  -- `BTreeMap::retain`, with a closure that may change the value it keeps.
  unfoldable pub retain : (ℕ → V → Option V) → Map V → Map V
  unfolding keep
  retain f [] = []
  retain f (x ∷ m) = keep x.0 (f x.0 x.1) (retain f m)

  abbrev pub and_then : (V → Option V) → Option V → Option V
  and_then f none = none
  and_then f (some v) = f v

  find-keep :
      (k j : ℕ) (o : Option V) (m : Map V)
      → find k m ≡ none
      → find j (keep k o m) ≡ (if k == j then o else find j m)
  unfolding find keep
  find-keep k j none m h = ground (arith, h)
  find-keep k j (some v) m h = refl

  keep-IsMap : (k : ℕ) (o : Option V) (m : Map V) → find k m ≡ none → IsMap m → IsMap (keep k o m)
  unfolding keep
  keep-IsMap k none m h i = i
  keep-IsMap k (some v) m h i = (h, i)

  pub find-retain :
      (f : ℕ → V → Option V) (m : Map V) (k : ℕ)
      → IsMap m
      → find k (retain f m) ≡ and_then (f k) (find k m)
  unfolding find retain
  find-retain f [] k h = refl
  find-retain f (x ∷ m) k h =
      find-keep x.0 k (f x.0 x.1) (retain f m) (find-retain f m x.0 h.1 ∙ ap (and_then (f x.0)) h.0)
      ∙ elim (Bool-cases (x.0 == k)) [
        | inl same ↦ rw same (ap (λ (j : ℕ). f j x.1) ((==_iff x.0 k).0 same))
        | inr other ↦ rw other (find-retain f m k h.1)
      ]

  pub retain-IsMap : (f : ℕ → V → Option V) (m : Map V) → IsMap m → IsMap (retain f m)
  unfolding retain
  retain-IsMap f [] h = tt
  retain-IsMap f (x ∷ m) h =
      keep-IsMap x.0 (f x.0 x.1) (retain f m) (find-retain f m x.0 h.1 ∙ ap (and_then (f x.0)) h.0)
        (retain-IsMap f m h.1)

  unfoldable pub remove : ℕ → Map V → Map V
  remove k [] = []
  remove k (x ∷ m) = if x.0 == k then m else x ∷ remove k m

  pub find-remove :
      (m : Map V) (k j : ℕ) → IsMap m → find j (remove k m) ≡ (if k == j then none else find j m)
  unfolding find remove
  find-remove [] k j h = ground arith
  find-remove (x ∷ m) k j h = ground (arith, find-remove m k j h.1, h.0)

  pub remove-IsMap : (m : Map V) (k : ℕ) → IsMap m → IsMap (remove k m)
  unfolding remove
  remove-IsMap [] k h = tt
  remove-IsMap (x ∷ m) k h = elim (Bool-cases (x.0 == k)) [
    | inl same ↦ rw same h.1
    | inr other ↦ rw other (ground (arith, find-remove m k x.0 h.1, h.0), remove-IsMap m k h.1)
  ]

  find-key : (xs ys : Map V) (x : ℕ × V) (k : ℕ) → find k (xs ++ x ∷ ys) ≡ none → (x.0 == k) ≡ false
  unfolding find
  find-key [] ys x k h = ground arith
  find-key (y ∷ xs) ys x k h = ground (arith, find-key xs ys x k)

  -- The key of an entry is not one of those in front of it.
  pub IsMap-find : (xs ys : Map V) (x : ℕ × V) → IsMap (xs ++ x ∷ ys) → find x.0 xs ≡ none
  unfolding find
  IsMap-find [] ys x h = refl
  IsMap-find (y ∷ xs) ys x h = ground (arith, find-key xs ys x y.0 h.0, IsMap-find xs ys x h.1)
