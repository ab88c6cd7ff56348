-- ===== src/Ids/Ranges.antt =====
-- Entries, `push_coalesced`, the queries, and the meaning of a vector of entries.
pub mod Push
pub mod Append
use crdt_probe.Prelude.{
  refl, ℕ, zero, suc, ◌+◌, ◌≤◌, ◌<◌, max, ◌≡◌, ◌↔◌, Bool, true, false, ◌&&◌, Option, none, some,
  List, [], ◌∷◌, ◌++◌, ltb, leb, if◌then◌else◌,
}

-- `(Range<u32>, T)`: the clocks from `start` up to, but not including, `end`.
pub record Entry (T : Type 0) : Type 0 where
  pub start : ℕ
  pub end : ℕ
  pub value : T

abbrev pub entry : {T : Type 0} → ℕ → ℕ → T → Entry T
entry s e v = record { start = s; end = e; value = v }

-- The trait `Merge: Clone + PartialEq`; `eq` is the derived equality of values.
pub record Merge (T : Type 0) : Type 0 where
  pub merge : T → T → T
  pub eq : T → T → Bool
  pub eq_iff : (a b : T) → (eq a b ≡ true) ↔ (a ≡ b)

-- `impl Merge for ()`.
pub unit_eq_iff : (a b : Unit {0}) → (true ≡ true) ↔ (a ≡ b)
unit_eq_iff a b = (λ _. refl, λ _. refl)

instance abbrev pub unit_merge : Merge (Unit {0})
unit_merge = record { merge = λ a b. a; eq = λ a b. true; eq_iff = unit_eq_iff }

abbrev pub in_range : ℕ → ℕ → ℕ → Bool
in_range s e c = leb s c && ltb c e

module _ {T : Type 0} where
  -- The value of a clock: that of the first entry whose range holds it.
  unfoldable pub lookup : List (Entry T) → ℕ → Option T
  lookup [] c = none
  lookup (x ∷ xs) c = if in_range x.start x.end c then some x.value else lookup xs c

  -- Entries are not empty, and stand in order, apart from each other, between `lo` and `hi`.
  abbrev pub Run : ℕ → ℕ → List (Entry T) → Type 0
  Run lo hi [] = lo ≤ hi
  Run lo hi (x ∷ xs) = (lo ≤ x.start) × (x.start < x.end) × Run x.end hi xs

  unfoldable pub clock_start : List (Entry T) → Option ℕ
  clock_start [] = none
  clock_start (x ∷ xs) = some x.start

  unfoldable pub clock_end : List (Entry T) → Option ℕ
  clock_end [] = none
  clock_end (x ∷ []) = some x.end
  clock_end (x ∷ y ∷ xs) = clock_end (y ∷ xs)

module _ {T : Type 0} ⦃m : Merge T⦄ where
  -- The body of `push_coalesced` behind its test, on a vector that is walked to its last entry.
  unfoldable pub push_last : List (Entry T) → ℕ → ℕ → T → List (Entry T)
  push_last [] s e v = entry s e v ∷ []
  push_last (x ∷ []) s e v =
      if leb s x.end && m.eq x.value v
      then record x { end = max x.end e } ∷ []
      else x ∷ entry s e v ∷ []
  push_last (x ∷ y ∷ xs) s e v = x ∷ push_last (y ∷ xs) s e v

  unfoldable pub push_coalesced : List (Entry T) → ℕ → ℕ → T → List (Entry T)
  unfolding push_last
  push_coalesced vec s e v = if leb e s then vec else push_last vec s e v

  -- No two neighbours touch with equal values.
  abbrev pub IsCoalesced : List (Entry T) → Type 0
  IsCoalesced [] = Unit
  IsCoalesced (x ∷ []) = Unit
  IsCoalesced (x ∷ y ∷ xs) = (x.end ≡ y.start → m.eq x.value y.value ≡ false) × IsCoalesced (y ∷ xs)
