-- ===== src/IdSet/Meaning.antt =====
-- `insert`, `from_ranges` and `remove_range` on the ids of a set.
use crdt_probe.Prelude.{
  ℕ, ◌+◌, ◌%◌, ◌^◌, ◌<◌, max, ◌≡◌, refl, sym, ap, subst, ◌∙◌, Bool, true, false, ◌&&◌, ◌||◌, Option,
  none, some, List, [], ◌∷◌, ◌==◌, if◌then◌else◌, Bool-cases, Option-cases, inl, inr, arith, ==_iff,
}
use crdt_probe.Prelude.Maps.{find, IsMap, find-upsert, find-remove}
use crdt_probe.Ids.Ranges.{unit_merge, lookup, Run, in_range}
use crdt_probe.Ids.Query.{contains_clock}
use crdt_probe.Ids.Query.Contains.{is_some, contains_clock-lookup}
use crdt_probe.Ids.Remove
use crdt_probe.Ids.Remove.Lookup.{remove-lookup}
use crdt_probe.Ids.Insert.Replace.{inserted}
use crdt_probe.Ids.Insert.Lookup.{insert_with-inserted}
use crdt_probe.IdMap.{contains, insert_range}
use crdt_probe.IdMap.Meaning.{value_in, value_at, RunIn, IsIdMap, contains-value_at}
use crdt_probe.IdMap.Combine.{insert_range-inserted}
use crdt_probe.IdSet.{
  IdRange, IdSet, insert_clocks, from_ranges, insert_id, remove_one, remove_range,
}

is_some-inserted :
    (s e c : ℕ) (o : Option (Unit {0}))
    → is_some (inserted s e tt c o) ≡ (in_range s e c || is_some o)
is_some-inserted s e c none = ground arith
is_some-inserted s e c (some u) = ground arith

same_unit : (a : Unit {0}) → a ≡ a
same_unit a = refl

-- After `insert`, the set contains what it contained, and the ids of the client from the clock on,
-- as many as the length says, where the last one fits 32 bits.
pub insert_id-contains :
    (set : IdSet) (hi client clock len k c : ℕ)
    → IsIdMap hi set
    → clock + len < 2 ^ 32
    → contains k c (insert_id client clock len set)
      ≡ (((client == k) && in_range clock (clock + len) c) || contains k c set)
unfolding insert_id insert_clocks insert_range
insert_id-contains set hi client clock len k c h fits =
    let e = (clock + len) % 2 ^ 32 in
    let exact : e ≡ clock + len = omega arith in
    let out = insert_range-inserted set hi client clock e tt k c same_unit h in
    contains-value_at (insert_id client clock len set) (max hi e) k c out.0
    ∙ ap is_some out.1
    ∙ elim (Bool-cases (client == k)) [
      | inl same ↦ rw same (
          is_some-inserted clock e c (value_at k c set)
          ∙ rw (exact, contains-value_at set hi k c h) refl)
      | inr other ↦ rw other (sym (contains-value_at set hi k c h))
    ]

-- One of the ranges holds the clock.
abbrev pub covers : ℕ → List (ℕ × ℕ) → Bool
covers c [] = false
covers c (r ∷ rs) = in_range r.0 r.1 c || covers c rs

from_ranges-covers :
    (rs : List (ℕ × ℕ)) (ranges : IdRange) (hi c : ℕ)
    → Run 0 hi ranges
    → (hi' : ℕ) × Run 0 hi' (from_ranges rs ranges)
      × (is_some (lookup (from_ranges rs ranges) c) ≡ (is_some (lookup ranges c) || covers c rs))
unfolding from_ranges insert_clocks
from_ranges-covers [] ranges hi c r = (hi, r, ground arith)
from_ranges-covers (x ∷ rs) ranges hi c r =
    let out = insert_with-inserted ranges hi x.0 x.1 c tt same_unit r in
    let rest = from_ranges-covers rs (insert_clocks x.0 x.1 ranges) (max hi x.1) c out.0 in
    (
      rest.0,
      rest.1,
      rest.2 ∙ rw (out.1, is_some-inserted x.0 x.1 c (lookup ranges c)) (ground arith),
    )

-- `from_ranges` holds the clocks of the ranges, in whatever order they come and however they
-- overlap.
pub from_ranges-contains_clock :
    (rs : List (ℕ × ℕ)) (c : ℕ) → contains_clock (from_ranges rs []) c ≡ covers c rs
from_ranges-contains_clock rs c =
    let out = from_ranges-covers rs [] 0 c (omega arith) in
    contains_clock-lookup (from_ranges rs []) out.0 c out.1 ∙ out.2 ∙ unfold lookup in refl

value_in-nonempty :
    (ranges : IdRange) (client k c : ℕ) (set : IdSet)
    → IsMap set
    → value_in c (find k (remove_one client ranges set))
      ≡ (if client == k then lookup ranges c else value_in c (find k set))
unfolding remove_one
value_in-nonempty [] client k c set h =
    ap (value_in c) (find-remove set client k h) ∙ elim (Bool-cases (client == k)) [
      | inl same ↦ rw same (unfold lookup in refl)
      | inr other ↦ rw other refl
    ]
value_in-nonempty (x ∷ ranges) client k c set h =
    ap (value_in c) (find-upsert set client k (λ old. x ∷ ranges))
    ∙ elim (Bool-cases (client == k)) [ inl same ↦ rw same refl | inr other ↦ rw other refl ]

remove_range-absent :
    (set : IdSet) (client s e : ℕ) → find client set ≡ none → remove_range client s e set ≡ set
unfolding remove_range
remove_range-absent set client s e h = rw (remove_range, h) refl

remove_range-present :
    (set : IdSet) (client s e : ℕ) (ranges : IdRange)
    → find client set ≡ some ranges
    → remove_range client s e set ≡ remove_one client (Remove.remove ranges s e) set
unfolding remove_range
remove_range-present set client s e ranges h = rw (remove_range, h) refl

value_in-eq :
    (c j k : ℕ) (set : IdSet) (o : Option IdRange)
    → (j == k) ≡ true
    → find j set ≡ o
    → value_in c (find k set) ≡ value_in c o
value_in-eq c j k set o same h =
    ap (λ (i : ℕ). value_in c (find i set)) (sym ((==_iff j k).0 same)) ∙ ap (value_in c) h

-- `remove_range` takes the ids of the client in the range out of the set, and no other.
remove_range-value_at :
    (set : IdSet) (hi client s e k c : ℕ)
    → IsIdMap hi set
    → value_at k c (remove_range client s e set) ≡ (
        if client == k
        then (if in_range s e c then none else value_at k c set)
        else value_at k c set)
unfolding value_at
remove_range-value_at set hi client s e k c h = elim (Option-cases (find client set)) [
  | inl absent ↦
      ap (λ (t : IdSet). value_in c (find k t)) (remove_range-absent set client s e absent)
      ∙ elim (Bool-cases (client == k)) [
        | inl same ↦ rw (same, value_in-eq c client k set none same absent) (ground arith)
        | inr other ↦ rw other refl
      ]
  | inr (ranges, present) ↦
      let out = remove-lookup ranges 0 hi s e c (subst (RunIn hi) present (h.1 client)) in
      ap (λ (t : IdSet). value_in c (find k t)) (remove_range-present set client s e ranges present)
      ∙ value_in-nonempty (Remove.remove ranges s e) client k c set h.0
      ∙ elim (Bool-cases (client == k)) [
        | inl same ↦ rw (same, value_in-eq c client k set (some ranges) same present) out.1
        | inr other ↦ rw other refl
      ]
]
