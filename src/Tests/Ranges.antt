-- ===== src/Tests/Ranges.antt =====
-- Vectors of ranges with numbers as values, and without values.
use crdt_probe.Prelude.{
  ℕ, max, ◌≡◌, ◌↔◌, refl, true, ◌==◌, ==_iff, none, List, [], ◌∷◌, arith, if◌then◌else◌,
}
use crdt_probe.Ids.Ranges.{Entry, entry, Merge, unit_merge, lookup, push_coalesced, Run, in_range}
use crdt_probe.Ids.Query.{subset_of}
use crdt_probe.Ids.Query.Contains.{is_some, subset_of_iff}
use crdt_probe.Ids.Union
use crdt_probe.Ids.Union.Round.{union}
use crdt_probe.Ids.Union.Lookup.{merge-union}
use crdt_probe.Ids.Insert.{insert_with}
use crdt_probe.Ids.Insert.Replace.{inserted}
use crdt_probe.Ids.Insert.Lookup.{insert_with-inserted}
use crdt_probe.Ids.Remove
use crdt_probe.Ids.Remove.Lookup.{remove-lookup}
use crdt_probe.Ids.Exclude.{exclude, cut, push_rest, skip_left}
use crdt_probe.Ids.Exclude.Lookup.{minus, exclude-lookup}
use crdt_probe.Ids.Intersect
use crdt_probe.Ids.Intersect.Lookup.{both, intersect-both}

-- Values that merge to the greater one.
instance abbrev max_merge : Merge ℕ
max_merge = record { merge = max; eq = ◌==◌; eq_iff = ==_iff }

max_idem : (n : ℕ) → max n n ≡ n
max_idem n = omega arith

abbrev one : List (Entry ℕ)
one = entry 0 5 1 ∷ entry 7 9 2 ∷ []

abbrev two : List (Entry ℕ)
two = entry 3 8 4 ∷ []

abbrev clocks : List (Entry (Unit {0}))
clocks = entry 2 4 tt ∷ entry 7 8 tt ∷ []

one-Run : Run 0 9 one
one-Run = (omega arith, omega arith, (omega arith, omega arith, omega arith))

two-Run : Run 0 8 two
two-Run = (omega arith, omega arith, omega arith)

clocks-Run : Run 0 8 clocks
clocks-Run = (omega arith, omega arith, (omega arith, omega arith, omega arith))

merge_run : Union.merge one two ≡ entry 0 3 1 ∷ entry 3 8 4 ∷ entry 8 9 2 ∷ []
unfolding Union.merge push_coalesced
merge_run = refl

insert_run : insert_with 4 8 2 one ≡ entry 0 4 1 ∷ entry 4 9 2 ∷ []
unfolding insert_with
insert_run = refl

intersect_run : Intersect.intersect one two ≡ entry 3 5 4 ∷ entry 7 8 4 ∷ []
unfolding Intersect.intersect
intersect_run = refl

exclude_run : exclude one clocks ≡ entry 0 2 1 ∷ entry 4 5 1 ∷ entry 8 9 2 ∷ []
unfolding exclude push_rest cut skip_left
exclude_run = refl

merge-union_example :
    Run 0 9 (Union.merge one two)
    × (lookup (Union.merge one two) 4 ≡ union (lookup one 4) (lookup two 4))
merge-union_example = merge-union 9 4 one two one-Run (omega arith, omega arith, omega arith)

insert_with-inserted_example :
    Run 0 (max 9 8) (insert_with 4 8 2 one)
    × (lookup (insert_with 4 8 2 one) 4 ≡ inserted 4 8 2 4 (lookup one 4))
insert_with-inserted_example = insert_with-inserted one 9 4 8 4 2 max_idem one-Run

remove-lookup_example :
    Run 0 9 (Remove.remove one 1 8)
    × (lookup (Remove.remove one 1 8) 3 ≡ (if in_range 1 8 3 then none else lookup one 3))
remove-lookup_example = remove-lookup one 0 9 1 8 3 one-Run

exclude-lookup_example :
    Run 0 9 (exclude one clocks)
    × (lookup (exclude one clocks) 3 ≡ minus (lookup one 3) (lookup clocks 3))
exclude-lookup_example = exclude-lookup 9 8 3 one clocks one-Run clocks-Run

intersect-both_example :
    Run 0 9 (Intersect.intersect one two)
    × (lookup (Intersect.intersect one two) 4 ≡ both (lookup one 4) (lookup two 4))
intersect-both_example = intersect-both 9 8 4 one two one-Run two-Run

abbrev wider : List (Entry (Unit {0}))
wider = entry 1 4 tt ∷ entry 6 9 tt ∷ []

wider-Run : Run 0 9 wider
wider-Run = (omega arith, omega arith, (omega arith, omega arith, omega arith))

subset_of_iff_example :
    (subset_of clocks wider ≡ true)
    ↔ ((c : ℕ) → is_some (lookup clocks c) ≡ true → is_some (lookup wider c) ≡ true)
subset_of_iff_example = subset_of_iff clocks wider 8 9 clocks-Run wider-Run
