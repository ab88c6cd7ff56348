-- ===== src/Tests/Blocks.antt =====
-- An item that finds its place among concurrent siblings, and a range that is cut.
use mathlib.Core.Option.{some_inj}
use crdt_probe.Prelude.{ℕ, ◌≡◌, refl, false, ◌&&◌, ◌||◌, Option, none, some, List, [], ◌∷◌, arith}
use crdt_probe.Prelude.Maps.{IsMap, find}
use crdt_probe.Encoding.Result.{ok}
use crdt_probe.Blocks.{BlockId}
use crdt_probe.Blocks.Range.{
  BlockRange, range_contains, trim_block_end, sub_u32, slice, merge_range, slice-contains,
}
use crdt_probe.Blocks.Conflict.{
  Item, Items, Branch, Linked, resolve_conflict, resolve_loop, first_conflicting, deref, place,
}
use crdt_probe.Blocks.Conflict.Walk.{IsChain}
use crdt_probe.Blocks.Conflict.Siblings.{IsSibling, smaller, last_from, resolve_conflict-siblings}
use crdt_probe.Blocks.Conflict.Between.{IsPlaced, place-IsPlaced}
use crdt_probe.Blocks.Conflict.Concurrent.{place-swap}

abbrev item_of : ℕ → Option ℕ → Option ℕ → Item
item_of client left right = record {
  id = record { client = client; clock = 0 };
  left = left;
  right = right;
  origin = none;
  right_origin = none;
  parent_sub = none;
}

-- Clients 1 and 3 have inserted at the same place.
abbrev two_siblings : Items
two_siblings = (1, item_of 1 none (some 2)) ∷ (2, item_of 3 (some 1) none) ∷ []

abbrev parent_of_two : Branch
parent_of_two = record { start = some 1; map = [] }

abbrev no_item : BlockId → Option ℕ
no_item id = none

-- Client 2 comes to stand between them.
resolved :
    resolve_conflict two_siblings no_item parent_of_two (item_of 2 none none)
    ≡ ok (item_of 2 (some 1) none)
unfolding resolve_conflict first_conflicting resolve_loop deref find
resolved = refl

two_siblings-IsChain : IsChain two_siblings none (1 ∷ 2 ∷ []) (some 1)
unfolding find
two_siblings-IsChain =
    (refl, item_of 1 none (some 2), refl, refl, (refl, item_of 3 (some 1) none, refl, refl, refl))

two_siblings-IsMap : IsMap two_siblings
unfolding find
two_siblings-IsMap = (refl, (refl, tt))

place-IsPlaced_example :
    IsPlaced no_item two_siblings parent_of_two
      (item_of 2 none none)
      refl
      9
      []
      (1 ∷ 2 ∷ [])
      (place no_item 9 (item_of 2 none none) two_siblings parent_of_two)
place-IsPlaced_example =
    place-IsPlaced no_item two_siblings parent_of_two (item_of 2 none none) refl 9 [] (1 ∷ 2 ∷ [])
      two_siblings-IsChain ((refl, tt), (tt, tt)) (refl, (refl, tt)) two_siblings-IsMap refl tt

abbrev ten_clocks : BlockRange
ten_clocks = record { client = 1; clock = 5; len = 10 }

abbrev eighth : BlockId
eighth = record { client = 1; clock = 8 }

slice-contains_example :
    (range_contains eighth ten_clocks ≡ (
      range_contains eighth (trim_block_end (sub_u32 10 3) ten_clocks)
      || range_contains eighth (slice 3 ten_clocks)))
    × ((range_contains eighth (trim_block_end (sub_u32 10 3) ten_clocks)
          && range_contains eighth (slice 3 ten_clocks))
        ≡ false)
    × (merge_range (trim_block_end (sub_u32 10 3) ten_clocks) (slice 3 ten_clocks) ≡ ten_clocks)
slice-contains_example = slice-contains ten_clocks 3 eighth (omega arith) (omega arith)

one-IsSibling : IsSibling two_siblings (item_of 2 none none) 1
unfolding find
one-IsSibling = (refl, λ item e. rw⁻¹ (some_inj.0 e) (refl, refl))

other-IsSibling : IsSibling two_siblings (item_of 2 none none) 2
unfolding find
other-IsSibling = (refl, λ item e. rw⁻¹ (some_inj.0 e) (refl, refl))

resolve_conflict-siblings_example :
    resolve_conflict two_siblings no_item parent_of_two (item_of 2 none none)
    ≡ ok (item_of 2 (last_from none (smaller 2 two_siblings (1 ∷ 2 ∷ []))) none)
resolve_conflict-siblings_example =
    resolve_conflict-siblings no_item two_siblings (item_of 2 none none) parent_of_two []
      (1 ∷ 2 ∷ []) [] refl two_siblings-IsMap two_siblings-IsChain ((refl, tt), (tt, tt)) refl refl
      (one-IsSibling, (other-IsSibling, tt))

zero-IsSibling_one : IsSibling two_siblings (item_of 0 none none) 1
unfolding find
zero-IsSibling_one = (refl, λ item e. rw⁻¹ (some_inj.0 e) (refl, refl))

zero-IsSibling_other : IsSibling two_siblings (item_of 0 none none) 2
unfolding find
zero-IsSibling_other = (refl, λ item e. rw⁻¹ (some_inj.0 e) (refl, refl))

-- Clients 2 and 0 join clients 1 and 3.
place-swap_example :
    (order : List ℕ) × ((m n : Linked) × (place no_item 9
          (item_of 2 none none)
          two_siblings
          parent_of_two
        ≡ ok m)
      × (place no_item 8 (item_of 0 none none) m.items m.parent ≡ ok n)
      × IsChain n.items none order n.parent.start)
    × ((m n : Linked) × (place no_item 8 (item_of 0 none none) two_siblings parent_of_two ≡ ok m)
        × (place no_item 9 (item_of 2 none none) m.items m.parent ≡ ok n)
        × IsChain n.items none order n.parent.start)
place-swap_example =
    place-swap no_item two_siblings parent_of_two [] (1 ∷ 2 ∷ []) [] two_siblings-IsMap
      two_siblings-IsChain ((refl, tt), (tt, tt)) 9 8 (item_of 2 none none) (item_of 0 none none)
      (refl, (refl, (refl, tt)), refl, refl, tt, (one-IsSibling, (other-IsSibling, tt)))
      (refl, (refl, (refl, tt)), refl, refl, tt, (zero-IsSibling_one, (zero-IsSibling_other, tt)))
      refl refl refl refl
