-- ===== src/Blocks/Conflict.antt =====
-- `Item` of block.rs, as far as its place among its siblings goes: `detect_conflict`,
-- `resolve_conflict` and the linking in `integrate_item`. An `ItemPtr` is the number of a cell of
-- the store; items have ids of their own, so to compare the pointers is to compare the ids. The
-- keys of `parent.map` are numbered.
pub mod Walk
pub mod Link
pub mod Splice
pub mod Place
pub mod Between
pub mod Siblings
pub mod Ordered
pub mod Frame
pub mod Concurrent
use crdt_probe.Prelude.{
  ℕ, zero, suc, Bool, true, false, not, ◌||◌, Option, none, some, List, [], ◌∷◌, ltb, ◌==◌,
  if◌then◌else◌, length,
}
use crdt_probe.Prelude.Maps.{Map, find, insert}
use crdt_probe.Encoding.Result.{Result, ok, fault, panic, out_of_fuel, ◌>>=◌}
use crdt_probe.Blocks.{BlockId, origin_eq}

pub record Item : Type 0 where
  pub id : BlockId
  pub left : Option ℕ
  pub right : Option ℕ
  pub origin : Option BlockId
  pub right_origin : Option BlockId
  pub parent_sub : Option ℕ

-- The part of the parent's `Branch` that items are linked from.
pub record Branch : Type 0 where
  pub start : Option ℕ
  pub map : Map ℕ

abbrev pub Items : Type 0
Items = Map Item

-- A pointer that leads nowhere is undefined behaviour; here it is a fault.
unfoldable pub deref : Items → ℕ → Result Item
deref items p = elim (find p items) [ some item ↦ ok item | none ↦ fault panic ]

abbrev pub ptr_eq : Option ℕ → Option ℕ → Bool
ptr_eq none none = true
ptr_eq none (some q) = false
ptr_eq (some p) none = false
ptr_eq (some p) (some q) = p == q

abbrev pub contains_ptr : ℕ → List ℕ → Bool
contains_ptr p [] = false
contains_ptr p (q ∷ set) = (p == q) || contains_ptr p set

abbrev pub is_linked_left : Item → Bool
is_linked_left item = elim item.left [ some l ↦ true | none ↦ false ]

-- What a round of the loop does: it breaks, goes on, or goes on with `item` as the new left.
pub data Decision : Type 0 where
  stop keep move : Decision

module _ (items : Items) where
  unfoldable pub detect_conflict : Item → Result Bool
  unfolding deref
  detect_conflict self = elim self.left [
    | some l ↦ do left ← deref items l; ok (not (ptr_eq left.right self.right))
    | none ↦ elim self.right [
      | some r ↦ do right ← deref items r; ok (is_linked_left right)
      | none ↦ ok true
    ]
  ]

  -- `while let Some(item) = o { … item.left … }`
  unfoldable pub leftmost : ℕ → Option ℕ → Result (Option ℕ)
  unfolding deref
  leftmost zero o = fault out_of_fuel
  leftmost (suc rounds) none = ok none
  leftmost (suc rounds) (some p) = do
    item ← deref items p
    elim item.left [ some l ↦ leftmost rounds (some l) | none ↦ ok (some p) ]

  -- The first conflicting item.
  unfoldable pub first_conflicting : ℕ → Branch → Item → Result (Option ℕ)
  unfolding leftmost deref
  first_conflicting rounds parent self = elim self.left [
    | some l ↦ do left ← deref items l; ok left.right
    | none ↦ elim self.parent_sub [
      | some key ↦ leftmost rounds (find key parent.map)
      | none ↦ ok parent.start
    ]
  ]

abbrev pub by_origin : Option ℕ → List ℕ → List ℕ → Decision
by_origin none conflicting before = stop
by_origin (some origin_left) conflicting before =
    if contains_ptr origin_left before
    then if contains_ptr origin_left conflicting then keep else move
    else stop

-- `get_item` is that of the block store.
module _ (get_item : BlockId → Option ℕ) where
  abbrev pub lookup_origin : Option BlockId → Option ℕ
  lookup_origin none = none
  lookup_origin (some id) = get_item id

  abbrev pub decide : Item → Item → List ℕ → List ℕ → Decision
  decide self item conflicting before =
      if origin_eq self.origin item.origin
      then if ltb item.id.client self.id.client
        then move
        else if origin_eq self.right_origin item.right_origin
        then stop
        else keep
      else by_origin (lookup_origin item.origin) conflicting before

module _ (items : Items) (get_item : BlockId → Option ℕ) where
  -- `while let Some(item) = o` of `resolve_conflict`. Each round goes to the next sibling, so one
  -- round more than there are items is enough.
  unfoldable pub resolve_loop : ℕ → Item → Option ℕ → Option ℕ → List ℕ → List ℕ → Result (Option ℕ)
  unfolding deref
  resolve_loop zero self o left conflicting before = fault out_of_fuel
  resolve_loop (suc rounds) self none left conflicting before = ok left
  resolve_loop (suc rounds) self (some p) left conflicting before = do
    item ← deref items p
    let goes_on =
        elim (decide get_item self item (p ∷ conflicting) (p ∷ before))
          as (λ d. Result (Option ℕ)) [
            | stop ↦ ok left
            | keep ↦ resolve_loop rounds self item.right left (p ∷ conflicting) (p ∷ before)
            | move ↦ resolve_loop rounds self item.right (some p) [] (p ∷ before)
          ]
    if ptr_eq self.right (some p) then ok left else goes_on

  unfoldable pub resolve_conflict : Branch → Item → Result Item
  unfolding first_conflicting resolve_loop
  resolve_conflict parent self = do
    o ← first_conflicting items (suc (length items)) parent self
    left ← resolve_loop (suc (length items)) self o self.left [] []
    ok (record self { left = left })

-- The store and the parent behind the linking, and the value of a key that has been replaced.
pub record Linked : Type 0 where
  pub items : Items
  pub parent : Branch
  pub replaced : Option ℕ

-- `left.right`, or the first item of the parent, before it is replaced by the new one.
unfoldable pub next_right : Items → Branch → Item → Result (Option ℕ)
unfolding deref leftmost
next_right items parent self = elim self.left [
  | some l ↦ do left ← deref items l; ok left.right
  | none ↦ elim self.parent_sub [
    | some key ↦ leftmost items (suc (length items)) (find key parent.map)
    | none ↦ ok parent.start
  ]
]

unfoldable pub link_left : ℕ → Item → Items → Branch → Result (Items × Branch)
unfolding deref
link_left ptr self items parent = elim self.left [
  | some l ↦ do left ← deref items l; ok (insert l (record left { right = some ptr }) items, parent)
  | none ↦ elim self.parent_sub [
    | some key ↦ ok (items, parent)
    | none ↦ ok (items, record parent { start = some ptr })
  ]
]

unfoldable pub link_right : ℕ → Item → Items → Branch → Result Linked
unfolding deref
link_right ptr self items parent = elim self.right [
  | some r ↦ do
    right ← deref items r
    ok (record {
      items = insert r (record right { left = some ptr }) items;
      parent = parent;
      replaced = none;
    })
  | none ↦ elim self.parent_sub [
    | some key ↦ ok (record {
      items = items;
      parent = record parent { map = insert key ptr parent.map };
      replaced = self.left;
    })
    | none ↦ ok (record { items = items; parent = parent; replaced = none })
  ]
]

-- The item is linked to its neighbours, and put into the store.
unfoldable pub link : ℕ → Item → Items → Branch → Result Linked
unfolding next_right link_left link_right
link ptr self items parent = do
  right ← next_right items parent self
  (items', parent') ← link_left ptr self items parent
  let self' = record self { right = right }
  linked ← link_right ptr self' items' parent'
  ok (record linked { items = insert ptr self' linked.items })

unfoldable pub place : (BlockId → Option ℕ) → ℕ → Item → Items → Branch → Result Linked
unfolding detect_conflict resolve_conflict link
place get_item ptr self items parent = do
  conflict ← detect_conflict items self
  self' ← if conflict then resolve_conflict items get_item parent self else ok self
  link ptr self' items parent
