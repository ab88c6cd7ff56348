-- ===== src/Blocks/Conflict/Concurrent.antt =====
-- Two items that are integrated at one place in either order, by `integrate_item` of block.rs.
use crdt_probe.Prelude.{
  ℕ, ◌≡◌, refl, sym, ap, ◌∙◌, subst, Bool, true, false, if◌then◌else◌, Option, Option-cases, none,
  some, List, [], ◌∷◌, ◌++◌, All, All-append, ltb, ◌==◌, arith, Bool-cases, inl, inr, ==_iff,
}
use crdt_probe.Prelude.Maps.{IsMap, find}
use crdt_probe.Encoding.Result.{ok}
use crdt_probe.Blocks.{BlockId, origin_eq}
use crdt_probe.Blocks.Conflict.{Item, Items, Branch, Linked, ptr_eq, place}
use crdt_probe.Blocks.Conflict.Walk.{IsChain}
use crdt_probe.Blocks.Conflict.Link.{IsNew, IsDistinct}
use crdt_probe.Blocks.Conflict.Place.{last_of}
use crdt_probe.Blocks.Conflict.Between.{IsFound}
use crdt_probe.Blocks.Conflict.Siblings.{first_of, client_at, IsSibling}
use crdt_probe.Blocks.Conflict.Splice.{flip}
use crdt_probe.Blocks.Conflict.Ordered.{ordered, place-IsFramed, ordered-swap}
use crdt_probe.Blocks.Conflict.Frame.{view}

All-front : (P : ℕ → Type 0) (xs ys : List ℕ) → All P (xs ++ ys) → All P xs
All-front P [] ys h = tt
All-front P (x ∷ xs) ys h = (h.0, All-front P xs ys h.1)

All-back : (P : ℕ → Type 0) (xs ys : List ℕ) → All P (xs ++ ys) → All P ys
All-back P [] ys h = h
All-back P (x ∷ xs) ys h = All-back P xs ys h.1

module _ (f : ℕ → ℕ) (client ptr : ℕ) where
  ordered-All : (P : ℕ → Type 0) (ps : List ℕ) → P ptr → All P ps → All P (ordered f client ptr ps)
  ordered-All P [] p h = (p, tt)
  ordered-All P (q ∷ ps) p h = elim (Bool-cases (ltb (f q) client)) [
    | inl small ↦ rw small (h.0, ordered-All P ps p h.1)
    | inr large ↦ rw large (p, h)
  ]

  ordered-agree :
      (g : ℕ → ℕ) (ps : List ℕ)
      → All (λ q. g q ≡ f q) ps
      → ordered g client ptr ps ≡ ordered f client ptr ps
  ordered-agree g [] h = refl
  ordered-agree g (q ∷ ps) h = rw (h.0, ordered-agree g ps h.1) refl

  ordered-IsDistinct :
      (ps rest : List ℕ)
      → IsDistinct (ps ++ rest)
      → IsNew ptr (ps ++ rest)
      → IsDistinct (ordered f client ptr ps ++ rest)
  ordered-IsDistinct [] rest d n = (n, d)
  ordered-IsDistinct (q ∷ ps) rest d n = elim (Bool-cases (ltb (f q) client)) [
    | inl small ↦ rw small (
      All-append (λ k. (q == k) ≡ false) (ordered f client ptr ps) rest
          (ordered-All (λ k. (q == k) ≡ false) ps (flip ptr q n.0) (All-front _ ps rest d.0))
          (All-back _ ps rest d.0),
      ordered-IsDistinct ps rest d.1 n.1,
    )
    | inr large ↦ rw large (n, d)
  ]

  -- The new item between the others.
  between-All :
      (P : ℕ → Type 0) (xs ps rest : List ℕ)
      → P ptr
      → All P (xs ++ (ps ++ rest))
      → All P (xs ++ (ordered f client ptr ps ++ rest))
  between-All P xs ps rest p h =
      let tail = All-back P xs (ps ++ rest) h in
      All-append P xs (ordered f client ptr ps ++ rest) (All-front P xs (ps ++ rest) h) (
        All-append P (ordered f client ptr ps) rest (ordered-All P ps p (All-front P ps rest tail))
          (All-back P ps rest tail))

  between-IsDistinct :
      (xs ps rest : List ℕ)
      → IsDistinct (xs ++ (ps ++ rest))
      → IsNew ptr (xs ++ (ps ++ rest))
      → IsDistinct (xs ++ (ordered f client ptr ps ++ rest))
  between-IsDistinct [] ps rest d n = ordered-IsDistinct ps rest d n
  between-IsDistinct (x ∷ xs) ps rest d n = (
    between-All (λ k. (x == k) ≡ false) xs ps rest (flip ptr x n.0) d.0,
    between-IsDistinct xs ps rest d.1 n.1,
  )

-- What the view of a cell tells.
abbrev client_view : Option (BlockId × Option BlockId × Option BlockId) → ℕ
client_view none = 0
client_view (some v) = v.0.client

client_at-view : (items : Items) (p : ℕ) → client_at items p ≡ client_view (view (find p items))
client_at-view items p = by_cell (find p items)
  where
    by_cell :
        (o : Option Item) → elim o [ some item ↦ item.id.client | none ↦ 0 ] ≡ client_view (view o)
    by_cell none = refl
    by_cell (some item) = refl

abbrev origin_view : Option (BlockId × Option BlockId × Option BlockId) → Option BlockId
origin_view none = none
origin_view (some v) = v.1

abbrev right_view : Option (BlockId × Option BlockId × Option BlockId) → Option BlockId
right_view none = none
right_view (some v) = v.2

abbrev is_cell : Option (BlockId × Option BlockId × Option BlockId) → Bool
is_cell none = false
is_cell (some v) = true

-- A cell with the origins of a sibling is a sibling.
view-IsSibling :
    (items : Items) (self other : Item) (q : ℕ)
    → view (find q items) ≡ view (some other)
    → ptr_eq self.right (some q) ≡ false
    → origin_eq self.origin other.origin ≡ true
    → origin_eq self.right_origin other.right_origin ≡ true
    → IsSibling items self q
view-IsSibling items self other q v apart same same_right = (
  apart,
  λ item at.
      let e : view (some item) ≡ view (some other) = sym (ap view at) ∙ v in
      (
        ap (origin_eq self.origin) (ap origin_view e) ∙ same,
        ap (origin_eq self.right_origin) (ap right_view e) ∙ same_right,
      ),
)

kept-IsSibling :
    (items items' : Items) (self : Item) (q : ℕ)
    → view (find q items') ≡ view (find q items)
    → IsSibling items self q
    → IsSibling items' self q
kept-IsSibling items items' self q v h = elim (Option-cases (find q items)) [
  | inl lost ↦ (h.0, λ item at. absurd (no_cell item (sym (ap view at) ∙ v ∙ ap view lost)))
  | inr (other, at) ↦
      let (same, same_right) = h.1 other at in
      view-IsSibling items' self other q (v ∙ ap view at) h.0 same same_right
]
  where
    no_cell : (item : Item) → view (some item) ≡ none → ⊥
    no_cell item e = ground (arith, ap is_cell e)

kept-IsFound :
    (items items' : Items) (r : ℕ)
    → view (find r items') ≡ view (find r items)
    → IsFound items (some r)
    → IsFound items' (some r)
kept-IsFound items items' r v (item, at) = elim (Option-cases (find r items')) [
  | inl lost ↦ absurd (ground (arith, ap is_cell (sym (ap view lost) ∙ v ∙ ap view at)))
  | inr found ↦ found
]

first-apart : (rest : List ℕ) (p : ℕ) → IsNew p rest → ptr_eq (first_of rest) (some p) ≡ false
first-apart [] p n = refl
first-apart (r ∷ rest) p n = flip p r n.0

client_at-kept :
    (items items' : Items) (k : ℕ)
    → view (find k items') ≡ view (find k items)
    → client_at items' k ≡ client_at items k
client_at-kept items items' k v =
    client_at-view items' k ∙ ap client_view v ∙ sym (client_at-view items k)

first-IsFound :
    (items items' : Items) (ptr : ℕ) (rest : List ℕ) (right : Option ℕ)
    → right ≡ first_of rest
    → IsNew ptr rest
    → ((k : ℕ) → (ptr == k) ≡ false → view (find k items') ≡ view (find k items))
    → IsFound items right
    → IsFound items' right
first-IsFound items items' ptr [] right e n v found = subst (IsFound items') (sym e) tt
first-IsFound items items' ptr (r ∷ rest) right e n v found =
    subst (IsFound items') (sym e)
      (kept-IsFound items items' r (v r n.0) (subst (IsFound items) e found))

All-zip :
    (P Q R : ℕ → Type 0) (ps : List ℕ)
    → ((k : ℕ) → P k → Q k → R k)
    → All P ps
    → All Q ps
    → All R ps
All-zip P Q R [] f h g = tt
All-zip P Q R (p ∷ ps) f h g = (f p h.0 g.0, All-zip P Q R ps f h.1 g.1)

origin_eq_sym : (a b : Option BlockId) → origin_eq a b ≡ true → origin_eq b a ≡ true
origin_eq_sym none none e = refl
origin_eq_sym none (some b) e = e
origin_eq_sym (some a) none e = e
origin_eq_sym (some a) (some b) e = ground arith

-- The client of a placed item, by its place in the store.
abbrev two_clients : Items → ℕ → Item → ℕ → Item → ℕ → ℕ
two_clients items pa a pb b k =
    if pa == k then a.id.client else if pb == k then b.id.client else client_at items k

module _ (get_item : BlockId → Option ℕ) (items : Items) (parent : Branch) (xs ps rest : List ℕ)
    (i : IsMap items) (c : IsChain items none (xs ++ (ps ++ rest)) parent.start)
    (d : IsDistinct (xs ++ (ps ++ rest))) where
  -- An item that may be put in between the two neighbours.
  abbrev pub IsReady : ℕ → Item → Type 0
  IsReady ptr self =
      (self.parent_sub ≡ none)
      × IsNew ptr (xs ++ (ps ++ rest))
      × (self.left ≡ last_of xs)
      × (self.right ≡ first_of rest)
      × IsFound items self.right
      × All (IsSibling items self) ps

  -- One item and then the other, with the clients as `f` gives them.
  place_both :
      (f : ℕ → ℕ) (pa pb : ℕ) (a b : Item)
      → IsReady pa a
      → IsReady pb b
      → (pa == pb) ≡ false
      → origin_eq b.origin a.origin ≡ true
      → origin_eq b.right_origin a.right_origin ≡ true
      → f pa ≡ a.id.client
      → f pb ≡ b.id.client
      → ((k : ℕ) → (pa == k) ≡ false → (pb == k) ≡ false → client_at items k ≡ f k)
      → (m : Linked) × (place get_item pa a items parent ≡ ok m)
        × ((n : Linked) × (place get_item pb b m.items m.parent ≡ ok n)
            × IsChain n.items none
                (xs ++ (ordered f (f pb) pb (ordered f (f pa) pa ps) ++ rest))
                n.parent.start)
  place_both f pa pb a b (seq, new, here, right, found, h) (seq', new', here', right', found', h')
        ne o ro ea eb same =
      let (m, done, chain, (keeps, self_view, other_view)) =
        place-IsFramed get_item pa items parent a seq xs ps rest i c d new here right found h in
      let mid = ordered f (f pa) pa ps in
      let new_a = All-front (λ k. (pa == k) ≡ false) ps rest (All-back _ xs (ps ++ rest) new) in
      let new_b = All-front (λ k. (pb == k) ≡ false) ps rest (All-back _ xs (ps ++ rest) new') in
      let old : All (λ k. client_at items k ≡ f k) ps = All-zip _ _ _ ps same new_a new_b in
      let order : ordered (client_at items) a.id.client pa ps ≡ mid =
        ordered-agree f a.id.client pa (client_at items) ps old
        ∙ ap (λ n. ordered f n pa ps) (sym ea) in
      let new_m : IsNew pb (xs ++ (mid ++ rest)) =
        between-All f (f pa) pa (λ k. (pb == k) ≡ false) xs ps rest (flip pa pb ne) new' in
      let sibling : IsSibling m.items b pa =
        view-IsSibling m.items b a pa self_view
          (ap (λ (x : Option ℕ). ptr_eq x (some pa)) right'
            ∙ first-apart rest pa (All-back _ ps rest (All-back _ xs (ps ++ rest) new)))
          o ro in
      let siblings : All (IsSibling m.items b) mid =
        ordered-All f (f pa) pa (IsSibling m.items b) ps sibling (
          All-zip _ _ _ ps (λ k n s. kept-IsSibling items m.items b k (other_view k n) s) new_a
            h') in
      let clients : All (λ k. client_at m.items k ≡ f k) mid =
        ordered-All f (f pa) pa (λ k. client_at m.items k ≡ f k) ps
          (client_at-view m.items pa ∙ ap client_view self_view ∙ sym ea)
          (All-zip _ _ _ ps (λ k n e. client_at-kept items m.items k (other_view k n) ∙ e) new_a
            old) in
      let (n, done', chain', _) =
        place-IsFramed get_item pb m.items m.parent b seq' xs mid rest (keeps i)
          (subst (λ t. IsChain m.items none (xs ++ (t ++ rest)) m.parent.start) order chain)
          (between-IsDistinct f (f pa) pa xs ps rest d new) new_m here' right'
          (first-IsFound items m.items pa rest b.right right'
            (All-back _ ps rest (All-back _ xs (ps ++ rest) new)) other_view found')
          siblings in
      let order' : ordered (client_at m.items) b.id.client pb mid ≡ ordered f (f pb) pb mid =
        ordered-agree f b.id.client pb (client_at m.items) mid clients
        ∙ ap (λ n. ordered f n pb mid) (sym eb) in
      (
        m,
        done,
        (
          n,
          done',
          subst (λ t. IsChain n.items none (xs ++ (t ++ rest)) n.parent.start) order' chain',
        ),
      )

  -- Two new sequence items of different clients, that name the same two neighbours in a sequence
  -- that is linked both ways and have the same origins, can be placed in either order, where
  -- every item that already stands between those neighbours has these origins too: both are
  -- placed without a failure, and the chain of the parent has the same order in the end.
  pub place-swap :
      (pa pb : ℕ) (a b : Item)
      → IsReady pa a
      → IsReady pb b
      → (pa == pb) ≡ false
      → origin_eq a.origin b.origin ≡ true
      → origin_eq a.right_origin b.right_origin ≡ true
      → (a.id.client == b.id.client) ≡ false
      → (order : List ℕ) × ((m n : Linked) × (place get_item pa a items parent ≡ ok m)
          × (place get_item pb b m.items m.parent ≡ ok n)
          × IsChain n.items none order n.parent.start)
        × ((m n : Linked) × (place get_item pb b items parent ≡ ok m)
            × (place get_item pa a m.items m.parent ≡ ok n)
            × IsChain n.items none order n.parent.start)
  place-swap pa pb a b ready ready' ne o ro apart =
      let f = two_clients items pa a pb b in
      let ea : f pa ≡ a.id.client = rw ((==_iff pa pa).1 refl) refl in
      let eb : f pb ≡ b.id.client = rw (ne, (==_iff pb pb).1 refl) refl in
      let same : (k : ℕ) → (pa == k) ≡ false → (pb == k) ≡ false → client_at items k ≡ f k =
        (λ k n n'. rw (n, n') refl) in
      let (m, done, (n, done', chain)) =
        place_both f pa pb a b ready ready' ne (origin_eq_sym a.origin b.origin o)
          (origin_eq_sym a.right_origin b.right_origin ro) ea eb same in
      let (m', fore, (n', fore', chain')) =
        place_both f pb pa b a ready' ready (flip pa pb ne) o ro eb ea (λ k x y. same k y x) in
      let swap = ordered-swap f pa pb ps (rw (ea, eb) apart) in
      (
        xs ++ (ordered f (f pb) pb (ordered f (f pa) pa ps) ++ rest),
        (m, n, done, done', chain),
        (
          m',
          n',
          fore,
          fore',
          subst (λ t. IsChain n'.items none (xs ++ (t ++ rest)) n'.parent.start) (sym swap) chain',
        ),
      )
