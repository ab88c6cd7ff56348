-- ===== src/Blocks/Conflict/Walk.antt =====
-- The walk of `resolve_conflict` in block.rs over the siblings.
use crdt_probe.Prelude.{
  ℕ, zero, suc, ◌<◌, ◌≡◌, ◌⊎◌, refl, ap, ◌∙◌, true, false, Option, none, some, List, [], ◌∷◌, ◌++◌,
  length, All, Bool-cases, inl, inr, arith,
}
use crdt_probe.Prelude.Maps.{find}
use crdt_probe.Encoding.Result.{ok}
use crdt_probe.Blocks.{BlockId}
use crdt_probe.Blocks.Conflict.{
  Item, Items, deref, ptr_eq, Decision, stop, keep, move, decide, resolve_loop,
}

-- From `o` on, the items are linked as `ps`, both ways; `prev` stands in front of them.
abbrev pub IsChain : Items → Option ℕ → List ℕ → Option ℕ → Type 0
IsChain items prev [] o = o ≡ none
IsChain items prev (p ∷ ps) o =
    (o ≡ some p)
    × (item : Item) × (find p items ≡ some item)
    × (item.left ≡ prev)
    × IsChain items (some p) ps item.right

-- `left'` is where the walk along `ps` ends that began behind `left`: there, or at one of `ps`
-- that stands in front of the right neighbour of `self`.
abbrev pub IsReached : Item → Option ℕ → List ℕ → Option ℕ → Type 0
IsReached self left ps left' =
    (left' ≡ left)
    ⊎ ((pre : List ℕ) × (p : ℕ) × (post : List ℕ) × (ps ≡ pre ++ p ∷ post)
        × (left' ≡ some p)
        × All (λ q. ptr_eq self.right (some q) ≡ false) (pre ++ p ∷ []))

IsReached-step :
    (self : Item) (left : Option ℕ) (p : ℕ) (ps : List ℕ) (left' : Option ℕ)
    → ptr_eq self.right (some p) ≡ false
    → IsReached self left ps left'
    → IsReached self left (p ∷ ps) left'
IsReached-step self left p ps left' ne (inl e) = inl e
IsReached-step self left p ps left' ne (inr (pre, q, post, e, f, all)) =
    inr (p ∷ pre, q, post, ap (λ t. p ∷ t) e, f, (ne, all))

IsReached-move :
    (self : Item) (left : Option ℕ) (p : ℕ) (ps : List ℕ) (left' : Option ℕ)
    → ptr_eq self.right (some p) ≡ false
    → IsReached self (some p) ps left'
    → IsReached self left (p ∷ ps) left'
IsReached-move self left p ps left' ne (inl e) = inr ([], p, ps, refl, e, (ne, tt))
IsReached-move self left p ps left' ne (inr (pre, q, post, e, f, all)) =
    inr (p ∷ pre, q, post, ap (λ t. p ∷ t) e, f, (ne, all))

pub Decision-cases : (d : Decision) → (d ≡ stop) ⊎ ((d ≡ keep) ⊎ (d ≡ move))
Decision-cases stop = inl refl
Decision-cases keep = inr (inl refl)
Decision-cases move = inr (inr refl)

pub deref-found :
    (items : Items) (p : ℕ) (item : Item) → find p items ≡ some item → deref items p ≡ ok item
unfolding deref
deref-found items p item e = rw (e, deref) refl

module _ (items : Items) (get_item : BlockId → Option ℕ) (self : Item) where
  module _ (rounds p : ℕ) (item : Item) (left : Option ℕ) (conflicting before : List ℕ)
      (at : find p items ≡ some item) where
    pub loop_right :
        ptr_eq self.right (some p) ≡ true
        → resolve_loop items get_item (suc rounds) self (some p) left conflicting before ≡ ok left
    unfolding resolve_loop
    loop_right r = rw (deref-found items p item at, r) refl

    abbrev decision : Decision
    decision = decide get_item self item (p ∷ conflicting) (p ∷ before)

    module _ (past : ptr_eq self.right (some p) ≡ false) where
      pub loop_stop :
          decision ≡ stop
          → resolve_loop items get_item (suc rounds) self (some p) left conflicting before ≡ ok left
      unfolding resolve_loop
      loop_stop d = rw (deref-found items p item at, past, d) refl

      pub loop_keep :
          decision ≡ keep
          → resolve_loop items get_item (suc rounds) self (some p) left conflicting before
            ≡ resolve_loop items get_item rounds self item.right left (p ∷ conflicting) (p ∷ before)
      unfolding resolve_loop
      loop_keep d = rw (deref-found items p item at, past, d) refl

      pub loop_move :
          decision ≡ move
          → resolve_loop items get_item (suc rounds) self (some p) left conflicting before
            ≡ resolve_loop items get_item rounds self item.right (some p) [] (p ∷ before)
      unfolding resolve_loop
      loop_move d = rw (deref-found items p item at, past, d) refl

  -- The walk along a chain ends, with as many rounds as the chain has items, and one more.
  pub resolve_loop-IsReached :
      (ps : List ℕ) (rounds : ℕ) (prev o left : Option ℕ) (conflicting before : List ℕ)
      → length ps < rounds
      → IsChain items prev ps o
      → (left' : Option ℕ) × (resolve_loop items get_item rounds self o left conflicting before
          ≡ ok left')
        × IsReached self left ps left'
  unfolding resolve_loop
  resolve_loop-IsReached ps zero prev o left cs bs few c = absurd (omega arith)
  resolve_loop-IsReached [] (suc rounds) prev o left cs bs few c = (left, rw c refl, inl refl)
  resolve_loop-IsReached (p ∷ ps) (suc rounds) prev o left cs bs few (e, item, at, back, c) =
      elim (Bool-cases (ptr_eq self.right (some p))) [
        | inl r ↦ (left, rw e (loop_right rounds p item left cs bs at r), inl refl)
        | inr ne ↦ elim (Decision-cases (decide get_item self item (p ∷ cs) (p ∷ bs))) [
          | inl d ↦ (left, rw e (loop_stop rounds p item left cs bs at ne d), inl refl)
          | inr (inl d) ↦
              let (left', done, reached) =
                resolve_loop-IsReached ps rounds (some p) item.right left (p ∷ cs) (p ∷ bs)
                  (omega (arith, few)) c in
              (
                left',
                rw e (loop_keep rounds p item left cs bs at ne d ∙ done),
                IsReached-step self left p ps left' ne reached,
              )
          | inr (inr d) ↦
              let (left', done, reached) =
                resolve_loop-IsReached ps rounds (some p) item.right (some p) [] (p ∷ bs)
                  (omega (arith, few)) c in
              (
                left',
                rw e (loop_move rounds p item left cs bs at ne d ∙ done),
                IsReached-move self left p ps left' ne reached,
              )
        ]
      ]
