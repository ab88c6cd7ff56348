-- ===== src/Sync/Awareness/Receive/Meaning.antt =====
-- What an update of sync/awareness.rs does to the state of every client.
use crdt_probe.Prelude.{
  ℕ, ◌≡◌, refl, sym, ap, ◌∙◌, Bool, false, not, ◌&&◌, ◌||◌, Option, none, some, List, [], ◌∷◌, ltb,
  ◌==◌, if◌then◌else◌, ==_iff, Bool-cases, inl, inr, arith,
}
use crdt_probe.Prelude.Maps.{Map, IsMap, find, find-upsert, upsert-IsMap}
use crdt_probe.Sync.Awareness.{
  Str, ClientState, Awareness, AwarenessUpdateEntry, AwarenessUpdate, is_some,
}
use crdt_probe.Sync.Awareness.Receive.{
  Tally, no_tally, overwrite, receive, receive_all, apply_update_internal, new_json,
}

-- What is known of a client after an entry, the lists left aside.
abbrev pub known : ℕ → ℕ → ℕ → AwarenessUpdateEntry → Option ClientState → ClientState
known me now client entry old = (receive false me now client entry old no_tally).0

-- The entry that an update has for a client, applied to what was known.
abbrev pub known? :
    ℕ → ℕ → ℕ → Option AwarenessUpdateEntry → Option ClientState → Option ClientState
known? me now client none old = old
known? me now client (some entry) old = some (known me now client entry old)

overwrite_state :
    (gen : Bool) (me now client clock : ℕ) (new : Option (List ℕ)) (state : ClientState) (t : Tally)
    → (overwrite gen me now client clock new state t).0
      ≡ (overwrite false me now client clock new state no_tally).0
overwrite_state gen me now client clock none state t = ground arith
overwrite_state gen me now client clock (some json) state t = refl

receive_state :
    (gen : Bool) (me now client : ℕ) (entry : AwarenessUpdateEntry) (old : Option ClientState)
    (t : Tally)
    → (receive gen me now client entry old t).0 ≡ known me now client entry old
receive_state gen me now client entry none t = refl
receive_state gen me now client entry (some state) t =
    ground (arith, overwrite_state gen me now client entry.clock (new_json entry.json) state t)

receive_all-find :
    (gen : Bool) (me now : ℕ) (u : AwarenessUpdate) (states : Map ClientState) (t : Tally) (k : ℕ)
    → IsMap u
    → find k (receive_all gen me now u states t).0 ≡ known? me now k (find k u) (find k states)
unfolding receive_all find
receive_all-find gen me now [] states t k h = refl
receive_all-find gen me now (x ∷ u) states t k h =
    receive_all-find gen me now u _ _ k h.1
    ∙ ap (known? me now k (find k u)) (find-upsert states x.0 k _)
    ∙ elim (Bool-cases (x.0 == k)) [
      | inl same ↦
          rw (same, sym ((==_iff x.0 k).0 same), h.0)
            (ap (λ s. some s) (receive_state gen me now x.0 x.1 (find x.0 states) t))
      | inr other ↦ rw other refl
    ]

receive_all-IsMap :
    (gen : Bool) (me now : ℕ) (u : AwarenessUpdate) (states : Map ClientState) (t : Tally)
    → IsMap states
    → IsMap (receive_all gen me now u states t).0
unfolding receive_all
receive_all-IsMap gen me now [] states t h = h
receive_all-IsMap gen me now (x ∷ u) states t h =
    receive_all-IsMap gen me now u _ _ (upsert-IsMap states x.0 _ h)

-- The states after an update, whether or not a summary is made.
abbrev pub states_after : Bool → ℕ → AwarenessUpdate → Awareness → Map ClientState
states_after gen now u a = (apply_update_internal gen now u a).awareness.states

-- The states after an update, by `receive` on the entry of each client.
pub apply_update-known :
    (gen : Bool) (now : ℕ) (u : AwarenessUpdate) (a : Awareness)
    → IsMap u
    → IsMap a.states
    → IsMap (states_after gen now u a)
      × ((k : ℕ)
          → find k (states_after gen now u a)
            ≡ known? a.client_id now k (find k u) (find k a.states))
unfolding apply_update_internal
apply_update-known gen now u a h i = (
  receive_all-IsMap gen a.client_id now u a.states no_tally i,
  λ k. receive_all-find gen a.client_id now u a.states no_tally k h,
)

-- `known` of a client that has a state, with the text of the entry already compared with `null`.
abbrev pub newer : ℕ → ℕ → ℕ → ℕ → Option Str → ClientState → ClientState
newer me now k clock new s =
    let is_removed = (s.clock == clock) && not (is_some new) && is_some s.json in
    if ltb s.clock clock || is_removed then (overwrite false me now k clock new s no_tally).0 else s

pub known-newer :
    (me now k : ℕ) (e : AwarenessUpdateEntry) (s : ClientState)
    → known me now k e (some s) ≡ newer me now k e.clock (new_json e.json) s
known-newer me now k e s = ground arith
