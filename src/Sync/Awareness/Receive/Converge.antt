-- ===== src/Sync/Awareness/Receive/Converge.antt =====
-- Entries of sync/awareness.rs that are received again, or in another order.
use crdt_probe.Prelude.{
  ℕ, ◌-◌, ◌^◌, ◌<◌, ◌≡◌, refl, sym, ap, ◌∙◌, Bool, false, ◌⊎◌, Option, none, some, ◌==◌, arith, All,
}
use crdt_probe.Sync.Awareness.Receive.Local.{IsCountable, find-All}
use crdt_probe.Prelude.Maps.{IsMap, find}
use crdt_probe.Sync.Awareness.{Str, ClientState, Awareness, AwarenessUpdateEntry, AwarenessUpdate}
use crdt_probe.Sync.Awareness.Receive.{apply_update_internal, new_json}
use crdt_probe.Sync.Awareness.Receive.Meaning.{
  known, known?, newer, known-newer, states_after, apply_update-known,
}

newer_again :
    (me now later k clock : ℕ) (new : Option Str) (s : ClientState)
    → clock < 2 ^ 32 - 1
    → newer me later k clock new (newer me now k clock new s) ≡ newer me now k clock new s
newer_again me now later k clock none s h = ground arith
newer_again me now later k clock (some json) s h = ground arith

newer_fresh :
    (me later k : ℕ) (e : AwarenessUpdateEntry) (now : ℕ)
    → newer me later k e.clock (new_json e.json) (known me now k e none) ≡ known me now k e none
newer_fresh me later k e now = ground arith

-- What other clients see of a state.
abbrev pub view : ClientState → ℕ × Option Str
view s = (s.clock, s.json)

-- Two entries that do not claim different data at the same clock.
abbrev pub AgreeAt : ℕ → Option Str → ℕ → Option Str → Type 0
AgreeAt c new d new' = c ≡ d → (new ≡ new') ⊎ ((new ≡ none) ⊎ (new' ≡ none))

newer_swap :
    (me k m n m' n' c d : ℕ) (new new' : Option Str) (s : ClientState)
    → (k == me) ≡ false
    → AgreeAt c new d new'
    → view (newer me n k d new' (newer me m k c new s))
      ≡ view (newer me n' k c new (newer me m' k d new' s))
newer_swap me k m n m' n' c d none none s h a = rw h (ground arith)
newer_swap me k m n m' n' c d none (some y) s h a = rw h (ground arith)
newer_swap me k m n m' n' c d (some x) none s h a = rw h (ground arith)
newer_swap me k m n m' n' c d (some x) (some y) s h a = ground (arith, a)

known?-twice :
    (me now later k : ℕ) (o : Option AwarenessUpdateEntry) (old : Option ClientState)
    → ((e : AwarenessUpdateEntry) → o ≡ some e → e.clock < 2 ^ 32 - 1)
    → known? me later k o (known? me now k o old) ≡ known? me now k o old
known?-twice me now later k none old h = refl
known?-twice me now later k (some e) none h =
    ap (λ t. some t) (known-newer me later k e _ ∙ newer_fresh me later k e now)
known?-twice me now later k (some e) (some s) h =
    ap (λ t. some t)
      (ap (λ t. known me later k e (some t)) (known-newer me now k e s)
        ∙ known-newer me later k e _
        ∙ newer_again me now later k e.clock (new_json e.json) s (h e refl)
        ∙ sym (known-newer me now k e s))

-- An update that is received a second time, at whatever time, changes nothing more, where its
-- clocks can still be counted up.
pub apply_update-twice :
    (gen : Bool) (now later : ℕ) (u : AwarenessUpdate) (a : Awareness) (k : ℕ)
    → IsMap u
    → All IsCountable u
    → IsMap a.states
    → find k (states_after gen later u (apply_update_internal gen now u a).awareness)
      ≡ find k (states_after gen now u a)
unfolding apply_update_internal
apply_update-twice gen now later u a k h c i =
    let (once, first) = apply_update-known gen now u a h i in
    let (twice, second) =
      apply_update-known gen later u (apply_update_internal gen now u a).awareness h once in
    second k
    ∙ ap (known? a.client_id later k (find k u)) (first k)
    ∙ known?-twice a.client_id now later k (find k u) (find k a.states)
        (λ e f. find-All (λ x. x.clock < 2 ^ 32 - 1) u k e c f)
    ∙ sym (first k)

abbrev pub view? : Option ClientState → Option (ℕ × Option Str)
view? none = none
view? (some s) = some (view s)

-- The time of arrival is not seen.
newer_time :
    (me k m n c : ℕ) (new : Option Str) (s : ClientState)
    → view (newer me m k c new s) ≡ view (newer me n k c new s)
newer_time me k m n c none s = ground arith
newer_time me k m n c (some x) s = ground arith

known?_time :
    (me k m n : ℕ) (o : Option AwarenessUpdateEntry) (old : Option ClientState)
    → view? (known? me m k o old) ≡ view? (known? me n k o old)
known?_time me k m n none old = refl
known?_time me k m n (some e) none = refl
known?_time me k m n (some e) (some s) =
    ap (λ t. some (view t)) (known-newer me m k e s)
    ∙ ap (λ t. some t) (newer_time me k m n e.clock (new_json e.json) s)
    ∙ sym (ap (λ t. some (view t)) (known-newer me n k e s))

-- The state that the first entry of a client leaves.
abbrev first_state : ℕ → ℕ → Option Str → ClientState
first_state now c new = record { clock = c; last_updated = now; json = new }

first_swap :
    (me k m n m' n' c d : ℕ) (new new' : Option Str)
    → (k == me) ≡ false
    → AgreeAt c new d new'
    → view (newer me n k d new' (first_state m c new))
      ≡ view (newer me n' k c new (first_state m' d new'))
first_swap me k m n m' n' c d none none h a = rw h (ground arith)
first_swap me k m n m' n' c d none (some y) h a = rw h (ground arith)
first_swap me k m n m' n' c d (some x) none h a = rw h (ground arith)
first_swap me k m n m' n' c d (some x) (some y) h a = ground (arith, a)

-- The entries that two updates have for a client agree.
abbrev pub Agree : Option AwarenessUpdateEntry → Option AwarenessUpdateEntry → Type 0
Agree none o = Unit
Agree (some e) none = Unit
Agree (some e) (some f) = AgreeAt e.clock (new_json e.json) f.clock (new_json f.json)

module _ (me k m n m' n' : ℕ) (other : (k == me) ≡ false) where
  known?-swap :
      (o p : Option AwarenessUpdateEntry) (old : Option ClientState)
      → Agree o p
      → view? (known? me n k p (known? me m k o old))
        ≡ view? (known? me n' k o (known? me m' k p old))
  known?-swap none p old a = known?_time me k n m' p old
  known?-swap (some e) none old a = known?_time me k m n' (some e) old
  known?-swap (some e) (some f) none a =
      ap (λ t. some (view t)) (known-newer me n k f _)
      ∙ ap (λ t. some t)
          (first_swap me k m n m' n' e.clock f.clock (new_json e.json) (new_json f.json) other a)
      ∙ sym (ap (λ t. some (view t)) (known-newer me n' k e _))
  known?-swap (some e) (some f) (some s) a =
      ap (λ t. some (view (known me n k f (some t)))) (known-newer me m k e s)
      ∙ ap (λ t. some (view t)) (known-newer me n k f _)
      ∙ ap (λ t. some t)
          (newer_swap me k m n m' n' e.clock f.clock (new_json e.json) (new_json f.json) s other a)
      ∙ sym (
          ap (λ t. some (view (known me n' k e (some t)))) (known-newer me m' k f s)
          ∙ ap (λ t. some (view t)) (known-newer me n' k e _))

-- Two updates that do not claim different data of a client at the same clock can be received in
-- either order and at any times: every client but the own one ends with the same clock and data.
pub apply_update-swap :
    (gen : Bool) (m n m' n' : ℕ) (u v : AwarenessUpdate) (a : Awareness) (k : ℕ)
    → IsMap u
    → IsMap v
    → IsMap a.states
    → (k == a.client_id) ≡ false
    → Agree (find k u) (find k v)
    → view? (find k (states_after gen n v (apply_update_internal gen m u a).awareness))
      ≡ view? (find k (states_after gen n' u (apply_update_internal gen m' v a).awareness))
unfolding apply_update_internal
apply_update-swap gen m n m' n' u v a k hu hv i other agree =
    let (after_u, u_first) = apply_update-known gen m u a hu i in
    let (after_v, v_first) = apply_update-known gen m' v a hv i in
    let second_v =
      apply_update-known gen n v (apply_update_internal gen m u a).awareness hv after_u in
    let second_u =
      apply_update-known gen n' u (apply_update_internal gen m' v a).awareness hu after_v in
    ap view? (second_v.1 k ∙ ap (known? a.client_id n k (find k v)) (u_first k))
    ∙ known?-swap a.client_id k m n m' n' other (find k u) (find k v) (find k a.states) agree
    ∙ sym (ap view? (second_u.1 k ∙ ap (known? a.client_id n' k (find k u)) (v_first k)))
