-- ===== src/Sync/Awareness/Receive/Local.antt =====
-- The clocks of sync/awareness.rs and the state of the client that the awareness belongs to.
use mathlib.Core.Option.{some_inj}
use crdt_probe.Prelude.{
  ℕ, ◌+◌, ◌-◌, ◌^◌, ◌≤◌, [], ◌∷◌, All, ◌<◌, ◌≡◌, ◌≢◌, refl, ap, ◌∙◌, Bool, true, Option, none, some,
  ◌==◌, Bool-cases, Option-cases, inl, inr, arith, subst,
}
use crdt_probe.Prelude.Maps.{IsMap, find, find-upsert, upsert-IsMap}
use crdt_probe.Sync.Awareness.{
  Str, ClientState, Awareness, AwarenessUpdateEntry, AwarenessUpdate, is_some, next_clock, cleared,
  replaced, remove_state, set_local_state_raw,
}
use crdt_probe.Sync.Awareness.Receive.{apply_update_internal, new_json}
use crdt_probe.Sync.Awareness.Receive.Meaning.{newer, known-newer, states_after, apply_update-known}

next_clock-grows : (c : ℕ) → c < 2 ^ 32 - 1 → next_clock c ≡ c + 1
next_clock-grows c h = omega arith

newer-clock :
    (me now k clock : ℕ) (new : Option Str) (s : ClientState)
    → clock < 2 ^ 32 - 1
    → s.clock ≤ (newer me now k clock new s).clock
newer-clock me now k clock none s h = ground (arith, next_clock-grows clock h)
newer-clock me now k clock (some json) s h = ground arith

-- A state of the client itself survives an entry that is `null`.
newer-kept :
    (me now clock : ℕ) (new : Option Str) (s : ClientState)
    → is_some s.json ≡ true
    → is_some (newer me now me clock new s).json ≡ true
newer-kept me now clock none s h = ground arith
newer-kept me now clock (some json) s h = ground arith

pub find-All :
    (P : AwarenessUpdateEntry → Type 0) (u : AwarenessUpdate) (k : ℕ) (e : AwarenessUpdateEntry)
    → All (λ x. P x.1) u
    → find k u ≡ some e
    → P e
unfolding find
find-All P [] k e h f = absurd (ground arith)
find-All P (x ∷ u) k e h f = elim (Bool-cases (x.0 == k)) [
  | inl same ↦ subst P (some_inj.0 (rw same at f)) h.0
  | inr other ↦ find-All P u k e h.1 (rw other at f)
]

-- The clock of an entry that can still be counted up.
abbrev pub IsCountable : ℕ × AwarenessUpdateEntry → Type 0
IsCountable x = x.1.clock < 2 ^ 32 - 1

-- A client that is known stays known under every update whose clocks can still be counted up, and
-- its clock does not fall.
pub apply_update-clock :
    (gen : Bool) (now : ℕ) (u : AwarenessUpdate) (a : Awareness) (k : ℕ) (s : ClientState)
    → IsMap u
    → All IsCountable u
    → IsMap a.states
    → find k a.states ≡ some s
    → (s' : ClientState) × (find k (states_after gen now u a) ≡ some s') × (s.clock ≤ s'.clock)
apply_update-clock gen now u a k s h c i e =
    let known_after = (apply_update-known gen now u a h i).1 k in
    elim (Option-cases (find k u)) [
      | inl no_entry ↦ (s, known_after ∙ rw (no_entry, e) refl, omega arith)
      | inr (entry, has_entry) ↦ (
        newer a.client_id now k entry.clock (new_json entry.json) s,
        known_after ∙ rw (has_entry, e) (ap (λ t. some t) (known-newer a.client_id now k entry s)),
        newer-clock a.client_id now k entry.clock (new_json entry.json) s
            (find-All (λ x. x.clock < 2 ^ 32 - 1) u k entry c has_entry),
      )
    ]

-- The client itself is online: its state has data.
abbrev pub IsOnline : Awareness → Type 0
IsOnline a = (s : ClientState) × (find a.client_id a.states ≡ some s) × (is_some s.json ≡ true)

apply_update-IsOnline :
    (gen : Bool) (now : ℕ) (u : AwarenessUpdate) (a : Awareness)
    → IsMap u
    → IsMap a.states
    → IsOnline a
    → IsOnline (apply_update_internal gen now u a).awareness
unfolding apply_update_internal
apply_update-IsOnline gen now u a h i (s, e, o) =
    let known_after = (apply_update-known gen now u a h i).1 a.client_id in
    elim (Option-cases (find a.client_id u)) [
      | inl no_entry ↦ (s, known_after ∙ rw (no_entry, e) refl, o)
      | inr (entry, has_entry) ↦ (
        newer a.client_id now a.client_id entry.clock (new_json entry.json) s,
        known_after
            ∙ rw (has_entry, e)
                (ap (λ t. some t) (known-newer a.client_id now a.client_id entry s)),
        newer-kept a.client_id now entry.clock (new_json entry.json) s o,
      )
    ]

-- What can happen to an awareness, but for the client's own sign-off.
pub data Step : Awareness → Awareness → Type 0 where
  set_local : (now : ℕ) (json : Str) (a : Awareness) → Step a (set_local_state_raw now json a).0
  remove_other :
      (now client : ℕ) (a : Awareness) → client ≢ a.client_id → Step a (remove_state now client a).0
  receive_update :
      (gen : Bool) (now : ℕ) (u : AwarenessUpdate) (a : Awareness)
      → IsMap u
      → Step a (apply_update_internal gen now u a).awareness

pub data Reach (a : Awareness) : Awareness → Type 0 where
  here : Reach a a
  next : {b c : Awareness} → Reach a b → Step b c → Reach a c

abbrev pub IsPresent : Awareness → Type 0
IsPresent a = IsMap a.states × IsOnline a

pub Step-IsPresent : {a b : Awareness} → Step a b → IsPresent a → IsPresent b
unfolding set_local_state_raw remove_state apply_update_internal
Step-IsPresent (set_local now json a) (i, (s, e, o)) = (
  upsert-IsMap a.states a.client_id (replaced now json) i,
  (
    replaced now json (some s),
    find-upsert a.states a.client_id a.client_id (replaced now json) ∙ ground (arith, e),
    refl,
  ),
)
Step-IsPresent (remove_other now client a ne) (i, (s, e, o)) = (
  upsert-IsMap a.states client (cleared now) i,
  (s, find-upsert a.states client a.client_id (cleared now) ∙ ground (arith, ne, e), o),
)
Step-IsPresent (receive_update gen now u a h) (i, o) =
    ((apply_update-known gen now u a h i).0, apply_update-IsOnline gen now u a h i o)

-- Once a client has set its state, nothing but its own sign-off takes the data away: neither what
-- others send, whatever the clocks, nor the removal of other clients.
pub Reach-IsPresent : {a b : Awareness} → Reach a b → IsPresent a → IsPresent b
Reach-IsPresent here h = h
Reach-IsPresent (next r s) h = Step-IsPresent s (Reach-IsPresent r h)
