-- ===== src/Sync/Awareness.antt =====
-- `Awareness` of sync/awareness.rs: who is online, as the last known state of every client.
pub mod Receive
use crdt_probe.Prelude.{
  ℕ, ◌+◌, ◌%◌, ◌^◌, Bool, true, false, not, ◌&&◌, ◌||◌, Option, none, some, List, [], ◌∷◌, ◌++◌,
  ltb, ◌==◌, if◌then◌else◌,
}
use crdt_probe.Prelude.Maps.{Map, find, insert, upsert}

-- A `str` as its UTF-8 bytes, and their equality.
abbrev pub Str : Type 0
Str = List ℕ

abbrev pub str_eq : Str → Str → Bool
str_eq [] [] = true
str_eq [] (b ∷ t) = false
str_eq (a ∷ s) [] = false
str_eq (a ∷ s) (b ∷ t) = (a == b) && str_eq s t

-- `"null"`
abbrev pub null_str : Str
null_str = 110 ∷ 117 ∷ 108 ∷ 108 ∷ []

-- `json` is the field `data`, a word of this language.
pub record ClientState : Type 0 where
  pub clock : ℕ
  pub last_updated : ℕ
  pub json : Option Str

-- `client_id` is that of the document. `on_update` and `on_change` tell whether the observers have
-- subscribers.
pub record Awareness : Type 0 where
  pub client_id : ℕ
  pub states : Map ClientState
  pub on_update : Bool
  pub on_change : Bool

pub record AwarenessUpdateEntry : Type 0 where
  pub clock : ℕ
  pub json : Str

abbrev pub AwarenessUpdate : Type 0
AwarenessUpdate = Map AwarenessUpdateEntry

pub record Summary : Type 0 where
  pub added : List ℕ
  pub updated : List ℕ
  pub removed : List ℕ

-- A call of an observer's subscribers.
pub data Event : Type 0 where
  change_event update_event : Summary → Event

abbrev pub is_some {ℓ} : {A : Type ℓ} → Option A → Bool
is_some none = false
is_some (some a) = true

abbrev pub is_nil {ℓ} : {A : Type ℓ} → List A → Bool
is_nil [] = true
is_nil (a ∷ l) = false

abbrev pub is_empty_event : Summary → Bool
is_empty_event s = is_nil s.added && is_nil s.updated && is_nil s.removed

-- `state.clock += 1` on u32.
abbrev pub next_clock : ℕ → ℕ
next_clock clock = (clock + 1) % 2 ^ 32

unfoldable pub meta : ℕ → Awareness → Option (ℕ × ℕ)
meta client a = elim (find client a.states) [
  | none ↦ none
  | some state ↦ some (state.clock, state.last_updated)
]

module _ (now : ℕ) where
  abbrev pub cleared : Option ClientState → ClientState
  cleared none = record { clock = 1; last_updated = now; json = none }
  cleared (some state) = record state { clock = next_clock state.clock; json = none }

  -- `&&` binds tighter than `||`.
  unfoldable pub remove_state : ℕ → Awareness → Awareness × List Event
  remove_state client a =
      let is_removed = is_some (find client a.states) in
      let e : Summary = record { added = []; updated = []; removed = client ∷ [] } in
      (
        record a { states = upsert client cleared a.states },
        if (is_removed && a.on_update) || a.on_change
            then change_event e ∷ update_event e ∷ []
            else [],
      )

  unfoldable pub clean_local_state : Awareness → Awareness × List Event
  unfolding remove_state
  clean_local_state a = remove_state a.client_id a

  abbrev pub replaced : Str → Option ClientState → ClientState
  replaced json none = record { clock = 1; last_updated = now; json = some json }
  replaced json (some state) = record {
    clock = next_clock state.clock;
    last_updated = now;
    json = some json;
  }

  abbrev pub previous : Option ClientState → Option Str
  previous none = none
  previous (some state) = state.json

  unless_empty : Summary → (Summary → Event) → List Event
  unless_empty s event = if is_empty_event s then [] else event s ∷ []

  -- The change event is fired before the summary gets its `updated`.
  unfoldable pub notify_subscribers : ℕ → Option Str → Str → Awareness → List Event
  unfolding unless_empty
  notify_subscribers client prev curr a =
      let added : List ℕ = elim prev [ none ↦ client ∷ [] | some p ↦ [] ] in
      let updated : List ℕ = elim prev [ none ↦ [] | some p ↦ client ∷ [] ] in
      let changed : List ℕ = elim prev [
        | none ↦ []
        | some p ↦ if str_eq p curr then [] else client ∷ []
      ] in
      if a.on_update || a.on_change
      then unless_empty (record { added = added; updated = changed; removed = [] }) change_event
        ++ unless_empty (record { added = added; updated = updated; removed = [] }) update_event
      else []

  unfoldable pub set_local_state_raw : Str → Awareness → Awareness × List Event
  unfolding notify_subscribers
  set_local_state_raw json a =
      let prev = previous (find a.client_id a.states) in
      (
        record a { states = upsert a.client_id (replaced json) a.states },
        notify_subscribers a.client_id prev json a,
      )

-- The clients with data, in the order of the map.
unfoldable pub online : Map ClientState → List ℕ
online [] = []
online (x ∷ states) = let rest = online states in if is_some x.1.json then x.0 ∷ rest else rest
