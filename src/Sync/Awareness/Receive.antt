-- ===== src/Sync/Awareness/Receive.antt =====
-- `update_with_clients`, `update` and `apply_update_internal` of sync/awareness.rs, and the codec
-- of their updates.
pub mod Meaning
pub mod Learns
pub mod Converge
pub mod Local
pub mod Advertise
pub mod RoundTrip
use crdt_probe.Prelude.{
  ℕ, zero, suc, ◌+◌, ◌%◌, ◌^◌, Bool, true, false, not, ◌&&◌, ◌||◌, Option, none, some, List, [],
  ◌∷◌, ◌++◌, ltb, ◌==◌, if◌then◌else◌, length,
}
use crdt_probe.Prelude.Maps.{Map, find, insert, upsert}
use crdt_probe.Encoding.Result.{Result, ok, fault, panic, ◌>>=◌}
use crdt_probe.Encoding.Io.{Write, Read}
use crdt_probe.Encoding.VarInt.{write_var, read_var_u32, read_var_u64}
use crdt_probe.Encoding.Fixed.{write_string, read_string}
use crdt_probe.StateVector.Codec.{client_id}
use crdt_probe.Sync.Awareness.{
  Str, str_eq, null_str, ClientState, Awareness, AwarenessUpdateEntry, AwarenessUpdate, Summary,
  Event, change_event, update_event, is_empty_event, is_some, is_nil, next_clock, online,
}

-- The outcome of `update_with_clients`: the update, or `Error::ClientNotFound`.
pub data Outcome : Type 0 where
  found : AwarenessUpdate → Outcome
  client_not_found : ℕ → Outcome

abbrev pub or_null : Option Str → Str
or_null none = null_str
or_null (some json) = json

-- `res` is the map that is being built.
unfoldable pub collect : Map ClientState → List ℕ → AwarenessUpdate → Outcome
collect states [] res = found res
collect states (client ∷ clients) res = elim (find client states) [
  | none ↦ client_not_found client
  | some m ↦
      collect states clients (insert client (record { clock = m.clock; json = or_null m.json }) res)
]

unfoldable pub update_with_clients : List ℕ → Awareness → Outcome
unfolding collect
update_with_clients clients a = collect a.states clients []

unfoldable pub update : Awareness → Outcome
unfolding update_with_clients online
update a = update_with_clients (online a.states) a

-- The four lists that `apply_update_internal` fills.
pub record Tally : Type 0 where
  pub added : List ℕ
  pub updated : List ℕ
  pub changed : List ℕ
  pub removed : List ℕ

abbrev pub opt_eq : Option Str → Option Str → Bool
opt_eq none none = true
opt_eq (some a) (some b) = str_eq a b
opt_eq none (some b) = false
opt_eq (some a) none = false

-- `None` for the text `null`.
abbrev pub new_json : Str → Option Str
new_json json = if str_eq json null_str then none else some json

module _ (gen : Bool) (me now client : ℕ) where
  abbrev note : List ℕ → List ℕ
  note l = if gen then l ++ client ∷ [] else l

  -- The update is newer, or removes data that is known: what `match new` does, with the clock
  -- behind it.
  abbrev pub overwrite : ℕ → Option Str → ClientState → Tally → ClientState × Tally
  overwrite clock none state t =
      if client == me && is_some state.json
      then (record state { clock = next_clock clock; last_updated = now }, t)
      else (
        record { clock = clock; last_updated = now; json = none },
        record t { removed = note t.removed },
      )
  overwrite clock (some json) state t =
      let differs = is_some state.json && not (opt_eq state.json (some json)) in
      (
        record { clock = clock; last_updated = now; json = some json },
        record t {
          updated = note t.updated;
          changed = if differs then note t.changed else t.changed;
        },
      )

  -- One round of the loop, on the entry of `client`.
  abbrev pub receive : AwarenessUpdateEntry → Option ClientState → Tally → ClientState × Tally
  receive entry none t = (
    record { clock = entry.clock; last_updated = now; json = new_json entry.json },
    if is_some (new_json entry.json) then record t { added = note t.added } else t,
  )
  receive entry (some state) t =
      let new = new_json entry.json in
      let is_removed = (state.clock == entry.clock) && not (is_some new) && is_some state.json in
      if ltb state.clock entry.clock || is_removed
      then overwrite entry.clock new state t
      else (state, t)

module _ (gen : Bool) (me now : ℕ) where
  -- `for (client_id, entry) in update.clients`
  unfoldable pub receive_all : AwarenessUpdate → Map ClientState → Tally → Map ClientState × Tally
  receive_all [] states t = (states, t)
  receive_all (x ∷ entries) states t =
      receive_all entries (upsert x.0 (λ old. (receive gen me now x.0 x.1 old t).0) states)
        (receive gen me now x.0 x.1 (find x.0 states) t).1

abbrev pub no_tally : Tally
no_tally = record { added = []; updated = []; changed = []; removed = [] }

-- The change event is fired with `changed` in the place of `updated`, and if it is not empty.
unfoldable pub fired : Tally → List Event
fired t =
    let e : Summary = record { added = t.added; updated = t.changed; removed = t.removed } in
    let e' : Summary = record { added = t.added; updated = t.updated; removed = t.removed } in
    (if is_empty_event e then [] else change_event e ∷ []) ++ update_event e' ∷ []

pub record Applied : Type 0 where
  pub awareness : Awareness
  pub summary : Option Summary
  pub events : List Event

unfoldable pub apply_update_internal : Bool → ℕ → AwarenessUpdate → Awareness → Applied
unfolding receive_all fired
apply_update_internal gen now update a =
    let (states, t) = receive_all gen a.client_id now update a.states no_tally in
    let nothing = is_nil t.added && is_nil t.updated && is_nil t.removed in
    record {
      awareness = record a { states = states };
      summary =
          if nothing
          then none
          else some (record { added = t.added; updated = t.updated; removed = t.removed });
      events = if nothing then [] else if a.on_update || a.on_change then fired t else [];
    }

unfoldable pub apply_update : ℕ → AwarenessUpdate → Awareness → Awareness × List Event
unfolding apply_update_internal
apply_update now update a =
    let done = apply_update_internal (a.on_update || a.on_change) now update a in
    (done.awareness, done.events)

unfoldable pub apply_update_summary : ℕ → AwarenessUpdate → Awareness → Applied
unfolding apply_update_internal
apply_update_summary now update a = apply_update_internal true now update a

module _ {W : Type 0} ⦃w : Write W⦄ where
  unfoldable pub encode_clients : AwarenessUpdate → W → W
  encode_clients [] out = out
  encode_clients (x ∷ u) out =
      encode_clients u (write_string x.1.json (write_var x.1.clock (write_var x.0 out)))

  unfoldable pub encode_update : AwarenessUpdate → W → W
  unfolding encode_clients
  encode_update u out = encode_clients u (write_var (length u) out)

-- Whether a `HashMap` for so many entries can be made; `with_capacity` panics where it cannot.
pub record Tables : Type 0 where
  pub has_room : ℕ → Bool

abbrev pub has_room : ⦃t : Tables⦄ → ℕ → Bool
has_room ⦃t⦄ = t.has_room

module _ {R : Type 0} ⦃r : Read R⦄ where
  -- `for _ in 0..len`
  unfoldable pub decode_clients : ℕ → AwarenessUpdate → R → Result (AwarenessUpdate × R)
  decode_clients zero u reader = ok (u, reader)
  decode_clients (suc left) u reader = do
    (client, reader₁) ← read_var_u64 reader
    (clock, reader₂) ← read_var_u32 reader₁
    (json, reader₃) ← read_string reader₂
    decode_clients left (insert (client_id client) (record { clock = clock; json = json }) u)
        reader₃

  unfoldable pub decode_update : ⦃t : Tables⦄ → R → Result (AwarenessUpdate × R)
  unfolding decode_clients
  decode_update reader = do
    (len, reader') ← read_var_u64 reader
    let entries = decode_clients len [] reader'
    if has_room len then entries else fault panic
