-- ===== src/Sync/Awareness/Receive/Learns.antt =====
-- What a client learns from an update of sync/awareness.rs, case by case.
use crdt_probe.Prelude.{
  ℕ, ◌+◌, ◌%◌, ◌^◌, ◌≤◌, ◌<◌, ◌≡◌, ◌≢◌, refl, sym, ap, ap₂, subst, Bool, true, false, Bool-cases,
  inl, inr, Option, none, some, [], ◌∷◌, ◌==◌, ==_iff, arith,
}
use crdt_probe.Prelude.Maps.{IsMap, find}
use crdt_probe.Sync.Awareness.{
  Str, str_eq, null_str, ClientState, Awareness, AwarenessUpdateEntry, AwarenessUpdate,
}
use crdt_probe.Sync.Awareness.Receive.{new_json}
use crdt_probe.Sync.Awareness.Receive.Meaning.{
  known?, newer, known-newer, states_after, apply_update-known,
}

str_eq-eq : (s t : Str) → str_eq s t ≡ true → s ≡ t
str_eq-eq [] [] h = refl
str_eq-eq [] (b ∷ t) h = absurd (ground (arith, h))
str_eq-eq (a ∷ s) [] h = absurd (ground (arith, h))
str_eq-eq (a ∷ s) (b ∷ t) h = elim (Bool-cases (a == b)) [
  | inl same ↦ ap₂ (λ (x : ℕ) xs. x ∷ xs) ((==_iff a b).0 same) (str_eq-eq s t (rw same at h))
  | inr other ↦ absurd (ground (arith, other, h))
]

new_json-null : (json : Str) → json ≡ null_str → new_json json ≡ none
new_json-null json e = subst (λ t. new_json t ≡ none) (sym e) refl

new_json-data : (json : Str) → json ≢ null_str → new_json json ≡ some json
new_json-data json ne = elim (Bool-cases (str_eq json null_str)) [
  | inl same ↦ absurd (ne (str_eq-eq json null_str same))
  | inr other ↦ rw other refl
]

-- What becomes of a state that is known, by the clocks and by the text that is sent:
-- an older entry changes nothing, and neither does one of the same clock but for the removal of
-- data; newer data is taken over; `null` removes the data of another client, and of the own one
-- it only counts the clock up.
abbrev pub Changes : ℕ → ℕ → ℕ → AwarenessUpdateEntry → ClientState → ClientState → Type 0
Changes me now k e s s' =
    (e.clock < s.clock → s' ≡ s)
    × (e.clock ≡ s.clock → e.json ≢ null_str → s' ≡ s)
    × (e.clock ≡ s.clock → s.json ≡ none → s' ≡ s)
    × (s.clock < e.clock
        → e.json ≢ null_str
        → s' ≡ record { clock = e.clock; last_updated = now; json = some e.json })
    × (s.clock < e.clock
        → e.json ≡ null_str
        → s.json ≡ none
        → s' ≡ record { clock = e.clock; last_updated = now; json = none })
    × ((text : Str)
        → s.clock ≤ e.clock
        → e.json ≡ null_str
        → s.json ≡ some text
        → k ≢ me
        → s' ≡ record { clock = e.clock; last_updated = now; json = none })
    × ((text : Str)
        → s.clock ≤ e.clock
        → e.json ≡ null_str
        → s.json ≡ some text
        → k ≡ me
        → s' ≡ record { clock = (e.clock + 1) % 2 ^ 32; last_updated = now; json = some text })

-- What is known of a client before and after an update that may have an entry for it.
abbrev pub Learns :
    ℕ → ℕ → ℕ → Option AwarenessUpdateEntry → Option ClientState → Option ClientState → Type 0
Learns me now k none old new = new ≡ old
Learns me now k (some e) none new =
    (e.json ≢ null_str
      → new ≡ some (record { clock = e.clock; last_updated = now; json = some e.json }))
    × (e.json ≡ null_str → new ≡ some (record { clock = e.clock; last_updated = now; json = none }))
Learns me now k (some e) (some s) new =
    (s' : ClientState) × (new ≡ some s') × Changes me now k e s s'

module _ (me now k clock : ℕ) (s : ClientState) where
  older-newer : (new : Option Str) → clock < s.clock → newer me now k clock new s ≡ s
  older-newer none h = ground arith
  older-newer (some x) h = ground arith

  same_data-newer : (x : Str) → clock ≡ s.clock → newer me now k clock (some x) s ≡ s
  same_data-newer x h = ground arith

  same_none-newer :
      (new : Option Str) → clock ≡ s.clock → s.json ≡ none → newer me now k clock new s ≡ s
  same_none-newer new h e = ground (arith, e)

  data-newer :
      (x : Str)
      → s.clock < clock
      → newer me now k clock (some x) s
        ≡ record { clock = clock; last_updated = now; json = some x }
  data-newer x h = ground arith

  gone-newer :
      s.clock < clock
      → s.json ≡ none
      → newer me now k clock none s ≡ record { clock = clock; last_updated = now; json = none }
  gone-newer h e = ground (arith, e)

  removed-newer :
      (text : Str)
      → s.clock ≤ clock
      → s.json ≡ some text
      → k ≢ me
      → newer me now k clock none s ≡ record { clock = clock; last_updated = now; json = none }
  removed-newer text h e other =
      let not_own : (k == me) ≡ false = elim (Bool-cases (k == me)) [
        | inl equal ↦ absurd (other ((==_iff k me).0 equal))
        | inr e ↦ e
      ] in
      ground (arith, e, not_own)

  own-newer :
      (text : Str)
      → s.clock ≤ clock
      → s.json ≡ some text
      → k ≡ me
      → newer me now k clock none s
        ≡ record { clock = (clock + 1) % 2 ^ 32; last_updated = now; json = some text }
  own-newer text h e same =
      let own : (k == me) ≡ true = (==_iff k me).1 same in ground (arith, e, own)

known-Changes :
    (me now k : ℕ) (e : AwarenessUpdateEntry) (s : ClientState)
    → Changes me now k e s (newer me now k e.clock (new_json e.json) s)
known-Changes me now k e s =
    let null = new_json-null e.json in
    let filled = new_json-data e.json in
    (
      older-newer me now k e.clock s (new_json e.json),
      λ same ne. rw (filled ne) (same_data-newer me now k e.clock s e.json same),
      same_none-newer me now k e.clock s (new_json e.json),
      λ less ne. rw (filled ne) (data-newer me now k e.clock s e.json less),
      λ less gone no_data. rw (null gone) (gone-newer me now k e.clock s less no_data),
      λ text le gone has other. rw (null gone) (removed-newer me now k e.clock s text le has other),
      λ text le gone has own. rw (null gone) (own-newer me now k e.clock s text le has own),
    )

known?-Learns :
    (me now k : ℕ) (o : Option AwarenessUpdateEntry) (old : Option ClientState)
    → Learns me now k o old (known? me now k o old)
known?-Learns me now k none old = refl
known?-Learns me now k (some e) none =
    (λ ne. rw (new_json-data e.json ne) refl, λ gone. rw (new_json-null e.json gone) refl)
known?-Learns me now k (some e) (some s) = (
  newer me now k e.clock (new_json e.json) s,
  ap (λ t. some t) (known-newer me now k e s),
  known-Changes me now k e s,
)

-- An awareness update, with no client twice, leaves the states a map, and every client is changed
-- by its own entry alone, whatever the order of the entries: a client without an entry keeps its
-- state; one that was not known gets the clock and the data of its entry; the state of one that was
-- known stays where the entry is older, or has the same clock and removes no data; a newer entry
-- gives it its clock and its data; and an entry without data, of the same clock or newer, removes
-- the data of another client, while the own client keeps its data, with the clock of the entry and
-- one more.
pub apply_update-Learns :
    (gen : Bool) (now : ℕ) (u : AwarenessUpdate) (a : Awareness)
    → IsMap u
    → IsMap a.states
    → IsMap (states_after gen now u a)
      × ((k : ℕ)
          → Learns a.client_id now k
              (find k u)
              (find k a.states)
              (find k (states_after gen now u a)))
apply_update-Learns gen now u a h i =
    let (is_map, all) = apply_update-known gen now u a h i in
    (
      is_map,
      λ k.
          subst (Learns a.client_id now k (find k u) (find k a.states)) (sym (all k))
            (known?-Learns a.client_id now k (find k u) (find k a.states)),
    )
