-- ===== src/Tests/Presence.antt =====
-- The awareness of a client under updates.
use crdt_probe.Prelude.{
  All, List, [], ◌∷◌, ◌≢◌, ◌⊎◌, ◌++◌, ℕ, ◌≡◌, refl, true, false, none, some, [], ◌∷◌, arith, inr,
  ◌≤◌,
}
use crdt_probe.Prelude.Maps.{find, upsert, IsMap}
use crdt_probe.Sync.Awareness.{null_str, ClientState, Awareness, AwarenessUpdate, next_clock}
use crdt_probe.Sync.Awareness.Receive.{
  apply_update_internal, update, found, client_not_found, update_with_clients,
}
use crdt_probe.Sync.Awareness.Receive.Meaning.{states_after}
use crdt_probe.Sync.Awareness.Receive.Learns.{Learns, apply_update-Learns}
use crdt_probe.Sync.Awareness.Receive.Local.{
  IsPresent, receive_update, here, next, Reach-IsPresent, apply_update-clock,
}
use crdt_probe.Sync.Awareness.Receive.Converge.{view?, apply_update-swap}
use crdt_probe.Sync.Awareness.Receive.Advertise.{told?, update-told, update_with_clients-cases}

-- Client 1, with a state of its own and one of client 2, which is offline.
abbrev first : Awareness
first = record {
  client_id = 1;
  states =
      (1, record { clock = 3; last_updated = 0; json = some (49 ∷ []) })
      ∷ (2, record { clock = 4; last_updated = 0; json = none })
      ∷ [];
  on_update = true;
  on_change = false;
}

first-IsMap : IsMap first.states
unfolding find
first-IsMap = (refl, (refl, tt))

-- Client 2 is back, and claims that client 1 is gone.
abbrev rumour : AwarenessUpdate
rumour = (1, record { clock = 9; json = null_str }) ∷ (2, record { clock = 5; json = 50 ∷ [] }) ∷ []

rumour-IsMap : IsMap rumour
unfolding find
rumour-IsMap = (refl, (refl, tt))

abbrev farewell : AwarenessUpdate
farewell = (2, record { clock = 5; json = null_str }) ∷ []

farewell-IsMap : IsMap farewell
unfolding find
farewell-IsMap = (refl, tt)

-- Its own state stays, with a clock past the claim's.
after_rumour :
    states_after true 7 rumour first
    ≡ (1, record { clock = 10; last_updated = 7; json = some (49 ∷ []) })
      ∷ (2, record { clock = 5; last_updated = 7; json = some (50 ∷ []) })
      ∷ []
unfolding apply_update_internal upsert
after_rumour = refl

-- A clock at the end of its range starts again at 0, below what the others have seen.
clock_wraps : next_clock 4294967295 ≡ 0
clock_wraps = refl

apply_update-Learns_example :
    IsMap (states_after true 7 rumour first)
    × ((k : ℕ)
        → Learns 1 7 k
            (find k rumour)
            (find k first.states)
            (find k (states_after true 7 rumour first)))
apply_update-Learns_example = apply_update-Learns true 7 rumour first rumour-IsMap first-IsMap

first-IsPresent : IsPresent first
unfolding find
first-IsPresent =
    (first-IsMap, (record { clock = 3; last_updated = 0; json = some (49 ∷ []) }, refl, refl))

Reach-IsPresent_example : IsPresent (apply_update_internal true 7 rumour first).awareness
Reach-IsPresent_example =
    Reach-IsPresent (next here (receive_update true 7 rumour first rumour-IsMap)) first-IsPresent

apply_update-clock_example :
    (s : ClientState) × (find 2 (states_after true 7 rumour first) ≡ some s) × (4 ≤ s.clock)
unfolding find
apply_update-clock_example =
    apply_update-clock true 7 rumour first 2 (record { clock = 4; last_updated = 0; json = none })
      rumour-IsMap (omega arith, (omega arith, tt)) first-IsMap refl

apply_update-swap_example :
    view?
      (find 2 (states_after true 8 farewell (apply_update_internal true 7 rumour first).awareness))
    ≡ view? (
        find 2 (states_after true 8 rumour (apply_update_internal true 7 farewell first).awareness))
unfolding find
apply_update-swap_example =
    apply_update-swap true 7 8 7 8 rumour farewell first 2 rumour-IsMap farewell-IsMap first-IsMap
      refl (λ e. inr (inr refl))

update-told_example :
    (u : AwarenessUpdate) × (update first ≡ found u)
    × IsMap u
    × ((k : ℕ) → find k u ≡ told? (find k first.states))
update-told_example = update-told first first-IsMap

update_with_clients-cases_example :
    (All (λ c. find c first.states ≢ none) (1 ∷ 5 ∷ [])
      × ((u : AwarenessUpdate) × (update_with_clients (1 ∷ 5 ∷ []) first ≡ found u)))
    ⊎ ((pre : List ℕ) × (c : ℕ) × (post : List ℕ) × (1 ∷ 5 ∷ [] ≡ pre ++ c ∷ post)
        × All (λ k. find k first.states ≢ none) pre
        × (find c first.states ≡ none)
        × (update_with_clients (1 ∷ 5 ∷ []) first ≡ client_not_found c))
update_with_clients-cases_example = update_with_clients-cases (1 ∷ 5 ∷ []) first
