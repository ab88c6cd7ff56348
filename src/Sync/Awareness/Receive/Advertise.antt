-- ===== src/Sync/Awareness/Receive/Advertise.antt =====
-- `Awareness::update` of sync/awareness.rs: the update that is sent to others.
use crdt_probe.Prelude.{
  ℕ, ◌≡◌, refl, sym, ap, ◌∙◌, Option, none, some, [], ◌∷◌, All, ◌==◌, Bool-cases, Option-cases, inl,
  inr, ==_iff, arith, List, ◌++◌, ◌≢◌, ◌⊎◌,
}
use crdt_probe.Prelude.Maps.{Map, IsMap, find, insert, find-upsert, upsert-IsMap}
use crdt_probe.Sync.Awareness.{
  Str, ClientState, Awareness, AwarenessUpdateEntry, AwarenessUpdate, online,
}
use crdt_probe.Sync.Awareness.Receive.{
  Outcome, found, client_not_found, or_null, collect, update, update_with_clients,
}

-- What is told of a client: its clock and its data, and nothing where it has no data.
abbrev pub told : ClientState → Option Str → Option AwarenessUpdateEntry
told s none = none
told s (some json) = some (record { clock = s.clock; json = json })

abbrev pub told? : Option ClientState → Option AwarenessUpdateEntry
told? none = none
told? (some s) = told s s.json

-- `o`, and `p` where it is none.
abbrev or_else :
    Option AwarenessUpdateEntry → Option AwarenessUpdateEntry → Option AwarenessUpdateEntry
or_else none p = p
or_else (some e) p = some e

or_else-none : (o : Option AwarenessUpdateEntry) → or_else o none ≡ o
or_else-none none = refl
or_else-none (some e) = refl

abbrev Collected : Map ClientState → AwarenessUpdate → Outcome → Type 0
Collected xs res out =
    (u : AwarenessUpdate) × (out ≡ found u)
    × IsMap u
    × ((k : ℕ) → find k u ≡ or_else (told? (find k xs)) (find k res))

online_first :
    (x : ℕ × ClientState) (xs : Map ClientState) (json : Str)
    → x.1.json ≡ some json
    → online (x ∷ xs) ≡ x.0 ∷ online xs
unfolding online
online_first x xs json e = rw e refl

module _ (states : Map ClientState) where
  abbrev IsKnown : ℕ × ClientState → Type 0
  IsKnown x = find x.0 states ≡ some x.1

  skipped :
      (x : ℕ × ClientState) (xs : Map ClientState) (res : AwarenessUpdate) (k : ℕ)
      → x.1.json ≡ none
      → find x.0 xs ≡ none
      → or_else (told? (find k xs)) (find k res) ≡ or_else (told? (find k (x ∷ xs))) (find k res)
  unfolding find
  skipped x xs res k offline new = elim (Bool-cases (x.0 == k)) [
    | inl same ↦ rw (same, sym ((==_iff x.0 k).0 same), new, offline) refl
    | inr other ↦ rw other refl
  ]

  collected :
      (x : ℕ × ClientState) (xs : Map ClientState) (res : AwarenessUpdate) (k : ℕ) (json : Str)
      → x.1.json ≡ some json
      → find x.0 xs ≡ none
      → or_else
          (told? (find k xs))
          (find k (insert x.0 (record { clock = x.1.clock; json = json }) res))
        ≡ or_else (told? (find k (x ∷ xs))) (find k res)
  unfolding find insert
  collected x xs res k json has_json new = elim (Bool-cases (x.0 == k)) [
    | inl same ↦ rw (find-upsert, same, sym ((==_iff x.0 k).0 same), new, has_json) refl
    | inr other ↦ rw (find-upsert, other) refl
  ]

  told_first :
      (x : ℕ × ClientState) (xs : Map ClientState) (res : AwarenessUpdate) (json : Str)
      → IsKnown x
      → x.1.json ≡ some json
      → collect states (online (x ∷ xs)) res
        ≡ collect states (online xs) (insert x.0 (record { clock = x.1.clock; json = json }) res)
  unfolding collect online
  told_first x xs res json e has_json =
      ap (λ l. collect states l res) (online_first x xs json has_json)
      ∙ rw (e, collect, has_json) refl

  collect_known :
      (xs : Map ClientState) (res : AwarenessUpdate)
      → All IsKnown xs
      → IsMap xs
      → IsMap res
      → Collected xs res (collect states (online xs) res)
  unfolding collect online find insert
  collect_known [] res h i j = (res, refl, j, λ k. refl)
  collect_known (x ∷ xs) res h i j = elim (Option-cases x.1.json) [
    | inl offline ↦
        let (u, e, m, all) = collect_known xs res h.1 i.1 j in
        (u, rw offline e, m, λ k. all k ∙ skipped x xs res k offline i.0)
    | inr (json, has_json) ↦
        let entry : AwarenessUpdateEntry = record { clock = x.1.clock; json = json } in
        let (u, e, m, all) =
          collect_known xs (insert x.0 entry res) h.1 i.1 (upsert-IsMap res x.0 (λ old. entry) j) in
        (
          u,
          told_first x xs res json h.0 has_json ∙ e,
          m,
          λ k. all k ∙ collected x xs res k json has_json i.0,
        )
  ]

All-weaken :
    (x : ℕ × ClientState) (xs ys : Map ClientState)
    → find x.0 ys ≡ none
    → All (IsKnown xs) ys
    → All (IsKnown (x ∷ xs)) ys
unfolding find
All-weaken x xs [] h a = tt
All-weaken x xs (y ∷ ys) h a = (ground (arith, h, a.0), All-weaken x xs ys (ground (arith, h)) a.1)

All-IsKnown : (xs : Map ClientState) → IsMap xs → All (IsKnown xs) xs
unfolding find
All-IsKnown [] h = tt
All-IsKnown (x ∷ xs) h = (ground arith, All-weaken x xs xs h.0 (All-IsKnown xs h.1))

-- `update` finds every client that it asks for, and tells of exactly the clients that have data,
-- each once, with its clock and its data.
pub update-told :
    (a : Awareness)
    → IsMap a.states
    → (u : AwarenessUpdate) × (update a ≡ found u)
      × IsMap u
      × ((k : ℕ) → find k u ≡ told? (find k a.states))
unfolding update update_with_clients find
update-told a h =
    let (u, e, m, all) = collect_known a.states a.states [] (All-IsKnown a.states h) h tt in
    (u, e, m, λ k. all k ∙ or_else-none (told? (find k a.states)))

-- What `collect` does when it is asked for unknown clients.
collect-cases :
    (states : Map ClientState) (clients : List ℕ) (res : AwarenessUpdate)
    → (All (λ c. find c states ≢ none) clients
        × ((u : AwarenessUpdate) × (collect states clients res ≡ found u)))
      ⊎ ((pre : List ℕ) × (c : ℕ) × (post : List ℕ) × (clients ≡ pre ++ c ∷ post)
          × All (λ k. find k states ≢ none) pre
          × (find c states ≡ none)
          × (collect states clients res ≡ client_not_found c))
unfolding collect
collect-cases states [] res = inl (tt, (res, refl))
collect-cases states (c ∷ clients) res = elim (Option-cases (find c states)) [
  | inl unknown ↦ inr ([], c, clients, refl, tt, unknown, rw (unknown, collect) refl)
  | inr (m, known) ↦
      let is_known : find c states ≢ none = λ e. cc in
      elim (collect-cases states clients
        (insert c (record { clock = m.clock; json = or_null m.json }) res)) [
          | inl (all, (u, e)) ↦ inl ((is_known, all), (u, rw (known, collect) e))
          | inr (pre, d, post, split, all, unknown, e) ↦ inr (
            c ∷ pre,
            d,
            post,
            ap (λ t. c ∷ t) split,
            (is_known, all),
            unknown,
            rw (known, collect) e,
          )
        ]
]

-- `update_with_clients` answers with an update exactly when it knows all the clients that it is
-- asked for; otherwise it names the first that it does not know.
pub update_with_clients-cases :
    (clients : List ℕ) (a : Awareness)
    → (All (λ c. find c a.states ≢ none) clients
        × ((u : AwarenessUpdate) × (update_with_clients clients a ≡ found u)))
      ⊎ ((pre : List ℕ) × (c : ℕ) × (post : List ℕ) × (clients ≡ pre ++ c ∷ post)
          × All (λ k. find k a.states ≢ none) pre
          × (find c a.states ≡ none)
          × (update_with_clients clients a ≡ client_not_found c))
unfolding update_with_clients
update_with_clients-cases clients a = collect-cases a.states clients []
