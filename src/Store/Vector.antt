-- ===== src/Store/Vector.antt =====
-- `BlockStore::get_state_vector` of block_store.rs.
use crdt_probe.Prelude.{
  ℕ, ◌≡◌, refl, ap, ◌∙◌, false, inl, inr, Bool-cases, Option, none, some, List, [], ◌∷◌, ◌==◌,
  if◌then◌else◌, ==_iff, subst,
}
use crdt_probe.Prelude.Maps.{Map, find, insert, IsMap, find-insert_other, find-insert_same}
use crdt_probe.IdSet.{IdSet}
use crdt_probe.StateVector.{StateVector, get, or_default}
use crdt_probe.Store.{Block, list_clock}
use crdt_probe.Store.Clients.{BlockStore, get_clock, cut_skips, clocks_of, get_state_vector}
use crdt_probe.Ids.Ranges.{clock_start, Entry}

-- What the skips of a client make of a clock: the first of them, if there is one.
abbrev pub cut_at : Option (List (Entry (Unit {0}))) → Option ℕ → Option ℕ
cut_at none old = old
cut_at (some ranges) old = elim (clock_start ranges) [ none ↦ old | some clock ↦ some clock ]

find-clocks_of :
    (clients : Map (List Block)) (client : ℕ)
    → or_default (find client (clocks_of clients))
      ≡ elim (find client clients) [ none ↦ 0 | some list ↦ list_clock list ]
unfolding find clocks_of
find-clocks_of [] client = refl
find-clocks_of (x ∷ clients) client = elim (Bool-cases (x.0 == client)) [
  | inl same ↦ rw same refl
  | inr other ↦ rw other (find-clocks_of clients client)
]

-- One client's skips, in front of the others.
cut_one :
    (x : ℕ × List (Entry (Unit {0}))) (skips : IdSet) (sv : StateVector) (client : ℕ) (o : Option ℕ)
    → clock_start x.1 ≡ o
    → find x.0 skips ≡ none
    → cut_at
        (find client skips)
        (find client (elim o [ none ↦ sv | some clock ↦ insert x.0 clock sv ]))
      ≡ cut_at (if x.0 == client then some x.1 else find client skips) (find client sv)
cut_one x skips sv client o e new = elim (Bool-cases (x.0 == client)) [
  | inl same ↦
      let k = (==_iff x.0 client).0 same in
      let new' = subst (λ (n : ℕ). find n skips ≡ none) k new in rw (same, new') (first o e k)
  | inr other ↦ rw other (apart o other)
]
  where
    first :
        (o : Option ℕ)
        → clock_start x.1 ≡ o
        → x.0 ≡ client
        → find client (elim o [ none ↦ sv | some clock ↦ insert x.0 clock sv ])
          ≡ cut_at (some x.1) (find client sv)
    first none e k = rw (cut_at, e) refl
    first (some clock) e k =
        rw (cut_at, e)
          (subst (λ (n : ℕ). find n (insert x.0 clock sv) ≡ some clock) k
            (find-insert_same x.0 clock sv))

    apart :
        (o : Option ℕ)
        → (x.0 == client) ≡ false
        → cut_at
            (find client skips)
            (find client (elim o [ none ↦ sv | some clock ↦ insert x.0 clock sv ]))
          ≡ cut_at (find client skips) (find client sv)
    apart none other = refl
    apart (some clock) other =
        ap (cut_at (find client skips)) (find-insert_other x.0 client clock sv other)

cut_skips-step :
    (x : ℕ × List (Entry (Unit {0}))) (skips : IdSet) (sv : StateVector) (o : Option ℕ)
    → clock_start x.1 ≡ o
    → cut_skips (x ∷ skips) sv
      ≡ cut_skips skips (elim o [ none ↦ sv | some clock ↦ insert x.0 clock sv ])
unfolding cut_skips
cut_skips-step x skips sv none e = rw (cut_skips, e) refl
cut_skips-step x skips sv (some clock) e = rw (cut_skips, e) refl

find-cut_skips :
    (skips : IdSet) (sv : StateVector) (client : ℕ)
    → IsMap skips
    → find client (cut_skips skips sv) ≡ cut_at (find client skips) (find client sv)
find-cut_skips [] sv client h = unfold find cut_skips in refl
find-cut_skips (x ∷ skips) sv client h =
    let o = clock_start x.1 in
    ap (find client) (cut_skips-step x skips sv o refl)
    ∙ find-cut_skips skips (elim o [ none ↦ sv | some clock ↦ insert x.0 clock sv ]) client h.1
    ∙ (unfold find in cut_one x skips sv client o refl h.0)

-- In the state vector of a store, the clock of a client is the first clock of its skips, or, for a
-- client without skips, the clock that `get_clock` gives, 0 for one that the store does not know.
pub get-get_state_vector :
    (store : BlockStore) (client : ℕ)
    → IsMap store.skips
    → get client (get_state_vector store) ≡ elim (find client store.skips) [
      | none ↦ get_clock client store
      | some ranges ↦ elim (clock_start ranges) [
        | none ↦ get_clock client store
        | some clock ↦ clock
      ]
    ]
unfolding get get_state_vector get_clock
get-get_state_vector store client h =
    ap or_default (find-cut_skips store.skips (clocks_of store.clients) client h)
    ∙ by_cut (find client store.skips)
  where
    by_ranges :
        (o : Option ℕ)
        → or_default
            (elim o [ none ↦ find client (clocks_of store.clients) | some clock ↦ some clock ])
          ≡ elim o [
            | none ↦ elim (find client store.clients) [ none ↦ 0 | some list ↦ list_clock list ]
            | some clock ↦ clock
          ]
    by_ranges none = find-clocks_of store.clients client
    by_ranges (some clock) = refl

    by_cut :
        (o : Option (List (Entry (Unit {0}))))
        → or_default (cut_at o (find client (clocks_of store.clients))) ≡ elim o [
          | none ↦ elim (find client store.clients) [ none ↦ 0 | some list ↦ list_clock list ]
          | some ranges ↦ elim (clock_start ranges) [
            | none ↦ elim (find client store.clients) [ none ↦ 0 | some list ↦ list_clock list ]
            | some clock ↦ clock
          ]
        ]
    by_cut none = find-clocks_of store.clients client
    by_cut (some ranges) = by_ranges (clock_start ranges)
