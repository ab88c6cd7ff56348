-- ===== src/IdMap/Meaning.antt =====
-- The value of an id in a map of ranges, and what the queries and `insert_range` make of it.
use crdt_probe.Prelude.{
  ℕ, ◌≡◌, refl, sym, subst, false, Option, none, some, List, ◌==◌, Bool-cases, inl, inr,
}
use crdt_probe.Prelude.Maps.{find, upsert, IsMap, find-upsert}
use crdt_probe.Ids.Ranges.{Entry, lookup, Run}
use crdt_probe.Ids.Query.{contains_clock}
use crdt_probe.Ids.Query.Contains.{is_some, contains_clock-lookup}
use crdt_probe.IdMap.{IdMap, contains}

module _ {T : Type 0} where
  abbrev pub value_in : ℕ → Option (List (Entry T)) → Option T
  value_in clock none = none
  value_in clock (some ranges) = lookup ranges clock

  unfoldable pub value_at : ℕ → ℕ → IdMap T → Option T
  unfolding find
  value_at client clock map = value_in clock (find client map)

  -- The ranges of every client are sorted, and end at or before `hi`.
  abbrev pub RunIn : ℕ → Option (List (Entry T)) → Type 0
  RunIn hi none = Unit
  RunIn hi (some ranges) = Run 0 hi ranges

  abbrev pub IsIdMap : ℕ → IdMap T → Type 0
  IsIdMap hi map = IsMap map × ((client : ℕ) → RunIn hi (find client map))

  contains_in :
      (hi clock : ℕ) (o : Option (List (Entry T)))
      → RunIn hi o
      → (elim o [ none ↦ false | some ranges ↦ contains_clock ranges clock ])
        ≡ is_some (value_in clock o)
  contains_in hi clock none r = refl
  contains_in hi clock (some ranges) r = contains_clock-lookup ranges hi clock r

  -- An id is contained exactly when the map has a value for it.
  pub contains-value_at :
      (map : IdMap T) (hi client clock : ℕ)
      → IsIdMap hi map
      → contains client clock map ≡ is_some (value_at client clock map)
  unfolding contains value_at
  contains-value_at map hi client clock h = contains_in hi clock (find client map) (h.1 client)

  pub RunIn-upsert :
      (hi' client k : ℕ) (f : Option (List (Entry T)) → List (Entry T)) (map : IdMap T)
      → Run 0 hi' (f (find client map))
      → RunIn hi' (find k map)
      → RunIn hi' (find k (upsert client f map))
  RunIn-upsert hi' client k f map r s =
      subst (RunIn hi') (sym (find-upsert map client k f))
        (elim (Bool-cases (client == k)) [ inl same ↦ rw same r | inr other ↦ rw other s ])
