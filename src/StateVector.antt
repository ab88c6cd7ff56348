-- ===== src/StateVector.antt =====
-- State vectors (native/yrs-src/yrs/src/state_vector.rs): how many clocks of each client are known.
pub mod Compare
pub mod Access
pub mod Codec
use crdt_probe.Prelude.{
  ℕ, ◌+◌, ◌%◌, ◌^◌, ◌≤◌, ◌<◌, max, min, ◌≡◌, Bool, true, false, not, ◌&&◌, Option, none, some, List,
  [], ◌∷◌, ltb, leb, ◌==◌, if◌then◌else◌, length,
}
use Prim.Native.Nat.{compare, Ordering}
use crdt_probe.Prelude.Maps.{Map, find, upsert, insert}

-- `StateVector(HashMap<ClientID, u32>)`. A client is the number that `ClientID::get` gives.
abbrev pub StateVector : Type 0
StateVector = Map ℕ

-- A clock that may be missing counts as 0 (`or_default`).
abbrev pub or_default : Option ℕ → ℕ
or_default none = 0
or_default (some clock) = clock

unfoldable pub get : ℕ → StateVector → ℕ
unfolding find
get client sv = or_default (find client sv)

unfoldable pub contains : ℕ → ℕ → StateVector → Bool
unfolding get
contains client clock sv = leb clock (get client sv)

unfoldable pub contains_client : ℕ → StateVector → Bool
unfolding find
contains_client client sv = elim (find client sv) [ none ↦ false | some clock ↦ true ]

-- The sum wraps at 32 bits, as in a release build.
unfoldable pub inc_by : ℕ → ℕ → StateVector → StateVector
unfolding upsert
inc_by client delta sv =
    if ltb 0 delta then upsert client (λ old. (or_default old + delta) % 2 ^ 32) sv else sv

unfoldable pub set_min : ℕ → ℕ → StateVector → StateVector
unfolding upsert
set_min client clock sv =
    upsert client (λ old. elim old [ none ↦ clock | some value ↦ min value clock ]) sv

unfoldable pub set_max : ℕ → ℕ → StateVector → StateVector
unfolding upsert
set_max client clock sv = upsert client (λ old. max (or_default old) clock) sv

unfoldable pub merge : StateVector → StateVector → StateVector
unfolding upsert
merge sv [] = sv
merge sv (x ∷ other) = merge (upsert x.0 (λ old. max (or_default old) x.1) sv) other

-- The `match` of `partial_cmp`: a comparison against the result so far.
unfoldable pub step : Ordering → Ordering → Option Ordering
step Ordering.lt Ordering.gt = none
step Ordering.gt Ordering.lt = none
step Ordering.eq result = some result
step Ordering.lt Ordering.lt = some Ordering.lt
step Ordering.lt Ordering.eq = some Ordering.lt
step Ordering.gt Ordering.gt = some Ordering.gt
step Ordering.gt Ordering.eq = some Ordering.gt

-- The two loops: over the clocks of `self`, and over those of `other`.
unfoldable pub scan_self : StateVector → StateVector → Ordering → Option Ordering
unfolding step get
scan_self [] other result = some result
scan_self (x ∷ sv) other result = elim (step (compare x.1 (get x.0 other)) result) [
  | none ↦ none
  | some result' ↦ scan_self sv other result'
]

unfoldable pub scan_other : StateVector → StateVector → Ordering → Option Ordering
unfolding step get
scan_other sv [] result = some result
scan_other sv (x ∷ other) result = elim (step (compare (get x.0 sv) x.1) result) [
  | none ↦ none
  | some result' ↦ scan_other sv other result'
]

unfoldable pub partial_cmp : StateVector → StateVector → Option Ordering
unfolding scan_self scan_other
partial_cmp sv other = elim (scan_self sv other Ordering.eq) [
  | none ↦ none
  | some result ↦ scan_other sv other result
]
