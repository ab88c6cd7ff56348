-- ===== src/StateVector/Access.antt =====
-- What the operations that change a state vector do to the clock of each client.
use crdt_probe.Prelude.{
  ℕ, ◌+◌, ◌%◌, ◌^◌, ◌<◌, max, ◌≡◌, ◌∙◌, Option, [], ◌∷◌, ◌==◌, if◌then◌else◌, arith,
}
use crdt_probe.Prelude.Maps.{find, upsert, IsMap, find-upsert, upsert-IsMap}
use crdt_probe.StateVector.{StateVector, or_default, get, inc_by, set_max, merge}

get-upsert :
    (sv : StateVector) (client c : ℕ) (f : Option ℕ → ℕ)
    → get c (upsert client f sv) ≡ (if client == c then f (find client sv) else get c sv)
unfolding get
get-upsert sv client c f = ground (arith, find-upsert sv client c f)

-- `inc_by` adds to the clock of its client, as long as the sum fits 32 bits, and to no other.
pub inc_by-get :
    (sv : StateVector) (client delta c : ℕ)
    → get client sv + delta < 2 ^ 32
    → get c (inc_by client delta sv) ≡ (if client == c then get client sv + delta else get c sv)
unfolding inc_by get
inc_by-get sv client delta c h =
    let sum : (or_default (find client sv) + delta) % 2 ^ 32 ≡ or_default (find client sv) + delta =
      omega arith in
    ground (arith, sum, get-upsert sv client c (λ old. (or_default old + delta) % 2 ^ 32))

-- `set_max` raises the clock of its client to the given one at least, and changes no other.
pub set_max-get :
    (sv : StateVector) (client clock c : ℕ)
    → get c (set_max client clock sv)
      ≡ (if client == c then max (get client sv) clock else get c sv)
unfolding set_max get
set_max-get sv client clock c = get-upsert sv client c (λ old. max (or_default old) clock)

-- The merged clock of each client is the greater of the two, and no client gets two entries.
pub merge-max :
    (a b : StateVector) (c : ℕ)
    → IsMap a
    → IsMap b
    → IsMap (merge a b) × (get c (merge a b) ≡ max (get c a) (get c b))
unfolding merge get find
merge-max a [] c h k = (h, omega arith)
merge-max a (x ∷ b) c h k =
    let f = λ (old : Option ℕ). max (or_default old) x.1 in
    let rest = merge-max (upsert x.0 f a) b c (upsert-IsMap a x.0 f h) k.1 in
    (rest.0, rest.1 ∙ rw (get-upsert a x.0 c f) (ground (arith, k.0)))
