-- ===== src/Tests/Sets.antt =====
-- Maps of ranges, sets of ids, and state vectors.
use Prim.Native.Nat.{Ordering}
use crdt_probe.Prelude.{true, false, ◌≡◌, refl, none, some, [], ◌∷◌, ℕ, List, arith}
use crdt_probe.Prelude.Maps.{find, IsMap}
use crdt_probe.Ids.Ranges.{entry, unit_merge}
use crdt_probe.Ids.Query.{contains_clock}
use crdt_probe.Ids.Union.Round.{union}
use crdt_probe.Ids.Exclude.{cut, push_rest, skip_left}
use crdt_probe.Ids.Exclude.Lookup.{minus}
use crdt_probe.IdMap.{contains, merge_with, diff_with}
use crdt_probe.IdMap.Meaning.{value_at, IsIdMap}
use crdt_probe.IdMap.Combine.{merge_with-union, diff_with-minus}
use crdt_probe.IdSet.{IdSet}
use crdt_probe.IdSet.Codec.{ds_encoder_v1, ds_decoder_v1, encode_id_set, decode_id_set}
use crdt_probe.IdSet.Codec.VersionTwo.{
  encoder_v2_write, decoder_v2_read, ds_encoder_v2, ds_decoder_v2,
}
use crdt_probe.IdSet.Codec.VersionTwo.RoundTrip.{decode_id_set-encode_id_set_v2}
use crdt_probe.Encoding.Result.{ok}
use crdt_probe.Encoding.Io.{vec_write, cursor_read, Cursor, before, behind}
use crdt_probe.Snapshot.{Snapshot, is_visible, encode_snapshot, decode_snapshot}
use crdt_probe.Snapshot.Codec.{IsSnapshot, decode_snapshot-encode_snapshot}
use crdt_probe.StateVector.{StateVector, get, partial_cmp}
use crdt_probe.StateVector.Compare.{Compares, partial_cmp-Compares}

abbrev left : IdSet
left = (1, entry 0 5 tt ∷ entry 7 9 tt ∷ []) ∷ (4, entry 2 3 tt ∷ []) ∷ []

abbrev right : IdSet
right = (4, entry 0 9 tt ∷ []) ∷ (1, entry 4 8 tt ∷ []) ∷ []

left-IsIdMap : IsIdMap 9 left
unfolding find
left-IsIdMap = ((refl, (refl, tt)), λ client. ground arith)

right-IsIdMap : IsIdMap 9 right
unfolding find
right-IsIdMap = ((refl, (refl, tt)), λ client. ground arith)

diff_run : diff_with left right ≡ (1, entry 0 4 tt ∷ entry 8 9 tt ∷ []) ∷ []
unfolding diff_with push_rest cut skip_left
diff_run = refl

merge_with-union_example :
    IsIdMap 9 (merge_with left right)
    × (value_at 1 6 (merge_with left right) ≡ union (value_at 1 6 left) (value_at 1 6 right))
merge_with-union_example = merge_with-union 9 1 6 left right left-IsIdMap right-IsIdMap

diff_with-minus_example :
    IsIdMap 9 (diff_with left right)
    × (value_at 1 4 (diff_with left right) ≡ minus (value_at 1 4 left) (value_at 1 4 right))
diff_with-minus_example = diff_with-minus 9 9 1 4 left right left-IsIdMap right-IsIdMap

unit_idem : (a : Unit {0}) → a ≡ a
unit_idem a = refl

abbrev ours : StateVector
ours = (1, 1) ∷ (2, 2) ∷ []

abbrev theirs : StateVector
theirs = (2, 1) ∷ (3, 2) ∷ []

ours-IsMap : IsMap ours
unfolding find
ours-IsMap = (refl, (refl, tt))

theirs-IsMap : IsMap theirs
unfolding find
theirs-IsMap = (refl, (refl, tt))

compare_run : (partial_cmp ours theirs ≡ none) × (partial_cmp ours ours ≡ some Ordering.eq)
unfolding partial_cmp
compare_run = (refl, refl)

partial_cmp-Compares_example : Compares ours theirs (partial_cmp ours theirs)
partial_cmp-Compares_example = partial_cmp-Compares ours theirs ours-IsMap theirs-IsMap

abbrev deleted : IdSet
deleted = (1, entry 2 5 tt ∷ entry 7 8 tt ∷ []) ∷ (4, entry 0 1 tt ∷ []) ∷ []

deleted-IsMap : IsMap deleted
unfolding find
deleted-IsMap = (refl, (refl, tt))

decode_id_set-encode_id_set_v2_example :
    let out = (encode_id_set ds_encoder_v2 deleted (record { buf = []; ds_curr_val = 3 })).buf in
    (last : ℕ) × (decode_id_set ds_decoder_v2
        (record { cursor = before [] out []; ds_curr_val = 6 })
      ≡ ok (deleted, record { cursor = behind out []; ds_curr_val = last }))
decode_id_set-encode_id_set_v2_example =
    decode_id_set-encode_id_set_v2 deleted [] [] 3 6 (omega arith)
      (
        (
          omega arith,
          omega arith,
          (omega arith, omega arith, omega arith, (omega arith, omega arith, omega arith, tt)),
        ),
        ((omega arith, omega arith, (omega arith, omega arith, omega arith, tt)), tt),
      )
      deleted-IsMap

abbrev moment : Snapshot
moment = record { delete_set = deleted; state_map = (1, 9) ∷ [] }

-- Clock 6 of client 1 is still there, clock 7 is deleted, and clock 9 is not there yet.
visible_clocks :
    (is_visible 1 6 moment ≡ true)
    × (is_visible 1 7 moment ≡ false)
    × (is_visible 1 9 moment ≡ false)
unfolding is_visible get contains contains_clock find
visible_clocks = (refl, refl, refl)

moment-IsSnapshot : IsSnapshot moment
unfolding find
moment-IsSnapshot = (
  omega arith,
  (
    (omega arith, omega arith, ((omega arith, omega arith), ((omega arith, omega arith), tt))),
    ((omega arith, omega arith, ((omega arith, omega arith), tt)), tt),
  ),
  (refl, (refl, tt)),
  omega arith,
  ((omega arith, omega arith), tt),
  (refl, tt),
)

decode_snapshot-encode_snapshot_example :
    let out = encode_snapshot (ds_encoder_v1 (List ℕ)) moment [] in
    decode_snapshot (ds_decoder_v1 Cursor) (before [] out []) ≡ ok (moment, behind out [])
decode_snapshot-encode_snapshot_example =
    decode_snapshot-encode_snapshot moment [] [] moment-IsSnapshot
