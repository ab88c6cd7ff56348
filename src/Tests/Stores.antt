-- ===== src/Tests/Stores.antt =====
-- Runs of the operations on texts, contents, items and block stores, and each theorem at an input.
use crdt_probe.Prelude.{
  ℕ, ◌≡◌, refl, Bool, true, false, inr, none, some, List, [], ◌∷◌, ◌++◌, arith, ◌==◌,
}
use crdt_probe.Prelude.Maps.{find}
use crdt_probe.Encoding.Result.{Result, ok, err, fault, panic, unexpected_value}
use crdt_probe.Blocks.{BlockId}
use crdt_probe.Blocks.Range.{BlockRange, first_id}
use crdt_probe.Values.{Any}
use crdt_probe.Texts.{
  bytes, utf16, byte_len, utf16_len, string_len, scan_utf16, map_utf16_offset, split_at, split_str,
}
use crdt_probe.Texts.Split.{cut_units, split_str-cut_units}
use crdt_probe.Docs.{Options}
use crdt_probe.Fields.{Encoder, Decoder, Field, Gives, put_fields}
use crdt_probe.Fields
use crdt_probe.Content.{string, json, content_len, get_ref_number, splice, try_squash}
use crdt_probe.Content.Splice.{splice-try_squash}
use crdt_probe.Content.Lengths.{SplitsAt, splice-SplitsAt}
use crdt_probe.Content.Codec.{encode_slice, slice_string, decode_content}
use crdt_probe.Content.Codec.RoundTrip.{decode_content-json}
use crdt_probe.Items.{Item, Heap, named, splice_item, try_squash_item}
use crdt_probe.Items.Undo.{splice_item-try_squash_item}
use crdt_probe.Store.{
  Block, item, gc, skip, clock_start, block_len, clock_range, last_block, find_loop, find_from,
  find_index, block_id,
}
use crdt_probe.Store.Clients.{BlockStore, push, push_list, get_state_vector}
use crdt_probe.Store.Search.{Holds, find_index-Holds}
use crdt_probe.Store.Replace.{rest_before, rest_behind}
use crdt_probe.Store.Push.{push_list-inside}
use crdt_probe.Store.Contiguous.{IsContiguous}
use crdt_probe.Store.Vector.{get-get_state_vector}
use crdt_probe.Store.Valid.{IsStore, push-IsStore}
use crdt_probe.Store.Codec.{encode_block, decode_block, encode_item_slice, encode_place, item_info}
use crdt_probe.Store.Codec.RoundTrip.{encode_block-decode_block, arrived_item}
use crdt_probe.Store.Codec.Suffix.{IsBackPart, encode_with_offset-IsBackPart}
use crdt_probe.Ids.Ranges.{entry}
use crdt_probe.Ids.Ranges
use crdt_probe.StateVector.{get}

-- "a", a character of two UTF-16 units, and "b".
abbrev smile : List ℕ
smile = 97 ∷ 128_512 ∷ 98 ∷ []

-- A cut inside the character falls behind it.
split_str-cut_units_example : split_str smile 2 utf16 ≡ ok (cut_units smile 2)
unfolding byte_len
split_str-cut_units_example = split_str-cut_units smile 2 (omega arith) (omega arith)

cut_smile : cut_units smile 2 ≡ (97 ∷ 128_512 ∷ [], 98 ∷ [])
unfolding cut_units
cut_smile = refl

-- In bytes it panics.
split_inside : split_str smile 2 bytes ≡ fault panic
unfolding split_str split_at
split_inside = refl

smile_parts :
    splice (string smile) 1 utf16 ≡ ok (some (string (97 ∷ []), string (128_512 ∷ 98 ∷ [])))
unfolding splice split_str split_at map_utf16_offset scan_utf16
smile_parts = refl

splice-try_squash_example :
    try_squash (string (97 ∷ [])) (string (128_512 ∷ 98 ∷ [])) ≡ some (string smile)
splice-try_squash_example =
    splice-try_squash (string smile) (string (97 ∷ [])) (string (128_512 ∷ 98 ∷ [])) 1 utf16 tt
      smile_parts

splice-SplitsAt_example : SplitsAt (string smile) 2 (splice (string smile) 2 utf16)
unfolding utf16_len byte_len
splice-SplitsAt_example = splice-SplitsAt (string smile) 2 (omega arith, omega arith)

abbrev id : ℕ → BlockId
id clock = record { client = 1; clock = clock }

abbrev abc : Item
abc = record {
  id = id 0;
  len = 3;
  left = none;
  right = some 11;
  origin = none;
  right_origin = none;
  content = string (97 ∷ 98 ∷ 99 ∷ []);
  parent = named (116 ∷ []);
  redone = none;
  parent_sub = none;
  info = 2;
}

abbrev after_abc : Item
after_abc = record abc { id = id 3; left = some 10; right = none; origin = some (id 2) }

abbrev two_items : Heap
two_items = record { items = (10, abc) ∷ (11, after_abc) ∷ []; maps = [] }

abc_parts : splice abc.content 1 utf16 ≡ ok (some (string (97 ∷ []), string (98 ∷ 99 ∷ [])))
unfolding splice split_str split_at map_utf16_offset scan_utf16
abc_parts = refl

splice_item-try_squash_item_example :
    (mid after : Heap) × (splice_item 10 12 1 utf16 two_items ≡ ok (some mid))
    × (try_squash_item 10 12 mid ≡ ok (true, after))
    × ((q : ℕ) → (12 == q) ≡ false → find q after.items ≡ find q two_items.items)
unfolding find content_len string_len byte_len utf16_len
splice_item-try_squash_item_example =
    splice_item-try_squash_item two_items 10 12 1 utf16 abc (string (97 ∷ []))
      (string (98 ∷ 99 ∷ [])) refl refl (tt, refl) (after_abc, refl, refl, refl) refl refl
      (omega arith) abc_parts

abbrev range : ℕ → ℕ → BlockRange
range clock len = record { client = 1; clock = clock; len = len }

-- The clocks 0 and 1, a gap from 2 to 4, and the clock 5.
abbrev gap : List Block
gap = gc (range 0 2) ∷ skip (range 2 3) ∷ gc (range 5 1) ∷ []

gap-IsContiguous : IsContiguous 0 gap 6
unfolding clock_start block_len
gap-IsContiguous = (refl, omega arith, (refl, omega arith, (refl, omega arith, refl)))

find_index-Holds_example : Holds gap 3 (find_index gap 3)
find_index-Holds_example =
    find_index-Holds gap 0 6 3 gap-IsContiguous (omega arith) (omega arith) (omega arith)

find_in_gap : find_index gap 3 ≡ ok (some 1)
unfolding find_index find_from find_loop last_block clock_range
find_in_gap = refl

-- Behind the end of a short list, the first index that is looked at is out of bounds.
find_behind : find_index (gc (range 0 1) ∷ gc (range 1 1) ∷ []) 2 ≡ fault panic
unfolding find_index find_from find_loop last_block clock_range
find_behind = refl

-- A list that ends with the clock 0 has no answer for another clock.
find_past_zero : find_index (gc (range 0 1) ∷ []) 1 ≡ fault panic
unfolding find_index find_from find_loop last_block clock_range
find_past_zero = refl

push_list-inside_example :
    let list =
      gc (range 0 2)
      ∷ (rest_before (gc (range 3 1)) (skip (range 2 3))
          ++ gc (range 3 1)
            ∷ (rest_behind (gc (range 3 1)) (skip (range 2 3)) ++ gc (range 5 1) ∷ [])) in
    (push_list (gc (range 3 1)) gap ≡ ok (true, list)) × IsContiguous 0 list 6
unfolding clock_start block_len
push_list-inside_example =
    push_list-inside (gc (range 0 2) ∷ []) (gc (range 5 1) ∷ []) (gc (range 3 1)) (skip (range 2 3))
      0 6 gap-IsContiguous (omega arith) (omega arith) (omega arith) (omega arith)

abbrev store : BlockStore
store = record { clients = (1, gap) ∷ []; skips = (1, entry 2 5 tt ∷ []) ∷ [] }

push-IsStore_example :
    (store' : BlockStore) × (push (gc (range 3 1)) store ≡ ok store') × IsStore store'
unfolding clock_start block_len block_id first_id find
push-IsStore_example =
    push-IsStore store (gc (range 3 1)) ((6, gap-IsContiguous, omega arith, omega arith), tt)
      (omega arith) (omega arith)
      (inr (
        gc (range 0 2) ∷ [],
        gc (range 5 1) ∷ [],
        skip (range 2 3),
        refl,
        omega arith,
        omega arith,
      ))

-- The state vector stops at the gap.
get-get_state_vector_example : get 1 (get_state_vector store) ≡ 2
unfolding find Ranges.clock_start
get-get_state_vector_example = get-get_state_vector store 1 (refl, tt)

-- A transport of fields one by one.
abbrev to_list : Encoder (List Field)
to_list = record {
  write_info = λ n out. out ++ Fields.info n ∷ [];
  write_left_id = λ i out. out ++ Fields.left_id i ∷ [];
  write_right_id = λ i out. out ++ Fields.right_id i ∷ [];
  write_parent_info = λ b out. out ++ Fields.parent_info b ∷ [];
  write_type_ref = λ n out. out ++ Fields.type_ref n ∷ [];
  write_len = λ n out. out ++ Fields.len n ∷ [];
  write_number = λ n out. out ++ Fields.number n ∷ [];
  write_client = λ n out. out ++ Fields.client n ∷ [];
  write_byte = λ n out. out ++ Fields.byte n ∷ [];
  write_bytes = λ s out. out ++ Fields.raw s ∷ [];
  write_text = λ s out. out ++ Fields.text s ∷ [];
  write_key = λ s out. out ++ Fields.key s ∷ [];
  write_json = λ v out. out ++ Fields.json_value v ∷ [];
  write_any = λ v out. out ++ Fields.any_value v ∷ [];
}

abbrev take_info : List Field → Result (ℕ × List Field)
take_info (Fields.info x ∷ fs) = ok (x, fs)
take_info _ = err unexpected_value

abbrev take_type_ref : List Field → Result (ℕ × List Field)
take_type_ref (Fields.type_ref x ∷ fs) = ok (x, fs)
take_type_ref _ = err unexpected_value

abbrev take_len : List Field → Result (ℕ × List Field)
take_len (Fields.len x ∷ fs) = ok (x, fs)
take_len _ = err unexpected_value

abbrev take_number : List Field → Result (ℕ × List Field)
take_number (Fields.number x ∷ fs) = ok (x, fs)
take_number _ = err unexpected_value

abbrev take_client : List Field → Result (ℕ × List Field)
take_client (Fields.client x ∷ fs) = ok (x, fs)
take_client _ = err unexpected_value

abbrev take_byte : List Field → Result (ℕ × List Field)
take_byte (Fields.byte x ∷ fs) = ok (x, fs)
take_byte _ = err unexpected_value

abbrev take_left_id : List Field → Result (BlockId × List Field)
take_left_id (Fields.left_id x ∷ fs) = ok (x, fs)
take_left_id _ = err unexpected_value

abbrev take_right_id : List Field → Result (BlockId × List Field)
take_right_id (Fields.right_id x ∷ fs) = ok (x, fs)
take_right_id _ = err unexpected_value

abbrev take_parent_info : List Field → Result (Bool × List Field)
take_parent_info (Fields.parent_info x ∷ fs) = ok (x, fs)
take_parent_info _ = err unexpected_value

abbrev take_raw : List Field → Result (List ℕ × List Field)
take_raw (Fields.raw x ∷ fs) = ok (x, fs)
take_raw _ = err unexpected_value

abbrev take_text : List Field → Result (List ℕ × List Field)
take_text (Fields.text x ∷ fs) = ok (x, fs)
take_text _ = err unexpected_value

abbrev take_key : List Field → Result (List ℕ × List Field)
take_key (Fields.key x ∷ fs) = ok (x, fs)
take_key _ = err unexpected_value

abbrev take_json_value : List Field → Result (Any × List Field)
take_json_value (Fields.json_value x ∷ fs) = ok (x, fs)
take_json_value _ = err unexpected_value

abbrev take_any_value : List Field → Result (Any × List Field)
take_any_value (Fields.any_value x ∷ fs) = ok (x, fs)
take_any_value _ = err unexpected_value

abbrev from_list : Decoder (List Field)
from_list = record {
  read_info = take_info;
  read_left_id = take_left_id;
  read_right_id = take_right_id;
  read_parent_info = take_parent_info;
  read_type_ref = take_type_ref;
  read_len = take_len;
  read_number = take_number;
  read_client = take_client;
  read_byte = take_byte;
  read_bytes = take_raw;
  read_text = take_text;
  read_key = take_key;
  read_json = take_json_value;
  read_any = take_any_value;
}

abbrev fresh : Options
fresh = record {
  client_id = 7;
  guid = [];
  collection_id = none;
  offset_kind = bytes;
  skip_gc = false;
  auto_load = false;
  should_load = true;
  cleanup_formatting = true;
}

encode_block-decode_block_example :
    (fields : List Field) × ((out : List Field)
      → encode_block to_list (λ b. none) (item abc) out ≡ ok (put_fields to_list fields out))
    × ((r r' : List Field)
        → Gives from_list r fields r'
        → decode_block from_list fresh (id 0) r
          ≡ ok (some (item (arrived_item fresh (named (116 ∷ [])) abc)), r'))
unfolding content_len string_len byte_len utf16_len
encode_block-decode_block_example =
    encode_block-decode_block to_list from_list (λ b. none) fresh abc (named (116 ∷ []))
      (refl, omega arith) tt refl tt

-- "bc" of "abc".
encode_with_offset-IsBackPart_example :
    IsBackPart to_list (λ b. none) 5 1 abc [] (splice abc.content 1 utf16)
unfolding content_len string_len byte_len utf16_len
encode_with_offset-IsBackPart_example =
    encode_with_offset-IsBackPart to_list (λ b. none) 5 1 abc (omega arith) (omega arith) refl
      (omega arith, omega arith) []

-- One string of JSON, and a string behind it that belongs to something else.
decode_content-json_example :
    decode_content from_list fresh 2
      (Fields.len 1 ∷ Fields.text (49 ∷ []) ∷ Fields.text (120 ∷ []) ∷ [])
    ≡ ok (json ((49 ∷ []) ∷ (120 ∷ []) ∷ []), [])
unfolding get_ref_number
decode_content-json_example =
    decode_content-json from_list fresh ((49 ∷ []) ∷ []) (120 ∷ []) 2
      (Fields.len 1 ∷ Fields.text (49 ∷ []) ∷ Fields.text (120 ∷ []) ∷ []) [] (omega arith) refl
      (_, refl, (_, refl, (_, refl, refl)))

-- The slice of the first element of a string is sent whole.
slice_first :
    encode_slice to_list (string (97 ∷ 98 ∷ 99 ∷ [])) 0 0 []
    ≡ ok (Fields.text (97 ∷ 98 ∷ 99 ∷ []) ∷ [])
unfolding encode_slice slice_string
slice_first = refl

slice_front :
    encode_slice to_list (string (97 ∷ 98 ∷ 99 ∷ [])) 0 1 [] ≡ ok (Fields.text (97 ∷ 98 ∷ []) ∷ [])
unfolding encode_slice slice_string split_str split_at map_utf16_offset scan_utf16
slice_front = refl

-- A slice in front of the last element tells of a right origin, and does not write it.
right_origin_lost :
    encode_item_slice to_list
      (λ b. none)
      (record abc { origin = some (id 9); right_origin = some (id 8) })
      0
      1
      []
    ≡ ok (Fields.info 196 ∷ Fields.left_id (id 9) ∷ Fields.text (97 ∷ 98 ∷ []) ∷ [])
unfolding encode_item_slice item_info get_ref_number encode_place encode_slice slice_string
    split_str split_at map_utf16_offset scan_utf16
right_origin_lost = refl
