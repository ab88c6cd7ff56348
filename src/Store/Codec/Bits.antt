-- ===== src/Store/Codec/Bits.antt =====
-- The bits of the info that an item of block.rs is written with.
use crdt_probe.Prelude.{ℕ, ◌+◌, ◌%◌, ◌<◌, ◌≡◌, Bool, true, false, not, ◌||◌, arith, ◌==◌}
use crdt_probe.Content.{
  ItemContent, any, binary, deleted, doc, json, embed, format, string, type, get_ref_number,
}
use crdt_probe.Items.{Item, check}
use crdt_probe.Store.Codec.{flag, is_some, item_info, has_no_origin}

-- What the bits of an item's info tell.
info_bits :
    (o r s : Bool) (n : ℕ)
    → 0 < n
    → n < 10
    → let i = flag 128 o + flag 64 r + flag 32 s + n % 16 in
      (check 128 i ≡ o)
      × (check 64 i ≡ r)
      × (check 32 i ≡ s)
      × (has_no_origin i ≡ not (o || r))
      × ((i == 10) ≡ false)
      × ((i == 0) ≡ false)
      × (i % 16 ≡ n)
info_bits false false false n l h = ground arith
info_bits false false true n l h = ground arith
info_bits false true false n l h = ground arith
info_bits false true true n l h = ground arith
info_bits true false false n l h = ground arith
info_bits true false true n l h = ground arith
info_bits true true false n l h = ground arith
info_bits true true true n l h = ground arith

pub ref_number_bound : (c : ItemContent) → (0 < get_ref_number c) × (get_ref_number c < 10)
unfolding get_ref_number
ref_number_bound (any vs) = (omega arith, omega arith)
ref_number_bound (binary buf) = (omega arith, omega arith)
ref_number_bound (deleted n) = (omega arith, omega arith)
ref_number_bound (doc p o) = (omega arith, omega arith)
ref_number_bound (json strings) = (omega arith, omega arith)
ref_number_bound (embed v) = (omega arith, omega arith)
ref_number_bound (format k v) = (omega arith, omega arith)
ref_number_bound (string s) = (omega arith, omega arith)
ref_number_bound (type t) = (omega arith, omega arith)

pub bits_of_info :
    (i : Item)
    → let n = item_info i in
      (check 128 n ≡ is_some i.origin)
      × (check 64 n ≡ is_some i.right_origin)
      × (check 32 n ≡ is_some i.parent_sub)
      × (has_no_origin n ≡ not (is_some i.origin || is_some i.right_origin))
      × ((n == 10) ≡ false)
      × ((n == 0) ≡ false)
      × (n % 16 ≡ get_ref_number i.content)
unfolding item_info
bits_of_info i =
    let (low, high) = ref_number_bound i.content in
    info_bits (is_some i.origin) (is_some i.right_origin) (is_some i.parent_sub)
      (get_ref_number i.content) low high
