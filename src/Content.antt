-- ===== src/Content.antt =====
-- `ItemContent` of native/yrs-src/yrs/src/block.rs: its length, how it is split and how two are
-- squashed. Of a document that is held by an item its options are kept, of a branch its type, and the
-- document that a document is part of is a number.
pub mod Splice
pub mod Lengths
pub mod Codec
use crdt_probe.Prelude.{
  ℕ, ◌+◌, ◌-◌, ◌%◌, ◌^◌, Bool, true, false, Option, none, some, List, ◌++◌, ltb, if◌then◌else◌,
  length, take, drop,
}
use crdt_probe.Encoding.Result.{Result, ok, fault, panic, ◌>>=◌}
use crdt_probe.Values.{Any}
use crdt_probe.Docs.{Options, TypeRef}
use crdt_probe.Texts.{OffsetKind, string_len, split_str}

pub data ItemContent : Type 0 where
  any : List Any → ItemContent
  binary : List ℕ → ItemContent
  deleted : ℕ → ItemContent
  doc : Option ℕ → Options → ItemContent
  json : List (List ℕ) → ItemContent
  embed : Any → ItemContent
  format : List ℕ → Any → ItemContent
  string : List ℕ → ItemContent
  type : TypeRef → ItemContent

unfoldable pub get_ref_number : ItemContent → ℕ
get_ref_number (deleted len) = 1
get_ref_number (json strings) = 2
get_ref_number (binary buf) = 3
get_ref_number (string s) = 4
get_ref_number (embed v) = 5
get_ref_number (format k v) = 6
get_ref_number (type branch) = 7
get_ref_number (any values) = 8
get_ref_number (doc parent d) = 9

unfoldable pub is_countable : ItemContent → Bool
is_countable (deleted len) = false
is_countable (format k v) = false
is_countable _ = true

-- Lengths are cast to u32.
unfoldable pub content_len : OffsetKind → ItemContent → ℕ
unfolding string_len
content_len kind (deleted len) = len
content_len kind (string s) = string_len kind s % 2 ^ 32
content_len kind (any values) = length values % 2 ^ 32
content_len kind (json strings) = length strings % 2 ^ 32
content_len kind _ = 1

-- `slice::split_at`, which panics past the end.
abbrev pub split_list : {A : Type 0} → List A → ℕ → Result (List A × List A)
split_list xs offset =
    if ltb (length xs) offset then fault panic else ok (take offset xs, drop offset xs)

-- What is left of the content, and what is split from it.
unfoldable pub splice : ItemContent → ℕ → OffsetKind → Result (Option (ItemContent × ItemContent))
unfolding split_str
splice (any values) offset kind = do
  (left, right) ← split_list values offset
  ok (some (any left, any right))
splice (string s) offset kind = do
  (left, right) ← split_str s offset kind
  ok (some (string left, string right))
splice (deleted len) offset kind =
    ok (some (deleted (offset % 2 ^ 32), deleted ((len + 2 ^ 32 - offset % 2 ^ 32) % 2 ^ 32)))
splice (json strings) offset kind = do
  (left, right) ← split_list strings offset
  ok (some (json left, json right))
splice _ offset kind = ok none

unfoldable pub try_squash : ItemContent → ItemContent → Option ItemContent
try_squash (any v1) (any v2) = some (any (v1 ++ v2))
try_squash (deleted v1) (deleted v2) = some (deleted ((v1 + v2) % 2 ^ 32))
try_squash (json v1) (json v2) = some (json (v1 ++ v2))
try_squash (string v1) (string v2) = some (string (v1 ++ v2))
try_squash _ _ = none
