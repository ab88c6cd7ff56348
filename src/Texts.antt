-- ===== src/Texts.antt =====
-- `SplittableString` and `split_str` of native/yrs-src/yrs/src/block.rs. A string is the list of its
-- code points; `len_utf8` and `len_utf16` are those of the standard library.
pub mod Split
use crdt_probe.Prelude.{
  ℕ, ◌+◌, ◌-◌, ◌%◌, ◌^◌, Option, none, some, List, [], ◌∷◌, ltb, leb, ◌==◌, if◌then◌else◌,
}
use crdt_probe.Encoding.Result.{Result, ok, fault, panic, ◌>>=◌}

pub data OffsetKind : Type 0 where
  bytes utf16 : OffsetKind

abbrev pub len_utf8 : ℕ → ℕ
len_utf8 c = if ltb c 128 then 1 else if ltb c 2_048 then 2 else if ltb c 65_536 then 3 else 4

abbrev pub len_utf16 : ℕ → ℕ
len_utf16 c = if ltb c 65_536 then 1 else 2

unfoldable pub byte_len : List ℕ → ℕ
byte_len [] = 0
byte_len (c ∷ s) = len_utf8 c + byte_len s

unfoldable pub utf16_len : List ℕ → ℕ
utf16_len [] = 0
utf16_len (c ∷ s) = len_utf16 c + utf16_len s

-- `SplittableString::len`.
unfoldable pub string_len : OffsetKind → List ℕ → ℕ
unfolding byte_len utf16_len
string_len bytes s = byte_len s
string_len utf16 s = if byte_len s == 1 then byte_len s else utf16_len s

-- The loop of `map_utf16_offset`; both counts are u32.
unfoldable pub scan_utf16 : List ℕ → ℕ → ℕ → ℕ → ℕ
scan_utf16 [] offset off i = off
scan_utf16 (c ∷ s) offset off i =
    let more = scan_utf16 s offset ((off + len_utf8 c) % 2 ^ 32) ((i + len_utf16 c) % 2 ^ 32) in
    if leb offset i then off else more

unfoldable pub map_utf16_offset : List ℕ → ℕ → ℕ
unfolding scan_utf16
map_utf16_offset s offset = scan_utf16 s offset 0 0

abbrev pub in_front : ℕ → List ℕ × List ℕ → List ℕ × List ℕ
in_front c parts = (c ∷ parts.0, parts.1)

-- `str::split_at`, which panics past the end and inside a character.
unfoldable pub split_at : List ℕ → ℕ → Result (List ℕ × List ℕ)
split_at [] off = if off == 0 then ok ([], []) else fault panic
split_at (c ∷ s) off =
    let more = (do parts ← split_at s (off - len_utf8 c); ok (in_front c parts)) in
    if off == 0 then ok ([], c ∷ s) else if ltb off (len_utf8 c) then fault panic else more

-- An offset is a usize, of which `offset as u32` keeps 32 bits.
unfoldable pub split_str : List ℕ → ℕ → OffsetKind → Result (List ℕ × List ℕ)
unfolding split_at map_utf16_offset
split_str s offset bytes = split_at s offset
split_str s offset utf16 = split_at s (map_utf16_offset s (offset % 2 ^ 32))

-- The loop of `block_offset`; `remaining` wraps where a character is longer, and `i` is a u32.
unfoldable pub scan_bytes : List ℕ → ℕ → ℕ → ℕ
scan_bytes [] remaining i = i
scan_bytes (c ∷ s) remaining i =
    let remaining' = (remaining + 2 ^ 32 - len_utf8 c) % 2 ^ 32 in
    let more = scan_bytes s remaining' ((i + len_utf16 c) % 2 ^ 32) in
    if remaining == 0 then i else more

unfoldable pub block_offset : List ℕ → ℕ → OffsetKind → ℕ
unfolding scan_bytes
block_offset s offset utf16 = offset
block_offset s offset bytes = scan_bytes s offset 0
