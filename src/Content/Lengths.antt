-- ===== src/Content/Lengths.antt =====
-- The lengths of the parts that `ItemContent::splice` of block.rs makes.
use crdt_probe.Prelude.{
  ℕ, zero, suc, ◌+◌, ◌-◌, ◌%◌, ◌^◌, ◌≤◌, ◌<◌, ◌≡◌, refl, sym, ap, ◌∙◌, List, [], ◌∷◌, ◌++◌, Option,
  some, length, take, drop, arith, le→ltb,
}
use crdt_probe.Encoding.Result.{Result, ok}
use crdt_probe.Texts.{utf16, string_len, utf16_len, byte_len, len_utf8, len_utf16}
use crdt_probe.Texts.Split.{cut_units, split_str-cut_units, cut_units-len, cut_units-append}
use crdt_probe.Content.{ItemContent, any, deleted, json, string, splice, content_len}

len_utf8_pos : (c : ℕ) → 0 < len_utf8 c
len_utf8_pos c = ground arith

-- The shortcut for strings of one byte.
pub string_len-utf16 : (s : List ℕ) → string_len utf16 s ≡ utf16_len s
unfolding string_len byte_len utf16_len
string_len-utf16 [] = refl
string_len-utf16 (c ∷ []) = ground arith
string_len-utf16 (c ∷ d ∷ s) = ground (arith, len_utf8_pos c, len_utf8_pos d)

pub utf16_len-append : (l r : List ℕ) → utf16_len (l ++ r) ≡ utf16_len l + utf16_len r
unfolding utf16_len
utf16_len-append [] r = omega arith
utf16_len-append (c ∷ l) r = omega (arith, utf16_len-append l r)

length-take : {A : Type 0} (xs : List A) (n : ℕ) → n ≤ length xs → length (take n xs) ≡ n
length-take xs zero h = refl
length-take [] (suc n) h = omega arith
length-take (x ∷ xs) (suc n) h = omega (arith, length-take xs n (omega arith))

pub length-drop : {A : Type 0} (xs : List A) (n : ℕ) → length (drop n xs) ≡ length xs - n
length-drop xs zero = omega arith
length-drop [] (suc n) = omega arith
length-drop (x ∷ xs) (suc n) = omega (arith, length-drop xs n)

pub utf16_len-le : (s : List ℕ) → utf16_len s ≤ byte_len s
unfolding utf16_len byte_len
utf16_len-le [] = omega arith
utf16_len-le (c ∷ s) =
    let wider : len_utf16 c ≤ len_utf8 c = ground arith in omega (arith, wider, utf16_len-le s)

-- A content of several elements, and an offset that is not behind them. The elements of a list are
-- fewer than 2 ^ 32, and so are the deleted ones, and the bytes of a string.
abbrev pub IsSplittable : ItemContent → ℕ → Type 0
IsSplittable (any values) offset = (offset ≤ length values) × (length values < 2 ^ 32)
IsSplittable (json strings) offset = (offset ≤ length strings) × (length strings < 2 ^ 32)
IsSplittable (string s) offset = (offset ≤ utf16_len s) × (byte_len s < 2 ^ 32)
IsSplittable (deleted len) offset = (offset ≤ len) × (len < 2 ^ 32)
IsSplittable _ offset = ⊥

-- There are two parts, the left one as long as the offset says, or one more, and together as long
-- as the content.
abbrev pub SplitsAt : ItemContent → ℕ → Result (Option (ItemContent × ItemContent)) → Type 0
SplitsAt c offset (ok (some parts)) =
    let left = content_len utf16 parts.0 in
    (left + content_len utf16 parts.1 ≡ content_len utf16 c) × (offset ≤ left) × (left ≤ offset + 1)
SplitsAt c offset _ = ⊥

list_part :
    {A : Type 0} (xs : List A) (offset : ℕ)
    → offset ≤ length xs
    → length xs < 2 ^ 32
    → (length (take offset xs) % 2 ^ 32 ≡ offset)
      × (length (drop offset xs) % 2 ^ 32 ≡ length xs - offset)
      × (length xs % 2 ^ 32 ≡ length xs)
list_part xs offset le lt =
    rw (length-take xs offset le, length-drop xs offset) (omega arith, omega arith, omega arith)

-- Every content of several elements, of which there are fewer than 2 ^ 32, and in a string fewer
-- than 2 ^ 32 bytes, is split at every offset up to its length in UTF-16 units: `splice` does not
-- panic, the lengths of the parts add up, and the left part has the length of the offset, or one
-- more where a string would be cut inside a character of two units.
pub splice-SplitsAt :
    (c : ItemContent) (offset : ℕ)
    → IsSplittable c offset
    → SplitsAt c offset (splice c offset utf16)
unfolding splice content_len
splice-SplitsAt (any values) offset h =
    let (l, r, all) = list_part values offset h.0 h.1 in
    rw (le→ltb (length values) offset h.0)
      (rw (l, r, all) (omega (arith, h.0), omega arith, omega arith))
splice-SplitsAt (json strings) offset h =
    let (l, r, all) = list_part strings offset h.0 h.1 in
    rw (le→ltb (length strings) offset h.0)
      (rw (l, r, all) (omega (arith, h.0), omega arith, omega arith))
splice-SplitsAt (deleted len) offset h =
    (omega (arith, h.0, h.1), omega (arith, h.0, h.1), omega (arith, h.0, h.1))
splice-SplitsAt (string s) offset h =
    let below = utf16_len-le s in
    let l = (cut_units s offset).0 in
    let r = (cut_units s offset).1 in
    let (low, high) = cut_units-len s offset h.0 in
    let total : utf16_len l + utf16_len r ≡ utf16_len s =
      sym (utf16_len-append l r) ∙ ap utf16_len (cut_units-append s offset) in
    rw
      (
        split_str-cut_units s offset (omega (arith, h.0, h.1, below)) h.1,
        string_len-utf16 l,
        string_len-utf16 r,
        string_len-utf16 s,
      )
      (
        omega (arith, total, h.1, below),
        omega (arith, total, low, h.1, below),
        omega (arith, total, high, h.1, below),
      )
splice-SplitsAt c offset h = absurd h
