-- ===== src/Content/Codec/Suffix.antt =====
-- The end of a content as `ItemContent::encode_slice` of block.rs writes it, without a split.
use crdt_probe.Prelude.{
  ℕ, zero, suc, ◌+◌, ◌-◌, ◌%◌, ◌^◌, ◌≤◌, ◌<◌, ◌≡◌, refl, sym, ap, ◌∙◌, false, List, [], ◌∷◌, ◌++◌,
  Option, some, length, take, drop, arith, ◌==◌, le→ltb, lt→ltb,
}
use crdt_probe.Encoding.Result.{Result, ok}
use crdt_probe.Texts.{utf16, utf16_len, byte_len, len_utf16}
use crdt_probe.Texts.Split.{cut_units, split_str-cut_units, cut_units-len, cut_units-append}
use crdt_probe.Fields.{Encoder}
use crdt_probe.Content.{
  ItemContent, any, deleted, json, string, splice, content_len, get_ref_number,
}
use crdt_probe.Content.Codec.{encode_content, encode_slice, slice_of, slice_string}
use crdt_probe.Content.Lengths.{
  IsSplittable, length-drop, string_len-utf16, utf16_len-append, utf16_len-le,
}

take_all : {A : Type 0} (xs : List A) (n : ℕ) → length xs ≤ n → take n xs ≡ xs
take_all [] zero h = refl
take_all [] (suc n) h = refl
take_all (x ∷ xs) zero h = absurd (omega (arith, h))
take_all (x ∷ xs) (suc n) h = ap (λ t. x ∷ t) (take_all xs n (omega (arith, h)))

-- All the units there are, or more.
cut_all : (s : List ℕ) (units : ℕ) → utf16_len s ≤ units → cut_units s units ≡ (s, [])
unfolding cut_units utf16_len
cut_all [] units h = refl
cut_all (c ∷ s) units h =
    let units_pos : 0 < len_utf16 c = ground arith in
    let more : (units == 0) ≡ false = ground (arith, units_pos, h) in
    rw (more, cut_all s (units - len_utf16 c) (omega (arith, h))) refl

byte_len-append : (l r : List ℕ) → byte_len (l ++ r) ≡ byte_len l + byte_len r
unfolding byte_len
byte_len-append [] r = omega arith
byte_len-append (c ∷ l) r = omega (arith, byte_len-append l r)

module _ {W : Type 0} (e : Encoder W) where
  list_slice :
      {A : Type 0} (xs : List A) (offset : ℕ)
      → offset < length xs
      → length xs < 2 ^ 32
      → slice_of e xs offset (length xs % 2 ^ 32 - 1) ≡ ok (drop offset xs)
  list_slice xs offset le lt =
      rw
        (
          lt→ltb (length xs % 2 ^ 32 - 1) (length xs) (omega (arith, le)),
          take_all (drop offset xs) (length xs % 2 ^ 32 - 1 + 1 - offset)
              (omega (arith, length-drop xs offset, le, lt)),
        )
        refl

  list_count :
      {A : Type 0} (xs : List A) (offset : ℕ)
      → offset < length xs
      → length xs < 2 ^ 32
      → length xs % 2 ^ 32 - 1 - offset + 1 ≡ length (drop offset xs) % 2 ^ 32
  list_count xs offset le lt = omega (arith, length-drop xs offset, le, lt)

  string_slice :
      (s : List ℕ) (offset : ℕ)
      → 0 < offset
      → offset < utf16_len s
      → byte_len s < 2 ^ 32
      → slice_string e s offset (utf16_len s % 2 ^ 32 - 1) ≡ ok (cut_units s offset).1
  unfolding slice_string
  string_slice s offset pos le short =
      let lt : utf16_len s < 2 ^ 32 = omega (arith, short, utf16_len-le s) in
      let r = (cut_units s offset).1 in
      let started : (offset == 0) ≡ false = ground (arith, pos) in
      let last : (utf16_len s % 2 ^ 32 - 1 == 0) ≡ false = ground (arith, pos, le, lt) in
      let cut_bytes : byte_len (cut_units s offset).0 + byte_len r ≡ byte_len s =
        sym (byte_len-append (cut_units s offset).0 r) ∙ ap byte_len (cut_units-append s offset) in
      let rest : utf16_len r + offset ≤ utf16_len s = omega (
        arith,
        utf16_len-append (cut_units s offset).0 r,
        ap utf16_len (cut_units-append s offset),
        (cut_units-len s offset (omega (arith, le))).0,
      ) in
      rw
        (
          started,
          split_str-cut_units s offset (omega (arith, le, lt)) short,
          last,
          split_str-cut_units r (utf16_len s % 2 ^ 32 - 1 - offset + 1) (omega (arith, le, lt))
              (omega (arith, short, cut_bytes)),
          cut_all r (utf16_len s % 2 ^ 32 - 1 - offset + 1) (omega (arith, le, lt, rest)),
        )
        refl

  -- What is written for the last elements is what would be written for the right part.
  abbrev pub IsSuffix : ItemContent → ℕ → W → Result (Option (ItemContent × ItemContent)) → Type 0
  IsSuffix c offset out (ok (some (l, r))) =
      (encode_slice e c offset (content_len utf16 c - 1) out ≡ ok (encode_content e r out))
      × (get_ref_number r ≡ get_ref_number c)
  IsSuffix c offset out _ = ⊥

  pub splice-IsSuffix :
      (c : ItemContent) (offset : ℕ) (out : W)
      → IsSplittable c offset
      → 0 < offset
      → offset < content_len utf16 c
      → IsSuffix c offset out (splice c offset utf16)
  unfolding splice content_len encode_slice encode_content get_ref_number
  splice-IsSuffix (any values) offset out h pos lt =
      let below : offset < length values = omega (arith, lt, h.1) in
      rw (le→ltb (length values) offset h.0)
        (rw (list_slice values offset below h.1, list_count values offset below h.1) (refl, refl))
  splice-IsSuffix (json strings) offset out h pos lt =
      let below : offset < length strings = omega (arith, lt, h.1) in
      rw (le→ltb (length strings) offset h.0)
        (rw (list_slice strings offset below h.1, list_count strings offset below h.1) (refl, refl))
  splice-IsSuffix (deleted len) offset out h pos lt =
      (ap (λ (n : ℕ). ok (e.write_len n out)) (omega (arith, pos, lt, h.1)), refl)
  splice-IsSuffix (string s) offset out h pos lt =
      let len = string_len-utf16 s in
      let below : offset < utf16_len s = omega (arith, lt, len, h.1, utf16_len-le s) in
      rw (split_str-cut_units s offset (omega (arith, h.0, h.1, utf16_len-le s)) h.1, len)
        (rw (string_slice s offset pos below h.1) (refl, refl))
  splice-IsSuffix c offset out h pos lt = absurd h
