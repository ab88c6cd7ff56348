-- ===== src/Texts/Split.antt =====
-- `split_str` of block.rs, against a cut of the string after enough of its UTF-16 units.
use crdt_probe.Prelude.{
  ℕ, ◌+◌, ◌-◌, ◌%◌, ◌^◌, ◌≤◌, ◌<◌, ◌≡◌, refl, ap, subst, ◌∙◌, false, inl, inr, Bool-cases, List, [],
  ◌∷◌, ◌++◌, ltb, leb, ◌==◌, if◌then◌else◌, le→ltb, ltb→le, arith,
}
use crdt_probe.Encoding.Result.{Result, ok, err, fault, ◌>>=◌}
use native.Mathlib.Numerals.{unary_clauses}
use crdt_probe.Texts.{
  OffsetKind, utf16, bytes, len_utf8, len_utf16, byte_len, utf16_len, scan_utf16, map_utf16_offset,
  in_front, split_at, split_str,
}

-- Whole characters until `units` UTF-16 units are passed.
unfoldable pub cut_units : List ℕ → ℕ → List ℕ × List ℕ
cut_units [] units = ([], [])
cut_units (c ∷ s) units =
    let more = in_front c (cut_units s (units - len_utf16 c)) in
    if units == 0 then ([], c ∷ s) else more

scan-cut :
    (s : List ℕ) (offset off i : ℕ)
    → i ≤ off
    → off + byte_len s < 2 ^ 32
    → scan_utf16 s offset off i ≡ off + byte_len (cut_units s (offset - i)).0
unfolding scan_utf16 byte_len cut_units
scan-cut [] offset off i le small = omega arith
scan-cut (c ∷ s) offset off i le small =
    let wider : len_utf16 c ≤ len_utf8 c = ground arith in
    let whole : (off + len_utf8 c) % 2 ^ 32 ≡ off + len_utf8 c = omega (arith, small) in
    let counted : (i + len_utf16 c) % 2 ^ 32 ≡ i + len_utf16 c = omega (arith, small, le, wider) in
    rw (whole, counted)
      (ground (
        arith,
        scan-cut s offset (off + len_utf8 c) (i + len_utf16 c) (omega (arith, le, wider))
            (omega (arith, small)),
      ))

len_utf8_pos : (c : ℕ) → 0 < len_utf8 c
len_utf8_pos c = ground arith

split_at-step :
    (c n : ℕ) (s : List ℕ) (parts : List ℕ × List ℕ)
    → split_at s n ≡ ok parts
    → split_at (c ∷ s) (len_utf8 c + n) ≡ ok (in_front c parts)
unfolding split_at
split_at-step c n s parts e =
    let past : (len_utf8 c + n == 0) ≡ false = ground (arith, len_utf8_pos c) in
    let back : len_utf8 c + n - len_utf8 c ≡ n = omega arith in
    rw (past, le→ltb (len_utf8 c + n) (len_utf8 c) (omega arith), back, e) refl

split_at-cut :
    (s : List ℕ) (units : ℕ) → split_at s (byte_len (cut_units s units).0) ≡ ok (cut_units s units)
unfolding byte_len cut_units
split_at-cut [] units = unfold split_at in refl
split_at-cut (c ∷ s) units = elim (Bool-cases (units == 0)) [
  | inl done ↦ rw done (unfold split_at in refl)
  | inr more ↦ rw more (
      split_at-step c (byte_len (cut_units s (units - len_utf16 c)).0) s
        (cut_units s (units - len_utf16 c)) (split_at-cut s (units - len_utf16 c)))
]

-- Where an offset in UTF-16 units fits 32 bits, and so does the length of the string in bytes,
-- `split_str` does not panic: it cuts the string behind the first characters that reach the offset.
pub split_str-cut_units :
    (s : List ℕ) (offset : ℕ)
    → offset < 2 ^ 32
    → byte_len s < 2 ^ 32
    → split_str s offset utf16 ≡ ok (cut_units s offset)
unfolding split_str map_utf16_offset
split_str-cut_units s offset small short =
    let whole : offset % 2 ^ 32 ≡ offset = omega arith in
    let all : map_utf16_offset s offset ≡ byte_len (cut_units s offset).0 =
      (simp unary_clauses at (scan-cut s offset 0 0 (omega arith) (omega (arith, short))))
      ∙ omega arith in
    rw (whole, all) (split_at-cut s offset)

-- What a split leaves: the characters as they are, and `off` bytes on the left.
abbrev Splits : List ℕ → ℕ → Result (List ℕ × List ℕ) → Type 0
Splits s off (ok parts) = (parts.0 ++ parts.1 ≡ s) × (byte_len parts.0 ≡ off)
Splits s off (err e) = Unit
Splits s off (fault x) = Unit

step-Splits :
    (c off : ℕ) (s : List ℕ) (x : Result (List ℕ × List ℕ))
    → len_utf8 c ≤ off
    → Splits s (off - len_utf8 c) x
    → Splits (c ∷ s) off (do parts ← x; ok (in_front c parts))
unfolding byte_len
step-Splits c off s (ok parts) le h = (ap (λ t. c ∷ t) h.0, omega (arith, h.1))
step-Splits c off s (err e) le h = tt
step-Splits c off s (fault x) le h = tt

split_at-Splits : (s : List ℕ) (off : ℕ) → Splits s off (split_at s off)
unfolding split_at
split_at-Splits [] off = elim (Bool-cases (off == 0)) [
  | inl done ↦ rw done (refl, unfold byte_len in ground arith)
  | inr more ↦ rw more tt
]
split_at-Splits (c ∷ s) off = elim (Bool-cases (off == 0)) [
  | inl done ↦ rw done (refl, unfold byte_len in ground arith)
  | inr more ↦ rw more (elim (Bool-cases (ltb off (len_utf8 c))) [
    | inl inside ↦ rw inside tt
    | inr past ↦ rw past (
        step-Splits c off s (split_at s (off - len_utf8 c)) (ltb→le off (len_utf8 c) past)
          (split_at-Splits s (off - len_utf8 c)))
  ])
]

-- In either encoding, a split that does not panic leaves the characters as they are.
pub split_str-append :
    (s l r : List ℕ) (off : ℕ) (kind : OffsetKind) → split_str s off kind ≡ ok (l, r) → l ++ r ≡ s
unfolding split_str
split_str-append s l r off bytes e = (subst (Splits s off) e (split_at-Splits s off)).0
split_str-append s l r off utf16 e =
    let n = map_utf16_offset s (off % 2 ^ 32) in (subst (Splits s n) e (split_at-Splits s n)).0

cut_units_zero : (s : List ℕ) → cut_units s 0 ≡ ([], s)
unfolding cut_units
cut_units_zero [] = refl
cut_units_zero (c ∷ s) = refl

-- The left part has the units asked for, or one more, where the cut falls into a character of two.
pub cut_units-len :
    (s : List ℕ) (units : ℕ)
    → units ≤ utf16_len s
    → (units ≤ utf16_len (cut_units s units).0) × (utf16_len (cut_units s units).0 ≤ units + 1)
unfolding utf16_len cut_units
cut_units-len [] units h = (h, omega arith)
cut_units-len (c ∷ s) units h = elim (Bool-cases (units == 0)) [
  | inl done ↦ rw done (unfold utf16_len in ground arith)
  | inr more ↦ rw more (elim (Bool-cases (leb units (len_utf16 c))) [
    | inl inside ↦
        let spent : units - len_utf16 c ≡ 0 = ground arith in
        rw (spent, cut_units_zero s) (ground arith)
    | inr past ↦ ground (arith, cut_units-len s (units - len_utf16 c))
  ])
]

pub cut_units-append : (s : List ℕ) (units : ℕ) → (cut_units s units).0 ++ (cut_units s units).1 ≡ s
unfolding cut_units
cut_units-append [] units = refl
cut_units-append (c ∷ s) units = ground (arith, cut_units-append s (units - len_utf16 c))
