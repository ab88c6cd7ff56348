-- ===== src/Encoding/VarInt/RoundTrip.antt =====
-- The unsigned integers of encoding/varint.rs: their bytes, from the writers and to the readers.
use native.Mathlib.Nat.{pow-suc, one-le-pow, div-add-mod, mod-eq_of_lt}
use native.Mathlib.Numerals.{towards_suc}
use Prim.Native.Nat.{bit_and, bit_or}
use crdt_probe.Prelude.{
  ℕ, zero, suc, ◌+◌, ◌*◌, ◌/◌, ◌%◌, ◌^◌, ◌≤◌, ◌<◌, ◌≡◌, refl, ap, ◌∙◌, List, [], ◌∷◌, ltb, lt→ltb,
  le→ltb, ltb→lt, ltb→le, Bool-cases, inl, inr, arith, if◌then◌else◌, ◌==◌, false,
}
use crdt_probe.Encoding.Result.{ok}
use crdt_probe.Encoding.Bits.{
  tail_byte_last, tail_byte_inner, low_seven_any, set_top_bit, bit_or_above,
}
use crdt_probe.Encoding.Io.{Write, Read, write_u8, read_u8, put_all, Yields}
use crdt_probe.Encoding.VarInt.{
  write_loop, write_var, write_tail, read_loop, read_var_u32, read_var_u64, read_var_u128,
}

-- The groups of seven bits of `v`, lowest first, for `v` at most the number of rounds.
pub leb128 : ℕ → ℕ → List ℕ
leb128 zero v = v % 128 ∷ []
leb128 (suc k) v =
    let more = leb128 k (v / 128) in if ltb v 128 then v ∷ [] else (v % 128 + 128) ∷ more

-- A number below 128 is its own byte.
pub leb128_small : (t : ℕ) → t < 128 → leb128 t t ≡ t ∷ []
unfolding leb128
leb128_small zero h = refl
leb128_small (suc t) h = rw (lt→ltb (suc t) 128 h) refl

module _ {W : Type 0} ⦃w : Write W⦄ where
  write_loop-leb128 : (k v : ℕ) (out : W) → write_loop k v out ≡ put_all (leb128 k v) out
  unfolding write_loop leb128
  write_loop-leb128 zero v out = rw low_seven_any
  write_loop-leb128 (suc k) v out = ground (
    arith,
    low_seven_any v,
    set_top_bit (v % 128),
    write_loop-leb128 k (v / 128) (write_u8 (v % 128 + 128) out),
  )

  -- The writer's loop emits exactly the groups of seven bits, at every width.
  pub write_var-leb128 : (v : ℕ) (out : W) → write_var v out ≡ put_all (leb128 v v) out
  unfolding write_var
  write_var-leb128 v out = write_loop-leb128 v v out

nonzero : (v : ℕ) → 0 < v → (v == 0) ≡ false
nonzero v h = ground arith

module _ {W : Type 0} ⦃w : Write W⦄ where
  write_tail-zero : (k : ℕ) (out : W) → write_tail k 0 out ≡ out
  unfolding write_tail
  write_tail-zero zero out = refl
  write_tail-zero (suc k) out = refl

  -- The loop of the signed writers emits the groups of a number that is not 0.
  pub write_tail-leb128 :
      (k v : ℕ) (out : W) → v ≤ k → 0 < v → write_tail k v out ≡ put_all (leb128 k v) out
  unfolding write_tail leb128
  write_tail-leb128 zero v out h p = absurd (omega arith)
  write_tail-leb128 (suc k) v out h p = elim (Bool-cases (ltb v 128)) [
    | inl small ↦
        let lt = ltb→lt v 128 small in
        let done : v / 128 ≡ 0 = omega arith in
        rw (nonzero v p, small, tail_byte_last v lt, done) (write_tail-zero k (write_u8 v out))
    | inr big ↦
        let le = ltb→le v 128 big in
        rw (nonzero v p, big, tail_byte_inner v le)
          (write_tail-leb128 k (v / 128) (write_u8 (v % 128 + 128) out) (omega arith) (omega arith))
  ]

shift_seven : (s : ℕ) → 2 ^ (s + 7) ≡ 128 * 2 ^ s
shift_seven s = simp towards_suc (omega arith)

-- A power that is below another has the smaller exponent.
pow_cancel : (s t : ℕ) → 2 ^ s < 2 ^ t → s < t
pow_cancel zero zero h = absurd (omega arith)
pow_cancel zero (suc t) h = omega arith
pow_cancel (suc s) zero h = absurd (omega (arith, pow-suc 2 s, one-le-pow s 2))
pow_cancel (suc s) (suc t) h =
    omega (arith, pow_cancel s t (omega (arith, pow-suc 2 s, pow-suc 2 t)))

-- The lowest group of `v` and the rest, both shifted by `s`.
split_group : (v s : ℕ) → v * 2 ^ s ≡ v % 128 * 2 ^ s + v / 128 * 2 ^ (s + 7)
split_group v s = omega (
  arith,
  ap (λ (t : ℕ). t * 2 ^ s) (div-add-mod v 128),
  ap (λ (t : ℕ). v / 128 * t) (shift_seven s),
)

-- A group of seven bits that is put above the bits read so far, where the number still fits.
group_above :
    (bits num len b g : ℕ)
    → bit_and b 0x7f ≡ g
    → num < 2 ^ len
    → len < bits
    → num + g * 2 ^ len < 2 ^ bits
    → bit_or num (bit_and b 0x7f * 2 ^ (len % bits) % 2 ^ bits) ≡ num + g * 2 ^ len
group_above bits num len b g e h below fits =
    let narrow : g * 2 ^ len < 2 ^ bits = omega arith in
    rw (e, mod-eq_of_lt below, mod-eq_of_lt narrow) (bit_or_above len num g h)

-- What is left of the number starts below the width.
rest_below :
    (bits num len v : ℕ)
    → num + v * 2 ^ len < 2 ^ bits
    → 128 ≤ v
    → num < 2 ^ len
    → (len + 7 < bits) × (num + v % 128 * 2 ^ len < 2 ^ (len + 7))
rest_below bits num len v fits big h = (
  pow_cancel (len + 7) bits (omega (arith, shift_seven len, times_mono)),
  omega (arith, shift_seven len, group_small),
)
  where
    times_mono : 128 * 2 ^ len ≤ v * 2 ^ len
    times_mono = grind arith

    group_small : v % 128 * 2 ^ len ≤ 127 * 2 ^ len
    group_small = grind arith

module _ {R : Type 0} ⦃i : Read R⦄ (bits limit : ℕ) where
  last_byte :
      (b rounds num len : ℕ) (r r' : R)
      → read_u8 r ≡ ok (b, r')
      → b < 128
      → num < 2 ^ len
      → len < bits
      → num + b * 2 ^ len < 2 ^ bits
      → read_loop bits limit (suc rounds) num len r ≡ ok (num + b * 2 ^ len, r')
  unfolding read_loop
  last_byte b rounds num len r r' e hb hn below fits = rw (
    e,
    lt→ltb b 128 hb,
    group_above bits num len b b (rw low_seven_any (omega arith)) hn below fits,
  )

  inner_byte :
      (g rounds num len : ℕ) (r m : R)
      → read_u8 r ≡ ok (g + 128, m)
      → g < 128
      → num < 2 ^ len
      → len + 7 < bits
      → bits ≤ limit
      → num + g * 2 ^ len < 2 ^ bits
      → read_loop bits limit (suc rounds) num len r
        ≡ read_loop bits limit rounds (num + g * 2 ^ len) (len + 7) m
  unfolding read_loop
  inner_byte g rounds num len r m e hg hn below hl fits = rw (
    e,
    le→ltb (g + 128) 128 (omega arith),
    le→ltb limit (len + 7) (omega arith),
    group_above bits num len (g + 128) g (rw low_seven_any (omega arith)) hn (omega arith) fits,
  )

  -- The loop reads back the groups of `v`, above the `len` bits that it has.
  pub read_loop-leb128 :
      (k v rounds num len : ℕ) (r r' : R)
      → bits ≤ limit
      → v ≤ k
      → num < 2 ^ len
      → len < bits
      → bits ≤ 7 * rounds + len
      → num + v * 2 ^ len < 2 ^ bits
      → Yields r (leb128 k v) r'
      → read_loop bits limit rounds num len r ≡ ok (num + v * 2 ^ len, r')
  unfolding leb128
  read_loop-leb128 k v zero num len r r' hl hv hn below enough fits y = absurd (omega arith)
  read_loop-leb128 zero v (suc rounds) num len r r' hl hv hn below enough fits y =
      let nil : v ≡ 0 = omega arith in
      last_byte v rounds num len r r' (rw nil (rw (nil, y.2) at y.1)) (omega arith) hn below fits
  read_loop-leb128 (suc k) v (suc rounds) num len r r' hl hv hn below enough fits y =
      elim (Bool-cases (ltb v 128)) [
        | inl small ↦
            let y' = rw small at y in
            last_byte v rounds num len r r' (rw y'.2 at y'.1) (ltb→lt v 128 small) hn below fits
        | inr big ↦
            let y' = rw big at y in
            let grown = rest_below bits num len v fits (ltb→le v 128 big) hn in
            inner_byte (v % 128) rounds num len r y'.0 y'.1 (omega arith) hn grown.0 hl
              (omega (arith, split_group v len))
            ∙ read_loop-leb128 k (v / 128) rounds (num + v % 128 * 2 ^ len) (len + 7) y'.0 r' hl
                (omega (arith, ltb→le v 128 big)) grown.1 grown.0 (omega arith)
                (omega (arith, split_group v len)) y'.2
            ∙ ap (λ (n : ℕ). ok (n, r')) (omega (arith, split_group v len))
      ]

module _ {R : Type 0} ⦃i : Read R⦄ where
  whole_number :
      (bits limit v : ℕ) (r r' : R)
      → 0 < bits
      → bits ≤ limit
      → v < 2 ^ bits
      → Yields r (leb128 v v) r'
      → read_loop bits limit limit 0 0 r ≡ ok (v, r')
  whole_number bits limit v r r' hb hl h y =
      read_loop-leb128 bits limit v v limit 0 0 r r' hl (omega arith) (omega arith) hb (omega arith)
        (omega arith) y
      ∙ ap (λ (n : ℕ). ok (n, r')) (omega arith)

  -- A number of the width is read back from its groups, with nothing else taken.
  pub read_var_u32-leb128 :
      (v : ℕ) (r r' : R) → v < 2 ^ 32 → Yields r (leb128 v v) r' → read_var_u32 r ≡ ok (v, r')
  unfolding read_var_u32
  read_var_u32-leb128 v r r' h y = whole_number 32 70 v r r' (omega arith) (omega arith) h y

  pub read_var_u64-leb128 :
      (v : ℕ) (r r' : R) → v < 2 ^ 64 → Yields r (leb128 v v) r' → read_var_u64 r ≡ ok (v, r')
  unfolding read_var_u64
  read_var_u64-leb128 v r r' h y = whole_number 64 70 v r r' (omega arith) (omega arith) h y

  pub read_var_u128-leb128 :
      (v : ℕ) (r r' : R) → v < 2 ^ 128 → Yields r (leb128 v v) r' → read_var_u128 r ≡ ok (v, r')
  unfolding read_var_u128
  read_var_u128-leb128 v r r' h y = whole_number 128 180 v r r' (omega arith) (omega arith) h y
