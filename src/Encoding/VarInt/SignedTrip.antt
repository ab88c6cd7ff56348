-- ===== src/Encoding/VarInt/SignedTrip.antt =====
-- The signed integers of encoding/varint.rs: their bytes, from the writers and to the readers.
use native.Mathlib.Nat.{mod-eq_of_lt}
use crdt_probe.Prelude.{
  ℕ, zero, suc, ◌+◌, ◌/◌, ◌%◌, ◌^◌, ◌<◌, ◌≡◌, refl, ap, ap₂, Bool, true, false, List, [], ◌∷◌, ltb,
  le→ltb, lt→ltb, ltb→lt, ltb→le, Bool-cases, inl, inr, arith, if◌then◌else◌,
}
use crdt_probe.Prelude.Int.{ℤ, pos, negsuc, signed, neg}
use crdt_probe.Encoding.Result.{ok}
use crdt_probe.Encoding.Bits.{head_byte, head_read, mask_six}
use crdt_probe.Encoding.Io.{Write, Read, put_all, Yields}
use crdt_probe.Encoding.VarInt.{
  neg_i64, with_sign, write_magnitude, write_var_i64, write_signed, read_magnitude, read_var_i64,
  read_signed,
}
use crdt_probe.Encoding.VarInt.RoundTrip.{leb128, write_tail-leb128, read_loop-leb128}

abbrev head : ℕ → Bool → ℕ
head m sign = (if ltb 0x3f m then 0x80 else 0) + (if sign then 0x40 else 0) + m % 64

-- The bytes of a number with a sign: six bits, then groups of seven for what is left.
pub sleb128 : ℕ → Bool → List ℕ
sleb128 m sign = head m sign ∷ (if ltb 0x3f m then leb128 (m / 64) (m / 64) else [])

pattern_small : (m : ℕ) → m < 2 ^ 63 → m % 2 ^ 64 ≡ m
pattern_small m h = mod-eq_of_lt (omega arith)

module _ {W : Type 0} ⦃w : Write W⦄ where
  write_magnitude-sleb128 :
      (m : ℕ) (sign : Bool) (out : W)
      → m < 2 ^ 63
      → write_magnitude (pos m) sign out ≡ put_all (sleb128 m sign) out
  unfolding write_magnitude sleb128
  write_magnitude-sleb128 m sign out h = elim (Bool-cases (ltb 0x3f m)) [
    | inl big ↦
        let lt = ltb→lt 0x3f m big in
        rw (pattern_small m h, mask_six m, head_byte (ltb 0x3f m) sign (m % 64) (omega arith))
          (rw (lt→ltb 0 m (omega arith), big)
            (write_tail-leb128 (m / 64) (m / 64) _ (omega arith) (omega arith)))
    | inr small ↦
        let le = ltb→le 0x3f m small in
        let done : m / 64 ≡ 0 = omega arith in
        rw (pattern_small m h, mask_six m, head_byte (ltb 0x3f m) sign (m % 64) (omega arith))
          (rw (done, small) (either (ltb 0 m)))
  ]
    where
      either : {A : Type 0} {a : A} (b : Bool) → (if b then a else a) ≡ a
      either true = refl
      either false = refl

-- The integer with a sign and a magnitude.
abbrev pub from_magnitude : Bool → ℕ → ℤ
from_magnitude sign m = if sign then neg (pos m) else pos m

pub with_sign-small :
    (sign : Bool) (m : ℕ) → m < 2 ^ 63 → with_sign sign (signed 64 m) ≡ from_magnitude sign m
with_sign-small false m h = rw (lt→ltb m (2 ^ 63) h)
with_sign-small true zero h = refl
with_sign-small true (suc m) h = rw (lt→ltb (suc m) (2 ^ 63) h) (ground arith)

module _ {R : Type 0} ⦃i : Read R⦄ where
  read_magnitude-sleb128 :
      (m : ℕ) (sign : Bool) (r r' : R)
      → m < 2 ^ 63
      → Yields r (sleb128 m sign) r'
      → read_magnitude r ≡ ok (sign, m, r')
  unfolding read_magnitude sleb128
  read_magnitude-sleb128 m sign r r' h y = elim (Bool-cases (ltb 0x3f m)) [
    | inl big ↦
        let f = head_read (ltb 0x3f m) sign (m % 64) (omega arith) in
        let y' = rw big at y.2 in
        rw (y.1, f.0, f.1, f.2, big)
          (rw
            (read_loop-leb128 64 70 (m / 64) (m / 64) 70 (m % 64) 6 y.0 r' (omega arith)
              (omega arith) (omega arith) (omega arith) (omega arith) (omega arith) y')
            (ap (λ (n : ℕ). ok (sign, n, r')) (omega arith)))
    | inr small ↦
        let f = head_read (ltb 0x3f m) sign (m % 64) (omega arith) in
        let end : y.0 ≡ r' = rw small at y.2 in
        rw (y.1, f.0, f.1, f.2, small)
          (ap₂ (λ (n : ℕ) (c : R). ok (sign, n, c)) (omega (arith, ltb→le 0x3f m small)) end)
  ]

-- The integers whose negative is an `i64` too: all but the least one.
abbrev pub IsSymmetric : ℤ → Type 0
IsSymmetric (pos n) = n < 2 ^ 63
IsSymmetric (negsuc n) = n + 1 < 2 ^ 63

abbrev pub magnitude : ℤ → ℕ
magnitude (pos n) = n
magnitude (negsuc n) = suc n

abbrev pub is_below : ℤ → Bool
is_below (pos n) = false
is_below (negsuc n) = true

neg_i64-negsuc : (n : ℕ) → n + 1 < 2 ^ 63 → neg_i64 (negsuc n) ≡ pos (suc n)
neg_i64-negsuc n h = ground arith

pub with_sign-from_magnitude :
    (sign : Bool) (m : ℕ) → m < 2 ^ 63 → with_sign sign (from_magnitude sign m) ≡ pos m
with_sign-from_magnitude false m h = refl
with_sign-from_magnitude true zero h = refl
with_sign-from_magnitude true (suc m) h = neg_i64-negsuc m (omega arith)

module _ {W : Type 0} ⦃w : Write W⦄ where
  pub write_var_i64-sleb128 :
      (v : ℤ) (out : W)
      → IsSymmetric v
      → write_var_i64 v out ≡ put_all (sleb128 (magnitude v) (is_below v)) out
  unfolding write_var_i64
  write_var_i64-sleb128 (pos m) out h =
      unfold write_var_i64 in rw (le→ltb m 0 (omega arith)) (write_magnitude-sleb128 m false out h)
  write_var_i64-sleb128 (negsuc n) out h =
      rw (neg_i64-negsuc n h) (write_magnitude-sleb128 (suc n) true out (omega arith))

  pub write_signed-sleb128 :
      (m : ℕ) (sign : Bool) (out : W)
      → m < 2 ^ 63
      → write_signed (record { value = from_magnitude sign m; is_negative = sign }) out
        ≡ put_all (sleb128 m sign) out
  unfolding write_signed
  write_signed-sleb128 m sign out h =
      rw (with_sign-from_magnitude sign m h) (write_magnitude-sleb128 m sign out h)

module _ {R : Type 0} ⦃i : Read R⦄ where
  pub read_var_i64-sleb128 :
      (v : ℤ) (r r' : R)
      → IsSymmetric v
      → Yields r (sleb128 (magnitude v) (is_below v)) r'
      → read_var_i64 r ≡ ok (v, r')
  unfolding read_var_i64
  read_var_i64-sleb128 (pos m) r r' h y =
      rw (read_magnitude-sleb128 m false r r' h y, with_sign-small false m h)
  read_var_i64-sleb128 (negsuc n) r r' h y = rw (
    read_magnitude-sleb128 (suc n) true r r' (omega arith) y,
    with_sign-small true (suc n) (omega arith),
  )

  pub read_signed-sleb128 :
      (m : ℕ) (sign : Bool) (r r' : R)
      → m < 2 ^ 63
      → Yields r (sleb128 m sign) r'
      → read_signed r ≡ ok (record { value = from_magnitude sign m; is_negative = sign }, r')
  unfolding read_signed
  read_signed-sleb128 m sign r r' h y =
      rw (read_magnitude-sleb128 m sign r r' h y, with_sign-small sign m h)
