-- ===== src/Encoding/VarInt/Reading.antt =====
-- The unsigned readers on any input, well formed or not.
use crdt_probe.Prelude.{
  ℕ, zero, suc, ◌+◌, ◌*◌, ◌%◌, ◌^◌, ◌≤◌, ◌<◌, ◌≡◌, ◌≢◌, ◌⊎◌, refl, arith, inl, inr,
}
use Prim.Native.Nat.{bit_and, bit_or}
use crdt_probe.Encoding.Result.{Result, Error, ok, err, fault, Fault}
use crdt_probe.Encoding.Bits.{bit_or_lt}
use crdt_probe.Encoding.Io.{Read, read_u8, Cursor, cursor_read, cursor_read_u8}
use crdt_probe.Encoding.VarInt.{read_loop, read_var_u32, read_var_u64, read_var_narrow}
use native.Mathlib.Nat.{one-le-pow, mod-lt}

-- The loop on a cursor ends by its own tests: it never runs out of rounds, and never panics.
cursor_read_u8-ne-fault : (c : Cursor) (x : Fault) → cursor_read_u8 c ≢ fault x
unfolding cursor_read_u8
cursor_read_u8-ne-fault c x e = ground arith

-- What is left where no fault can be.
faultless_cases {ℓ} :
    {A : Type ℓ} (outcome : Result A)
    → ((x : Fault) → outcome ≢ fault x)
    → ((a : A) × (outcome ≡ ok a)) ⊎ ((e : Error) × (outcome ≡ err e))
faultless_cases (fault x) sound = absurd (sound x refl)
faultless_cases (err e) sound = inr (e, refl)
faultless_cases (ok a) sound = inl (a, refl)

module _ (bits limit : ℕ) where
  read_loop-ne-fault :
      (rounds num len : ℕ) (c : Cursor) (x : Fault)
      → limit < 7 * rounds + len
      → len ≤ limit
      → read_loop bits limit rounds num len c ≢ fault x
  unfolding read_loop
  read_loop-ne-fault zero num len c x enough below e = omega arith
  read_loop-ne-fault (suc rounds) num len c x enough below e =
      elim (faultless_cases (cursor_read_u8 c) (cursor_read_u8-ne-fault c)) [
        | inl ((b, c'), r) ↦ ground (
          arith,
          rw r at e,
          read_loop-ne-fault rounds (bit_or num (bit_and b 0x7f * 2 ^ (len % bits) % 2 ^ bits))
              (len + 7) c' x,
        )
        | inr (z, r) ↦ cc (rw r at e)
      ]

  -- What is gathered never passes the width.
  read_loop-lt :
      (rounds num len : ℕ) (c : Cursor) (v : ℕ) (c' : Cursor)
      → num < 2 ^ bits
      → read_loop bits limit rounds num len c ≡ ok (v, c')
      → v < 2 ^ bits
  unfolding read_loop
  read_loop-lt zero num len c v c' h e = cc
  read_loop-lt (suc rounds) num len c v c' h e =
      elim (faultless_cases (cursor_read_u8 c) (cursor_read_u8-ne-fault c)) [
        | inl ((b, m), r) ↦
            let num' = bit_or num (bit_and b 0x7f * 2 ^ (len % bits) % 2 ^ bits) in
            let fits =
              bit_or_lt bits num (bit_and b 0x7f * 2 ^ (len % bits) % 2 ^ bits) h
                (mod-lt _ (one-le-pow bits 2 (omega arith))) in
            ground (arith, rw r at e, fits, read_loop-lt rounds num' (len + 7) m v c' fits)
        | inr (z, r) ↦ cc (rw r at e)
      ]

-- On any cursor the reader of u32 ends without a fault, and what it returns is below 2 ^ 32.
pub read_var_u32_total :
    (c : Cursor)
    → ((x : Fault) → read_var_u32 c ≢ fault x)
      × ((v : ℕ) (c' : Cursor) → read_var_u32 c ≡ ok (v, c') → v < 2 ^ 32)
unfolding read_var_u32
read_var_u32_total c = (
  λ x. read_loop-ne-fault 32 70 70 0 0 c x (omega arith) (omega arith),
  λ v c'. read_loop-lt 32 70 70 0 0 c v c' (omega arith),
)

-- On any cursor the reader of u64 ends without a fault, and what it returns is below 2 ^ 64.
pub read_var_u64_total :
    (c : Cursor)
    → ((x : Fault) → read_var_u64 c ≢ fault x)
      × ((v : ℕ) (c' : Cursor) → read_var_u64 c ≡ ok (v, c') → v < 2 ^ 64)
unfolding read_var_u64
read_var_u64_total c = (
  λ x. read_loop-ne-fault 64 70 70 0 0 c x (omega arith) (omega arith),
  λ v c'. read_loop-lt 64 70 70 0 0 c v c' (omega arith),
)

-- A reader without a first byte fails as that byte does.
pub read_var_narrow-err :
    {R : Type 0} ⦃i : Read R⦄ (bits : ℕ) (r : R) (e : Error)
    → read_u8 r ≡ err e
    → read_var_narrow bits r ≡ err e
unfolding read_var_narrow read_var_u32 read_loop
read_var_narrow-err bits r e h = rw h refl
