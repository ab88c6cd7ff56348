-- ===== src/Updates/UIntOptRle/Written.antt =====
-- `UIntOptRleEncoder` (updates/encoder.rs): the bytes of a list of numbers, run by run.
use crdt_probe.Prelude.{
  ℕ, zero, suc, ◌+◌, ◌-◌, ◌%◌, ◌^◌, ◌<◌, ◌≡◌, refl, sym, ap, ◌∙◌, true, false, List, [], ◌∷◌, ◌++◌,
  ltb, ◌==◌, if◌then◌else◌, Bool-cases, inl, inr, arith, length, All, append-nil, append_assoc,
}
use crdt_probe.Prelude.Int.{signed, pos}
use crdt_probe.Encoding.Io.{vec_write, cursor_read, put_all-append, put_all-vec}
use crdt_probe.Encoding.VarInt.{neg_i64, write_var, write_var_i64, write_signed}
use crdt_probe.Encoding.VarInt.RoundTrip.{leb128, write_var-leb128}
use crdt_probe.Encoding.VarInt.SignedTrip.{
  sleb128, with_sign-small, write_var_i64-sleb128, write_signed-sleb128,
}
use crdt_probe.Updates.UIntOptRle.{Encoder, flush, write_u64, to_vec}

unfoldable pub write_each : List ℕ → Encoder → Encoder
write_each [] e = e
write_each (v ∷ vs) e = write_each vs (write_u64 v e)

-- The bytes of a run, and those of what is written behind a run that is not flushed.
unfoldable pub run_bytes : ℕ → ℕ → List ℕ
run_bytes last zero = []
run_bytes last (suc zero) = sleb128 last false
run_bytes last (suc (suc n)) = sleb128 last true ++ leb128 n n

unfoldable pub tail_bytes : ℕ → ℕ → List ℕ → List ℕ
tail_bytes last count [] = run_bytes last count
tail_bytes last count (v ∷ vs) =
    if last == v then tail_bytes last (count + 1) vs else run_bytes last count ++ tail_bytes v 1 vs

flush_many :
    (last n : ℕ) (buf : List ℕ)
    → flush (record { buf = buf; last = last; count = suc (suc n) })
      ≡ write_var n
          (write_signed (record { value = neg_i64 (signed 64 last); is_negative = true }) buf)
unfolding flush
flush_many last n buf =
    let some_ : ltb 0 (suc (suc n)) ≡ true = ground arith in
    let not_one : (suc (suc n) == 1) ≡ false = ground arith in
    let left : suc (suc n) - 2 ≡ n = omega arith in rw (flush, some_, not_one, left) refl

write_u64_same :
    (v : ℕ) (e : Encoder)
    → (e.last == v) ≡ true
    → e.count + 1 < 2 ^ 32
    → write_u64 v e ≡ record e { count = e.count + 1 }
unfolding write_u64
write_u64_same v e same h =
    let exact : (e.count + 1) % 2 ^ 32 ≡ e.count + 1 = omega arith in
    rw (write_u64, same, exact) refl

write_u64_other :
    (v : ℕ) (e : Encoder)
    → (e.last == v) ≡ false
    → write_u64 v e ≡ record { buf = flush e; last = v; count = 1 }
unfolding write_u64
write_u64_other v e other = rw (write_u64, other) refl

flush-run_bytes :
    (last count : ℕ) (buf : List ℕ)
    → last < 2 ^ 63
    → flush (record { buf = buf; last = last; count = count }) ≡ buf ++ run_bytes last count
unfolding flush run_bytes
flush-run_bytes last zero buf h = sym (append-nil buf)
flush-run_bytes last (suc zero) buf h =
    ap (λ z. write_var_i64 z buf) (with_sign-small false last h)
    ∙ write_var_i64-sleb128 (pos last) buf h
    ∙ put_all-vec (sleb128 last false) buf
flush-run_bytes last (suc (suc n)) buf h =
    flush_many last n buf
    ∙ ap (λ z. write_var n (write_signed (record { value = z; is_negative = true }) buf))
        (with_sign-small true last h)
    ∙ ap (write_var n) (write_signed-sleb128 last true buf h)
    ∙ write_var-leb128 n _
    ∙ sym (put_all-append (sleb128 last true) (leb128 n n) buf)
    ∙ put_all-vec (sleb128 last true ++ leb128 n n) buf

abbrev pub IsI64 : ℕ → Type 0
IsI64 v = v < 2 ^ 63

pub to_vec-tail_bytes :
    (vs buf : List ℕ) (last count : ℕ)
    → last < 2 ^ 63
    → All IsI64 vs
    → count + length vs < 2 ^ 32
    → to_vec (write_each vs (record { buf = buf; last = last; count = count }))
      ≡ buf ++ tail_bytes last count vs
unfolding to_vec write_each tail_bytes
to_vec-tail_bytes [] buf last count h a l = flush-run_bytes last count buf h
to_vec-tail_bytes (v ∷ vs) buf last count h a l =
    let e : Encoder = record { buf = buf; last = last; count = count } in
    elim (Bool-cases (last == v)) [
      | inl same ↦
          ap (λ (t : Encoder). to_vec (write_each vs t)) (write_u64_same v e same (omega arith))
          ∙ rw same (to_vec-tail_bytes vs buf last (count + 1) h a.1 (omega arith))
      | inr other ↦
          ap (λ (t : Encoder). to_vec (write_each vs t)) (write_u64_other v e other)
          ∙ to_vec-tail_bytes vs (flush e) v 1 a.0 a.1 (omega arith)
          ∙ ap (λ t. t ++ tail_bytes v 1 vs) (flush-run_bytes last count buf h)
          ∙ rw other (append_assoc buf (run_bytes last count) (tail_bytes v 1 vs))
    ]
