-- ===== src/Updates/UIntOptRle/RoundTrip.antt =====
-- `UIntOptRleDecoder` (updates/decoder.rs) on what the encoder wrote.
use native.Mathlib.Nat.{mod-eq_of_lt}
use crdt_probe.Prelude.{
  ℕ, zero, suc, ◌+◌, ◌-◌, ◌%◌, ◌^◌, ◌<◌, ◌≡◌, refl, sym, ap, ◌∙◌, true, false, List, [], ◌∷◌, ◌==◌,
  Bool-cases, inl, inr, ==_iff, arith, length, All, append-nil,
}
use crdt_probe.Prelude.Int.{bits_of}
use crdt_probe.Encoding.Result.{Result, ok, ◌>>=◌}
use crdt_probe.Encoding.Io.{vec_write, cursor_read, Cursor, Yields, Yields-append, cursor-Yields}
use crdt_probe.Encoding.VarInt.RoundTrip.{leb128, read_var_u32-leb128}
use crdt_probe.Encoding.VarInt.SignedTrip.{sleb128, with_sign-from_magnitude, read_signed-sleb128}
use crdt_probe.Updates.UIntOptRle.Written.{
  write_each, IsI64, run_bytes, tail_bytes, to_vec-tail_bytes,
}
use crdt_probe.Updates.UIntOptRle.{
  new_encoder, to_vec, Decoder, new_decoder, take_one, read_run, read_u64,
}

pub read_each : ℕ → Decoder → Result (List ℕ)
read_each zero d = ok []
read_each (suc n) d = do (v, d') ← read_u64 d; vs ← read_each n d'; ok (v ∷ vs)

-- `n` copies of a number in front of others.
abbrev copies : ℕ → ℕ → List ℕ → List ℕ
copies zero x vs = vs
copies (suc n) x vs = x ∷ copies n x vs

copies-suc : (n x : ℕ) (vs : List ℕ) → copies (suc n) x vs ≡ copies n x (x ∷ vs)
copies-suc zero x vs = refl
copies-suc (suc n) x vs = ap (λ t. x ∷ t) (copies-suc n x vs)

abbrev at : Cursor → ℕ → ℕ → Decoder
at c last count = record { cursor = c; last = last; count = count }

read_u64_within :
    (c : Cursor) (last n : ℕ)
    → suc n < 2 ^ 32
    → read_u64 (at c last (suc n)) ≡ ok (last, at c last n)
unfolding read_u64 take_one
read_u64_within c last n h =
    let some_ : (suc n == 0) ≡ false = ground arith in
    let left : (suc n + 2 ^ 32 - 1) % 2 ^ 32 ≡ n = omega arith in
    rw (read_u64, some_) (ap (λ (k : ℕ). ok (last, at c last k)) left)

read_each-step :
    (k : ℕ) (d d' : Decoder) (v : ℕ) (vs : List ℕ)
    → read_u64 d ≡ ok (v, d')
    → read_each k d' ≡ ok vs
    → read_each (suc k) d ≡ ok (v ∷ vs)
unfolding read_each
read_each-step k d d' v vs h e = rw (h, e) refl

read_each-copies :
    (n k last : ℕ) (c : Cursor) (vs : List ℕ)
    → n < 2 ^ 32
    → read_each k (at c last 0) ≡ ok vs
    → read_each (n + k) (at c last n) ≡ ok (copies n last vs)
unfolding read_each
read_each-copies zero k last c vs h e = let z : 0 + k ≡ k = omega arith in rw z e
read_each-copies (suc n) k last c vs h e =
    let shift : suc n + k ≡ suc (n + k) = omega arith in
    rw shift (
      read_each-step (n + k) (at c last (suc n)) (at c last n) last (copies n last vs)
        (read_u64_within c last n h) (read_each-copies n k last c vs (omega arith) e))

-- A run is read from its bytes, whatever the decoder last gave.
read_run-run_bytes :
    (n x y : ℕ) (c c' : Cursor)
    → x < 2 ^ 63
    → suc n < 2 ^ 32
    → Yields {R = Cursor} c (run_bytes x (suc n)) c'
    → read_run (at c y 0) ≡ ok (at c' x (suc n))
unfolding read_run run_bytes
read_run-run_bytes zero x y c c' h l t =
    let exact : x % 2 ^ 64 ≡ x = mod-eq_of_lt (omega arith) in
    rw (read_signed-sleb128 x false c c' h t) (ap (λ (k : ℕ). ok (at c' k 1)) exact)
read_run-run_bytes (suc n) x y c c' h l t =
    let (m, t₁, t₂) = Yields-append (sleb128 x true) (leb128 n n) c c' t in
    let exact : x % 2 ^ 64 ≡ x = mod-eq_of_lt (omega arith) in
    let count : (n + 2) % 2 ^ 32 ≡ suc (suc n) = omega arith in
    rw (read_signed-sleb128 x true c m h t₁, read_var_u32-leb128 n m c' (omega arith) t₂)
      (ap (λ z. ok (at c' (bits_of 64 z) ((n + 2) % 2 ^ 32))) (with_sign-from_magnitude true x h)
        ∙ ap (λ (k : ℕ). ok (at c' k ((n + 2) % 2 ^ 32))) exact
        ∙ ap (λ (k : ℕ). ok (at c' x k)) count)

read_u64-run_bytes :
    (n x y : ℕ) (c c' : Cursor)
    → x < 2 ^ 63
    → suc n < 2 ^ 32
    → Yields {R = Cursor} c (run_bytes x (suc n)) c'
    → read_u64 (at c y 0) ≡ ok (x, at c' x n)
unfolding read_u64 take_one
read_u64-run_bytes n x y c c' h l t =
    let left : (suc n + 2 ^ 32 - 1) % 2 ^ 32 ≡ n = omega arith in
    rw (read_run-run_bytes n x y c c' h l t) (ap (λ (k : ℕ). ok (x, at c' x k)) left)

-- What the decoder last gave does not matter once its count is used up.
read_each-last : (k x y : ℕ) (c : Cursor) → read_each k (at c x 0) ≡ read_each k (at c y 0)
unfolding read_each read_u64 read_run
read_each-last zero x y c = refl
read_each-last (suc k) x y c = refl

read_each-run_bytes :
    (n k x y : ℕ) (c c' : Cursor) (vs : List ℕ)
    → x < 2 ^ 63
    → n < 2 ^ 32
    → Yields {R = Cursor} c (run_bytes x n) c'
    → read_each k (at c' x 0) ≡ ok vs
    → read_each (n + k) (at c y 0) ≡ ok (copies n x vs)
unfolding run_bytes
read_each-run_bytes zero k x y c c' vs h l t e =
    let z : 0 + k ≡ k = omega arith in rw (z, t) (read_each-last k y x c' ∙ e)
read_each-run_bytes (suc n) k x y c c' vs h l t e =
    let shift : suc n + k ≡ suc (n + k) = omega arith in
    rw shift (
      read_each-step (n + k) (at c y 0) (at c' x n) x (copies n x vs)
        (read_u64-run_bytes n x y c c' h l t) (read_each-copies n k x c' vs (omega arith) e))

read_each-tail_bytes :
    (vs : List ℕ) (n x y : ℕ) (c c' : Cursor)
    → x < 2 ^ 63
    → All IsI64 vs
    → n + length vs < 2 ^ 32
    → Yields {R = Cursor} c (tail_bytes x n vs) c'
    → read_each (n + length vs) (at c y 0) ≡ ok (copies n x vs)
unfolding tail_bytes
read_each-tail_bytes [] n x y c c' h a l t =
    read_each-run_bytes n 0 x y c c' [] h (omega arith) t (unfold read_each in refl)
read_each-tail_bytes (v ∷ vs) n x y c c' h a l t = elim (Bool-cases (x == v)) [
  | inl same ↦
      let shift : n + suc (length vs) ≡ (n + 1) + length vs = omega arith in
      let rest = read_each-tail_bytes vs (n + 1) x y c c' h a.1 (omega arith) (rw same at t) in
      let more : n + 1 ≡ suc n = omega arith in
      rw shift (
        rest
        ∙ ap (λ k. ok (copies k x vs)) more
        ∙ ap (λ t. ok t) (copies-suc n x vs ∙ ap (λ w. copies n x (w ∷ vs)) ((==_iff x v).0 same)))
  | inr other ↦
      let (m, t₁, t₂) = Yields-append (run_bytes x n) (tail_bytes v 1 vs) c c' (rw other at t) in
      let rest = read_each-tail_bytes vs 1 v x m c' a.0 a.1 (omega arith) t₂ in
      let one_more : 1 + length vs ≡ suc (length vs) = omega arith in
      read_each-run_bytes n (suc (length vs)) x y c m (v ∷ vs) h (omega arith) t₁
        (rw one_more at rest)
]

-- The decoder gives back, in order, the numbers that the encoder was given, where they are below
-- 2 ^ 63 and fewer than 2 ^ 32.
pub read_each-write_each :
    (vs : List ℕ)
    → All IsI64 vs
    → length vs < 2 ^ 32
    → read_each
        (length vs)
        (new_decoder (record { buf = to_vec (write_each vs new_encoder); next = 0 }))
      ≡ ok vs
read_each-write_each vs a l =
    let bytes = tail_bytes 0 0 vs in
    let written = to_vec-tail_bytes vs [] 0 0 (omega arith) a (omega arith) in
    let from_zero : 0 + length vs ≡ length vs = omega arith in
    let read = read_each-tail_bytes vs 0 0 0 _ _ (omega arith) a (omega arith) (
      cursor-Yields [] bytes [] (to_vec (write_each vs new_encoder)) 0
        (written ∙ sym (append-nil bytes)) refl) in
    rw from_zero at read
