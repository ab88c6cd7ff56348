-- ===== src/Encoding/Result.antt =====
-- The results of decoding (encoding/read.rs), with panics as values of their own.
use Prim.Native.String.{String}
use crdt_probe.Prelude.{ℕ}

-- The payloads of `NotEnoughMemory` and `InvalidJSON` are error values of other libraries, and
-- are left out.
pub data Error : Type 0 where
  invalid_var_int unexpected_value not_enough_memory invalid_json : Error
  end_of_buffer : ℕ → Error
  type_mismatch custom : String → Error

-- `panic` is a Rust panic (an index out of bounds). `out_of_fuel` is no Rust outcome: a loop of
-- the model ran out of rounds.
pub data Fault : Type 0 where
  panic out_of_fuel : Fault

pub data Result {ℓ} (A : Type ℓ) : Type ℓ where
  ok : A → Result A
  err : Error → Result A
  fault : Fault → Result A

infixl 5 ◌>>=◌
abbrev pub ◌>>=◌ {ℓ κ} : {A : Type ℓ} {B : Type κ} → Result A → (A → Result B) → Result B
fault x >>= next = fault x
err e >>= next = err e
ok a >>= next = next a
