-- ===== src/Values.antt =====
-- `Any` of native/yrs-src/yrs/src/any.rs. A string is the list of its code points, an `f64` or an
-- `i64` its 64 bits, and a map the list of its entries.
use crdt_probe.Prelude.{ℕ, Bool, List}

mutual
  pub data Any : Type 0 where
    null : Any
    undefined : Any
    bool : Bool → Any
    number : ℕ → Any
    big_int : ℕ → Any
    string : List ℕ → Any
    buffer : List ℕ → Any
    array : AnyArray → Any
    map : AnyEntries → Any

  pub data AnyArray : Type 0 where
    nil : AnyArray
    cons : Any → AnyArray → AnyArray

  pub data AnyEntries : Type 0 where
    end : AnyEntries
    field : List ℕ → Any → AnyEntries → AnyEntries
