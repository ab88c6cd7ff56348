-- ===== src/Blocks.antt =====
-- Blocks of block.rs: their ids and ranges, and how an item finds its place.
pub mod Range
pub mod Conflict
use crdt_probe.Prelude.{ℕ, Bool, true, false, ◌&&◌, Option, none, some, ◌==◌}

-- `ID` with its derived equality.
pub record BlockId : Type 0 where
  pub client : ℕ
  pub clock : ℕ

abbrev pub id_eq : BlockId → BlockId → Bool
id_eq a b = (a.client == b.client) && (a.clock == b.clock)

abbrev pub origin_eq : Option BlockId → Option BlockId → Bool
origin_eq none none = true
origin_eq none (some b) = false
origin_eq (some a) none = false
origin_eq (some a) (some b) = id_eq a b
