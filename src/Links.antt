-- ===== src/Links.antt =====
-- `StickyIndex` of sticky_index.rs and `LinkSource` of types/weak.rs: the boundaries of a weak link.
pub mod Codec
use crdt_probe.Prelude.{Bool, true, false, List, ℕ}
use crdt_probe.Blocks.{BlockId, id_eq}

pub data IndexScope : Type 0 where
  relative nested : BlockId → IndexScope
  root : List ℕ → IndexScope

pub data Assoc : Type 0 where
  after before : Assoc

pub record StickyIndex : Type 0 where
  pub scope : IndexScope
  pub assoc : Assoc

pub record LinkSource : Type 0 where
  pub quote_start : StickyIndex
  pub quote_end : StickyIndex

abbrev pub is_root : IndexScope → Bool
is_root (root name) = true
is_root (relative id) = false
is_root (nested id) = false

abbrev pub is_relative : IndexScope → Bool
is_relative (relative id) = true
is_relative (nested id) = false
is_relative (root name) = false

abbrev pub is_after : Assoc → Bool
is_after after = true
is_after before = false

abbrev pub is_single_scope : IndexScope → IndexScope → Bool
is_single_scope (relative x) (relative y) = id_eq x y
is_single_scope _ _ = false

abbrev pub is_single : LinkSource → Bool
is_single l = is_single_scope l.quote_start.scope l.quote_end.scope
