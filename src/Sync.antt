-- ===== src/Sync.antt =====
-- The y-sync protocol and the awareness state of native/yrs-src/yrs/src/sync.
pub mod Awareness
pub mod Protocol
