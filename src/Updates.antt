-- ===== src/Updates.antt =====
-- The run-length codecs of update format version 2 (native/yrs-src/yrs/src/updates).
pub mod UIntOptRle
