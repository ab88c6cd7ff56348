-- ===== src/Encoding.antt =====
-- The lib0 encoding of native/yrs-src/yrs/src/encoding: byte readers and writers, and
-- variable-length integers.
pub mod Result
pub mod Bits
pub mod Io
pub mod Laws
pub mod Fixed
pub mod VarInt
