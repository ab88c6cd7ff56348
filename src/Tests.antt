-- ===== src/Tests.antt =====
-- Runs of the operations at concrete inputs, and the theorems applied there.
mod Ranges
mod Sets
mod Bytes
mod Codecs
mod Presence
mod Messages
mod Blocks
mod Stores
