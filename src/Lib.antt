-- ===== src/Lib.antt =====
-- Verification of the CRDT engine `yrs` that the probe builds, native/yrs-src/yrs/src.
--
-- Replicas exchange updates that name blocks by ids: a client and a clock. Which ids a replica has
-- seen, deleted or undone is kept in range vectors (ids.rs, id_set.rs) and state vectors
-- (state_vector.rs), and all of it travels in variable-length integers (encoding/). Inserted items
-- find their place among concurrent ones by their origins and clients (block.rs). Peers talk in the
-- messages of the sync protocol, next to which they tell who is online (sync/).
--
-- Prelude           shared names, Boolean tests on numbers, lists, integers, finite maps
-- Encoding          encoding/read.rs, write.rs (Io, Result) and varint.rs (VarInt): `Vec<u8>` and
--                   `Cursor` as instances of `Write` and `Read`, the writers and readers of
--                   variable-length integers, their loops on fuel; Fixed has buffers, strings and
--                   integers of a fixed width, Laws what a writer and a reader owe their clients
-- Ids               ids.rs: `IdRanges<T>` as a list of entries. Ranges has `push_coalesced` and the
--                   value of a clock; Query, Insert, Remove, Exclude, Intersect and Union have the
--                   operations of those names (Union is `merge`), each with its meaning below it
-- IdMap             ids.rs: `IdMapInner<T>`, a finite map of ranges by client
-- IdSet             id_set.rs: `IdSet`, maps of ranges without values, and their codec over the ds
--                   methods of the encoder traits
-- StateVector       state_vector.rs: `StateVector`, its comparison and its codec
-- Snapshot          state_vector.rs: `Snapshot` and its codec
-- Updates           updates/encoder.rs and decoder.rs: `UIntOptRleEncoder` and `UIntOptRleDecoder`;
--                   the ds methods of `EncoderV1`, `EncoderV2` and their decoders are in IdSet.Codec
-- Blocks            block.rs: ids, `BlockRange` (Range), and in Conflict the way of an item to its
--                   place: `detect_conflict`, `resolve_conflict` and the linking of
--                   `integrate_item` on a store of cells (Concurrent has two items that come in
--                   either order)
-- Values            any.rs: the values `Any`
-- Texts             block.rs: `SplittableString` and `split_str`
-- Docs              doc.rs: `Options` as a value of `Any`; types/mod.rs: `TypeRef`
-- Links             sticky_index.rs and types/weak.rs: the boundaries of weak links, with their codec
--                   (types/mod.rs) in Codec
-- Fields            updates/encoder.rs and decoder.rs: the traits `Encoder` and `Decoder` as records of
--                   the methods that blocks use, and the fields that are written and handed out
-- Content           block.rs: `ItemContent`, with `splice` and `try_squash`, and its codec (Codec)
-- Items             block.rs: `Item` with all its fields, `ItemPtr::splice` and `try_squash` on a heap
-- Store             block_store.rs: `Block`, `ClientBlockList` with `find_index`, and `BlockStore` with
--                   `push` and `get_state_vector` (Clients); Codec has `Item::encode`,
--                   `Block::encode` and `encode_with_offset` (block.rs), `ItemSlice::encode`
--                   (slice.rs) and `decode_block` (update.rs)
-- Sync              sync/awareness.rs (Awareness; Receive has `apply_update_internal`, `update` and
--                   the codec) and sync/protocol.rs (Protocol has the messages; Handle has
--                   `MessageReader` and the trait `Protocol`)
-- Tests             runs at concrete inputs
--
-- Correspondence. A `SmallVec` is a list, a range with its value an `Entry`, an index into a vector
-- the list from there on. `HashMap` and `BTreeMap` are lists of entries without double keys, in any
-- order. A method on `&mut self` returns the new value. Values of ranges are any type with the trait
-- `Merge`; equality of values is decided by its field `eq`. A client is the number that
-- `ClientID::get` gives.
--
-- An `ItemPtr` is the number of a cell in a store of items, and a pointer that leads nowhere is a
-- fault. In Blocks.Conflict an `Item` has the fields that its place depends on, in Items all of them.
-- A `str` is the list of its UTF-8 bytes in Encoding and Sync, and of its code points in Texts and
-- what is built on it. A block list holds its items by value. Observers are the events that are
-- fired, and two flags that tell whether anyone has subscribed. The document behind the protocol's
-- handlers is a record of the operations that they call.
--
-- The table of a `HashMap` that is made for a number of entries from the wire may be too large:
-- which sizes can be had is a parameter, `Tables`, and the decoding of an awareness update panics
-- with any other. Other memory is taken to be enough.
--
-- Machine integers. Clocks are numbers; the sums that can pass 32 bits wrap, as in a release build
-- (debug builds panic there). Shifts of the readers count modulo the width, and the negative of the
-- least i64 is itself.
--
-- Fuel. The writers run as many rounds as the number is large, and each round divides it by 128. The
-- readers stop once 70 bits are read (180 for u128), and each round reads 7. The loops over vectors
-- recur on the entries that are left. The walk of `resolve_conflict` has one round more than the store
-- has cells, and each round goes to the next sibling; the search of `find_index` has a round more
-- than the list has blocks, and each round takes one index away; the loop of `handle` has one round
-- more than the payload has bytes, and every message takes one.
--
-- Not modelled: the squashing of block lists and the deletion of replaced values and the counters
-- in `integrate_item`, branches, the integration of weak links, the codec of `Any` and floats,
-- documents, transactions and shared types (store.rs, transaction.rs, types/), merging and
-- diffing of updates (update.rs, but for `decode_block`), the other codecs of updates/, undo.rs,
-- json_path/, serde glue, the C interface native/yrs-src/yffi, the vendored crates, and the Dart
-- and JavaScript parts of the repository.
pub mod Prelude
pub mod Encoding
pub mod Ids
pub mod StateVector
pub mod IdMap
pub mod IdSet
pub mod Snapshot
pub mod Updates
pub mod Blocks
pub mod Sync
pub mod Values
pub mod Texts
pub mod Docs
pub mod Fields
pub mod Links
pub mod Content
pub mod Items
pub mod Store
pub mod Tests
