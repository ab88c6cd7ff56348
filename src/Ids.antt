-- ===== src/Ids.antt =====
-- Sorted clock ranges with values, `IdRanges<T>` of native/yrs-src/yrs/src/ids.rs: the entries, the
-- operations, and the function from clocks to values that a vector of entries stands for.
pub mod Ranges
pub mod Union
pub mod Query
pub mod Insert
pub mod Remove
pub mod Exclude
pub mod Intersect
