-- ===== src/Collections.antt =====
-- src/collections.rs: slices, strings and arrays of strings that C code holds.
pub mod Memory
pub mod Slice
pub mod Strings
pub mod Arrays
mod Tests
