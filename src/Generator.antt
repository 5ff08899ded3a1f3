-- ===== src/Generator.antt =====
-- The writing of the generic macros, of the features and of the version: the functions of
-- buildrs/cbindgen_generator.rs.
pub mod Signature
pub mod Features
pub mod Groups
pub mod Find
pub mod Macros
pub mod Overloads
pub mod Header
pub mod Configure
pub mod Opaque
pub mod Pipeline
pub mod Tests
