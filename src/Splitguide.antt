-- ===== src/Splitguide.antt =====
-- buildrs/splitguide.rs, which cuts the C header that cbindgen writes into the files of `include/`.
pub mod Failure
pub mod Token
pub mod Record
pub mod Tokenizer
pub mod Guide
pub mod Split
mod Tests
