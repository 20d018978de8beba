-- ===== src/Tokenizer.antt =====
-- include/engine/tokenizer.h and src/tokenizer/tokenizer.cpp: byte-pair encoding.
mod Ranges
mod Split
mod Pieces
mod Merge
pub mod Rounds
mod Merged
mod Bits
pub mod Utf8
pub mod RoundTrip
pub mod Texts
pub mod Vocab
pub mod Encode
pub mod Chat
mod Symbols
pub mod Spelling
mod Cuts
mod Special
pub mod Small
mod Tests
