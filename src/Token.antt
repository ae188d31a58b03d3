-- ===== src/Token.antt =====
-- The byte-level BPE tokenizer, src/tokenizer/bpe.{h,cpp}.
pub mod Utf8
pub mod Unicode
pub mod Ranges
pub mod Piece
pub mod Bpe
pub mod Alphabet
pub mod Merge
pub mod Loop
pub mod Symbols
pub mod Bounds
pub mod Encode
pub mod Cut
pub mod Segments
pub mod FromGguf
pub mod Sorted
pub mod Numbers
pub mod Tables
pub mod Tests
