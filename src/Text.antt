-- ===== src/Text.antt =====
-- Text from ids: the SentencePiece backend's decode (src/tokenizer/spm.cpp) and the streaming
-- detokenizer (src/tokenizer/tokenizer.cpp).
pub mod Spm
pub mod Stream
pub mod Complete
pub mod Streaming
pub mod Whole
pub mod Tests
