-- ===== src/Grammar.antt =====
-- src/sample/json_grammar.h and json_grammar.cpp.
pub mod State
pub mod Feed
pub mod Text
pub mod Language
pub mod Free
pub mod Sound
pub mod SoundFeed
pub mod Complete
pub mod CompleteFeed
pub mod Decides
pub mod Prefix
pub mod Schema
pub mod Keys
pub mod Tests
