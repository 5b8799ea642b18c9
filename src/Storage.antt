-- ===== src/Storage.antt =====
-- storage/ and the codecs under util/: how an entry becomes bytes of a data file and back.
pub mod Coding
pub mod Crc
pub mod Entry
pub mod Status
pub mod Message
pub mod File
pub mod Indexer
