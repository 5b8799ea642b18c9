-- ===== src/Engine/Strings.antt =====
-- db_str.cpp, the string operations of `LightDB`, and the entries of strings in idx.cpp. The string
-- index, the cache and the numbers drawn for the skip list stand beside the rest of the database.
pub mod Steps
pub mod Access
pub mod Updates
pub mod Laws
pub mod Text
pub mod Defects
pub mod Cached
