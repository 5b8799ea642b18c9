-- ===== src/Engine.antt =====
-- lightdb.h and lightdb.cpp: the part of the class `LightDB` that the list, hash and set operations
-- use, with `CheckKeyValue`, `store` and `CheckExpired`. The indexes of strings and of sorted sets
-- are not in this state; their branches leave it as it is.
pub mod State
pub mod Hashes
pub mod Lists
pub mod Sets
pub mod Index
pub mod Logged
pub mod Store
pub mod Journal
pub mod Dump
pub mod Strings
