-- ===== src/Ds.antt =====
-- ds/: the in-memory structures behind the data types of the store.
pub mod Hash
pub mod Lists
pub mod Sets
pub mod Strings
