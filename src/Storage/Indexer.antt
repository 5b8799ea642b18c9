-- ===== src/Storage/Indexer.antt =====
-- storage/indexer.h: `Indexer`, where the entry of a key lies. Of its `Meta`, which the program reads
-- the key and the value of, the other fields stay blank.
use lightdb.Common.{ℕ, Str, []}

pub record Indexer : Type 0 where
  pub key : Str
  pub value : Str
  pub file_id : ℕ
  pub offset : ℕ

-- `Indexer()`
abbrev pub no_indexer : Indexer
no_indexer = record { key = []; value = []; file_id = 0; offset = 0 }
