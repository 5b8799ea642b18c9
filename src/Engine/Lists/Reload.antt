-- ===== src/Engine/Lists/Reload.antt =====
-- db_list.cpp and idx.cpp: the entries of `LSet`, `LRem`, `LInsert` and `LTrim`, read back by
-- `buildListIndex`.
use lightdb.Storage.Entry.{Entry}
