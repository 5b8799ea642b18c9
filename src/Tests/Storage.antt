-- ===== src/Tests/Storage.antt =====
-- Runs of the codec and of the log file of storage/.
use lightdb.Common.{ℕ, ◌^◌, ◌<◌, codes, length, take, [], ◌∷◌, ◌++◌, ◌≡◌, refl, arith}
use lightdb.Storage.Coding.{put_fixed16, put_fixed32, put_fixed64}
use lightdb.Storage.Entry.{Entry, DataType, OperationType, blank, encode, new_entry_now}
use lightdb.Storage.Entry.RoundTrip.{Fits, new_entry_now-Fits}
use lightdb.Storage.Status.{k_ok}
use lightdb.Storage.File.{Outcome, DbFile, Io, read, write, appended}
use lightdb.Storage.File.Written.{IsSynced, write-prefix}
use lightdb.Storage.File.ReadBack.{read_back, read-write}

abbrev visit : Entry
visit =
    new_entry_now 5 (codes "k") (codes "v1") (codes "x") DataType.string OperationType.string_set

visit-Fits : Fits visit
visit-Fits =
    new_entry_now-Fits 5 (codes "k") (codes "v1") (codes "x") DataType.string
      OperationType.string_set (omega arith) (omega arith) (omega arith) (omega arith)

length-visit : length (encode visit) < 2 ^ 32
unfolding new_entry_now encode put_fixed16 put_fixed32 put_fixed64
length-visit = omega arith

abbrev disk : DbFile
disk = record { id = 0; bytes = 9 ∷ 9 ∷ []; offset = 0; write_offset = 2 }

abbrev slow : Io
slow = record {
  file = disk;
  outcomes = Outcome.interrupted ∷ Outcome.short 3 ∷ Outcome.short 0 ∷ [];
}

read-write_example :
    (io1 io2 : Io) × (write slow visit ≡ (k_ok, io1))
    × (read io1 (length slow.file.bytes) blank ≡ (k_ok, read_back visit, io2))
    × (io2.file.bytes ≡ slow.file.bytes ++ encode visit)
read-write_example = read-write slow visit (visit-Fits, length-visit) tt

abbrev broken : Io
broken = record { file = disk; outcomes = Outcome.short 3 ∷ Outcome.failed 28 ∷ [] }

write-prefix_example :
    ((n : ℕ) × ((write broken visit).1.file ≡ appended broken.file (take n (encode visit))))
    × IsSynced (write broken visit).1.file
write-prefix_example = write-prefix broken visit (visit-Fits, length-visit) refl

abbrev stored : Io
stored = record {
  file = record {
    id = 0;
    bytes = (9 ∷ 9 ∷ []) ++ (encode visit ++ (8 ∷ []));
    offset = 0;
    write_offset = 0;
  };
  outcomes = Outcome.short 0 ∷ Outcome.interrupted ∷ [];
}
