-- ===== src/Storage/File.antt =====
-- storage/db_file.h and storage/db_file.cpp: `DBFile`. The kernel is a list of outcomes, one for
-- each call of `pread` or `write`: a short transfer, an interruption or an error. After the last
-- outcome every call transfers all that it can.
pub mod Transfer
pub mod Written
pub mod ReadBack
pub mod Entries
use Prim.Native.Nat.{min}
use lightdb.Storage.Status.{
  Code, k_ok, k_end_of_file, k_invalid_crc, ok, is_end_of_file, posix_error,
}
use lightdb.Storage.Crc.{crc_compute}
use lightdb.Storage.Entry.{Entry, Meta, header_size, encode, decode}
use lightdb.Common.{
  ℕ, zero, suc, ◌+◌, ◌-◌, ◌%◌, ◌^◌, ◌==◌, leb, ltb, Str, Bool, true, false, not, ◌&&◌, List, [],
  ◌∷◌, ◌++◌, length, take, drop, replicate, if◌then◌else◌,
}

pub data Outcome : Type 0 where
  -- at most n + 1 bytes
  short : ℕ → Outcome
  interrupted : Outcome
  -- with its `errno`
  failed : ℕ → Outcome

-- `WriteOffset` is the end of the file as the program tracks it.
pub record DbFile : Type 0 where
  pub id : ℕ
  pub bytes : Str
  pub offset : ℕ
  pub write_offset : ℕ

pub record Io : Type 0 where
  pub file : DbFile
  pub outcomes : List Outcome

-- The loop of `ReadBuf`: `rest` are the bytes of the file from the current offset, `nleft` the
-- number of bytes to go. The result is the status, what was read, and the outcomes left.
unfoldable pub read_loop : List Outcome → Str → ℕ → Str → Code × Str × List Outcome
unfolding posix_error
read_loop [] rest nleft buf =
    if leb nleft (length rest)
    then (k_ok, buf ++ take nleft rest, [])
    else (k_end_of_file, buf ++ rest, [])
read_loop (o ∷ os) rest zero buf = (k_ok, buf, o ∷ os)
read_loop (short n ∷ os) [] (suc nleft) buf = (k_end_of_file, buf, os)
read_loop (short n ∷ os) (x ∷ rest) (suc nleft) buf =
    let k = min (n + 1) (min (suc nleft) (length (x ∷ rest))) in
    read_loop os (drop k (x ∷ rest)) (suc nleft - k) (buf ++ take k (x ∷ rest))
read_loop (interrupted ∷ os) rest (suc nleft) buf = read_loop os rest (suc nleft) buf
read_loop (failed error_number ∷ os) rest (suc nleft) buf = (posix_error error_number, buf, os)

-- `memset` and `result.assign(buf, size)`
abbrev pub padded : ℕ → Str → Str
padded size buf = buf ++ replicate (size - length buf) 0

-- At the end of the file the result and the offset are left as they were.
unfoldable pub finish_read : Io → ℕ → Str → Code × Str × List Outcome → Code × Str × Io
finish_read io size result (status, buf, os) =
    if is_end_of_file status then (status, result, record io { outcomes = os }) else (
      status,
      padded size buf,
      record { file = record io.file { offset = io.file.offset + size }; outcomes = os },
    )

unfoldable pub read_buf : Io → Str → ℕ → ℕ → Code × Str × Io
unfolding read_loop finish_read
read_buf io result offset size =
    finish_read io size result (read_loop io.outcomes (drop offset io.file.bytes) size [])

abbrev pub with_key : Entry → Str → Entry
with_key e key = record e { meta = record e.meta { key = key } }

abbrev pub with_value : Entry → Str → Entry
with_value e value = record e { meta = record e.meta { value = value } }

abbrev pub with_extra : Entry → Str → Entry
with_extra e extra = record e { meta = record e.meta { extra = extra } }

-- A string of the entry is read only where its size is not 0.
abbrev pub read_part : Io → Str → ℕ → ℕ → Code × Str × Io
read_part io result offset size =
    if ltb 0 size then read_buf io result offset size else (k_ok, result, io)

unfoldable pub check_crc : Entry → Io → Code × Entry × Io
check_crc e io = if crc_compute e.value == e.crc32 then (k_ok, e, io) else (k_invalid_crc, e, io)

unfoldable pub read_extra : Entry → ℕ → Io → Code × Entry × Io
unfolding check_crc
read_extra e offset io =
    let (status, extra, io') = read_part io e.extra offset e.extra_size in
    if ok status then check_crc (with_extra e extra) io' else (status, with_extra e extra, io')

unfoldable pub read_value : Entry → ℕ → Io → Code × Entry × Io
unfolding read_extra
read_value e offset io =
    let (status, value, io') = read_part io e.value offset e.value_size in
    if ok status
    then read_extra (with_value e value) (offset + e.value_size) io'
    else (status, with_value e value, io')

-- The end of the file inside the key is not an error here.
unfoldable pub read_key : Entry → ℕ → Io → Code × Entry × Io
unfolding read_value
read_key e offset io =
    let (status, key, io') = read_part io e.key offset e.key_size in
    if not (ok status) && not (is_end_of_file status)
    then (status, with_key e key, io')
    else read_value (with_key e key) (offset + e.key_size) io'

unfoldable pub read : Io → ℕ → Entry → Code × Entry × Io
unfolding read_buf read_key
read io offset e =
    let (status, buf, io') = read_buf io [] offset header_size in
    if ok status then read_key (decode e buf) (offset + header_size) io' else (status, e, io')

abbrev pub appended : DbFile → Str → DbFile
appended f chunk = record f {
  bytes = f.bytes ++ chunk;
  write_offset = f.write_offset + length chunk;
}

-- The loop of `Write` over the bytes to go.
unfoldable pub write_loop : List Outcome → Str → DbFile → Code × DbFile × List Outcome
unfolding posix_error
write_loop [] text f = (k_ok, appended f text, [])
write_loop (o ∷ os) [] f = (k_ok, f, o ∷ os)
write_loop (short n ∷ os) (x ∷ text) f =
    write_loop os (drop (suc n) (x ∷ text)) (appended f (take (suc n) (x ∷ text)))
write_loop (interrupted ∷ os) (x ∷ text) f = write_loop os (x ∷ text) f
write_loop (failed error_number ∷ os) (x ∷ text) f = (posix_error error_number, f, os)

-- `uint32_t size = buf.size()`
unfoldable pub write : Io → Entry → Code × Io
unfolding write_loop
write io e =
    let buf = encode e in
    let (status, f, os) = write_loop io.outcomes (take (length buf % 2 ^ 32) buf) io.file in
    (status, record { file = f; outcomes = os })
