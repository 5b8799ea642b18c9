-- ===== src/Storage/Entry.antt =====
-- storage/entry.h and include/types.h: `Meta`, `Entry`, the types and operations that an entry
-- names, and the codec of the entry.
pub mod RoundTrip
use Prim.Native.Nat.{bit_and, bit_or}
use lightdb.Storage.Coding.{
  put_fixed16, put_fixed32, put_fixed64, decode_fixed16, decode_fixed32, decode_fixed64,
}
use lightdb.Storage.Crc.{crc_compute}
use lightdb.Common.{
  ℕ, ◌+◌, ◌-◌, ◌*◌, ◌/◌, ◌%◌, ◌^◌, ltb, Str, [], ◌++◌, length, drop, if◌then◌else◌,
}

pub data DataType : Type 0 where
  string list hash set z_set all : DataType

abbrev pub type_code : DataType → ℕ
type_code string = 0
type_code list = 1
type_code hash = 2
type_code set = 3
type_code z_set = 4
type_code all = 5

pub data OperationType : Type 0 where
  string_set string_rem string_expire string_persist : OperationType
  list_l_push list_r_push list_l_pop list_r_pop list_l_rem list_l_insert : OperationType
  list_l_set list_l_trim list_l_clear list_l_expire : OperationType
  hash_h_set hash_h_del hash_h_clear hash_h_expire : OperationType
  set_s_add set_s_rem set_s_move set_s_clear set_s_expire : OperationType
  z_set_z_add z_set_z_rem z_set_z_clear z_set_z_expire : OperationType

abbrev pub mark_code : OperationType → ℕ
mark_code string_set = 0
mark_code string_rem = 1
mark_code string_expire = 2
mark_code string_persist = 3
mark_code list_l_push = 4
mark_code list_r_push = 5
mark_code list_l_pop = 6
mark_code list_r_pop = 7
mark_code list_l_rem = 8
mark_code list_l_insert = 9
mark_code list_l_set = 10
mark_code list_l_trim = 11
mark_code list_l_clear = 12
mark_code list_l_expire = 13
mark_code hash_h_set = 14
mark_code hash_h_del = 15
mark_code hash_h_clear = 16
mark_code hash_h_expire = 17
mark_code set_s_add = 18
mark_code set_s_rem = 19
mark_code set_s_move = 20
mark_code set_s_clear = 21
mark_code set_s_expire = 22
mark_code z_set_z_add = 23
mark_code z_set_z_rem = 24
mark_code z_set_z_clear = 25
mark_code z_set_z_expire = 26

pub record Meta : Type 0 where
  pub key : Str
  pub value : Str
  pub extra : Str
  pub key_size : ℕ
  pub value_size : ℕ
  pub extra_size : ℕ

-- `state` is a `uint16_t`, `crc32` a `uint32_t`, the other two are `uint64_t`.
pub record Entry : Type 0 where
  pub meta : Meta
  pub open meta use *
  pub state : ℕ
  pub crc32 : ℕ
  pub tx_id : ℕ
  pub time_stamp : ℕ

abbrev pub header_size : ℕ
header_size = 34

-- The sizes are stored as `uint32_t`; -1 fills the other two fields.
unfoldable pub new_entry : Str → Str → Str → ℕ → ℕ → Entry
new_entry key value extra state time_stamp = record {
  meta = record {
    key = key;
    value = value;
    extra = extra;
    key_size = length key;
    value_size = length value;
    extra_size = length extra;
  };
  state = state;
  crc32 = 2 ^ 32 - 1;
  tx_id = 2 ^ 64 - 1;
  time_stamp = time_stamp;
}

-- `Entry()`
abbrev pub blank : Entry
blank = record {
  meta = record { key = []; value = []; extra = []; key_size = 0; value_size = 0; extra_size = 0 };
  state = 2 ^ 16 - 1;
  crc32 = 2 ^ 32 - 1;
  tx_id = 2 ^ 64 - 1;
  time_stamp = 2 ^ 64 - 1;
}

unfoldable pub make_state : DataType → OperationType → ℕ
make_state type mark = bit_or (bit_or 0 (type_code type * 2 ^ 8)) (mark_code mark)

-- `now` is the reading of the system clock.
unfoldable pub new_entry_now : ℕ → Str → Str → Str → DataType → OperationType → Entry
unfolding new_entry make_state
new_entry_now now key value extra type mark = new_entry key value extra (make_state type mark) now

unfoldable pub new_entry_no_extra : ℕ → Str → Str → DataType → OperationType → Entry
unfolding new_entry_now
new_entry_no_extra now key value type mark = new_entry_now now key value [] type mark

unfoldable pub new_entry_with_expire : Str → Str → ℕ → DataType → OperationType → Entry
unfolding new_entry make_state
new_entry_with_expire key value deadline type mark =
    new_entry key value [] (make_state type mark) deadline

-- A `uint32_t`.
unfoldable pub size : Entry → ℕ
size e = (header_size + e.key_size + e.value_size + e.extra_size) % 2 ^ 32

unfoldable pub get_type : Entry → ℕ
get_type e = e.state / 2 ^ 8

unfoldable pub get_mark : Entry → ℕ
get_mark e = bit_and e.state 127

unfoldable pub encode : Entry → Str
unfolding put_fixed16 put_fixed32 put_fixed64
encode e =
    let b1 = put_fixed32 [] (crc_compute e.value) in
    let b2 = put_fixed32 b1 e.key_size in
    let b3 = put_fixed32 b2 e.value_size in
    let b4 = put_fixed32 b3 e.extra_size in
    let b5 = put_fixed16 b4 e.state in
    let b6 = put_fixed64 b5 e.time_stamp in
    let b7 = put_fixed64 b6 e.tx_id in
    let b8 = (b7 ++ e.key) ++ e.value in if ltb 0 e.extra_size then b8 ++ e.extra else b8

-- The entry is updated in place: its strings stay.
unfoldable pub decode : Entry → Str → Entry
decode e buf = record {
  meta = record e.meta {
    key_size = decode_fixed32 (drop 4 buf);
    value_size = decode_fixed32 (drop 8 buf);
    extra_size = decode_fixed32 (drop 12 buf);
  };
  state = decode_fixed16 (drop 16 buf);
  crc32 = decode_fixed32 buf;
  tx_id = decode_fixed64 (drop 22 buf);
  time_stamp = decode_fixed64 (drop 18 buf);
}
