-- ===== src/Storage/Message.antt =====
-- include/status.h: the class `Status` with its message, and the functions that make one. The two
-- that print numbers with `sprintf` are left out.
use lightdb.Common.{Str, codes, [], ◌++◌}
use lightdb.Storage.Status.{
  Code, k_ok, k_key_not_exist, k_wrong_number_of_args, k_key_expired_err, k_empty_key,
  k_key_too_large, k_value_too_large, k_h_field_not_exist, k_l_pivot_not_exist, k_smember_not_exist,
  k_z_member_not_exist, k_not_found, k_z_invalid_rank, k_io_error, k_end_of_file, k_is_mering,
  k_invalid_crc,
}

pub record Status : Type 0 where
  pub state : Str
  pub code : Code

-- `Status(code, msg, msg2)`: the two parts with a colon between them
unfoldable pub new_status : Code → Str → Str → Status
new_status code msg msg2 = record { state = (msg ++ codes ":") ++ msg2; code = code }

abbrev pub no_error : Status
no_error = record { state = []; code = k_ok }

unfoldable pub key_not_exist : Str → Status
unfolding new_status
key_not_exist text = new_status k_key_not_exist (codes "key not exist err") text

unfoldable pub wrong_number_of_args_err : Str → Status
unfolding new_status
wrong_number_of_args_err text =
    new_status k_wrong_number_of_args (codes "wrong number of args err") text

unfoldable pub key_expired_err : Str → Status
unfolding new_status
key_expired_err text = new_status k_key_expired_err (codes "key expired err") text

unfoldable pub empty_key_error : Status
unfolding new_status
empty_key_error = new_status k_empty_key (codes "empty key err") []

unfoldable pub key_too_large_err : Str → Status
unfolding new_status
key_too_large_err text = new_status k_key_too_large (codes "key too large err") text

unfoldable pub value_too_large_err : Str → Status
unfolding new_status
value_too_large_err text = new_status k_value_too_large (codes "value too large err") text

unfoldable pub h_field_not_exist : Str → Status
unfolding new_status
h_field_not_exist text = new_status k_h_field_not_exist (codes "field not exist") text

unfoldable pub l_pivot_not_exist : Str → Str → Status
unfolding new_status
l_pivot_not_exist key text = new_status k_l_pivot_not_exist (codes "pivot not exist err") text

unfoldable pub s_member_not_exist : Str → Str → Status
unfolding new_status
s_member_not_exist key text = new_status k_smember_not_exist key text

unfoldable pub z_member_not_exist : Str → Str → Status
unfolding new_status
z_member_not_exist key text =
    new_status k_z_member_not_exist (codes "zset member not exist err") text

unfoldable pub not_found : Str → Str → Status
unfolding new_status
not_found key text = new_status k_not_found key text

unfoldable pub z_invalid_rank : Str → Status
unfolding new_status
z_invalid_rank text = new_status k_z_invalid_rank ([]) []

unfoldable pub io_error : Str → Str → Status
unfolding new_status
io_error key text = new_status k_io_error key text

unfoldable pub end_of_file : Str → Status
unfolding new_status
end_of_file text = new_status k_end_of_file (codes "the end of file") text

unfoldable pub is_merging_err : Status
unfolding new_status
is_merging_err = new_status k_is_mering (codes "the db is merging files") []

unfoldable pub invalid_crc_err : Str → Status
unfolding new_status
invalid_crc_err text = new_status k_invalid_crc (codes "crc check failed") []
