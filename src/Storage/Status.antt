-- ===== src/Storage/Status.antt =====
-- include/status.h: the codes of `Status`.
use lightdb.Common.{Bool, true, false, ℕ, ◌==◌, if◌then◌else◌}

pub data Code : Type 0 where
  k_ok k_io_error k_not_found k_end_of_file k_key_not_exist k_key_expired_err k_empty_key : Code
  k_key_too_large k_value_too_large k_h_field_not_exist k_l_invalid_index k_l_invalid_range : Code
  k_l_pivot_not_exist k_smember_not_exist k_wrong_number_of_args k_z_member_not_exist : Code
  k_z_invalid_rank k_is_mering k_invalid_crc : Code

abbrev pub ok : Code → Bool
ok k_ok = true
ok _ = false

-- `status.Code() != kEndOfFile`
abbrev pub is_end_of_file : Code → Bool
is_end_of_file k_end_of_file = true
is_end_of_file _ = false

abbrev pub e_no_ent : ℕ
e_no_ent = 2

-- `PosixError` of storage/db_file.h
unfoldable pub posix_error : ℕ → Code
posix_error error_number = if error_number == e_no_ent then k_not_found else k_io_error
