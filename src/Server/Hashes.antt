-- ===== src/Server/Hashes.antt =====
-- server/cmd/cmd_hash.cpp: the hash commands. `resp` is what the reply holds before. `none` is an
-- access behind the end of a vector.
pub mod Deletion
use lightdb.Common.Int.{ℤ, pos}
use lightdb.Common.Decimal.{to_string}
use lightdb.Common.{
  ℕ, zero, suc, ◌+◌, ◌%◌, leb, ◌==◌, Str, codes, str_eq, length, Bool, true, false, not, Option,
  none, some, List, [], ◌∷◌, ◌++◌, if◌then◌else◌,
}
use lightdb.Storage.Status.{Code, k_ok, ok}
use lightdb.Engine.State.{LightDb}
use lightdb.Engine.Hashes.{
  db_h_get, db_h_set, db_h_set_nx, db_h_get_all, db_h_m_set, db_h_del, db_h_m_get, db_h_key_exist,
  db_h_exist, db_h_len, db_h_keys, db_h_vals, db_h_clear, db_h_expire, db_h_ttl,
}
use lightdb.Server.Reply.{
  wrong_num_of_args, integer, string_of, bit_text, written_or, Command, wrong, answer, arg,
  strtoull, numbered, listed, numbered_or_nil,
}

module _ (wrap : Code → Str → Str) (describe : Code → List Str → Str) where
  unfoldable pub h_set_command : Command
  unfolding db_h_set
  h_set_command (key ∷ field ∷ value ∷ []) resp d =
      let ((status, count), d1) = db_h_set key field value d in
      answer wrap describe (key ∷ field ∷ value ∷ []) (status, string_of count) d1
  h_set_command args resp d = wrong wrap describe d

  -- `done` is written whenever the status is kOk.
  unfoldable pub h_set_nx_command : Command
  unfolding db_h_set_nx
  h_set_nx_command (key ∷ field ∷ value ∷ []) resp d =
      let ((status, done), d1) = db_h_set_nx key field value d in
      answer wrap describe (key ∷ field ∷ value ∷ []) (status, bit_text (written_or false done)) d1
  h_set_nx_command args resp d = wrong wrap describe d

  unfoldable pub h_get_command : Command
  unfolding db_h_get
  h_get_command (key ∷ field ∷ []) resp d =
      let (value, d1) = db_h_get key field d in
      some (wrap k_ok (written_or (codes "(nil)") value), d1)
  h_get_command args resp d = wrong wrap describe d

  unfoldable pub h_get_all_command : Command
  unfolding db_h_get_all numbered
  h_get_all_command (key ∷ []) resp d =
      let ((found, vals), d1) = db_h_get_all key [] d in
      if found
      then some (wrap k_ok (numbered 0 vals resp), d1)
      else some (wrap k_ok (codes "(empty set or list)"), d1)
  h_get_all_command args resp d = wrong wrap describe d

  -- The end of `hMSet`.
  abbrev m_set_reply : List Str → Option (Code × LightDb) → Option (Str × LightDb)
  m_set_reply args none = none
  m_set_reply args (some (status, d)) = answer wrap describe args (status, codes "OK") d

  unfoldable pub h_m_set_command : Command
  unfolding db_h_m_set
  h_m_set_command [] resp d = wrong wrap describe d
  h_m_set_command (key ∷ args1) resp d =
      if length (key ∷ args1) % 2 == 1
      then m_set_reply (key ∷ args1) (db_h_m_set key args1 d)
      else wrong wrap describe d

  -- The call passes `args`, the key among the fields, and not `args1`.
  unfoldable pub h_m_get_command : Command
  unfolding db_h_m_get numbered_or_nil
  h_m_get_command [] resp d = wrong wrap describe d
  h_m_get_command (key ∷ args1) resp d =
      let args = key ∷ args1 in
      let ((status, vals, sucs), d1) = db_h_m_get key args [] [] d in
      if leb (length args) 1
      then wrong wrap describe d
      else answer wrap describe args (status, numbered_or_nil 0 vals sucs resp) d1

  -- What a deletion is followed by in the loop of `hDel`; `next` is the rest of the loop.
  abbrev pub h_del_then :
      (ℕ → LightDb → Option (Str × LightDb))
      → Str
      → ℕ
      → (Code × ℕ) × LightDb
      → Option (Str × LightDb)
  h_del_then next resp count ((status, done), d) =
      let rest = next (count + done) d in if ok status then rest else some (wrap status resp, d)

  -- The loop of `hDel`, of so many rounds, from an index.
  unfoldable pub h_del_loop : ℕ → List Str → Str → ℕ → Str → ℕ → LightDb → Option (Str × LightDb)
  unfolding db_h_del arg
  h_del_loop zero args key i resp count d = some (wrap k_ok (resp ++ integer (string_of count)), d)
  h_del_loop (suc n) args key i resp count d =
      let next = h_del_loop n args key (suc i) resp in
      elim (arg args i) [
        | none ↦ none
        | some field ↦ h_del_then next resp count (db_h_del key field d)
      ]

  -- The index runs from 1 up to the number of arguments, itself included.
  unfoldable pub h_del_command : Command
  unfolding h_del_loop
  h_del_command [] resp d = wrong wrap describe d
  h_del_command (key ∷ args1) resp d =
      let args = key ∷ args1 in
      if leb (length args) 1
      then wrong wrap describe d
      else h_del_loop (length args) args key 1 resp 0 d

  unfoldable pub h_key_exist_command : Command
  unfolding db_h_key_exist
  h_key_exist_command (key ∷ []) resp d =
      let (exist, d1) = db_h_key_exist key d in some (wrap k_ok (bit_text exist), d1)
  h_key_exist_command args resp d = wrong wrap describe d

  unfoldable pub h_exist_command : Command
  unfolding db_h_exist
  h_exist_command (key ∷ field ∷ []) resp d =
      let (exist, d1) = db_h_exist key field d in some (wrap k_ok (bit_text exist), d1)
  h_exist_command args resp d = wrong wrap describe d

  unfoldable pub h_len_command : Command
  unfolding db_h_len
  h_len_command (key ∷ []) resp d =
      let (len, d1) = db_h_len key d in some (wrap k_ok (resp ++ integer (string_of len)), d1)
  h_len_command args resp d = wrong wrap describe d

  unfoldable pub h_keys_command : Command
  unfolding db_h_keys listed
  h_keys_command (key ∷ []) resp d =
      let ((exist, keys), d1) = db_h_keys key [] d in
      let text = if exist then listed 0 keys resp else codes "(empty list or set)" in
      some (wrap k_ok text, d1)
  h_keys_command args resp d = some (wrong_num_of_args, d)

  unfoldable pub h_vals_command : Command
  unfolding db_h_vals listed
  h_vals_command (key ∷ []) resp d =
      let ((exist, vals), d1) = db_h_vals key [] d in
      let text = if exist then listed 0 vals resp else codes "(empty list or set)" in
      some (wrap k_ok text, d1)
  h_vals_command args resp d = some (wrong_num_of_args, d)

  unfoldable pub h_clear_command : Command
  unfolding db_h_clear
  h_clear_command (key ∷ []) resp d =
      let ((status, count), d1) = db_h_clear key d in
      answer wrap describe (key ∷ []) (status, resp ++ integer (string_of (written_or 0 count))) d1
  h_clear_command args resp d = wrong wrap describe d

  unfoldable pub h_expire_command : Command
  unfolding db_h_expire strtoull
  h_expire_command (key ∷ duration ∷ []) resp d =
      let ((status, done), d1) = db_h_expire key (strtoull duration) d in
      answer wrap describe (key ∷ duration ∷ []) (status, integer (bit_text done)) d1
  h_expire_command args resp d = wrong wrap describe d

  unfoldable pub h_ttl_command : Command
  unfolding db_h_ttl to_string
  h_ttl_command (key ∷ []) resp d =
      let (ttl, d1) = db_h_ttl key d in some (wrap k_ok (resp ++ integer (to_string ttl)), d1)
  h_ttl_command args resp d = wrong wrap describe d

  -- The table of `init_hash`, which `GetCmdFunction` reads.
  unfoldable pub init_hash : List (Str × Command)
  unfolding h_set_command h_set_nx_command h_get_command h_get_all_command h_m_set_command
      h_m_get_command h_del_command h_key_exist_command h_exist_command h_len_command h_keys_command
      h_vals_command h_clear_command h_expire_command h_ttl_command
  init_hash =
      (codes "hset", h_set_command)
      ∷ (codes "hsetnx", h_set_nx_command)
      ∷ (codes "hget", h_get_command)
      ∷ (codes "hgetall", h_get_all_command)
      ∷ (codes "hmset", h_m_set_command)
      ∷ (codes "hmget", h_m_get_command)
      ∷ (codes "hdel", h_del_command)
      ∷ (codes "hkeyexist", h_key_exist_command)
      ∷ (codes "hexist", h_exist_command)
      ∷ (codes "hlen", h_len_command)
      ∷ (codes "hkeys", h_keys_command)
      ∷ (codes "hvals", h_vals_command)
      ∷ (codes "hclear", h_clear_command)
      ∷ (codes "hexpire", h_expire_command)
      ∷ (codes "httl", h_ttl_command)
      ∷ []
