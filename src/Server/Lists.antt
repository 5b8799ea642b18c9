-- ===== src/Server/Lists.antt =====
-- server/cmd/cmd_list.cpp: the list commands. `resp` is what the reply holds before. `none` is
-- undefined behaviour of the list store, or the use of a variable that was never written.
use lightdb.Common.Int.{ℤ, pos, negsuc}
use lightdb.Common.Decimal.{to_string}
use lightdb.Common.{
  ℕ, ◌-◌, ◌%◌, ◌^◌, Str, str_eq, codes, Bool, false, Option, none, some, List, [], ◌∷◌, ◌++◌,
  if◌then◌else◌,
}
use lightdb.Storage.Status.{Code, k_ok, ok}
use lightdb.Ds.Lists.{InsertOption}
use lightdb.Engine.State.{LightDb, Action}
use lightdb.Engine.Lists.{
  db_l_push, db_r_push, db_l_pop, db_r_pop, db_l_index, db_l_rem, db_l_insert, db_l_set, db_l_trim,
  db_l_range, db_l_len, db_l_key_exist, db_l_clear, db_l_expire, db_l_ttl,
}
use lightdb.Util.Numbers.{string_to_int}
use lightdb.Server.Reply.{
  integer, string_of, bit_text, written_or, Command, wrong, answer, strtoull, numbered,
}

-- `uint32_t` of an `int`
abbrev pub word32 : ℤ → ℕ
word32 (pos n) = n % 2 ^ 32
word32 (negsuc n) = 2 ^ 32 - 1 - n % 2 ^ 32

module _ (wrap : Code → Str → Str) (describe : Code → List Str → Str) where
  abbrev pub not_correct : LightDb → Option (Str × LightDb)
  not_correct d = some (wrap k_ok (codes "syntax not correct"), d)

  -- The loop of `lPush` and of `rPush`; the length is that of the last call.
  unfoldable pub push_loop :
      (Str → Str → Action (Code × Option ℕ))
      → List Str
      → Str
      → List Str
      → Str
      → ℕ
      → LightDb
      → Option (Str × LightDb)
  push_loop push args key [] resp length d =
      some (wrap k_ok (resp ++ integer (string_of length)), d)
  push_loop push args key (value ∷ values) resp length d =
      let ((status, n), d1) = push key value d in
      let rest = push_loop push args key values resp (written_or length n) d1 in
      if ok status then rest else some (wrap status (describe status args), d1)

  unfoldable pub l_push_command : Command
  unfolding push_loop db_l_push
  l_push_command (key ∷ value ∷ values) resp d =
      push_loop db_l_push (key ∷ value ∷ values) key (value ∷ values) resp 0 d
  l_push_command args resp d = wrong wrap describe d

  unfoldable pub r_push_command : Command
  unfolding push_loop db_r_push
  r_push_command (key ∷ value ∷ values) resp d =
      push_loop db_r_push (key ∷ value ∷ values) key (value ∷ values) resp 0 d
  r_push_command args resp d = wrong wrap describe d

  -- What follows `LPop` and `RPop`, which write the reply.
  abbrev popped_reply : List Str → Option ((Code × Str × Bool) × LightDb) → Option (Str × LightDb)
  popped_reply args none = none
  popped_reply args (some ((status, value, _), d)) = answer wrap describe args (status, value) d

  unfoldable pub r_pop_command : Command
  unfolding db_r_pop
  r_pop_command (key ∷ []) resp d = popped_reply (key ∷ []) (db_r_pop key resp false d)
  r_pop_command args resp d = wrong wrap describe d

  unfoldable pub l_pop_command : Command
  unfolding db_l_pop
  l_pop_command (key ∷ []) resp d = popped_reply (key ∷ []) (db_l_pop key resp false d)
  l_pop_command args resp d = wrong wrap describe d

  unfoldable pub l_index_command : Command
  unfolding string_to_int db_l_index
  l_index_command (key ∷ index ∷ []) resp d = elim (string_to_int index) [
    | none ↦ not_correct d
    | some i ↦
        let (value, d1) = db_l_index key (word32 i) d in
        some (wrap k_ok (written_or (codes "(nil)") value), d1)
  ]
  l_index_command args resp d = wrong wrap describe d

  -- What follows `LRem`: its status is not looked at, and `removed` may be unwritten.
  abbrev removed_reply : Str → Option ((Code × Option ℕ) × LightDb) → Option (Str × LightDb)
  removed_reply resp none = none
  removed_reply resp (some ((status, none), d)) = none
  removed_reply resp (some ((status, some removed), d)) =
      some (wrap status (resp ++ integer (string_of removed)), d)

  unfoldable pub l_rem_command : Command
  unfolding string_to_int db_l_rem
  l_rem_command (key ∷ value ∷ count ∷ args) resp d = elim (string_to_int count) [
    | none ↦ not_correct d
    | some n ↦ removed_reply resp (db_l_rem key value n d)
  ]
  l_rem_command args resp d = wrong wrap describe d

  -- The option of `lInsert`.
  abbrev pub insert_option : Str → Option InsertOption
  insert_option text =
      if str_eq text (codes "BEFORE")
      then some InsertOption.before
      else if str_eq text (codes "AFTER")
      then some InsertOption.after
      else none

  unfoldable pub l_insert_command : Command
  unfolding db_l_insert str_eq
  l_insert_command (key ∷ option ∷ pivot ∷ value ∷ []) resp d = elim (insert_option option) [
    | none ↦ some (wrap k_ok (codes "wrong args: option should be BEFORE|AFTER"), d)
    | some o ↦
        let ((status, count), d1) = db_l_insert key o pivot value d in
        answer wrap describe (key ∷ option ∷ pivot ∷ value ∷ []) (status, codes "OK") d1
  ]
  l_insert_command args resp d = wrong wrap describe d

  -- What follows `LSet`, which writes `suc` whenever it succeeds.
  abbrev set_reply : List Str → Str → Code → Option Bool → LightDb → Option (Str × LightDb)
  set_reply args resp status done d = elim done [
    | none ↦ if ok status then none else some (wrap status (describe status args), d)
    | some b ↦ answer wrap describe args (status, resp ++ integer (bit_text b)) d
  ]

  unfoldable pub l_set_command : Command
  unfolding string_to_int db_l_set
  l_set_command (key ∷ index ∷ value ∷ []) resp d = elim (string_to_int index) [
    | none ↦ not_correct d
    | some i ↦
        let ((status, done), d1) = db_l_set key i value d in
        set_reply (key ∷ index ∷ value ∷ []) resp status done d1
  ]
  l_set_command args resp d = wrong wrap describe d

  unfoldable pub l_trim_command : Command
  unfolding string_to_int db_l_trim
  l_trim_command (key ∷ start ∷ end ∷ []) resp d = elim (string_to_int start) [
    | none ↦ not_correct d
    | some s ↦ elim (string_to_int end) [
      | none ↦ not_correct d
      | some e ↦
          let ((status, done), d1) = db_l_trim key s e d in
          answer wrap describe (key ∷ start ∷ end ∷ []) (status, codes "OK") d1
    ]
  ]
  l_trim_command args resp d = wrong wrap describe d

  -- The values of a range.
  abbrev range_text : List Str → Str → Str
  range_text [] resp = codes "(empty set or list)"
  range_text (val ∷ vals) resp = numbered 0 (val ∷ vals) resp

  -- What follows `LRange`.
  abbrev range_reply :
      List Str → Str → LightDb → Option (Code × Option Bool × List Str) → Option (Str × LightDb)
  range_reply args resp d none = none
  range_reply args resp d (some (status, _, vals)) =
      answer wrap describe args (status, range_text vals resp) d

  -- The offsets are used without a look at whether they were numbers.
  unfoldable pub l_range_command : Command
  unfolding string_to_int db_l_range numbered
  l_range_command (key ∷ start ∷ end ∷ []) resp d = elim (string_to_int start) [
    | none ↦ none
    | some s ↦ elim (string_to_int end) [
      | none ↦ none
      | some e ↦ range_reply (key ∷ start ∷ end ∷ []) resp d (db_l_range key s e [] d)
    ]
  ]
  l_range_command args resp d = wrong wrap describe d

  unfoldable pub l_len_command : Command
  unfolding db_l_len
  l_len_command (key ∷ []) resp d =
      some (wrap k_ok (resp ++ integer (string_of (db_l_len key d))), d)
  l_len_command args resp d = wrong wrap describe d

  unfoldable pub l_key_exist_command : Command
  unfolding db_l_key_exist
  l_key_exist_command (key ∷ []) resp d =
      some (wrap k_ok (resp ++ integer (bit_text (db_l_key_exist key d))), d)
  l_key_exist_command args resp d = wrong wrap describe d

  unfoldable pub l_clear_command : Command
  unfolding db_l_clear
  l_clear_command (key ∷ []) resp d =
      let ((status, count), d1) = db_l_clear key d in
      answer wrap describe (key ∷ []) (status, resp ++ integer (string_of count)) d1
  l_clear_command args resp d = wrong wrap describe d

  -- What follows `LExpire`.
  abbrev expire_reply : List Str → Code → Option Bool → LightDb → Option (Str × LightDb)
  expire_reply args status done d = elim done [
    | none ↦ if ok status then none else some (wrap status (describe status args), d)
    | some b ↦ answer wrap describe args (status, integer (bit_text b)) d
  ]

  unfoldable pub l_expire_command : Command
  unfolding db_l_expire strtoull
  l_expire_command (key ∷ duration ∷ []) resp d =
      let ((status, done), d1) = db_l_expire key (strtoull duration) d in
      expire_reply (key ∷ duration ∷ []) status done d1
  l_expire_command args resp d = wrong wrap describe d

  unfoldable pub l_ttl_command : Command
  unfolding db_l_ttl to_string
  l_ttl_command (key ∷ []) resp d =
      let (ttl, d1) = db_l_ttl key d in some (wrap k_ok (resp ++ integer (to_string ttl)), d1)
  l_ttl_command args resp d = wrong wrap describe d

  -- The table of `init_list`.
  unfoldable pub init_list : List (Str × Command)
  unfolding l_push_command r_push_command l_pop_command r_pop_command l_index_command l_rem_command
      l_insert_command l_set_command l_trim_command l_range_command l_len_command
      l_key_exist_command l_clear_command l_expire_command l_ttl_command
  init_list =
      (codes "lpush", l_push_command)
      ∷ (codes "rpush", r_push_command)
      ∷ (codes "lpop", l_pop_command)
      ∷ (codes "rpop", r_pop_command)
      ∷ (codes "lindex", l_index_command)
      ∷ (codes "lrem", l_rem_command)
      ∷ (codes "linsert", l_insert_command)
      ∷ (codes "lset", l_set_command)
      ∷ (codes "ltrim", l_trim_command)
      ∷ (codes "lrange", l_range_command)
      ∷ (codes "llen", l_len_command)
      ∷ (codes "lkeyexist", l_key_exist_command)
      ∷ (codes "lclear", l_clear_command)
      ∷ (codes "lexpire", l_expire_command)
      ∷ (codes "lttl", l_ttl_command)
      ∷ []
