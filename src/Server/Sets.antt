-- ===== src/Server/Sets.antt =====
-- server/cmd/cmd_set.cpp: the set commands. `resp` is what the reply holds before. `none` is
-- undefined behaviour of the set store.
use lightdb.Common.Decimal.{to_string}
use lightdb.Common.{
  ℕ, suc, Str, codes, Bool, false, Option, none, some, List, [], ◌∷◌, ◌++◌, if◌then◌else◌,
}
use lightdb.Storage.Status.{Code, k_ok, ok}
use lightdb.Engine.State.{LightDb}
use lightdb.Engine.Sets.{
  db_s_add, db_s_pop, db_s_is_member, db_s_rem, db_s_move, db_s_card, db_s_members, db_s_union,
  db_s_diff, db_s_key_exist, db_s_clear, db_s_expire, db_s_ttl,
}
use lightdb.Server.Reply.{
  integer, string_of, bit_text, written_or, Command, wrong, answer, strtoull, numbered,
}

module _ (wrap : Code → Str → Str) (describe : Code → List Str → Str) where
  -- The loop of `sAdd`; the count is that of the last call.
  unfoldable pub s_add_loop : List Str → Str → List Str → Str → ℕ → LightDb → Option (Str × LightDb)
  unfolding db_s_add
  s_add_loop args key [] resp count d = some (wrap k_ok (resp ++ integer (string_of count)), d)
  s_add_loop args key (member ∷ members) resp count d =
      let ((status, n), d1) = db_s_add key member d in
      let rest = s_add_loop args key members resp (written_or count n) d1 in
      if ok status then rest else some (wrap status (describe status args), d1)

  unfoldable pub s_add_command : Command
  unfolding s_add_loop
  s_add_command (key ∷ member ∷ members) resp d =
      s_add_loop (key ∷ member ∷ members) key (member ∷ members) resp 0 d
  s_add_command args resp d = wrong wrap describe d

  -- What follows `SPop`.
  abbrev pop_reply :
      List Str → Str → Option ((Code × Str × Bool) × LightDb) → Option (Str × LightDb)
  pop_reply args resp none = none
  pop_reply args resp (some ((status, value, done), d)) =
      answer wrap describe args (status, (if done then resp ++ value else resp ++ codes "(nil)")) d

  unfoldable pub s_pop_command : Command
  unfolding db_s_pop
  s_pop_command (key ∷ []) resp d = pop_reply (key ∷ []) resp (db_s_pop key [] false d)
  s_pop_command args resp d = wrong wrap describe d

  unfoldable pub s_is_member_command : Command
  unfolding db_s_is_member
  s_is_member_command (key ∷ member ∷ []) resp d =
      let (is_member, d1) = db_s_is_member key member d in
      some (wrap k_ok (resp ++ integer (bit_text is_member)), d1)
  s_is_member_command args resp d = wrong wrap describe d

  -- The loop of `sRem`.
  unfoldable pub s_rem_loop : List Str → Str → List Str → Str → ℕ → LightDb → Option (Str × LightDb)
  unfolding db_s_rem
  s_rem_loop args key [] resp count d = some (wrap k_ok (resp ++ string_of count), d)
  s_rem_loop args key (member ∷ members) resp count d =
      let ((status, done), d1) = db_s_rem key member d in
      let next = if written_or false done then suc count else count in
      let rest = s_rem_loop args key members resp next d1 in
      if ok status then rest else some (wrap status (describe status args), d1)

  unfoldable pub s_rem_command : Command
  unfolding s_rem_loop
  s_rem_command (key ∷ member ∷ members) resp d =
      s_rem_loop (key ∷ member ∷ members) key (member ∷ members) resp 0 d
  s_rem_command args resp d = wrong wrap describe d

  unfoldable pub s_move_command : Command
  unfolding db_s_move
  s_move_command (src ∷ dst ∷ member ∷ []) resp d =
      let ((status, done), d1) = db_s_move src dst member d in
      let text = if done then codes "(integer) 1" else codes "(integer 0)" in
      answer wrap describe (src ∷ dst ∷ member ∷ []) (status, text) d1
  s_move_command args resp d = wrong wrap describe d

  unfoldable pub s_card_command : Command
  unfolding db_s_card
  s_card_command (key ∷ []) resp d =
      let (card, d1) = db_s_card key d in some (wrap k_ok (resp ++ integer (string_of card)), d1)
  s_card_command args resp d = wrong wrap describe d

  unfoldable pub s_members_command : Command
  unfolding db_s_members numbered
  s_members_command (key ∷ []) resp d =
      let ((found, members), d1) = db_s_members key [] d in
      let text = if found then numbered 0 members resp else codes "(empty list or set)" in
      some (wrap k_ok text, d1)
  s_members_command args resp d = wrong wrap describe d

  -- The values of a union or of a difference.
  abbrev values_text : List Str → Str → Str
  values_text [] resp = codes "(empty set or list)"
  values_text (val ∷ vals) resp = numbered 0 (val ∷ vals) resp

  unfoldable pub s_union_command : Command
  unfolding db_s_union numbered
  s_union_command [] resp d = wrong wrap describe d
  s_union_command (key ∷ keys) resp d =
      let (vals, d1) = db_s_union (key ∷ keys) [] d in some (wrap k_ok (values_text vals resp), d1)

  unfoldable pub s_diff_command : Command
  unfolding db_s_diff numbered
  s_diff_command (key1 ∷ key ∷ keys) resp d =
      let (vals, d1) = db_s_diff key1 (key ∷ keys) [] d in
      some (wrap k_ok (values_text vals resp), d1)
  s_diff_command args resp d = wrong wrap describe d

  unfoldable pub s_key_exist_command : Command
  unfolding db_s_key_exist
  s_key_exist_command (key ∷ []) resp d =
      let (exist, d1) = db_s_key_exist key d in some (wrap k_ok (bit_text exist), d1)
  s_key_exist_command args resp d = wrong wrap describe d

  unfoldable pub s_clear_command : Command
  unfolding db_s_clear
  s_clear_command (key ∷ []) resp d =
      let ((status, count), d1) = db_s_clear key d in
      answer wrap describe (key ∷ []) (status, resp ++ integer (string_of (written_or 0 count))) d1
  s_clear_command args resp d = wrong wrap describe d

  unfoldable pub s_expire_command : Command
  unfolding db_s_expire strtoull
  s_expire_command (key ∷ duration ∷ []) resp d =
      let ((status, done), d1) = db_s_expire key (strtoull duration) d in
      answer wrap describe (key ∷ duration ∷ []) (status, integer (bit_text done)) d1
  s_expire_command args resp d = wrong wrap describe d

  unfoldable pub s_ttl_command : Command
  unfolding db_s_ttl to_string
  s_ttl_command (key ∷ []) resp d =
      let (ttl, d1) = db_s_ttl key d in some (wrap k_ok (resp ++ integer (to_string ttl)), d1)
  s_ttl_command args resp d = wrong wrap describe d

  -- The table of `init_set`.
  unfoldable pub init_set : List (Str × Command)
  unfolding s_add_command s_pop_command s_is_member_command s_rem_command s_move_command
      s_card_command s_members_command s_union_command s_diff_command s_key_exist_command
      s_clear_command s_expire_command s_ttl_command
  init_set =
      (codes "sadd", s_add_command)
      ∷ (codes "spop", s_pop_command)
      ∷ (codes "sismember", s_is_member_command)
      ∷ (codes "srem", s_rem_command)
      ∷ (codes "smove", s_move_command)
      ∷ (codes "scard", s_card_command)
      ∷ (codes "smembers", s_members_command)
      ∷ (codes "sunion", s_union_command)
      ∷ (codes "sdiff", s_diff_command)
      ∷ (codes "skeyexist", s_key_exist_command)
      ∷ (codes "sclear", s_clear_command)
      ∷ (codes "sexpire", s_expire_command)
      ∷ (codes "sttl", s_ttl_command)
      ∷ []
