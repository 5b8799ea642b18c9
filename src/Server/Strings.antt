-- ===== src/Server/Strings.antt =====
-- server/cmd/cmd_str.cpp: the string commands. `resp` is what the reply holds before. `none` is what
-- the string operations leave undefined, or the use of a variable that was never written.
pub mod Replies
use lightdb.Common.Decimal.{to_string}
use lightdb.Common.{
  ℕ, suc, ◌%◌, ◌==◌, length, Str, codes, Bool, Option, none, some, List, [], ◌∷◌, ◌++◌,
  if◌then◌else◌,
}
use lightdb.Storage.Status.{Code, k_ok, ok}
use lightdb.Engine.Strings.Steps.{StrDb}
use lightdb.Engine.Strings.Access.{db_str_set, db_str_set_nx, db_get, db_get_set, str_exist}
use lightdb.Engine.Strings.Updates.{db_m_set, db_m_get, db_append, db_remove, db_expire, db_ttl}
use lightdb.Server.Reply.{integer, string_of, bit_text, written_or, wrong, answer, strtoull}

abbrev pub TextCommand : Type 0
TextCommand = List Str → Str → StrDb → Option (Str × StrDb)

-- The lines of `mget`.
unfoldable pub numbered_found : ℕ → List Str → List Bool → Str → Str
numbered_found i values [] resp = resp
numbered_found i [] (s ∷ sucs) resp = resp
numbered_found i (value ∷ values) (s ∷ sucs) resp =
    let text = if s then codes ") " ++ value else codes "(nil)" in
    numbered_found (suc i) values sucs (resp ++ string_of (suc i) ++ text ++ codes "\n")

module _ (wrap : Code → Str → Str) (describe : Code → List Str → Str) where
  -- The reply to a status, where the text is made of a variable that must have been written.
  abbrev pub answer_of :
      {A : Type 0} → List Str → (A → Str) → Code × Option A → StrDb → Option (Str × StrDb)
  answer_of args text (status, o) s =
      if ok status
      then elim o [ none ↦ none | some a ↦ some (wrap status (text a), s) ]
      else some (wrap status (describe status args), s)

  unfoldable pub set_command : TextCommand
  set_command (key ∷ value ∷ []) resp s = elim (db_str_set key value s) [
    | none ↦ none
    | some (status, s1) ↦ answer wrap describe (key ∷ value ∷ []) (status, resp ++ codes "OK") s1
  ]
  set_command args resp s = wrong wrap describe s

  unfoldable pub get_command : TextCommand
  get_command (key ∷ []) resp s = elim (db_get key s) [
    | none ↦ none
    | some ((status, done, value), s1) ↦
        answer_of (key ∷ []) (λ b. if b then resp ++ written_or [] value else codes "(nil)")
          (status, done) s1
  ]
  get_command args resp s = wrong wrap describe s

  unfoldable pub set_nx_command : TextCommand
  set_nx_command (key ∷ value ∷ []) resp s = elim (db_str_set_nx key value s) [
    | none ↦ none
    | some (r, s1) ↦ answer_of (key ∷ value ∷ []) (λ b. resp ++ integer (bit_text b)) r s1
  ]
  set_nx_command args resp s = wrong wrap describe s

  unfoldable pub get_set_command : TextCommand
  get_set_command (key ∷ value ∷ []) resp s = elim (db_get_set key value s) [
    | none ↦ none
    | some ((status, done, old), s1) ↦
        answer_of (key ∷ value ∷ [])
          (λ b. if b then resp ++ written_or [] old else resp ++ codes "(nil)") (status, done) s1
  ]
  get_set_command args resp s = wrong wrap describe s

  unfoldable pub m_set_command : TextCommand
  m_set_command args resp s =
      if length args % 2 == 1 then wrong wrap describe s else elim (db_m_set args s) [
        | none ↦ none
        | some (status, s1) ↦ answer wrap describe args (status, codes "OK") s1
      ]

  unfoldable pub m_get_command : TextCommand
  m_get_command [] resp s = wrong wrap describe s
  m_get_command (key ∷ keys) resp s = elim (db_m_get (key ∷ keys) [] [] s) [
    | none ↦ none
    | some ((status, values, sucs), s1) ↦
        answer wrap describe (key ∷ keys) (status, numbered_found 0 values sucs resp) s1
  ]

  -- `length` is 0 where `Append` leaves it unwritten.
  unfoldable pub append_command : TextCommand
  append_command (key ∷ value ∷ []) resp s = elim (db_append key value s) [
    | none ↦ none
    | some ((status, n), s1) ↦
        answer wrap describe (key ∷ value ∷ []) (status, resp ++ string_of (written_or 0 n)) s1
  ]
  append_command args resp s = wrong wrap describe s

  unfoldable pub str_exist_command : TextCommand
  str_exist_command (key ∷ []) resp s = elim (str_exist key s) [
    | none ↦ none
    | some (exist, s1) ↦ some (wrap k_ok (resp ++ integer (bit_text exist)), s1)
  ]
  str_exist_command args resp s = wrong wrap describe s

  unfoldable pub remove_command : TextCommand
  remove_command (key ∷ []) resp s = elim (db_remove key s) [
    | none ↦ none
    | some (r, s1) ↦ answer_of (key ∷ []) (λ b. resp ++ integer (bit_text b)) r s1
  ]
  remove_command args resp s = wrong wrap describe s

  unfoldable pub expire_command : TextCommand
  expire_command (key ∷ duration ∷ []) resp s = elim (db_expire key (strtoull duration) none s) [
    | none ↦ none
    | some (r, s1) ↦ answer_of (key ∷ duration ∷ []) (λ b. integer (bit_text b)) r s1
  ]
  expire_command args resp s = wrong wrap describe s

  unfoldable pub ttl_command : TextCommand
  ttl_command (key ∷ []) resp s = elim (db_ttl key s) [
    | none ↦ none
    | some (ttl, s1) ↦ some (wrap k_ok (resp ++ integer (to_string ttl)), s1)
  ]
  ttl_command args resp s = wrong wrap describe s

  -- The table of `init_str`.
  unfoldable pub init_str : List (Str × TextCommand)
  init_str =
      (codes "set", set_command)
      ∷ (codes "get", get_command)
      ∷ (codes "setnx", set_nx_command)
      ∷ (codes "getset", get_set_command)
      ∷ (codes "mset", m_set_command)
      ∷ (codes "mget", m_get_command)
      ∷ (codes "appendstr", append_command)
      ∷ (codes "strexist", str_exist_command)
      ∷ (codes "remove", remove_command)
      ∷ (codes "expire", expire_command)
      ∷ (codes "ttl", ttl_command)
      ∷ []
