-- ===== src/Server/Strings/Replies.antt =====
-- server/cmd/cmd_str.cpp: the replies to `set` and `get` against a map.
use lightdb.Common.{
  Str, str_eq, codes, true, false, Option, none, some, List, [], ◌∷◌, ◌++◌, ◌≡◌, refl, ap, ◌∙◌,
  if◌then◌else◌,
}
use lightdb.Common.Map.{Map, find, has, assign, find-assign}
use lightdb.Storage.Status.{Code, k_ok, ok}
use lightdb.Engine.State.{check_key_value}
use lightdb.Engine.Strings.Steps.{StrDb}
use lightdb.Engine.Strings.Access.{db_str_set, db_get}
use lightdb.Engine.Strings.Text.{IsText, db_str_set-Follows, db_get-Follows}
use lightdb.Server.Strings.{answer_of, set_command, get_command}
use lightdb.Server.Reply.{written_or}

-- The reply to `get`, behind what the reply holds before.
abbrev pub shown : Str → Option Str → Str
shown resp none = codes "(nil)"
shown resp (some text) = resp ++ text

module _ (wrap : Code → Str → Str) (describe : Code → List Str → Str) where
  shown_lem :
      (key resp : Str) (s : StrDb) (o : Option Str)
      → ◌≡◌ {A = Option (Str × StrDb)}
          (answer_of wrap describe
            (key ∷ [])
            (λ b. if b then resp ++ written_or [] o else codes "(nil)")
            (k_ok, some (elim o [ none ↦ false | some v ↦ true ]))
            s)
          (some (wrap k_ok (shown resp o), s))
  shown_lem key resp s none = refl
  shown_lem key resp s (some v) = refl

  get_command-shown :
      (key resp : Str) (s : StrDb) (m : Map Str)
      → IsText s m
      → ok (check_key_value s.db.config key []) ≡ true
      → get_command wrap describe (key ∷ []) resp s ≡ some (wrap k_ok (shown resp (find m key)), s)
  unfolding get_command
  get_command-shown key resp s m t h =
      let got : db_get key s ≡ some ((k_ok, some (has m key), find m key), s) =
        db_get-Follows key s m t ∙ rw h refl in
      rw (get_command, got) (shown_lem key resp s (find m key))

  -- Where the values are kept in memory, the kernel fails no call and no string has a deadline:
  -- for arguments that pass the check the command set replies OK behind the reply so far, and a
  -- command get that follows replies for every key that passes the check with what a map from keys
  -- to values gives after that put, or with (nil) where it has no value.
  pub set_command-get_command :
      (key value resp : Str) (s : StrDb) (m : Map Str)
      → IsText s m
      → ok (check_key_value s.db.config key value) ≡ true
      → (s1 : StrDb) × (set_command wrap describe (key ∷ value ∷ []) resp s
          ≡ some (wrap k_ok (resp ++ codes "OK"), s1))
        × ((j begun : Str)
            → ok (check_key_value s.db.config j []) ≡ true
            → get_command wrap describe (j ∷ []) begun s1
              ≡ some (wrap k_ok (shown begun (if str_eq key j then some value else find m j)), s1))
  unfolding set_command
  set_command-get_command key value resp s m t h =
      let set = db_str_set-Follows key value s m t in
      let done : db_str_set key value s ≡ some (k_ok, set.end) = set.result ∙ rw h refl in
      let text : IsText set.end (assign m key value) = rw h at set.text in
      (
        set.end,
        rw (set_command, done) refl,
        λ j begun g.
            get_command-shown j begun set.end (assign m key value) text (rw set.config g)
            ∙ ap (λ o. some (wrap k_ok (shown begun o), set.end)) (find-assign m key j value),
      )
