-- ===== src/Engine/Strings/Text/Runs.antt =====
-- db_str.cpp: runs of string operations against a map.
use lightdb.Common.{
  ℕ, Str, length, Bool, true, false, Option, none, some, [], ◌++◌, ◌≡◌, refl, ap, ◌∙◌, arith,
  if◌then◌else◌, Bool-cases, inl, inr,
}
use lightdb.Common.Map.{Map, find, find_or, has}
use lightdb.Storage.Status.{Code, k_ok, ok}
use lightdb.Storage.Indexer.{Indexer}
use lightdb.Ds.Strings
use lightdb.Engine.State.{Config, check_key_value}
use lightdb.Engine.Strings.Steps.{StrDb, ◌>>=◌}
use lightdb.Engine.Strings.Access.{db_str_set, db_get, str_exist, db_get_set, db_str_set_nx}
use lightdb.Engine.Strings.Updates.{db_append}
use lightdb.Engine.Strings.Text.{
  IsText, Follows, key_passes, short_passes, text_of, set_text, get_text, db_str_set-Follows,
  db_get-Follows,
}

-- `SetNx`, `GetSet` and `Append` of a map.
abbrev pub set_nx_text : Config → Str → Str → Map Str → (Code × Option Bool) × Map Str
set_nx_text c key value m =
    let (code, m1) = set_text c key value m in
    if (if ok (check_key_value c key []) then has m key else false)
    then ((k_ok, some false), m)
    else ((code, if ok code then some true else none), m1)

abbrev pub get_set_text : Config → Str → Str → Map Str → (Code × Option Bool × Option Str) × Map Str
get_set_text c key value m =
    let (status, suc_, old) = get_text c key m in
    let (code, m1) = set_text c key value m in ((code, suc_, old), m1)

abbrev pub append_text : Config → Str → Str → Map Str → (Code × Option ℕ) × Map Str
append_text c key value m =
    let text = find_or m key [] ++ value in
    let (code, m1) = set_text c key text m in
    let passes = check_key_value c key value in
    if ok passes then ((code, some (length text)), m1) else ((passes, none), m)

str_exist-Follows :
    (key : Str) (s : StrDb) (m : Map Str)
    → IsText s m
    → str_exist key s
      ≡ some ((if ok (check_key_value s.db.config key []) then has m key else false), s)
unfolding str_exist
str_exist-Follows key s m t = elim (Bool-cases (ok (check_key_value s.db.config key []))) [
  | inl h ↦
      rw h (found (Strings.get s.str_idx key) refl (t.same key (key_passes s.db.config key [] h)))
  | inr h ↦ rw h refl
]
  where
    found :
        (o : Option Indexer)
        → Strings.get s.str_idx key ≡ o
        → text_of (Strings.get s.str_idx key) ≡ find m key
        → ◌≡◌ {A = Option (Bool × StrDb)}
            (some
              (elim (Strings.get s.str_idx key) as (λ x. Bool) [ none ↦ false | some v ↦ true ], s))
            (some (has m key, s))
    found none e r = ground (arith, e, r)
    found (some v) e r = ground (arith, e, r)

pub set_nx-Follows :
    (key value : Str) (s : StrDb) (m : Map Str)
    → IsText s m
    → let (result, m1) = set_nx_text s.db.config key value m in
      Follows (db_str_set_nx key value s) s result m1
unfolding db_str_set_nx
set_nx-Follows key value s m t =
    let set = db_str_set-Follows key value s m t in
    let code = check_key_value s.db.config key value in
    elim (Bool-cases (if ok (check_key_value s.db.config key []) then has m key else false)) [
      | inl h ↦
          rw (◌>>=◌, str_exist-Follows key s m t, h)
            (record { end = s; result = refl; config = refl; text = t })
      | inr h ↦
          rw (◌>>=◌, str_exist-Follows key s m t, h)
            (record {
              end = set.end;
              result = rw (◌>>=◌, set.result) refl;
              config = set.config;
              text = set.text;
            })
    ]

pub get_set-Follows :
    (key value : Str) (s : StrDb) (m : Map Str)
    → IsText s m
    → let (result, m1) = get_set_text s.db.config key value m in
      Follows (db_get_set key value s) s result m1
unfolding db_get_set
get_set-Follows key value s m t =
    let set = db_str_set-Follows key value s m t in
    elim (Bool-cases (ok (check_key_value s.db.config key []))) [
      | inl h ↦
          let got : db_get key s ≡ some ((k_ok, some (has m key), find m key), s) =
            db_get-Follows key s m t ∙ rw h refl in
          rw h (record {
            end = set.end;
            result = rw (◌>>=◌, got) (rw (◌>>=◌, set.result) refl);
            config = set.config;
            text = set.text;
          })
      | inr h ↦
          let got : db_get key s ≡ some ((k_ok, some false, none), s) =
            db_get-Follows key s m t ∙ rw h refl in
          rw h (record {
            end = set.end;
            result = rw (◌>>=◌, got) (rw (◌>>=◌, set.result) refl);
            config = set.config;
            text = set.text;
          })
    ]

-- `Append` once the old value is read.
append_step :
    (key value base : Str) (s s1 : StrDb) (code : Code) (exist : Bool) (old : Option Str)
    → ok (check_key_value s.db.config key value) ≡ true
    → db_get key s ≡ some ((k_ok, some exist, old), s)
    → (if exist then elim old as (λ x. Str) [ none ↦ [] | some v ↦ v ] else []) ≡ base
    → db_str_set key (base ++ value) s ≡ some (code, s1)
    → db_append key value s ≡ some ((code, some (length (base ++ value))), s1)
unfolding db_append
append_step key value base s s1 code exist old h got b e =
    let written = ap (λ x. db_str_set key (x ++ value) s) b ∙ e in
    rw h (
      rw (◌>>=◌, got)
        (rw (◌>>=◌, written) (ap (λ x. some ((code, some (length (x ++ value))), s1)) b)))

append_refused :
    (key value : Str) (s : StrDb)
    → ok (check_key_value s.db.config key value) ≡ false
    → db_append key value s ≡ some ((check_key_value s.db.config key value, none), s)
unfolding db_append
append_refused key value s h = rw h refl

pub append-Follows :
    (key value : Str) (s : StrDb) (m : Map Str)
    → IsText s m
    → let (result, m1) = append_text s.db.config key value m in
      Follows (db_append key value s) s result m1
append-Follows key value s m t =
    let set = db_str_set-Follows key (find_or m key [] ++ value) s m t in
    elim (Bool-cases (ok (check_key_value s.db.config key value))) [
      | inl h ↦
          let got : db_get key s ≡ some ((k_ok, some (has m key), find m key), s) =
            db_get-Follows key s m t ∙ rw (short_passes s.db.config key value h) refl in
          rw h (record {
            end = set.end;
            result =
                append_step key value (find_or m key []) s set.end
                  (set_text s.db.config key (find_or m key [] ++ value) m).0 (has m key)
                  (find m key) h got (ground arith) set.result;
            config = set.config;
            text = set.text;
          })
      | inr h ↦
          rw h (record { end = s; result = append_refused key value s h; config = refl; text = t })
    ]
