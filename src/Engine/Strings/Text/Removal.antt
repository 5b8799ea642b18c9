-- ===== src/Engine/Strings/Text/Removal.antt =====
-- db_str.cpp: `Remove` against a map.
use lightdb.Ds.Strings.{erased, tail_deleted}
use lightdb.Common.{
  suc, Str, str_eq_iff, Bool, false, Option, none, some, [], ◌∷◌, ◌++◌, ◌≡◌, refl, ap, ◌∙◌, ◌≢◌,
  arith, if◌then◌else◌, Bool-cases, inl, inr,
}
use lightdb.Common.Map.{Map, find, has, erase, find-erase}
use lightdb.Storage.Entry.{string, string_rem, new_entry_no_extra}
use lightdb.Storage.Status.{Code, k_ok, ok}
use lightdb.Storage.Indexer.{Indexer}
use lightdb.Ds.Strings
use lightdb.Ds.Strings.Search.{IsSkiplist}
use lightdb.Ds.Strings.Erase.{dropped, erase-dropped, dropped-IsSkiplist, get-dropped}
use lightdb.Engine.State.{
  Config, current_time_stamp, check_key_value, store, erase_expiry, store_now,
}
use lightdb.Engine.Store.{store-OnlyFiles}
use lightdb.Engine.Strings.Updates.{str_drop, db_remove}
use lightdb.Engine.Strings.Steps.{StrDb, key_value_mem_mode, ◌>>=◌, ◌>>◌}
use lightdb.Engine.Strings.Laws.{erase_index_lem, cache_remove_lem}
use lightdb.Engine.Strings.Text.{IsText, Follows, key_passes, text_of, store_text, erased_timeless}

-- `Remove` of a map.
abbrev pub remove_text : Config → Str → Map Str → (Code × Option Bool) × Map Str
remove_text c key m =
    if ok (check_key_value c key [])
    then ((k_ok, some (has m key)), erase m key)
    else ((k_ok, some false), m)

-- The index without a key.
erase_index-Reads :
    (key : Str) (s : StrDb) (m : Map Str)
    → IsSkiplist s.str_idx
    → ((j : Str) → j ≢ [] → text_of (Strings.get s.str_idx j) ≡ find m j)
    → key ≢ []
    → (idx : Strings.StrSkiplist) × (Strings.erase s.str_idx key ≡ erased idx (has m key))
      × IsSkiplist idx
      × ((j : Str) → j ≢ [] → text_of (Strings.get idx j) ≡ find (erase m key) j)
erase_index-Reads key s m w r k = go (Strings.get s.str_idx key) refl
  where
    go :
        (o : Option Indexer)
        → Strings.get s.str_idx key ≡ o
        → (idx : Strings.StrSkiplist) × (Strings.erase s.str_idx key ≡ erased idx (has m key))
          × IsSkiplist idx
          × ((j : Str) → j ≢ [] → text_of (Strings.get idx j) ≡ find (erase m key) j)
    go none e = (
      s.str_idx,
      erase-dropped s.str_idx key w k ∙ ground (arith, e, r key k),
      w,
      λ j g. ground (arith, r j g, e, find-erase m key j, str_eq_iff key j),
    )
    go (some v) e = (
      dropped s.str_idx key,
      erase-dropped s.str_idx key w k ∙ ground (arith, e, r key k),
      dropped-IsSkiplist s.str_idx key v w k e,
      λ j g.
          ap text_of (get-dropped s.str_idx key j v w k g e)
          ∙ ground (arith, r j g, find-erase m key j),
    )

-- The end of `Remove`, after its entry is stored.
remove_end :
    (key : Str) (s : StrDb) (idx : Strings.StrSkiplist) (found : Bool)
    → s.mode ≡ key_value_mem_mode
    → Strings.erase s.str_idx key ≡ erased idx found
    → str_drop key s
      ≡ some ((k_ok, some found), record s { db = erase_expiry string key s.db; str_idx = idx })
unfolding str_drop
remove_end key s idx found m e =
    let gone = record s { db = erase_expiry string key s.db; str_idx = idx } in
    rw (◌>>=◌, erase_index_lem key s idx found e)
      (rw (◌>>=◌, ◌>>◌, cache_remove_lem key gone m) refl)

pub db_remove-Follows :
    (key : Str) (s : StrDb) (m : Map Str)
    → IsText s m
    → let (result, m1) = remove_text s.db.config key m in Follows (db_remove key s) s result m1
unfolding db_remove store_now current_time_stamp new_entry_no_extra
db_remove-Follows key s m t = elim (Bool-cases (ok (check_key_value s.db.config key []))) [
  | inr h ↦ rw h (record { end = s; result = refl; config = refl; text = t })
  | inl h ↦
      let now = s.db.clock s.db.ticks in
      let e = new_entry_no_extra now key [] string string_rem in
      let d1 = record s.db { ticks = suc s.db.ticks } in
      let d2 = (store e d1).1 in
      let only = store-OnlyFiles e d1 in
      let k = key_passes s.db.config key [] h in
      let (status, filed) = store_text s.db t.log key [] string_rem t.filed h in
      let (idx, gone, w, r) = erase_index-Reads key s m t.whole t.same k in
      rw h (record {
        end = record s { db = erase_expiry string key d2; str_idx = idx };
        result =
            rw (ap ok status) (remove_end key (record s { db = d2 }) idx (has m key) t.mode gone);
        config = only.config;
        text = record {
          mode = t.mode;
          whole = w;
          same = r;
          timeless = erased_timeless d2 key (rw only.expires t.timeless);
          log = t.log ++ e ∷ [];
          filed = record {
            logged = filed.logged;
            succeeds = filed.succeeds;
            keys = filed.keys;
            values = filed.values;
            times = filed.times;
          };
        };
      })
]
