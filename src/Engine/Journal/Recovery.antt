-- ===== src/Engine/Journal/Recovery.antt =====
-- lightdb.cpp with idx.cpp: a database that is opened on the files of another one.
use lightdb.Storage.Entry.{Entry}
use lightdb.Storage.File.{Outcome}
use lightdb.Storage.File.ReadBack.{read_back}
use lightdb.Storage.File.Transfer.{Succeeds}
use lightdb.Storage.File.Entries.{All, HoldAll, Within, flatten}
use lightdb.Engine.State.{LightDb}
use lightdb.Engine.Logged.{archive-last, All-append, HoldAll-append, flatten-append}
use lightdb.Engine.Index.{load_files, files_of, reopened}
use lightdb.Engine.Index.Indexed.{Indexed, Same, Loadable, replay}
use lightdb.Engine.Index.Files.{load_files-replay}
use lightdb.Engine.Index.Replay.{Opens}
use lightdb.Engine.Journal.Part.{Part, Journaled}
use mathlib.Core.Path.{subst}
use lightdb.Common.{ℕ, List, [], ◌∷◌, ◌++◌, ◌≡◌, refl, sym, ap, ◌∙◌}

All-flatten {ℓ κ} :
    {A : Type ℓ} (P : A → Type κ) (xs ys : List A) → All P (xs ++ ys) → All P xs × All P ys
All-flatten P [] ys h = (tt, h)
All-flatten P (x ∷ xs) ys (p, h) = let (a, b) = All-flatten P xs ys h in ((p, a), b)

pub All-All {ℓ κ} :
    {A : Type ℓ} (P : A → Type κ) (xss : List (List A)) → All P (flatten xss) → All (All P) xss
All-All P [] h = tt
All-All P (xs ∷ xss) h = let (a, b) = All-flatten P xs (flatten xss) h in (a, All-All P xss b)

-- How an index is built again from the entries that are alive under a clock.
pub record Rebuilds {X : Type 0} (P : Part X) : Type 1 where
  pub build : Entry → LightDb → LightDb
  pub Alive : (ℕ → ℕ) → Entry → Type 0
  pub build_lem :
      (e : Entry) (d : LightDb)
      → Alive d.clock e
      → Same d (build e d) × (P.idx (build e d) ≡ P.apply (P.idx d) e)
  pub apply-read_back : (x : X) (e : Entry) → P.apply x (read_back e) ≡ P.apply x e
  pub Alive-read_back : (c : ℕ → ℕ) (e : Entry) → Alive c e → Alive c (read_back e)
  pub idx-outcomes :
      (d : LightDb) (os : List Outcome) → P.idx (record d { outcomes = os }) ≡ P.idx d
  pub idx-reopened :
      (d : LightDb) (clock : ℕ → ℕ) (os : List Outcome) → P.idx (reopened d clock os) ≡ P.start

abbrev pub indexed : {X : Type 0} (P : Part X) → Rebuilds P → Indexed X
indexed P R = record {
  idx = P.idx;
  build = R.build;
  apply = P.apply;
  Alive = R.Alive;
  build_lem = R.build_lem;
  apply-read_back = R.apply-read_back;
  Alive-read_back = R.Alive-read_back;
  idx-outcomes = R.idx-outcomes;
}

module _ {X : Type 0} (P : Part X) (R : Rebuilds P) where
  -- The entries file by file, the active file last.
  abbrev pub entries_of : {d : LightDb} → Journaled P d → List (List Entry)
  entries_of j = j.filed.logged.older ++ j.filed.logged.last ∷ []

  pub reopened-Journaled :
      (d : LightDb) (clock : ℕ → ℕ) (outcomes : List Outcome) (j : Journaled P d)
      → All (Within d.config.block_size 0) (entries_of j)
      → All (R.Alive clock) j.log
      → Succeeds outcomes
      → Opens
          (indexed P R)
          d.config
          clock
          (load_files R.build (files_of P.type d) (reopened d clock outcomes))
          (P.idx d)
  reopened-Journaled d clock outcomes j w a s =
      let l = j.filed.logged in
      let whole : j.log ≡ flatten (entries_of j) = l.whole ∙ sym (flatten-append l.older l.last) in
      let r =
        load_files-replay (indexed P R) d.config clock (files_of P.type d) (entries_of j)
          (reopened d clock outcomes)
          (subst (λ fs. HoldAll fs (entries_of j))
            (sym (archive-last (d.active P.type) (d.archived P.type) l.ids))
            (HoldAll-append (d.archived P.type) l.older (d.active P.type) l.last l.older_held
              l.last_held))
          (All-append (All Loadable) l.older l.last l.older_loadable l.last_loadable)
          (All-All (R.Alive clock) (entries_of j) (subst (All (R.Alive clock)) whole a)) w refl refl
          s in
      record {
        db = r.db;
        result = r.result;
        index =
            r.index
            ∙ ap (λ x. replay P.apply x (flatten (entries_of j))) (R.idx-reopened d clock outcomes)
            ∙ ap (replay P.apply P.start) (sym whole)
            ∙ sym j.index;
        same_config = r.same_config;
        same_clock = r.same_clock;
        succeeds = r.succeeds;
      }
