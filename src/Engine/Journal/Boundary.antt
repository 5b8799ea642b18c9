-- ===== src/Engine/Journal/Boundary.antt =====
-- lightdb.cpp with idx.cpp: an entry that begins exactly a block into its file.
use lightdb.Storage.Entry.{Entry, encode}
use lightdb.Storage.File.{DbFile, Outcome, appended}
use lightdb.Storage.File.Transfer.{Succeeds}
use lightdb.Storage.File.Entries.{All, HoldAll, Within, flatten}
use lightdb.Storage.Status.{k_ok}
use lightdb.Engine.State.{LightDb, Config, archive, store}
use lightdb.Engine.Store.{store-Added, store-OnlyFiles}
use lightdb.Engine.Logged.{archive-last, All-append, flatten-append}
use lightdb.Engine.Index.{load_files, files_of, reopened}
use lightdb.Engine.Index.Indexed.{Loadable, replay}
use lightdb.Engine.Index.Files.{Reads, ReadAll, Holds-Reads, load_files-read}
use lightdb.Engine.Index.Replay.{Opens}
use lightdb.Engine.Journal.{Good}
use lightdb.Engine.Journal.Part.{Part, Journaled}
use lightdb.Engine.Journal.Recovery.{Rebuilds, indexed, entries_of, All-All}
use mathlib.Core.Path.{subst}
use lightdb.Common.{ℕ, List, length, [], ◌∷◌, ◌++◌, ◌≡◌, refl, sym, ap, ◌∙◌, inr, arith}

module _ {X : Type 0} (P : Part X) (R : Rebuilds P) (config : Config) (clock : ℕ → ℕ) where
  abbrev ReadAllHere : List DbFile → List (List Entry) → Type 0
  ReadAllHere = ReadAll (indexed P R) config clock

  ReadAll-append :
      (fs : List DbFile) (ess : List (List Entry)) (f : DbFile) (es : List Entry)
      → HoldAll fs ess
      → Reads (indexed P R) config clock f es
      → ReadAllHere (fs ++ f ∷ []) (ess ++ es ∷ [])
  ReadAll-append [] [] f es h r = (r, tt)
  ReadAll-append [] (xs ∷ ess) f es h r = elim h [ ]
  ReadAll-append (g ∷ fs) [] f es h r = elim h [ ]
  ReadAll-append (g ∷ fs) (xs ∷ ess) f es (h, hs) r =
      (Holds-Reads (indexed P R) config clock g xs h, ReadAll-append fs ess f es hs r)

module _ {X : Type 0} (P : Part X) (R : Rebuilds P) where
  -- Take a database whose index is the replay of its files, as for a reload (every entry begins
  -- less than a block into its file, no stored deadline is over, and the kernel fails no call),
  -- and whose active file is exactly a block long: store of a good entry returns kOk, but a load
  -- of the files that it leaves gives the index without that entry.
  pub boundary_entry_lost :
      (d : LightDb) (e : Entry) (clock : ℕ → ℕ) (outcomes : List Outcome) (j : Journaled P d)
      → (d.active P.type).write_offset ≡ d.config.block_size
      → Good P.type e
      → All (Within d.config.block_size 0) (entries_of P R j)
      → All (R.Alive clock) j.log
      → Succeeds outcomes
      → ((store e d).0 ≡ k_ok)
        × Opens
            (indexed P R)
            d.config
            clock
            (load_files R.build
              (files_of P.type (store e d).1)
              (reopened (store e d).1 clock outcomes))
            (P.idx d)
  boundary_entry_lost d e clock outcomes j full g w a s =
      let l = j.filed.logged in
      let x = store-Added P.type e d g.type g.writable j.filed.succeeds (omega (arith, full)) in
      let d1 = (store e d).1 in
      let file = appended (d.active P.type) (encode e) in
      let files : files_of P.type d1 ≡ d.archived P.type ++ file ∷ [] =
        ap (λ f. archive f (d1.archived P.type)) x.active
        ∙ ap (archive file) x.archived
        ∙ archive-last file (d.archived P.type) l.ids in
      let reads : Reads (indexed P R) d.config clock file l.last = (
        encode e,
        ap (λ t. t ++ encode e) l.last_held.0,
        inr (omega (arith, full, l.last_held.1, ap length l.last_held.0)),
      ) in
      let whole : j.log ≡ flatten (entries_of P R j) =
        l.whole ∙ sym (flatten-append l.older l.last) in
      let r =
        load_files-read (indexed P R) d.config clock (files_of P.type d1) (entries_of P R j)
          (reopened d1 clock outcomes)
          (subst (λ fs. ReadAll (indexed P R) d.config clock fs (entries_of P R j)) (sym files)
            (ReadAll-append P R d.config clock (d.archived P.type) l.older file l.last l.older_held
              reads))
          (All-append (All Loadable) l.older l.last l.older_loadable l.last_loadable)
          (All-All (R.Alive clock) (entries_of P R j) (subst (All (R.Alive clock)) whole a)) w
          (store-OnlyFiles e d).config refl s in
      (
        x.status,
        record {
          db = r.db;
          result = r.result;
          index =
              r.index
              ∙ ap (λ x. replay P.apply x (flatten (entries_of P R j)))
                  (R.idx-reopened d1 clock outcomes)
              ∙ ap (replay P.apply P.start) (sym whole)
              ∙ sym j.index;
          same_config = r.same_config;
          same_clock = r.same_clock;
          succeeds = r.succeeds;
        },
      )
