-- ===== src/Engine/Index/Files.antt =====
-- idx.cpp: a load of whole files, one after another, is a replay of their entries on the index.
use lightdb.Storage.Entry.RoundTrip.{length-encode, size-encode}
use lightdb.Storage.File.Entries.{HoldAll, flatten, All, encode_all, Within, Holds}
use lightdb.Engine.Index.{load_files, fatal, no_fuel, size}
use mathlib.Core.List.{append-nil}
use lightdb.Storage.Entry.{Entry}
use lightdb.Storage.File.{DbFile}
use lightdb.Storage.File.Transfer.{Succeeds}
use lightdb.Engine.State.{LightDb, Config}
use lightdb.Engine.Index.{opened, load_loop}
use mathlib.Core.Path.{subst}
use lightdb.Engine.Index.Indexed.{replay, replay-append, Indexed, Loadable}
use lightdb.Common.{
  ◌+◌, ℕ, suc, ◌-◌, ◌≤◌, Str, length, List, [], ◌∷◌, ◌++◌, ◌≡◌, refl, sym, ap, ◌∙◌, arith, inl,
}
use lightdb.Engine.Index.Replay.{Opens, Stops, load_loop-replay}

-- So few entries fit into a block.
length-Within : (b o : ℕ) (es : List Entry) → All Loadable es → Within b o es → length es ≤ b - o
length-Within b o [] l w = omega arith
length-Within b o (e ∷ es) (l, ls) (h, w) = omega (
  arith,
  h,
  length-encode e l.fits,
  size-encode e l.fits l.sized,
  length-Within b (o + size e) es ls w,
)

module _ {X : Type 0} (I : Indexed X) (config : Config) (clock : ℕ → ℕ) where
  load_files-first :
      (f : DbFile) (fs : List DbFile) (d d1 : LightDb)
      → load_loop I.build (suc d.config.block_size) f 0 d ≡ opened d1
      → load_files I.build (f ∷ fs) d ≡ load_files I.build fs d1
  unfolding load_files
  load_files-first f fs d d1 h =
      ap
        (λ r. elim r [ opened x ↦ load_files I.build fs x | fatal c ↦ fatal c | no_fuel ↦ no_fuel ])
        h

  -- The entries that the load reads of a file.
  abbrev pub Reads : DbFile → List Entry → Type 0
  Reads f es =
      (rest : Str) × (f.bytes ≡ encode_all es ++ rest)
      × Stops I config clock (length (encode_all es)) rest

  abbrev pub ReadAll : List DbFile → List (List Entry) → Type 0
  ReadAll [] [] = Unit
  ReadAll (f ∷ fs) (es ∷ ess) = Reads f es × ReadAll fs ess
  ReadAll _ _ = ⊥

  pub Holds-Reads : (f : DbFile) (es : List Entry) → Holds f es → Reads f es
  Holds-Reads f es h = ([], h.0 ∙ sym (append-nil (encode_all es)), inl refl)

  pub HoldAll-ReadAll :
      (fs : List DbFile) (ess : List (List Entry)) → HoldAll fs ess → ReadAll fs ess
  HoldAll-ReadAll [] [] h = tt
  HoldAll-ReadAll [] (es ∷ ess) h = h
  HoldAll-ReadAll (f ∷ fs) [] h = h
  HoldAll-ReadAll (f ∷ fs) (es ∷ ess) (h, hs) = (Holds-Reads f es h, HoldAll-ReadAll fs ess hs)

  -- Files of which the load reads these entries.
  pub load_files-read :
      (fs : List DbFile) (ess : List (List Entry)) (d : LightDb)
      → ReadAll fs ess
      → All (All Loadable) ess
      → All (All (I.Alive clock)) ess
      → All (Within config.block_size 0) ess
      → d.config ≡ config
      → d.clock ≡ clock
      → Succeeds d.outcomes
      → Opens I config clock (load_files I.build fs d) (replay I.apply (I.idx d) (flatten ess))
  unfolding load_files replay
  load_files-read [] [] d h l a w c k s = record {
    db = d;
    result = refl;
    index = refl;
    same_config = c;
    same_clock = k;
    succeeds = s;
  }
  load_files-read [] (es ∷ ess) d h l a w c k s = elim h [ ]
  load_files-read (f ∷ fs) [] d h l a w c k s = elim h [ ]
  load_files-read (f ∷ fs) (es ∷ ess) d (h, hs) (l, ls) (a, as_) (w, ws) c k s =
      let few : length es ≤ config.block_size - 0 = length-Within config.block_size 0 es l w in
      let block : d.config.block_size ≡ config.block_size = ap (λ (x : Config). x.block_size) c in
      let (left, at, stops) = h in
      let one =
        load_loop-replay I config clock (suc d.config.block_size) f [] left es d at
          (subst (λ o. Stops I config clock o left) (omega arith) stops) l a w
          (omega (arith, few, block)) c k s in
      let rest =
        load_files-read fs ess one.db hs ls as_ ws one.same_config one.same_clock one.succeeds in
      record {
        db = rest.db;
        result = load_files-first f fs d one.db one.result ∙ rest.result;
        index =
            rest.index
            ∙ ap (λ x. replay I.apply x (flatten ess)) one.index
            ∙ sym (replay-append I.apply (I.idx d) es (flatten ess));
        same_config = rest.same_config;
        same_clock = rest.same_clock;
        succeeds = rest.succeeds;
      }

  -- Loops with a fuel of the block size and one load files of whole entries, each of less than 2^32
  -- bytes, with a key and beginning inside the first block, to their end, and the index is the one
  -- after all entries that are alive, in order.
  pub load_files-replay :
      (fs : List DbFile) (ess : List (List Entry)) (d : LightDb)
      → HoldAll fs ess
      → All (All Loadable) ess
      → All (All (I.Alive clock)) ess
      → All (Within config.block_size 0) ess
      → d.config ≡ config
      → d.clock ≡ clock
      → Succeeds d.outcomes
      → Opens I config clock (load_files I.build fs d) (replay I.apply (I.idx d) (flatten ess))
  load_files-replay fs ess d h l a w c k s =
      load_files-read fs ess d (HoldAll-ReadAll fs ess h) l a w c k s
