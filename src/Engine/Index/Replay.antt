-- ===== src/Engine/Index/Replay.antt =====
-- idx.cpp: a load of whole files is a replay of their entries on the index.
use lightdb.Storage.Status.{k_ok, k_end_of_file}
use lightdb.Storage.Entry.RoundTrip.{size-encode}
use lightdb.Storage.File.Entries.{All, encode_all, Within, read-end}
use lightdb.Storage.File.ReadBack.{read-entry}
use lightdb.Storage.Entry.{encode}
use mathlib.Core.List.{append_assoc, append-nil}
use lightdb.Storage.Entry.{Entry, blank, size}
use lightdb.Storage.File.{DbFile, Io, read}
use lightdb.Storage.File.Transfer.{Succeeds}
use lightdb.Storage.File.ReadBack.{read_back}
use lightdb.Engine.State.{LightDb, Config}
use lightdb.Engine.Index.{Loaded, opened, load_loop, is_empty_key, load_entry}
use mathlib.Core.Path.{subst}
use lightdb.Engine.Index.Indexed.{replay, Indexed, Loadable}
use lightdb.Common.{
  ℕ, zero, suc, ◌+◌, ◌≤◌, ◌<◌, ltb, Str, length, length-append, true, false, List, [], ◌∷◌, ◌++◌,
  ◌≡◌, refl, sym, ap, ◌∙◌, arith, inl, inr, Bool-cases, if-true, if-false, ◌⊎◌,
}

-- The offset behind an entry, which the entry read back gives too.
next_offset :
    (pre : Str) (e : Entry)
    → Loadable e
    → length pre + size (read_back e) ≡ length (pre ++ encode e)
unfolding size
next_offset pre e l = omega (arith, length-append {0} pre (encode e), size-encode e l.fits l.sized)

module _ {X : Type 0} (I : Indexed X) (config : Config) (clock : ℕ → ℕ) where
  pub record Opens (r : Loaded) (x : X) : Type 0 where
    pub db : LightDb
    pub result : r ≡ opened db
    pub index : I.idx db ≡ x
    pub same_config : db.config ≡ config
    pub same_clock : db.clock ≡ clock
    pub succeeds : Succeeds db.outcomes

  load_loop-entry :
      (d : LightDb) (e : Entry) (io : Io) (n offset : ℕ) (f : DbFile)
      → ltb offset d.config.block_size ≡ true
      → read (record { file = f; outcomes = d.outcomes }) offset blank ≡ (k_ok, e, io)
      → is_empty_key e.key ≡ false
      → load_loop I.build (suc n) f offset d
        ≡ load_loop I.build n io.file
            (offset + size e)
            (I.build e (record d { outcomes = io.outcomes }))
  unfolding load_loop load_entry
  load_loop-entry d e io n offset f within done key =
      if-true _ _ _ within
      ∙ ap (load_entry I.build (load_loop I.build n) offset d) done
      ∙ ap (load_loop I.build n io.file (offset + size e)) (if-false _ _ _ key)

  load_loop-end :
      (d : LightDb) (e : Entry) (io : Io) (n offset : ℕ) (f : DbFile)
      → ltb offset d.config.block_size ≡ true
      → read (record { file = f; outcomes = d.outcomes }) offset blank ≡ (k_end_of_file, e, io)
      → load_loop I.build (suc n) f offset d ≡ opened (record d { outcomes = io.outcomes })
  unfolding load_loop load_entry
  load_loop-end d e io n offset f within done =
      if-true _ _ _ within ∙ ap (load_entry I.build (load_loop I.build n) offset d) done

  load_loop-full :
      (d : LightDb) (n offset : ℕ) (f : DbFile)
      → ltb offset d.config.block_size ≡ false
      → load_loop I.build (suc n) f offset d ≡ opened d
  unfolding load_loop
  load_loop-full d n offset f full = if-false _ _ _ full

  -- The loop stops at the end of the file, or behind the first block.
  abbrev pub Stops : ℕ → Str → Type 0
  Stops offset rest = (rest ≡ []) ⊎ (config.block_size ≤ offset)

  load_loop-done :
      (n : ℕ) (f : DbFile) (pre rest : Str) (d : LightDb)
      → f.bytes ≡ pre ++ rest
      → Stops (length pre) rest
      → d.config ≡ config
      → d.clock ≡ clock
      → Succeeds d.outcomes
      → Opens (load_loop I.build (suc n) f (length pre) d) (I.idx d)
  load_loop-done n f pre rest d at stops c k s =
      elim (Bool-cases (ltb (length pre) d.config.block_size)) [
        | inl within ↦
            let (io, done, left) = read-end (record { file = f; outcomes = d.outcomes }) s in
            let none_left : rest ≡ [] = elim stops [
              | inl e ↦ e
              | inr over ↦ absurd (ground (arith, within, over, c))
            ] in
            let here : length f.bytes ≡ length pre =
              ap length (at ∙ ap (λ t. pre ++ t) none_left ∙ append-nil pre) in
            record {
              db = record d { outcomes = io.outcomes };
              result = load_loop-end d blank io n (length pre) f within (
                  ap (λ o. read (record { file = f; outcomes = d.outcomes }) o blank) (sym here)
                  ∙ done);
              index = I.idx-outcomes d io.outcomes;
              same_config = c;
              same_clock = k;
              succeeds = left;
            }
        | inr full ↦ record {
          db = d;
          result = load_loop-full d n (length pre) f full;
          index = refl;
          same_config = c;
          same_clock = k;
          succeeds = s;
        }
      ]

  -- The loop from the offset where the entries begin, with more fuel than entries.
  pub load_loop-replay :
      (n : ℕ) (f : DbFile) (pre rest : Str) (es : List Entry) (d : LightDb)
      → f.bytes ≡ pre ++ (encode_all es ++ rest)
      → Stops (length pre + length (encode_all es)) rest
      → All Loadable es
      → All (I.Alive clock) es
      → Within config.block_size (length pre) es
      → length es < n
      → d.config ≡ config
      → d.clock ≡ clock
      → Succeeds d.outcomes
      → Opens (load_loop I.build n f (length pre) d) (replay I.apply (I.idx d) es)
  unfolding replay size
  load_loop-replay zero f pre rest es d at e l a w m c k s = absurd (omega arith)
  load_loop-replay (suc n) f pre rest [] d at e l a w m c k s =
      load_loop-done n f pre rest d at (subst (λ o. Stops o rest) (omega arith) e) c k s
  load_loop-replay (suc n) f pre rest (e ∷ es) d at stops (l, ls) (a, as_) (w, ws) m c k s =
      let post = encode_all es ++ rest in
      let here : f.bytes ≡ pre ++ (encode e ++ post) =
        at ∙ ap (λ t. pre ++ t) (append_assoc (encode e) (encode_all es) rest) in
      let (io, done, left, same) =
        read-entry (record { file = f; outcomes = d.outcomes }) pre post e l.fits s here in
      let within : ltb (length pre) d.config.block_size ≡ true = ground (arith, w, c) in
      let d1 = record d { outcomes = io.outcomes } in
      let (kept, built) =
        I.build_lem (read_back e) d1
          (subst (λ x. I.Alive x (read_back e)) (sym k) (I.Alive-read_back clock e a)) in
      let lengths : length pre + length (encode e ++ encode_all es)
          ≡ length (pre ++ encode e) + length (encode_all es) =
        omega
          (arith, length-append {0} pre (encode e), length-append {0} (encode e) (encode_all es)) in
      let others =
        load_loop-replay n io.file (pre ++ encode e) rest es (I.build (read_back e) d1)
          (same ∙ here ∙ sym (append_assoc pre (encode e) post))
          (subst (λ o. Stops o rest) lengths stops) ls as_
          (subst (λ o. Within config.block_size o es) (next_offset pre e l) ws) (omega (arith, m))
          (kept.config ∙ c) (kept.clock ∙ k) (subst Succeeds (sym kept.outcomes) left) in
      record {
        db = others.db;
        result =
            load_loop-entry d (read_back e) io n (length pre) f within done l.has_key
            ∙ ap (λ o. load_loop I.build n io.file o (I.build (read_back e) d1))
                (next_offset pre e l)
            ∙ others.result;
        index =
            others.index
            ∙ ap (λ x. replay I.apply x es)
                (built
                  ∙ I.apply-read_back (I.idx d1) e
                  ∙ ap (λ x. I.apply x e) (I.idx-outcomes d io.outcomes));
        same_config = others.same_config;
        same_clock = others.same_clock;
        succeeds = others.succeeds;
      }
