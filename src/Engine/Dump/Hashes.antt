-- ===== src/Engine/Dump/Hashes.antt =====
-- dump.cpp: the files that a dump of the hashes writes hold entries that replay to the hashes.
use lightdb.Common.Map.{Map, find, IsDistinct}
use lightdb.Storage.Entry.{hash, hash_h_set, Entry, encode, new_entry_now}
use lightdb.Storage.Status.{Code, k_ok, ok}
use lightdb.Storage.File.{Io, write, appended}
use lightdb.Storage.File.Transfer.{Succeeds}
use lightdb.Storage.File.Written.{write-Succeeds}
use lightdb.Ds.Hash.{Hash, bucket, h_set}
use lightdb.Engine.State.{new_file}
use lightdb.Engine.Logged.{Logged, archive-last, rotated-Logged, appended-Logged}
use lightdb.Engine.Index.Indexed.{replay, replay-append}
use lightdb.Engine.Journal.{Good, new_entry_now-Good}
use lightdb.Engine.Journal.Part.{IsKey}
use lightdb.Engine.Hashes.Journal.{apply_entry, apply_entry-now}
use lightdb.Engine.Dump.{
  Dumper, next_file, turn, dump_store, tick, dump_fields, dump_hash_loop, dump_hash,
}
use lightdb.Engine.Dump.Appended.{find_before, find_last, h_set_first, h_set_next}
use mathlib.Core.Path.{subst}
use mathlib.Core.List.{append_assoc, append-nil}
use lightdb.Common.{
  ℕ, ◌+◌, ◌^◌, ◌<◌, ◌≤◌, ltb, Str, length, Option, none, some, List, [], ◌∷◌, ◌++◌, ◌≡◌, refl, sym,
  ap, ◌∙◌, arith, inl, inr, Bool-cases, if◌then◌else◌, if-true, if-false,
}

-- The files hold a log that replays to these hashes, on a kernel that fails no call.
pub record Dumped (d : Dumper) (h : Hash) : Type 0 where
  pub log : List Entry
  pub logged : Logged d.block_size d.files d.last log
  pub succeeds : Succeeds d.outcomes
  pub times : (n : ℕ) → d.clock n < 2 ^ 64
  pub index : h ≡ replay apply_entry [] log

-- A turn keeps the log and gives room.
record Turned (d d' : Dumper) (log : List Entry) : Type 0 where
  logged : Logged d.block_size d'.files d'.last log
  room : d'.last.write_offset ≤ d.block_size
  same_block : d'.block_size ≡ d.block_size
  same_clock : d'.clock ≡ d.clock
  same_outcomes : d'.outcomes ≡ d.outcomes

turn-Turned :
    (d : Dumper) (log : List Entry) → Logged d.block_size d.files d.last log → Turned d (turn d) log
unfolding turn
turn-Turned d log h = elim (Bool-cases (ltb d.block_size d.last.write_offset)) [
  | inl over ↦
      subst (λ x. Turned d x log) (sym (if-true _ (next_file d) d over))
        (record {
          logged =
              subst (λ fs. Logged d.block_size fs (new_file (d.last.id + 1)) log)
                (archive-last d.last d.files h.ids)
                (rotated-Logged d.block_size d.files d.last log h);
          room = omega arith;
          same_block = refl;
          same_clock = refl;
          same_outcomes = refl;
        })
  | inr fits ↦
      subst (λ x. Turned d x log) (sym (if-false _ (next_file d) d fits))
        (record {
          logged = h;
          room = ground (arith, fits);
          same_block = refl;
          same_clock = refl;
          same_outcomes = refl;
        })
]

abbrev stored_in : Dumper → Code × Io → Code × Dumper
stored_in d (status, io) = (status, record d { last = io.file; outcomes = io.outcomes })

dump_store-turned :
    (d : Dumper) (e : Entry) (r : Code × Io)
    → write (record { file = (turn d).last; outcomes = (turn d).outcomes }) e ≡ r
    → dump_store e d ≡ stored_in (turn d) r
unfolding dump_store
dump_store-turned d e r h = ap (stored_in (turn d)) h

-- One more entry.
dump_store-Dumped :
    (d : Dumper) (h : Hash) (e : Entry)
    → Dumped d h
    → Good hash e
    → ((dump_store e d).0 ≡ k_ok) × Dumped (dump_store e d).1 (apply_entry h e)
unfolding replay
dump_store-Dumped d h e j g =
    let t = turn-Turned d j.log j.logged in
    let d1 = turn d in
    let (io, done, file, left) =
      write-Succeeds (record { file = d1.last; outcomes = d1.outcomes }) e g.writable
        (subst Succeeds (sym t.same_outcomes) j.succeeds) in
    subst (λ x. (x.0 ≡ k_ok) × Dumped x.1 (apply_entry h e))
      (sym (dump_store-turned d e (k_ok, io) done))
      (
        refl,
        record {
          log = j.log ++ e ∷ [];
          logged =
              subst (λ f. Logged d1.block_size d1.files f (j.log ++ e ∷ [])) (sym file)
                (subst (λ b. Logged b d1.files (appended d1.last (encode e)) (j.log ++ e ∷ []))
                  (sym t.same_block)
                  (appended-Logged d.block_size d1.files d1.last j.log e t.logged g.loadable
                    t.room));
          succeeds = left;
          times = subst (λ (c : ℕ → ℕ). (n : ℕ) → c n < 2 ^ 64) (sym t.same_clock) j.times;
          index =
              ap (λ x. apply_entry x e) j.index ∙ sym (replay-append apply_entry [] j.log (e ∷ []));
        },
      )

-- A dump that succeeds, with what its files replay to.
abbrev pub Succeeded : Code × Dumper → Hash → Type 0
Succeeded (status, d) h = (status ≡ k_ok) × Dumped d h

go_on :
    (s : Code) (x y : Code × Dumper) (h : Hash)
    → s ≡ k_ok
    → Succeeded x h
    → Succeeded (if ok s then x else y) h
go_on s x y h e p = rw (ap ok e) p

ticked : (d : Dumper) (h : Hash) → Dumped d h → Dumped (tick d) h
ticked d h j = record {
  log = j.log;
  logged = j.logged;
  succeeds = j.succeeds;
  times = j.times;
  index = j.index;
}

abbrev pub ShortFields : Map Str → Type 0
ShortFields [] = Unit
ShortFields ((field, value) ∷ m) = (length field < 2 ^ 30) × (length value < 2 ^ 30) × ShortFields m

-- One field of a key.
dump_field-Dumped :
    (d : Dumper) (h h' : Hash) (key field value : Str)
    → Dumped d h
    → IsKey key
    → length field < 2 ^ 30
    → length value < 2 ^ 30
    → (h_set h key field value).0 ≡ h'
    → Succeeded
        (dump_store (new_entry_now (d.clock d.ticks) key value field hash hash_h_set) (tick d))
        h'
unfolding new_entry_now
dump_field-Dumped d h h' key field value j k f v e =
    let now = d.clock d.ticks in
    let entry = new_entry_now now key value field hash hash_h_set in
    let (status, one) =
      dump_store-Dumped (tick d) h entry (ticked d h j)
        (new_entry_now-Good hash hash_h_set now key value field (j.times d.ticks) k.0 k.1 v f) in
    (
      status,
      subst (Dumped (dump_store entry (tick d)).1)
          (apply_entry-now h hash_h_set now key value field ∙ e) one,
    )

-- The further fields of the last key.
dump_fields-Dumped :
    (done : Hash) (key : Str) (ms m : Map Str) (d : Dumper)
    → find done key ≡ none
    → IsKey key
    → ShortFields m
    → IsDistinct (ms ++ m)
    → Dumped d (done ++ (key, ms) ∷ [])
    → Succeeded (dump_fields key m d) (done ++ (key, ms ++ m) ∷ [])
unfolding dump_fields
dump_fields-Dumped done key ms [] d fresh k s n j =
    (refl, subst (λ x. Dumped d (done ++ (key, x) ∷ [])) (sym (append-nil ms)) j)
dump_fields-Dumped done key ms ((field, value) ∷ m) d fresh k (f, v, s) n j =
    let e = new_entry_now (d.clock d.ticks) key value field hash hash_h_set in
    let (status, one) =
      dump_field-Dumped d (done ++ (key, ms) ∷ []) (done ++ (key, ms ++ (field, value) ∷ []) ∷ [])
        key field value j k f v
        (h_set_next done key field value fresh ms (find_before ms m field value n)) in
    let d1 = (dump_store e (tick d)).1 in
    let same : (ms ++ (field, value) ∷ []) ++ m ≡ ms ++ (field, value) ∷ m =
      append_assoc ms ((field, value) ∷ []) m in
    go_on (dump_store e (tick d)).0 (dump_fields key m d1) ((dump_store e (tick d)).0, d1)
      (done ++ (key, ms ++ (field, value) ∷ m) ∷ []) status
      (subst (λ x. Succeeded (dump_fields key m d1) (done ++ (key, x) ∷ [])) same
        (dump_fields-Dumped done key (ms ++ (field, value) ∷ []) m d1 fresh k s
          (subst IsDistinct (sym same) n) one))

-- A key that has a field.
dump_key-Dumped :
    (done : Hash) (key : Str) (m : Map Str) (d : Dumper)
    → find done key ≡ none
    → IsKey key
    → ShortFields m
    → IsDistinct m
    → 0 < length m
    → Dumped d done
    → Succeeded (dump_fields key m d) (done ++ (key, m) ∷ [])
unfolding dump_fields
dump_key-Dumped done key [] d fresh k s n p j = absurd (omega (arith, p))
dump_key-Dumped done key ((field, value) ∷ m) d fresh k (f, v, s) n p j =
    let e = new_entry_now (d.clock d.ticks) key value field hash hash_h_set in
    let (status, one) =
      dump_field-Dumped d done (done ++ (key, (field, value) ∷ []) ∷ []) key field value j k f v
        (h_set_first done key field value fresh) in
    let d1 = (dump_store e (tick d)).1 in
    go_on (dump_store e (tick d)).0 (dump_fields key m d1) ((dump_store e (tick d)).0, d1)
      (done ++ (key, (field, value) ∷ m) ∷ []) status
      (dump_fields-Dumped done key ((field, value) ∷ []) m d1 fresh k s n one)

-- Keys and fields that a load brings back: no key without a field, no field twice, and no string of
-- a gigabyte.
abbrev pub Dumpable : Hash → Type 0
Dumpable [] = Unit
Dumpable ((key, m) ∷ h) = IsKey key × ShortFields m × IsDistinct m × (0 < length m) × Dumpable h

bucket-last :
    (done rest : Hash) (key : Str) (m : Map Str)
    → find done key ≡ none
    → bucket (done ++ (key, m) ∷ rest) key ≡ m
bucket-last done rest key m fresh =
    ap (λ (o : Option (Map Str)). elim o [ none ↦ [] | some v ↦ v ])
      (find_last done rest key m fresh)

dump_hash_loop-Dumped :
    (h done rest : Hash) (d : Dumper)
    → h ≡ done ++ rest
    → IsDistinct (done ++ rest)
    → Dumpable rest
    → Dumped d done
    → Succeeded (dump_hash_loop h rest d) (done ++ rest)
unfolding dump_hash_loop
dump_hash_loop-Dumped h done [] d e n c j = (refl, subst (Dumped d) (sym (append-nil done)) j)
dump_hash_loop-Dumped h done ((key, m) ∷ rest) d e n (k, s, l, p, c) j =
    let fresh = find_before done rest key m n in
    let b : bucket h key ≡ m = ap (λ x. bucket x key) e ∙ bucket-last done rest key m fresh in
    let (status, one) =
      subst (λ x. Succeeded (dump_fields key x d) (done ++ (key, m) ∷ [])) (sym b)
        (dump_key-Dumped done key m d fresh k s l p j) in
    let d1 = (dump_fields key (bucket h key) d).1 in
    let status1 = (dump_fields key (bucket h key) d).0 in
    let same : (done ++ (key, m) ∷ []) ++ rest ≡ done ++ (key, m) ∷ rest =
      append_assoc done ((key, m) ∷ []) rest in
    go_on status1 (dump_hash_loop h rest d1) (status1, d1) (done ++ (key, m) ∷ rest) status
      (subst (Succeeded (dump_hash_loop h rest d1)) same (
        dump_hash_loop-Dumped h (done ++ (key, m) ∷ []) rest d1 (e ∙ sym same)
          (subst IsDistinct (sym same) n) c one))

-- On a kernel that fails no call, dumpHash of a hash without double keys or fields, with a field
-- under each key and strings of less than a gigabyte, succeeds, and the entries in its files
-- replay to exactly that hash.
pub dump_hash-Dumped :
    (h : Hash) (d : Dumper) → IsDistinct h → Dumpable h → Dumped d [] → Succeeded (dump_hash h d) h
unfolding dump_hash
dump_hash-Dumped h d n c j = dump_hash_loop-Dumped h [] h d refl n c j
