-- ===== src/Engine/Sets/Journal.antt =====
-- db_set.cpp and idx.cpp: every set operation but `SPop` and `SDiff` keeps the set index equal to the
-- replay of the entries in the set files. `SDiff` makes an empty set under a missing key without an
-- entry, and `SPop` may pop a member of any length.
use lightdb.Common.Map.{has, assign_same, insert}
use lightdb.Storage.Entry.{
  set, OperationType, set_s_clear, set_s_expire, Entry, get_mark, mark_code, new_entry_now,
}
use lightdb.Storage.Entry.RoundTrip.{get_type-new_entry_now}
use lightdb.Storage.File.ReadBack.{read_back}
use lightdb.Ds.Sets.{Sets, members, s_add, s_is_member, s_key_exist, s_rem, s_move, s_clear}
use lightdb.Engine.State.{LightDb, clear_index, current_time_stamp}
use lightdb.Engine.Sets.{with_sets}
use lightdb.Engine.Index.{build_set_index, load_expiry}
use lightdb.Engine.Index.Indexed.{Same}
use lightdb.Engine.Journal.Part.{Part, Journaled}
use lightdb.Engine.Journal.Recovery.{Rebuilds}
use lightdb.Common.{
  ℕ, ◌≤◌, ltb, ◌==◌, Str, true, false, [], ◌≡◌, refl, sym, ap, arith, inl, inr, Bool-cases,
  if◌then◌else◌,
}

-- What an entry with a mark does to the index.
abbrev pub apply_mark : Sets → Entry → ℕ → Sets
apply_mark r e mark =
    if mark == 18
    then (s_add r e.key e.value).0
    else if mark == 19
    then (s_rem r e.key e.value).0
    else if mark == 20
    then (s_move r e.key e.extra e.value).0
    else if mark == 21
    then (s_clear r e.key).0
    else r

unfoldable pub apply_entry : Sets → Entry → Sets
unfolding get_mark
apply_entry r e = apply_mark r e (get_mark e)

pub apply_entry-now :
    (r : Sets) (mark : OperationType) (now : ℕ) (key value extra : Str)
    → apply_entry r (new_entry_now now key value extra set mark)
      ≡ apply_mark r (new_entry_now now key value extra set mark) (mark_code mark)
unfolding apply_entry
apply_entry-now r mark now key value extra =
    ap (apply_mark r (new_entry_now now key value extra set mark))
      (get_type-new_entry_now now key value extra set mark).1

pub clear_index-apply :
    (now : ℕ) (key : Str) (d : LightDb)
    → clear_index set key d
      ≡ with_sets d (apply_entry d.set_idx (new_entry_now now key [] [] set set_s_clear))
unfolding clear_index new_entry_now
clear_index-apply now key d =
    ap (with_sets d) (sym (apply_entry-now d.set_idx set_s_clear now key [] []))

-- The set index among the indexes of the database.
abbrev pub set_part : Part Sets
set_part = record {
  type = set;
  start = [];
  idx = λ d. d.set_idx;
  put = with_sets;
  apply = apply_entry;
  idx-put = λ d x. refl;
  idx-OnlyFiles = λ d d' o. o.set_idx;
  idx-ticked = λ d n. refl;
  idx-dated = λ d m. refl;
  put-Filed = λ d x log f. record {
    logged = f.logged;
    succeeds = f.succeeds;
    keys = f.keys;
    values = f.values;
    times = f.times;
  };
  clear_index_lem = clear_index-apply;
}

-- The set index of the database is what the entries in its set files replay to.
abbrev pub SetJournaled : LightDb → Type 0
SetJournaled = Journaled set_part

-- A member that is added again leaves the sets as they are.
pub s_add-member :
    (r : Sets) (key member : Str) → s_is_member r key member ≡ true → (s_add r key member).0 ≡ r
unfolding s_add s_is_member s_key_exist insert
s_add-member r key member h =
    let there : has r key ≡ true = ground (arith, h) in
    let kept : insert (members r key) member 1 ≡ members r key = ground (arith, h) in
    rw (there, kept) (assign_same r key [] there)

-- An expiry entry whose deadline is not over at any reading of the clock.
abbrev pub Alive : (ℕ → ℕ) → Entry → Type 0
Alive clock e = get_mark e ≡ mark_code set_s_expire → (n : ℕ) → clock n ≤ e.time_stamp

abbrev Built : Entry → LightDb → LightDb → Sets → Type 0
Built e d d' r = Same d d' × (d'.set_idx ≡ r)

load_expiry-Alive :
    (e : Entry) (d : LightDb)
    → d.clock d.ticks ≤ e.time_stamp
    → Built e d (load_expiry set e d) d.set_idx
unfolding load_expiry current_time_stamp
load_expiry-Alive e d h =
    let later : ltb e.time_stamp (d.clock d.ticks) ≡ false = ground (arith, h) in
    rw later (record { config = refl; clock = refl; outcomes = refl }, refl)

pub build_set_index-Built :
    (e : Entry) (d : LightDb)
    → Alive d.clock e
    → Built e d (build_set_index e d) (apply_entry d.set_idx e)
unfolding build_set_index apply_entry
build_set_index-Built e d alive = elim (Bool-cases (get_mark e == 18)) [
  | inl add ↦ rw add (record { config = refl; clock = refl; outcomes = refl }, refl)
  | inr n18 ↦ elim (Bool-cases (get_mark e == 19)) [
    | inl rem ↦ rw (n18, rem) (record { config = refl; clock = refl; outcomes = refl }, refl)
    | inr n19 ↦ elim (Bool-cases (get_mark e == 20)) [
      | inl move ↦
          rw (n18, n19, move) (record { config = refl; clock = refl; outcomes = refl }, refl)
      | inr n20 ↦ elim (Bool-cases (get_mark e == 21)) [
        | inl clear ↦
            rw (n18, n19, n20, clear)
              (record { config = refl; clock = refl; outcomes = refl }, refl)
        | inr n21 ↦ elim (Bool-cases (get_mark e == 22)) [
          | inl expire ↦
              rw (n18, n19, n20, n21, expire)
                (load_expiry-Alive e d (alive (ground (arith, expire)) d.ticks))
          | inr n22 ↦
              rw (n18, n19, n20, n21, n22)
                (record { config = refl; clock = refl; outcomes = refl }, refl)
        ]
      ]
    ]
  ]
]

pub apply_entry-read_back : (r : Sets) (e : Entry) → apply_entry r (read_back e) ≡ apply_entry r e
unfolding apply_entry get_mark
apply_entry-read_back r e = refl

pub Alive-read_back : (clock : ℕ → ℕ) (e : Entry) → Alive clock e → Alive clock (read_back e)
unfolding get_mark
Alive-read_back clock e h = h

abbrev pub set_rebuilds : Rebuilds set_part
set_rebuilds = record {
  build = build_set_index;
  Alive = Alive;
  build_lem = build_set_index-Built;
  apply-read_back = apply_entry-read_back;
  Alive-read_back = Alive-read_back;
  idx-outcomes = λ d os. refl;
  idx-reopened = λ d clock os. refl;
}
