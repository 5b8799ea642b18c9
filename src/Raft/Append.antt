-- ===== src/Raft/Append.antt =====
-- raft/raft.h: `AppendEntries`, a follower's handler. `none` is undefined behaviour: an index or an
-- iterator outside the log.
use lightdb.Common.Int.{ℤ, pos, negsuc, ◌+ℤ◌, ◌-ℤ◌, ltb_ℤ, leb_ℤ, eq_ℤ}
use lightdb.Common.{
  ℕ, zero, suc, ◌+◌, leb, length, take, drop, true, false, Option, none, some, List, [], ◌∷◌, ◌++◌,
  if◌then◌else◌, get_elem?,
}
use lightdb.Raft.State.{
  Raft, LogEntry, persist, get_last_index, step_down_to_follower, apply_logs, AppendEntriesArgs,
  AppendEntriesReply,
}

-- `v.erase(v.begin(), v.begin() + n)`
unfoldable pub erase_front : List LogEntry → ℤ → Option (List LogEntry)
erase_front logs (pos n) = if leb n (length logs) then some (drop n logs) else none
erase_front logs (negsuc n) = none

-- The first block: the leader has dropped entries that this server still holds.
unfoldable pub follow_offset : Raft → AppendEntriesArgs → Option Raft
unfolding erase_front ◌+ℤ◌ ◌-ℤ◌ persist
follow_offset r args =
    let behind = args.first_offset -ℤ r.first_offset in
    if ltb_ℤ r.first_offset args.first_offset
    then (if leb_ℤ behind (r.commit_index +ℤ pos 1)
        then (elim (erase_front r.logs behind) [
          | none ↦ none
          | some logs ↦ some (
              persist (record r {
                first_offset = args.first_offset;
                logs = logs;
                commit_index = r.commit_index -ℤ behind;
                last_applied = r.last_applied -ℤ behind;
              }))
        ])
        else some r)
    else some r

-- A newer term; then the timer of the election is put off.
abbrev pub heard_from : Raft → AppendEntriesArgs → Raft
heard_from r args =
    record (if ltb_ℤ r.current_term args.term
      then step_down_to_follower (record r { leader_id = args.leader_id }) args.term
      else r) { re_elect = false }

abbrev pub refusal : Raft → ℤ → ℤ → AppendEntriesReply
refusal r index term = record {
  term = r.current_term;
  success = false;
  conflict_index = index;
  conflict_term = term;
}

-- The loop over the entries of the conflicting term, from index i downwards; `index` is the
-- conflict index so far.
unfoldable pub term_run : List LogEntry → ℤ → ℕ → ℤ → ℤ
unfolding eq_ℤ
term_run logs term zero index = elim (get_elem? logs 0) [
  | none ↦ index
  | some e ↦ if eq_ℤ e.term term then pos 0 else index
]
term_run logs term (suc i) index =
    let rest = term_run logs term i (pos (suc i)) in
    elim (get_elem? logs (suc i)) [
      | none ↦ index
      | some e ↦ if eq_ℤ e.term term then rest else index
    ]

abbrev pub conflict_index_of : List LogEntry → ℤ → ℤ → ℤ
conflict_index_of logs term (pos i) = term_run logs term i (negsuc 0)
conflict_index_of logs term (negsuc i) = negsuc 0

-- The term before the new entries; -1 before the first entry.
unfoldable pub term_before : List LogEntry → ℤ → Option ℤ
term_before logs (negsuc zero) = some (negsuc 0)
term_before logs (negsuc (suc n)) = none
term_before logs (pos n) = elim (get_elem? logs n) [ none ↦ none | some e ↦ some e.term ]

-- The loop that walks over the entries that the log already has; it returns how many.
unfoldable pub matching : List LogEntry → List LogEntry → ℕ
unfolding eq_ℤ
matching [] entries = 0
matching (e ∷ es) [] = 0
matching (e ∷ es) (f ∷ fs) = let rest = matching es fs in if eq_ℤ e.term f.term then suc rest else 0

-- The truncation and the append at index `i`, which must lie in the log.
unfoldable pub spliced : List LogEntry → ℤ → List LogEntry → Option (List LogEntry)
unfolding matching
spliced logs (negsuc i) entries = none
spliced logs (pos i) entries =
    let j = matching (drop i logs) entries in
    if leb i (length logs) then some (take (i + j) logs ++ drop j entries) else none

-- The commit index follows the leader's, as far as the log goes.
unfoldable pub update_commit : Raft → ℤ → Option Raft
unfolding apply_logs
update_commit r c =
    let last = get_last_index r in
    if ltb_ℤ r.commit_index c
    then apply_logs (record r { commit_index = if ltb_ℤ c last then c else last })
    else some r

abbrev pub accepted : Raft → Option (Raft × AppendEntriesReply)
accepted r = some (
  r,
  record {
    term = r.current_term;
    success = true;
    conflict_index = negsuc 0;
    conflict_term = negsuc 0;
  },
)

-- The end of the handler: after the commit index, and after the log.
unfoldable pub end_append : Option Raft → Option (Raft × AppendEntriesReply)
end_append none = none
end_append (some r) = accepted r

unfoldable pub take_entries :
    Raft → AppendEntriesArgs → Option (List LogEntry) → Option (Raft × AppendEntriesReply)
unfolding end_append update_commit ◌+ℤ◌ ◌-ℤ◌
take_entries r args none = none
take_entries r args (some logs) = end_append (
    update_commit (record r { logs = logs; leader_id = args.leader_id })
      (args.leader_commit +ℤ (args.first_offset -ℤ r.first_offset)))

unfoldable pub append_at : Raft → AppendEntriesArgs → Option (Raft × AppendEntriesReply)
unfolding spliced take_entries ◌+ℤ◌ ◌-ℤ◌
append_at r args =
    let behind = args.first_offset -ℤ r.first_offset in
    take_entries r args (spliced r.logs (args.prev_log_index +ℤ pos 1 +ℤ behind) args.entries)

-- The consistency checks. The first refusal is not persisted.
unfoldable pub match_previous :
    Raft → AppendEntriesArgs → Option ℤ → Option (Raft × AppendEntriesReply)
unfolding append_at term_run persist eq_ℤ
match_previous r args none = none
match_previous r args (some cf_term) =
    if eq_ℤ cf_term args.prev_log_term
    then append_at r args
    else some (persist r, refusal r (conflict_index_of r.logs cf_term args.prev_log_index) cf_term)

unfoldable pub check_entries : Raft → AppendEntriesArgs → Option (Raft × AppendEntriesReply)
unfolding match_previous term_before ◌+ℤ◌
check_entries r args =
    if ltb_ℤ (get_last_index r) args.prev_log_index
    then some (r, refusal r (get_last_index r +ℤ pos 1) (negsuc 0))
    else match_previous r args (term_before r.logs args.prev_log_index)

unfoldable pub check_term : AppendEntriesArgs → Option Raft → Option (Raft × AppendEntriesReply)
unfolding check_entries persist step_down_to_follower
check_term args none = none
check_term args (some r) =
    if ltb_ℤ args.term r.current_term
    then some (persist r, refusal r (negsuc 0) (negsuc 0))
    else check_entries (heard_from r args) args

unfoldable pub append_entries : Raft → AppendEntriesArgs → Option (Raft × AppendEntriesReply)
unfolding follow_offset check_term
append_entries r args = check_term args (follow_offset r args)
