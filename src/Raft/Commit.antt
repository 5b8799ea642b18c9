-- ===== src/Raft/Commit.antt =====
-- raft/raft.h: what a leader does with the replies, `sendAppendEntries` and `CheckCommit`, and
-- `AddLog`. `none` is an access outside a vector. `nextIndex` and `matchIndex` have one element for
-- each server.
use lightdb.Common.Int.{ℤ, pos, negsuc, pos_part, ◌+ℤ◌, ◌-ℤ◌, at, ltb_ℤ, leb_ℤ, eq_ℤ}
use lightdb.Common.{
  ℕ, zero, suc, ◌/◌, ltb, ◌==◌, length, drop, get_elem?, Bool, true, false, not, ◌&&◌, ◌||◌, Option,
  none, some, List, [], ◌∷◌, ◌++◌, if◌then◌else◌, Str, map,
}
use lightdb.Raft.State.{
  Raft, LogEntry, leader, is_state, persist, get_last_index, step_down_to_follower, apply_logs,
  AppendEntriesArgs, AppendEntriesReply,
}

-- `v[i] = x`
unfoldable pub store_at : List ℤ → ℕ → ℤ → Option (List ℤ)
store_at [] i x = none
store_at (y ∷ ys) zero x = some (x ∷ ys)
store_at (y ∷ ys) (suc i) x = elim (store_at ys i x) [ none ↦ none | some zs ↦ some (y ∷ zs) ]

-- The two assignments of each branch: the next index and the match index of a server.
unfoldable pub store_indices : Raft → ℕ → ℤ → ℤ → Option Raft
unfolding store_at
store_indices r server next matched = elim (store_at r.next_index server next) [
  | none ↦ none
  | some ns ↦ elim (store_at r.match_index server matched) [
    | none ↦ none
    | some ms ↦ some (record r { next_index = ns; match_index = ms })
  ]
]

-- The loop from the last of n entries down to one of the term; -1 when there is none.
unfoldable pub find_last : List LogEntry → ℤ → ℕ → ℤ
unfolding eq_ℤ
find_last logs term zero = negsuc 0
find_last logs term (suc n) =
    let rest = find_last logs term n in
    elim (get_elem? logs n) [ none ↦ rest | some e ↦ if eq_ℤ e.term term then pos n else rest ]

-- The next index after a refusal with a conflicting term.
abbrev pub next_after_conflict : ℤ → ℤ → ℤ
next_after_conflict found conflict_index = if ltb_ℤ found (pos 0) then conflict_index else found

unfoldable pub update_indices : Raft → ℕ → AppendEntriesArgs → AppendEntriesReply → Option Raft
unfolding store_indices find_last ◌+ℤ◌ ◌-ℤ◌
update_indices r server args reply =
    let new_match = args.prev_log_index +ℤ pos (length args.entries) in
    if reply.success
    then (elim (get_elem? r.match_index server) [
      | none ↦ none
      | some m ↦
          let m' = if ltb_ℤ m new_match then new_match else m in
          store_indices r server (m' +ℤ pos 1) m'
    ])
    else if ltb_ℤ reply.conflict_term (pos 0)
    then store_indices r server reply.conflict_index (reply.conflict_index -ℤ pos 1)
    else (let next =
          next_after_conflict (find_last r.logs reply.conflict_term (length r.logs))
            reply.conflict_index in
        store_indices r server next (next -ℤ pos 1))

-- The servers other than `me`, from server i on, whose match index is at least n.
unfoldable pub count_matched : ℕ → ℕ → ℤ → List ℤ → ℕ
count_matched me i n [] = 0
count_matched me i n (m ∷ ms) =
    let rest = count_matched me (suc i) n ms in
    if not (i == me) && leb_ℤ n m then suc rest else rest

-- `count` at the test of the majority.
unfoldable pub votes_for : Raft → ℤ → LogEntry → ℕ
unfolding count_matched eq_ℤ
votes_for r n e =
    if eq_ℤ e.term r.current_term then suc (count_matched r.me 0 n r.match_index) else 1

-- The first loop of `CheckCommit`, from the k-th index after the commit index downwards.
unfoldable pub commit_loop : ℕ → Raft → Option Raft
unfolding votes_for apply_logs at ◌+ℤ◌
commit_loop zero r = some r
commit_loop (suc k) r =
    let rest = commit_loop k r in
    let n = r.commit_index +ℤ pos (suc k) in
    elim (at r.logs n) [
      | none ↦ none
      | some e ↦
          if ltb (r.peers / 2) (votes_for r n e)
          then apply_logs (record r { commit_index = n })
          else rest
    ]

-- `allMatched`
unfoldable pub all_matched : ℕ → ℕ → ℤ → List ℤ → Bool
all_matched me i n [] = true
all_matched me i n (m ∷ ms) =
    let rest = all_matched me (suc i) n ms in if not (i == me) && ltb_ℤ m n then false else rest

-- The removal of the first k entries.
unfoldable pub truncate : Raft → ℕ → Raft
unfolding ◌+ℤ◌ ◌-ℤ◌
truncate r k = record r {
  logs = drop k r.logs;
  next_index = map (λ i. i -ℤ pos k) r.next_index;
  match_index = map (λ i. i -ℤ pos k) r.match_index;
  commit_index = r.commit_index -ℤ pos k;
  last_applied = r.last_applied -ℤ pos k;
  first_offset = r.first_offset +ℤ pos k;
}

-- The second loop, from the last of n entries downwards.
unfoldable pub truncate_loop : ℕ → Raft → Raft
unfolding all_matched truncate
truncate_loop zero r = r
truncate_loop (suc n) r =
    let rest = truncate_loop n r in
    if all_matched r.me 0 (pos n) r.match_index then truncate r (suc n) else rest

unfoldable pub end_check : Option Raft → Option Raft
unfolding truncate_loop persist
end_check none = none
end_check (some r) = some (persist (truncate_loop (length r.logs) r))

unfoldable pub check_commit : Raft → Option Raft
unfolding commit_loop end_check ◌-ℤ◌
check_commit r = end_check (commit_loop (pos_part (get_last_index r -ℤ r.commit_index)) r)

-- What the leader does with the reply of one server; `none` of the reply is a call that failed.
unfoldable pub send_append_entries :
    Raft → ℕ → AppendEntriesArgs → Option AppendEntriesReply → Option Raft
unfolding update_indices check_commit persist step_down_to_follower eq_ℤ
send_append_entries r server args none = some r
send_append_entries r server args (some reply) =
    if not (is_state r.state leader)
      || (not (eq_ℤ args.term r.current_term) || ltb_ℤ reply.term r.current_term)
    then some (persist r)
    else if ltb_ℤ r.current_term reply.term
    then some (persist (step_down_to_follower r reply.term))
    else (elim (update_indices r server args reply) [ none ↦ none | some r' ↦ check_commit r' ])

unfoldable pub add_log : Raft → Str → ℤ → Raft
add_log r command conn_fd =
    let e : LogEntry = record { term = r.current_term; command = command; conn_fd = conn_fd } in
    let queue : List ℤ = elim r.replication_task_queue [ [] ↦ pos 1 ∷ [] | q ∷ qs ↦ q ∷ qs ] in
    record r { logs = r.logs ++ e ∷ []; replication_task_queue = queue }
