-- ===== src/Raft/Lead.antt =====
-- raft/raft.h: the change of roles, `convertToLeader` and `convertToCandidate`, the broadcast of a
-- leader and one turn of the loop of `RunServer`. What a thread sends is returned as a list of
-- messages; a reply is a later step.
use lightdb.Common.Int.{pos, pos_part, ◌+ℤ◌, ◌-ℤ◌}
use lightdb.Common.{
  ℕ, zero, suc, ◌==◌, drop, get_elem?, Option, none, some, List, [], ◌∷◌, if◌then◌else◌, replicate,
  false, true,
}
use lightdb.Raft.State.{
  Raft, RaftState, leader, candidate, follower, is_state, persist, get_last_index,
  AppendEntriesArgs,
}
use lightdb.Raft.Append.{term_before}
use lightdb.Raft.Commit.{check_commit}

-- The arguments for a server. `none` is an access outside a vector.
unfoldable pub append_entries_args : Raft → ℕ → Option AppendEntriesArgs
unfolding term_before ◌+ℤ◌ ◌-ℤ◌
append_entries_args r server = elim (get_elem? r.next_index server) [
  | none ↦ none
  | some next ↦
      let prev = next -ℤ pos 1 in
      elim (term_before r.logs prev) [
        | none ↦ none
        | some term ↦ some (record {
          term = r.current_term;
          leader_id = pos r.me;
          prev_log_index = prev;
          prev_log_term = term;
          leader_commit = r.commit_index;
          first_offset = r.first_offset;
          entries = drop (pos_part (prev +ℤ pos 1)) r.logs;
        })
      ]
]

abbrev pub Messages : Type 0
Messages = List (ℕ × AppendEntriesArgs)

-- n more servers, from server i on.
unfoldable pub broadcast_loop : ℕ → ℕ → Raft → Option (Raft × Messages)
unfolding append_entries_args check_commit
broadcast_loop zero i r = some (r, [])
broadcast_loop (suc n) i r =
    if i == r.me
    then (elim (check_commit r) [ none ↦ none | some r' ↦ broadcast_loop n (suc i) r' ])
    else (elim (append_entries_args r i) [
      | none ↦ none
      | some args ↦ elim (broadcast_loop n (suc i) r) [
        | none ↦ none
        | some (r', ms) ↦ some (r', (i, args) ∷ ms)
      ]
    ])

unfoldable pub broadcast_append_entries : Raft → Option (Raft × Messages)
unfolding broadcast_loop
broadcast_append_entries r =
    if is_state r.state leader then broadcast_loop r.peers 0 r else some (r, [])

-- The assignments of `convertToLeader`.
unfoldable pub new_leader : Raft → Raft
unfolding ◌+ℤ◌
new_leader r = record r {
  state = leader;
  next_index = replicate r.peers (get_last_index r +ℤ pos 1);
  match_index = replicate r.peers (get_last_index r);
  leader_out = false;
}

unfoldable pub convert_to_leader : Raft → Option (Raft × Messages)
unfolding new_leader broadcast_append_entries
convert_to_leader r =
    if is_state r.state candidate then broadcast_append_entries (new_leader r) else some (r, [])

unfoldable pub convert_to_candidate : RaftState → Raft → Raft
unfolding persist ◌+ℤ◌
convert_to_candidate from_state r =
    if is_state r.state from_state
    then (persist (record r {
      state = candidate;
      current_term = r.current_term +ℤ pos 1;
      voted_for = pos r.me;
      vote_count = pos 1;
    }))
    else r

-- One turn of the loop, after its wait.
unfoldable pub run_server : Raft → Option (Raft × Messages)
unfolding broadcast_append_entries convert_to_leader convert_to_candidate
run_server r = elim r.state [
  | leader ↦ if r.leader_out then some (r, []) else broadcast_append_entries r
  | candidate ↦
      if r.win_election then convert_to_leader r else some (convert_to_candidate candidate r, [])
  | follower ↦
      if r.re_elect
      then some (convert_to_candidate follower r, [])
      else some (record r { re_elect = true }, [])
]
