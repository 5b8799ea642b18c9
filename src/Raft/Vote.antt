-- ===== src/Raft/Vote.antt =====
-- raft/raft.h: the election. `RequestVote` on the voter's side, `broadcastRequestVote` and
-- `sendRequestVote` on the candidate's.
use lightdb.Common.Int.{ℤ, pos, negsuc, ◌+ℤ◌, ltb_ℤ, leb_ℤ, eq_ℤ}
use lightdb.Common.{◌+◌, ◌/◌, Bool, true, false, not, ◌&&◌, ◌||◌, Option, none, some, if◌then◌else◌}
use lightdb.Raft.State.{
  Raft, candidate, is_state, persist, get_last_index, get_last_term, step_down_to_follower,
  RequestVoteArgs, RequestVoteReply, copy_args,
}

unfoldable pub is_log_up_to_date : Raft → ℤ → ℤ → Bool
unfolding eq_ℤ
is_log_up_to_date r c_last_index c_last_term =
    if eq_ℤ c_last_term (get_last_term r)
    then leb_ℤ (get_last_index r) c_last_index
    else ltb_ℤ (get_last_term r) c_last_term

-- The part of `RequestVote` that a newer term runs.
abbrev pub note_term : Raft → RequestVoteArgs → Raft
note_term r args =
    if ltb_ℤ r.current_term args.term
    then (record (step_down_to_follower (record r { leader_id = args.candidate_id }) args.term) {
      leader_out = true;
    })
    else r

abbrev pub may_vote : Raft → RequestVoteArgs → Bool
may_vote r args =
    (eq_ℤ r.voted_for (negsuc 0) || eq_ℤ r.voted_for args.candidate_id)
    && is_log_up_to_date r args.last_log_index args.last_log_term

unfoldable pub request_vote : Raft → RequestVoteArgs → Raft × RequestVoteReply
unfolding is_log_up_to_date step_down_to_follower persist eq_ℤ
request_vote r args =
    let r1 = note_term r args in
    if ltb_ℤ args.term r.current_term
    then (persist r, record { term = r.current_term; vote_granted = false })
    else if may_vote r1 args
    then (
      persist (record r1 { voted_for = args.candidate_id; re_elect = false }),
      record { term = r1.current_term; vote_granted = true },
    )
    else (persist r1, record { term = r1.current_term; vote_granted = false })

-- `getVoteCount() == peers.size() / 2 + 1`
abbrev pub has_majority : Raft → Bool
has_majority r = eq_ℤ r.vote_count (pos (r.peers / 2 + 1))

-- What a candidate does with the reply of one server; `none` is a call that failed.
unfoldable pub send_request_vote : Raft → RequestVoteArgs → Option RequestVoteReply → Raft × Bool
unfolding step_down_to_follower persist eq_ℤ
send_request_vote r args none = (r, false)
send_request_vote r args (some reply) =
    let r1 = record r { vote_count = r.vote_count +ℤ pos 1 } in
    if not (is_state r.state candidate)
      || (not (eq_ℤ args.term r.current_term) || ltb_ℤ reply.term r.current_term)
    then (r, false)
    else if ltb_ℤ r.current_term reply.term
    then (persist (step_down_to_follower r reply.term), false)
    else if reply.vote_granted
    then (if has_majority r1 then (record r1 { win_election = true }, true) else (r1, false))
    else (r, false)

-- The arguments that a candidate makes, and those that the thread of a request sends: the lambda
-- captures a copy.
unfoldable pub request_vote_args : Raft → RequestVoteArgs
request_vote_args r = record {
  term = r.current_term;
  candidate_id = pos r.me;
  last_log_index = get_last_index r;
  last_log_term = get_last_term r;
}

unfoldable pub sent_vote_args : Raft → RequestVoteArgs
unfolding request_vote_args copy_args
sent_vote_args r = copy_args (request_vote_args r)

-- The branch of `broadcastRequestVote` for the server itself.
unfoldable pub check_own_vote : Raft → Raft
unfolding eq_ℤ
check_own_vote r = if has_majority r then record r { win_election = true } else r
