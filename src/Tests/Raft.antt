-- ===== src/Tests/Raft.antt =====
-- Runs of a server of raft/raft.h.
use lightdb.Common.Int.{ℤ, pos, negsuc, ltb_ℤ, eq_ℤ, ◌+ℤ◌, ◌-ℤ◌, at}
use lightdb.Common.{Option, none, map, ◌≡◌, refl, ◌⊎◌, codes, true, false, some, [], ◌∷◌, arith}
use lightdb.Raft.State.{
  Raft, RaftState, LogEntry, persist, RequestVoteArgs, RequestVoteReply, AppendEntriesArgs,
  AppendEntriesReply, apply_logs, step_down_to_follower,
}
use lightdb.Raft.Vote.{request_vote, sent_vote_args, is_log_up_to_date}
use lightdb.Raft.VoteLaws.{handle_all, one_vote_per_term, stale_candidate_granted}
use lightdb.Raft.Apply.{applied, new_count, first_new, apply_logs-applied}
use lightdb.Raft.Append.{append_entries, term_before}
use lightdb.Raft.AppendLaws.{append_entries-Follows}
use lightdb.Raft.Splice.{Follows}
use lightdb.Raft.Start.{start, c_str, start-request_vote}
use lightdb.Raft.Commit.{commit_loop, check_commit}
use lightdb.Raft.CommitLaws.{Commits, commit_loop-Commits}
use lightdb.Raft.Lead.{Messages, new_leader, run_server}
use lightdb.Raft.LeadLaws.{new_leader_drops_log}

abbrev entry : ℤ → LogEntry
entry t = record { term = t; command = codes "set"; conn_fd = pos 4 }

-- A follower of a cluster of three, in term 2, that has voted for nobody.
abbrev server : Raft
server = record {
  peers = 3;
  leader_id = pos 0;
  me = 1;
  current_term = pos 2;
  voted_for = negsuc 0;
  logs = entry (pos 1) ∷ entry (pos 2) ∷ [];
  commit_index = pos 0;
  last_applied = negsuc 0;
  first_offset = pos 0;
  next_index = pos 2 ∷ pos 2 ∷ pos 2 ∷ [];
  match_index = pos 1 ∷ pos 1 ∷ negsuc 0 ∷ [];
  state = RaftState.follower;
  vote_count = pos 0;
  leader_out = false;
  re_elect = true;
  win_election = true;
  apply_queue = [];
  replication_task_queue = [];
  disk = record { current_term = pos 2; voted_for = negsuc 0; first_offset = pos 0; logs = [] };
}

abbrev ask : ℤ → RequestVoteArgs
ask c = record { term = pos 3; candidate_id = c; last_log_index = pos 5; last_log_term = pos 2 }

one_vote_per_term_example : (ask (pos 2)).candidate_id ≡ pos 2
unfolding request_vote is_log_up_to_date eq_ℤ step_down_to_follower persist handle_all
one_vote_per_term_example =
    one_vote_per_term server (ask (pos 2)) (ask (pos 2)) (ask (pos 0) ∷ []) (λ h. ground (arith, h))
      refl refl refl

-- A candidate of the same term with a long log of old entries.
abbrev old_candidate : Raft
old_candidate = record server {
  me = 0;
  state = RaftState.candidate;
  logs = entry (pos 1) ∷ entry (pos 1) ∷ entry (pos 1) ∷ entry (pos 1) ∷ [];
}

stale_candidate_granted_example :
    (request_vote server (sent_vote_args old_candidate)).1.vote_granted ≡ true
stale_candidate_granted_example =
    stale_candidate_granted server old_candidate (omega arith) refl (omega arith)

abbrev running : Raft
running = record server { state = RaftState.candidate; vote_count = pos 1 }

abbrev granted : RequestVoteReply
granted = record { term = pos 2; vote_granted = true }

abbrev asked : RequestVoteArgs
asked = record { term = pos 2; candidate_id = pos 1; last_log_index = pos 1; last_log_term = pos 1 }

apply_logs-applied_example :
    apply_logs server ≡ some (applied (new_count server) (first_new server) server)
apply_logs-applied_example = apply_logs-applied server (omega arith) (omega arith) (omega arith)

abbrev more : AppendEntriesArgs
more = record {
  term = pos 3;
  leader_id = pos 0;
  prev_log_index = pos 0;
  prev_log_term = pos 1;
  leader_commit = pos 1;
  first_offset = pos 0;
  entries = entry (pos 3) ∷ entry (pos 3) ∷ [];
}

abbrev follower_after : Raft
follower_after = record server {
  current_term = pos 3;
  re_elect = false;
  logs = entry (pos 1) ∷ entry (pos 3) ∷ entry (pos 3) ∷ [];
  commit_index = pos 1;
  last_applied = pos 1;
  apply_queue = entry (pos 1) ∷ entry (pos 3) ∷ [];
}

abbrev taken : AppendEntriesReply
taken = record { term = pos 3; success = true; conflict_index = negsuc 0; conflict_term = negsuc 0 }

append_entries-Follows_example :
    (ltb_ℤ (pos 3) (pos 2) ≡ false)
    × (term_before server.logs (pos 0) ≡ some (pos 1))
    × Follows (pos 1) server.logs more.entries follower_after.logs
    × (follower_after.disk ≡ server.disk)
unfolding append_entries at ◌+ℤ◌
append_entries-Follows_example =
    append_entries-Follows server more follower_after taken refl refl refl

abbrev committed : Raft
committed = record server {
  commit_index = pos 1;
  last_applied = pos 1;
  apply_queue = entry (pos 1) ∷ entry (pos 2) ∷ [];
}

commit_loop-Commits_example : (server ≡ committed) ⊎ Commits server committed
unfolding commit_loop ◌-ℤ◌
commit_loop-Commits_example = commit_loop-Commits 1 server committed (omega arith) refl

-- The first check of the new leader commits both entries, and removes them from the log.
abbrev emptied : Raft
emptied = record server {
  state = RaftState.leader;
  logs = [];
  next_index = pos 0 ∷ pos 0 ∷ pos 0 ∷ [];
  match_index = negsuc 0 ∷ negsuc 0 ∷ negsuc 0 ∷ [];
  commit_index = negsuc 0;
  last_applied = negsuc 0;
  first_offset = pos 2;
  apply_queue = entry (pos 1) ∷ entry (pos 2) ∷ [];
  disk = record { current_term = pos 2; voted_for = negsuc 0; first_offset = pos 2; logs = [] };
}

new_leader_drops_log_example : emptied.logs ≡ []
unfolding new_leader check_commit
new_leader_drops_log_example = new_leader_drops_log server emptied refl

abbrev reached : Raft × Messages → Option (Raft × Messages) → Raft × Messages
reached start none = start
reached start (some end) = end

abbrev one_turn : Raft × Messages
one_turn = reached (server, []) (run_server server)

abbrev two_turns : Raft × Messages
two_turns = reached one_turn (run_server one_turn.0)

start-request_vote_example :
    let before = (request_vote server (ask (pos 2))).0 in
    let after = start before.peers before.me (some before.disk) in
    (after.current_term ≡ before.current_term)
    × (after.voted_for ≡ before.voted_for)
    × (after.first_offset ≡ before.first_offset)
    × (map (λ e. e.term) after.logs ≡ map (λ e. e.term) before.logs)
    × (map (λ e. e.command) after.logs ≡ map (λ e. c_str e.command) before.logs)
    × (map (λ e. e.conn_fd) after.logs ≡ map (λ e. negsuc 0) before.logs)
start-request_vote_example = start-request_vote server (ask (pos 2))
