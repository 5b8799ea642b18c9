-- ===== src/Raft/LeadLaws.antt =====
-- raft/raft.h: how a server becomes the leader, and what its first broadcast does.
use lightdb.Common.{Option, some, [], ◌≡◌, refl, arith}
use lightdb.Raft.State.{Raft, RequestVoteArgs}
use lightdb.Raft.Vote.{request_vote}
use lightdb.Raft.Lead.{new_leader}
use lightdb.Raft.Commit.{check_commit}
use lightdb.Raft.CommitLaws.{check_commit_drops_all}

-- A `CheckCommit` of a new leader, when it returns, removes every entry of its log.
pub new_leader_drops_log : (r r' : Raft) → check_commit (new_leader r) ≡ some r' → r'.logs ≡ []
unfolding new_leader
new_leader_drops_log r r' run = check_commit_drops_all r.peers (new_leader r) r' refl run

-- `RequestVote` leaves `winElection` as it is, also when it grants a vote to another candidate.
pub request_vote-win_election :
    (r : Raft) (args : RequestVoteArgs) → ((request_vote r args).0).win_election ≡ r.win_election
unfolding request_vote
request_vote-win_election r args = ground arith

-- The role of a server: its state, its term and its votes.
record Stays (r r' : Raft) : Type 0 where
  state : r'.state ≡ r.state
  current_term : r'.current_term ≡ r.current_term
  vote_count : r'.vote_count ≡ r.vote_count
