-- ===== src/Raft/Access.antt =====
-- raft/raft.h: the methods that read and write one shared variable under the mutex, and the
-- addresses of other servers.
use lightdb.Common.Int.{ℤ}
use lightdb.Common.{Bool}
use lightdb.Raft.State.{Raft, RaftState}

abbrev pub get_state : Raft → RaftState
get_state r = r.state

abbrev pub get_cur_term : Raft → ℤ
get_cur_term r = r.current_term

abbrev pub set_cur_term : Raft → ℤ → Raft
set_cur_term r term = record r { current_term = term }

abbrev pub get_cur_state : Raft → RaftState
get_cur_state r = r.state

abbrev pub set_cur_state : Raft → RaftState → Raft
set_cur_state r state = record r { state = state }

abbrev pub get_vote_count : Raft → ℤ
get_vote_count r = r.vote_count

abbrev pub set_vote_count : Raft → ℤ → Raft
set_vote_count r vote_count = record r { vote_count = vote_count }

abbrev pub get_voted_for : Raft → ℤ
get_voted_for r = r.voted_for

abbrev pub set_voted_for : Raft → ℤ → Raft
set_voted_for r voted_for = record r { voted_for = voted_for }

abbrev pub get_commit_index : Raft → ℤ
get_commit_index r = r.commit_index

abbrev pub set_commit_index : Raft → ℤ → Raft
set_commit_index r commit_index = record r { commit_index = commit_index }

abbrev pub get_last_applied : Raft → ℤ
get_last_applied r = r.last_applied

abbrev pub set_last_applied : Raft → ℤ → Raft
set_last_applied r last_applied = record r { last_applied = last_applied }

abbrev pub get_reelect : Raft → Bool
get_reelect r = r.re_elect

abbrev pub set_reelect : Raft → Bool → Raft
set_reelect r re_elect = record r { re_elect = re_elect }

abbrev pub get_leader_out : Raft → Bool
get_leader_out r = r.leader_out

abbrev pub set_leader_out : Raft → Bool → Raft
set_leader_out r leader_out = record r { leader_out = leader_out }
