-- ===== src/Raft/State.antt =====
-- raft/raft.h, the class `Raft`, and raft/raftDataStructures.h: the state of a server, its
-- persistent part and the messages. An `int` is a ℤ. The condition variables only wake threads and
-- are left out; a handler is one step, as if no other
-- thread ran meanwhile: the source locks only in the methods that read and write one variable.
use lightdb.Common.Int.{ℤ, pos, negsuc, pos_part, ◌+ℤ◌, ◌-ℤ◌, at}
use lightdb.Common.{
  ℕ, zero, suc, Str, length, Bool, true, false, Option, none, some, List, [], ◌∷◌, ◌++◌,
}

pub data RaftState : Type 0 where
  leader candidate follower : RaftState

abbrev pub is_state : RaftState → RaftState → Bool
is_state leader leader = true
is_state candidate candidate = true
is_state follower follower = true
is_state _ _ = false

pub record LogEntry : Type 0 where
  pub term : ℤ
  pub command : Str
  pub conn_fd : ℤ

pub record RaftPersist : Type 0 where
  pub current_term : ℤ
  pub voted_for : ℤ
  pub first_offset : ℤ
  pub logs : List LogEntry

-- `peers` is the number of servers. `disk` is what `persist` wrote last.
pub record Raft : Type 0 where
  pub peers : ℕ
  pub leader_id : ℤ
  pub me : ℕ
  pub current_term : ℤ
  pub voted_for : ℤ
  pub logs : List LogEntry
  pub commit_index : ℤ
  pub last_applied : ℤ
  pub first_offset : ℤ
  pub next_index : List ℤ
  pub match_index : List ℤ
  pub state : RaftState
  pub vote_count : ℤ
  pub leader_out : Bool
  pub re_elect : Bool
  pub win_election : Bool
  pub apply_queue : List LogEntry
  pub replication_task_queue : List ℤ
  pub disk : RaftPersist

unfoldable pub persist : Raft → Raft
persist r = record r {
  disk = record {
    current_term = r.current_term;
    voted_for = r.voted_for;
    first_offset = r.first_offset;
    logs = r.logs;
  };
}

-- -1 of an empty log
abbrev pub last_index_of : List LogEntry → ℤ
last_index_of [] = negsuc 0
last_index_of (e ∷ es) = pos (length es)

abbrev pub get_last_index : Raft → ℤ
get_last_index r = last_index_of r.logs

abbrev pub last_term_from : LogEntry → List LogEntry → ℤ
last_term_from e [] = e.term
last_term_from e (e' ∷ es) = last_term_from e' es

abbrev pub get_last_term : Raft → ℤ
get_last_term r = elim r.logs [ [] ↦ negsuc 0 | e ∷ es ↦ last_term_from e es ]

unfoldable pub step_down_to_follower : Raft → ℤ → Raft
step_down_to_follower r term = record r {
  state = follower;
  current_term = term;
  voted_for = negsuc 0;
}

-- The loop of `ApplyLogs` from index `i`, n times. `none` is an access outside the log.
unfoldable pub apply_loop : ℕ → ℤ → Raft → Option Raft
apply_loop zero i r = some r
apply_loop (suc n) i r = elim (at r.logs i) [
  | none ↦ none
  | some e ↦
      apply_loop n (i +ℤ pos 1)
        (record r { apply_queue = r.apply_queue ++ e ∷ []; last_applied = i })
]

unfoldable pub apply_logs : Raft → Option Raft
unfolding apply_loop
apply_logs r = apply_loop (pos_part (r.commit_index -ℤ r.last_applied)) (r.last_applied +ℤ pos 1) r

pub record RequestVoteArgs : Type 0 where
  pub term : ℤ
  pub candidate_id : ℤ
  pub last_log_index : ℤ
  pub last_log_term : ℤ

-- The copy constructor of `requestVoteArgs`, as it is written.
unfoldable pub copy_args : RequestVoteArgs → RequestVoteArgs
copy_args req = record {
  term = req.term;
  candidate_id = req.candidate_id;
  last_log_index = req.last_log_index;
  last_log_term = req.last_log_index;
}

pub record RequestVoteReply : Type 0 where
  pub term : ℤ
  pub vote_granted : Bool

pub record AppendEntriesArgs : Type 0 where
  pub term : ℤ
  pub leader_id : ℤ
  pub prev_log_index : ℤ
  pub prev_log_term : ℤ
  pub leader_commit : ℤ
  pub first_offset : ℤ
  pub entries : List LogEntry

pub record AppendEntriesReply : Type 0 where
  pub term : ℤ
  pub success : Bool
  pub conflict_index : ℤ
  pub conflict_term : ℤ
