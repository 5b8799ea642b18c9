-- ===== src/Raft/Start.antt =====
-- raft/raft.h: the constructor of `Raft`, `InitialRaftPersist` and `readPersist`. The number of
-- servers and the own number come from the configuration file, which is not read here. `disk`
-- is what was given to the encoder; the JSON text itself is that of a third-party library, which is
-- taken to read back the numbers, strings and arrays that it printed.
use lightdb.Common.Int.{pos, negsuc}
use lightdb.Common.{
  Str, List, ◌∷◌, map, ap, ◌∙◌, ◌==◌, if◌then◌else◌, ℕ, false, true, replicate, Option, none, some,
  [], ◌≡◌, refl,
}
use lightdb.Raft.State.{Raft, LogEntry, RaftPersist, follower, persist, RequestVoteArgs}
use lightdb.Raft.Access.{
  set_cur_state, set_cur_term, set_voted_for, set_vote_count, set_commit_index, set_last_applied,
}
use lightdb.Raft.Vote.{request_vote}
use lightdb.Raft.VoteLaws.{request_vote-IsPersisted}

-- The state before the body of the constructor runs.
abbrev pub fresh : ℕ → ℕ → Raft
fresh peers me = record {
  peers = peers;
  leader_id = pos 0;
  me = me;
  current_term = pos 0;
  voted_for = pos 0;
  logs = [];
  commit_index = pos 0;
  last_applied = pos 0;
  first_offset = pos 0;
  next_index = [];
  match_index = [];
  state = follower;
  vote_count = pos 0;
  leader_out = false;
  re_elect = true;
  win_election = false;
  apply_queue = [];
  replication_task_queue = [];
  disk = record { current_term = pos 0; voted_for = pos 0; first_offset = pos 0; logs = [] };
}

-- `none` is a missing file.
unfoldable pub initial_raft_persist : Option RaftPersist → Raft → Raft
unfolding persist
initial_raft_persist none r = persist r
initial_raft_persist (some file) r = record r { disk = file }

-- `c_str()`: a command ends at its first zero byte.
abbrev pub c_str : Str → Str
c_str [] = []
c_str (c ∷ cs) = if c == 0 then [] else c ∷ c_str cs

-- `encode` and then `decode` of a log entry, which leave out the connection.
unfoldable pub decoded_entry : LogEntry → LogEntry
decoded_entry e = record { term = e.term; command = c_str e.command; conn_fd = negsuc 0 }

-- The decoded entries are put behind those that `raftPersist` holds, which are none.
unfoldable pub read_persist : Raft → Raft
unfolding decoded_entry
read_persist r = record (set_voted_for (set_cur_term r r.disk.current_term) r.disk.voted_for) {
  first_offset = r.disk.first_offset;
  logs = map decoded_entry r.disk.logs;
}

-- The assignments of the constructor before it touches the file.
abbrev pub initialize : Raft → Raft
initialize r =
    record (set_last_applied
      (set_commit_index
        (set_vote_count (set_voted_for (set_cur_term (set_cur_state r follower) (pos 0)) (negsuc 0))
          (pos 0))
        (negsuc 0))
      (negsuc 0)) { first_offset = pos 0 }

unfoldable pub start : ℕ → ℕ → Option RaftPersist → Raft
unfolding initial_raft_persist read_persist
start peers me file =
    record (read_persist (initial_raft_persist file (initialize (fresh peers me)))) {
      next_index = replicate peers (pos 0);
      match_index = replicate peers (negsuc 0);
    }

decoded-terms :
    (es : List LogEntry) → map (λ e. e.term) (map decoded_entry es) ≡ map (λ e. e.term) es
unfolding decoded_entry
decoded-terms [] = refl
decoded-terms (e ∷ es) = ap (λ ts. e.term ∷ ts) (decoded-terms es)

decoded-commands :
    (es : List LogEntry)
    → map (λ e. e.command) (map decoded_entry es) ≡ map (λ e. c_str e.command) es
unfolding decoded_entry
decoded-commands [] = refl
decoded-commands (e ∷ es) = ap (λ cs. c_str e.command ∷ cs) (decoded-commands es)

decoded-connections :
    (es : List LogEntry) → map (λ e. e.conn_fd) (map decoded_entry es) ≡ map (λ e. negsuc 0) es
unfolding decoded_entry
decoded-connections [] = refl
decoded-connections (e ∷ es) = ap (λ cs. negsuc 0 ∷ cs) (decoded-connections es)

-- A server that restarts from its file after a vote request has the term, the vote and the
-- offset it had when it answered, and for each log entry the term and the command up to its
-- first zero byte; no entry keeps its connection.
pub start-request_vote :
    (r : Raft) (args : RequestVoteArgs)
    → let before = (request_vote r args).0 in
      let after = start before.peers before.me (some before.disk) in
      (after.current_term ≡ before.current_term)
      × (after.voted_for ≡ before.voted_for)
      × (after.first_offset ≡ before.first_offset)
      × (map (λ e. e.term) after.logs ≡ map (λ e. e.term) before.logs)
      × (map (λ e. e.command) after.logs ≡ map (λ e. c_str e.command) before.logs)
      × (map (λ e. e.conn_fd) after.logs ≡ map (λ e. negsuc 0) before.logs)
unfolding start
start-request_vote r args =
    let p = request_vote-IsPersisted r args in
    let before = (request_vote r args).0.logs in
    let loaded = ap (map decoded_entry) p.log in
    (
      p.term,
      p.vote,
      p.offset,
      ap (map (λ e. e.term)) loaded ∙ decoded-terms before,
      ap (map (λ e. e.command)) loaded ∙ decoded-commands before,
      ap (map (λ e. e.conn_fd)) loaded ∙ decoded-connections before,
    )
