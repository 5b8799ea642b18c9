-- ===== src/Raft/VoteLaws.antt =====
-- The voter grants one vote for each term, to a log that passes its test, and has it on disk.
use lightdb.Common.Int.{ℤ, pos, negsuc, ◌≤ℤ◌, ◌<ℤ◌, ◌+ℤ◌, ltb_ℤ, leb_ℤ, eq_ℤ, eq_ℤ_iff}
use lightdb.Common.{
  ◌+◌, ◌/◌, ◌≡◌, sym, ◌∙◌, ◌≢◌, refl, true, not, ◌&&◌, ◌||◌, Option, none, some, List, [], ◌∷◌,
  arith, if◌then◌else◌,
}
use lightdb.Raft.State.{
  Raft, persist, get_last_index, get_last_term, RequestVoteArgs, RequestVoteReply, candidate,
  is_state,
}
use lightdb.Raft.Vote.{
  is_log_up_to_date, request_vote, send_request_vote, request_vote_args, sent_vote_args,
}

-- What `persist` writes: the disk agrees with the state that must survive a restart.
pub record IsPersisted (r : Raft) : Type 0 where
  pub term : r.disk.current_term ≡ r.current_term
  pub vote : r.disk.voted_for ≡ r.voted_for
  pub offset : r.disk.first_offset ≡ r.first_offset
  pub log : r.disk.logs ≡ r.logs

pub persist-IsPersisted : (r : Raft) → IsPersisted (persist r)
unfolding persist
persist-IsPersisted r = record { term = refl; vote = refl; offset = refl; log = refl }

-- Every reply of `RequestVote` is sent from a state that is on disk.
pub request_vote-IsPersisted :
    (r : Raft) (args : RequestVoteArgs) → IsPersisted (request_vote r args).0
unfolding request_vote
request_vote-IsPersisted r args = ground arith

-- The term never falls, and the reply carries the term after the request.
pub request_vote_term :
    (r : Raft) (args : RequestVoteArgs)
    → (r.current_term ≤ℤ (request_vote r args).0.current_term)
      × ((request_vote r args).1.term ≡ (request_vote r args).0.current_term)
      × ((request_vote r args).0.logs ≡ r.logs)
unfolding request_vote
request_vote_term r args = (ground arith, ground arith, ground arith)

-- A vote is granted exactly to a candidate whose term is not older, whose log passes the test, and
-- for whom this server has voted in this term or can still vote.
request_vote_granted :
    (r : Raft) (args : RequestVoteArgs)
    → (request_vote r args).1.vote_granted ≡ (
        not (ltb_ℤ args.term r.current_term)
        && (is_log_up_to_date r args.last_log_index args.last_log_term
            && (ltb_ℤ r.current_term args.term
                || (eq_ℤ r.voted_for (negsuc 0) || eq_ℤ r.voted_for args.candidate_id))))
unfolding request_vote
request_vote_granted r args = ground arith

-- Once `a` has the vote of term `t`, the state is in a later term or still has that vote.
record HasVote (t a : ℤ) (r : Raft) : Type 0 where
  not_before : t ≤ℤ r.current_term
  kept : r.current_term ≡ t → r.voted_for ≡ a

request_vote-HasVote :
    (t a : ℤ) (r : Raft) (args : RequestVoteArgs)
    → a ≢ negsuc 0
    → HasVote t a r
    → HasVote t a (request_vote r args).0
unfolding request_vote eq_ℤ
request_vote-HasVote t a r args h c = record {
  not_before = ground (arith, c.not_before);
  kept = ground (
    arith,
    c.not_before,
    c.kept,
    eq_ℤ_iff r.voted_for args.candidate_id,
    eq_ℤ_iff r.voted_for (negsuc 0),
  );
}

granted-HasVote :
    (r : Raft) (args : RequestVoteArgs)
    → (request_vote r args).1.vote_granted ≡ true
    → HasVote (request_vote r args).1.term args.candidate_id (request_vote r args).0
unfolding request_vote
granted-HasVote r args g = record { not_before = ground arith; kept = ground arith }

HasVote-granted :
    (t a : ℤ) (r : Raft) (args : RequestVoteArgs)
    → a ≢ negsuc 0
    → HasVote t a r
    → (request_vote r args).1.vote_granted ≡ true
    → (request_vote r args).1.term ≡ t
    → args.candidate_id ≡ a
HasVote-granted t a r args h c g e =
    let same = (request_vote_term r args).1 in
    sym ((granted-HasVote r args g).kept (sym same))
    ∙ (request_vote-HasVote t a r args h c).kept (sym same ∙ e)

-- The voter's side of a run: the requests that reach it, in order.
unfoldable pub handle_all : Raft → List RequestVoteArgs → Raft
handle_all r [] = r
handle_all r (args ∷ rest) = handle_all (request_vote r args).0 rest

handle_all-HasVote :
    (t a : ℤ) (r : Raft) (msgs : List RequestVoteArgs)
    → a ≢ negsuc 0
    → HasVote t a r
    → HasVote t a (handle_all r msgs)
unfolding handle_all
handle_all-HasVote t a r [] h c = c
handle_all-HasVote t a r (args ∷ rest) h c =
    handle_all-HasVote t a (request_vote r args).0 rest h (request_vote-HasVote t a r args h c)

-- If a server that handles its requests one after another grants its vote to a candidate and,
-- after any further vote requests, grants a vote of the same term, it is to the same candidate
-- (candidate numbers are not -1).
pub one_vote_per_term :
    (r : Raft) (first second : RequestVoteArgs) (between : List RequestVoteArgs)
    → first.candidate_id ≢ negsuc 0
    → (request_vote r first).1.vote_granted ≡ true
    → (request_vote (handle_all (request_vote r first).0 between) second).1.vote_granted ≡ true
    → (request_vote (handle_all (request_vote r first).0 between) second).1.term
      ≡ (request_vote r first).1.term
    → second.candidate_id ≡ first.candidate_id
one_vote_per_term r first second between h g g' e =
    HasVote-granted (request_vote r first).1.term first.candidate_id
      (handle_all (request_vote r first).0 between) second h
      (handle_all-HasVote (request_vote r first).1.term first.candidate_id (request_vote r first).0
        between h (granted-HasVote r first g))
      g' e

-- The request that a candidate's thread sends carries the index of the last entry where its term
-- should be; the rest is as the candidate made it.
pub sent_vote_args_lem :
    (c : Raft)
    → ((sent_vote_args c).last_log_term ≡ get_last_index c)
      × ((sent_vote_args c).last_log_index ≡ get_last_index c)
      × ((sent_vote_args c).term ≡ c.current_term)
      × ((sent_vote_args c).candidate_id ≡ pos c.me)
unfolding sent_vote_args request_vote_args
sent_vote_args_lem c = (refl, refl, refl, refl)

stale_test :
    (last_term last_index i : ℤ)
    → last_term <ℤ i
    → (if eq_ℤ i last_term then leb_ℤ last_index i else ltb_ℤ last_term i) ≡ true
unfolding eq_ℤ
stale_test last_term last_index i h = ground arith

-- So a voter that can still vote in the candidate's term votes for it as soon as the candidate's
-- last index is greater than the voter's last term, whatever the candidate's last term is.
pub stale_candidate_granted :
    (r c : Raft)
    → r.current_term ≤ℤ c.current_term
    → r.voted_for ≡ negsuc 0
    → get_last_term r <ℤ get_last_index c
    → (request_vote r (sent_vote_args c)).1.vote_granted ≡ true
unfolding sent_vote_args request_vote_args is_log_up_to_date eq_ℤ
stale_candidate_granted r c h v l = ground (
  arith,
  request_vote_granted r (sent_vote_args c),
  stale_test (get_last_term r) (get_last_index r) (get_last_index c),
)

-- A reply adds a vote exactly if the server is still the candidate of the term that it asked in and
-- the vote was granted in that term.
pub send_request_vote_count :
    (r : Raft) (args : RequestVoteArgs) (reply : RequestVoteReply)
    → (send_request_vote r args (some reply)).0.vote_count ≡ (
        if is_state r.state candidate
          && (eq_ℤ args.term r.current_term
              && (eq_ℤ reply.term r.current_term && reply.vote_granted))
        then r.vote_count +ℤ pos 1
        else r.vote_count)
unfolding send_request_vote eq_ℤ
send_request_vote_count r args reply = ground arith

-- When `sendRequestVote` returns true, the votes are exactly one more than half of the servers,
-- rounded down, and `winElection` is set.
pub send_request_vote_win :
    (r : Raft) (args : RequestVoteArgs) (reply : Option RequestVoteReply)
    → (send_request_vote r args reply).1 ≡ true
    → ((send_request_vote r args reply).0.vote_count ≡ pos (r.peers / 2 + 1))
      × ((send_request_vote r args reply).0.win_election ≡ true)
unfolding send_request_vote
send_request_vote_win r args none h = cc
send_request_vote_win r args (some reply) h =
    (ground (arith, eq_ℤ_iff (r.vote_count +ℤ pos 1) (pos (r.peers / 2 + 1))), ground arith)
