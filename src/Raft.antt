-- ===== src/Raft.antt =====
-- raft/: one server of the consensus protocol.
pub mod State
pub mod Vote
pub mod Append
pub mod Commit
pub mod Lead
pub mod VoteLaws
pub mod Apply
pub mod Splice
pub mod AppendLaws
pub mod CommitLaws
pub mod LeadLaws
pub mod Access
pub mod Start
