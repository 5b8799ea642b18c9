-- ===== src/Raft/AppendLaws.antt =====
-- raft/raft.h: what `AppendEntries` does to a follower's log.
use lightdb.Common.Int.{int_laws, ℤ, eq_ℤ, eq_ℤ_iff, pos, ◌+ℤ◌, ◌-ℤ◌, ltb_ℤ}
use lightdb.Common.{
  if-true, if-false, none, some, List, ◌≡◌, refl, Bool-cases, inl, inr, some, arith, ap, sym, ◌∙◌,
  Option, true, false,
}
use mathlib.Core.Path.{subst, transport}
use mathlib.Core.Option.{some-injective}
use lightdb.Raft.Apply.{Keeps, Keeps-refl, apply_logs-Keeps}
use lightdb.Raft.State.{
  RaftPersist, LogEntry, Raft, AppendEntriesReply, AppendEntriesArgs, step_down_to_follower,
  persist, get_last_index,
}
use lightdb.Raft.Append.{
  end_append, take_entries, match_previous, check_term, term_before, append_at, update_commit,
  check_entries, heard_from, append_entries, follow_offset,
}
use lightdb.Raft.Splice.{Follows, spliced-Follows}

update_commit-Keeps : (r r' : Raft) (c : ℤ) → update_commit r c ≡ some r' → Keeps r r'
unfolding update_commit
update_commit-Keeps r r' c h = elim (Bool-cases (ltb_ℤ r.commit_index c)) [
  | inl more ↦
      let kept = apply_logs-Keeps _ r' (sym (if-true _ _ _ more) ∙ h) in
      record {
        logs = kept.logs;
        disk = kept.disk;
        match_index = kept.match_index;
        me = kept.me;
        state = kept.state;
        current_term = kept.current_term;
        vote_count = kept.vote_count;
      }
  | inr same ↦ subst (Keeps r) (some-injective r r' (sym (if-false _ _ _ same) ∙ h)) (Keeps-refl r)
]

end_append-some :
    (o : Option Raft) (r' : Raft) (reply : AppendEntriesReply)
    → end_append o ≡ some (r', reply)
    → o ≡ some r'
unfolding end_append
end_append-some none r' reply h = absurd (ground (arith, h))
end_append-some (some r) r' reply h = ap (λ p. some (p.0)) (some-injective _ _ h)

take_entries-Follows :
    (r : Raft) (args : AppendEntriesArgs) (o : Option (List LogEntry)) (r' : Raft)
    (reply : AppendEntriesReply)
    → take_entries r args o ≡ some (r', reply)
    → (o ≡ some r'.logs) × (r'.disk ≡ r.disk)
unfolding take_entries
take_entries-Follows r args none r' reply h = absurd (ground (arith, h))
take_entries-Follows r args (some logs) r' reply h =
    let kept =
      update_commit-Keeps (record r { logs = logs; leader_id = args.leader_id }) r'
        (args.leader_commit +ℤ (args.first_offset -ℤ r.first_offset))
        (end_append-some _ r' reply h) in
    (ap (λ l. some l) (sym kept.logs), kept.disk)

not_accepted :
    (r : Raft) (refused : AppendEntriesReply) (r' : Raft) (reply : AppendEntriesReply)
    → ◌≡◌ {A = Option (Raft × AppendEntriesReply)} (some (r, refused)) (some (r', reply))
    → refused.success ≡ false
    → reply.success ≡ true
    → ⊥
not_accepted r refused r' reply h no_success ok =
    let same : refused.success ≡ reply.success = ap (λ p. p.1.success) (some-injective _ _ h) in
    ground (arith, same, no_success, ok)

-- What an accepted append has done to a log that begins at an offset.
abbrev pub AppendedTo : AppendEntriesArgs → List LogEntry → ℤ → RaftPersist → Raft → Type 0
AppendedTo args logs offset disk r' =
    Follows (args.prev_log_index +ℤ pos 1 +ℤ (args.first_offset -ℤ offset)) logs args.entries
      r'.logs
    × (r'.disk ≡ disk)

abbrev pub Appended : Raft → AppendEntriesArgs → Raft → Type 0
Appended r args r' = AppendedTo args r.logs r.first_offset r.disk r'

append_at-Appended :
    (r : Raft) (args : AppendEntriesArgs) (r' : Raft) (reply : AppendEntriesReply)
    → append_at r args ≡ some (r', reply)
    → Appended r args r'
unfolding append_at
append_at-Appended r args r' reply h =
    let (found, disk) = take_entries-Follows r args _ r' reply h in
    (spliced-Follows r.logs _ args.entries r'.logs found, disk)

match_previous-Appended :
    (r : Raft) (args : AppendEntriesArgs) (o : Option ℤ) (r' : Raft) (reply : AppendEntriesReply)
    → match_previous r args o ≡ some (r', reply)
    → reply.success ≡ true
    → (o ≡ some args.prev_log_term) × Appended r args r'
unfolding match_previous
match_previous-Appended r args none r' reply h ok = absurd (ground (arith, h))
match_previous-Appended r args (some t) r' reply h ok =
    elim (Bool-cases (eq_ℤ t args.prev_log_term)) [
      | inl same ↦ (
        ap (λ x. some x) ((eq_ℤ_iff t args.prev_log_term).0 same),
        append_at-Appended r args r' reply (sym (if-true _ _ _ same) ∙ h),
      )
      | inr other ↦
          absurd (not_accepted (persist r) _ r' reply (sym (if-false _ _ _ other) ∙ h) refl ok)
    ]

check_entries-Appended :
    (r : Raft) (args : AppendEntriesArgs) (r' : Raft) (reply : AppendEntriesReply)
    → check_entries r args ≡ some (r', reply)
    → reply.success ≡ true
    → (term_before r.logs args.prev_log_index ≡ some args.prev_log_term) × Appended r args r'
unfolding check_entries
check_entries-Appended r args r' reply h ok =
    elim (Bool-cases (ltb_ℤ (get_last_index r) args.prev_log_index)) [
      | inl short ↦ absurd (not_accepted r _ r' reply (sym (if-true _ _ _ short) ∙ h) refl ok)
      | inr long ↦ match_previous-Appended r args _ r' reply (sym (if-false _ _ _ long) ∙ h) ok
    ]

heard_from-keeps :
    (r : Raft) (args : AppendEntriesArgs)
    → ((heard_from r args).logs ≡ r.logs)
      × ((heard_from r args).disk ≡ r.disk)
      × ((heard_from r args).first_offset ≡ r.first_offset)
unfolding step_down_to_follower
heard_from-keeps r args = ground arith

check_term-Appended :
    (r : Raft) (args : AppendEntriesArgs) (r' : Raft) (reply : AppendEntriesReply)
    → check_term args (some r) ≡ some (r', reply)
    → reply.success ≡ true
    → (ltb_ℤ args.term r.current_term ≡ false)
      × (term_before r.logs args.prev_log_index ≡ some args.prev_log_term)
      × Appended r args r'
unfolding check_term
check_term-Appended r args r' reply h ok = elim (Bool-cases (ltb_ℤ args.term r.current_term)) [
  | inl stale ↦ absurd (not_accepted (persist r) _ r' reply (sym (if-true _ _ _ stale) ∙ h) refl ok)
  | inr recent ↦
      let (logs, disk, offset) = heard_from-keeps r args in
      let (before, done) =
        check_entries-Appended (heard_from r args) args r' reply (sym (if-false _ _ _ recent) ∙ h)
          ok in
      (
        recent,
        subst (λ l. term_before l args.prev_log_index ≡ some args.prev_log_term) logs before,
        transport (λ i. AppendedTo args (logs i) (offset i) (disk i) r') done,
      )
]

follow_offset-same :
    (r : Raft) (args : AppendEntriesArgs)
    → ltb_ℤ r.first_offset args.first_offset ≡ false
    → follow_offset r args ≡ some r
unfolding follow_offset
follow_offset-same r args h = if-false _ _ _ h

-- A follower that does not have to drop entries.
append_entries-AppendedTo :
    (r : Raft) (args : AppendEntriesArgs) (r' : Raft) (reply : AppendEntriesReply)
    → ltb_ℤ r.first_offset args.first_offset ≡ false
    → append_entries r args ≡ some (r', reply)
    → reply.success ≡ true
    → (ltb_ℤ args.term r.current_term ≡ false)
      × (term_before r.logs args.prev_log_index ≡ some args.prev_log_term)
      × Appended r args r'
unfolding append_entries
append_entries-AppendedTo r args r' reply same h ok =
    check_term-Appended r args r' reply
      (ap (λ o. check_term args o) (sym (follow_offset-same r args same)) ∙ h) ok

same_offset : (o i : ℤ) → i +ℤ pos 1 +ℤ (o -ℤ o) ≡ i +ℤ pos 1
same_offset o i = omega int_laws

-- A follower whose log begins at the leader's offset and that answers AppendEntries with success
-- had a term that is not newer than the request's and the leader's term before the new entries,
-- keeps its log up to there, then holds entries with exactly the request's terms in order, and
-- has not written that log to its file.
pub append_entries-Follows :
    (r : Raft) (args : AppendEntriesArgs) (r' : Raft) (reply : AppendEntriesReply)
    → args.first_offset ≡ r.first_offset
    → append_entries r args ≡ some (r', reply)
    → reply.success ≡ true
    → (ltb_ℤ args.term r.current_term ≡ false)
      × (term_before r.logs args.prev_log_index ≡ some args.prev_log_term)
      × Follows (args.prev_log_index +ℤ pos 1) r.logs args.entries r'.logs
      × (r'.disk ≡ r.disk)
append_entries-Follows r args r' reply same h ok =
    let (recent, before, (follows, disk)) =
      append_entries-AppendedTo r args r' reply (ground (arith, same)) h ok in
    (
      recent,
      before,
      subst (λ i. Follows i r.logs args.entries r'.logs)
          (ap (λ o. args.prev_log_index +ℤ pos 1 +ℤ (o -ℤ r.first_offset)) same
            ∙ same_offset r.first_offset args.prev_log_index)
          follows,
      disk,
    )
