-- ===== src/Raft/CommitLaws.antt =====
-- raft/raft.h: what `CheckCommit` commits and what it removes.
use lightdb.Common.Int.{ℤ, pos, ◌+ℤ◌, ◌≤ℤ◌, leb_ℤ, at, eq_ℤ, eq_ℤ_iff}
use mathlib.Core.Option.{some-injective}
use lightdb.Common.{
  ◌==◌, not, ◌&&◌, ◌≢◌, get_elem?, if-true, if-false, zero, none, some, suc, ℕ, zero, suc, ◌/◌, ◌≤◌,
  ◌<◌, ltb, true, none, some, ◌≡◌, refl, sym, ap, ◌∙◌, ◌⊎◌, inl, inr, arith, Bool-cases,
  Option-cases, if◌then◌else◌, List, replicate, Option, drop, length, [], ◌∷◌,
}
use lightdb.Raft.Apply.{Keeps, Keeps-refl, apply_logs-Keeps}
use mathlib.Core.Path.{subst}
use lightdb.Raft.State.{last_index_of, Raft, LogEntry, apply_logs, persist, get_last_index}
use lightdb.Raft.Commit.{
  end_check, count_matched, votes_for, commit_loop, check_commit, all_matched, truncate_loop,
  truncate,
}

-- Servers in ascending order from a number on, none of them `me`, each with a match index of at
-- least n.
abbrev pub Holders : ℕ → ℤ → List ℤ → ℕ → List ℕ → Type 0
Holders me n matched from [] = Unit
Holders me n matched from (s ∷ ss) =
    (from ≤ s)
    × (s ≢ me)
    × ((m : ℤ) × (get_elem? matched s ≡ some m) × (n ≤ℤ m))
    × Holders me n matched (suc s) ss

Holders-weaken :
    (me : ℕ) (n : ℤ) (matched : List ℤ) (i : ℕ) (ss : List ℕ)
    → Holders me n matched (suc i) ss
    → Holders me n matched i ss
Holders-weaken me n matched i [] h = tt
Holders-weaken me n matched i (s ∷ ss) (from, other, held, rest) =
    (omega (arith, from), other, held, rest)

drop-get_elem? :
    (i : ℕ) (xs : List ℤ) (m : ℤ) (ms : List ℤ)
    → drop i xs ≡ m ∷ ms
    → (get_elem? xs i ≡ some m) × (drop (suc i) xs ≡ ms)
drop-get_elem? zero [] m ms h = absurd (ground (arith, h))
drop-get_elem? (suc i) [] m ms h = absurd (ground (arith, h))
drop-get_elem? zero (x ∷ xs) m ms h = ground (arith, h)
drop-get_elem? (suc i) (x ∷ xs) m ms h = drop-get_elem? i xs m ms h

-- The servers that the loop counts.
count_matched-Holders :
    (me : ℕ) (n : ℤ) (matched : List ℤ) (i : ℕ) (ms : List ℤ)
    → drop i matched ≡ ms
    → (ss : List ℕ) × (length ss ≡ count_matched me i n ms) × Holders me n matched i ss
unfolding count_matched
count_matched-Holders me n matched i [] h = ([], refl, tt)
count_matched-Holders me n matched i (m ∷ ms) h =
    let (found, next) = drop-get_elem? i matched m ms h in
    let (ss, many, held) = count_matched-Holders me n matched (suc i) ms next in
    elim (Bool-cases (not (i == me) && leb_ℤ n m)) [
      | inl counted ↦ (
        i ∷ ss,
        rw counted (ap suc many),
        (omega arith, (λ e. ground (arith, counted, e)), (m, found, ground (arith, counted)), held),
      )
      | inr passed ↦ (ss, rw passed many, Holders-weaken me n matched i ss held)
    ]

-- r' is r after the commit of index n, which the leader and other servers hold, together more than
-- half of all.
abbrev pub Commits : Raft → Raft → Type 0
Commits r r' =
    (n : ℤ) × (e : LogEntry) × (at r.logs n ≡ some e)
    × (e.term ≡ r.current_term)
    × ((others : List ℕ) × Holders r.me n r.match_index 0 others
        × (r.peers / 2 < suc (length others)))
    × (apply_logs (record r { commit_index = n }) ≡ some r')

votes_for-majority :
    (r : Raft) (n : ℤ) (e : LogEntry)
    → 1 ≤ r.peers / 2
    → ltb (r.peers / 2) (votes_for r n e) ≡ true
    → (e.term ≡ r.current_term) × (r.peers / 2 < suc (count_matched r.me 0 n r.match_index))
unfolding votes_for
votes_for-majority r n e h win = elim (Bool-cases (eq_ℤ e.term r.current_term)) [
  | inl same ↦ ((eq_ℤ_iff e.term r.current_term).0 same, ground (arith, same))
  | inr other ↦ absurd (ground (arith, other))
]

commit_loop-step :
    (k : ℕ) (r : Raft) (e : LogEntry)
    → at r.logs (r.commit_index +ℤ pos (suc k)) ≡ some e
    → commit_loop (suc k) r ≡ (
        if ltb (r.peers / 2) (votes_for r (r.commit_index +ℤ pos (suc k)) e)
        then apply_logs (record r { commit_index = r.commit_index +ℤ pos (suc k) })
        else commit_loop k r)
unfolding commit_loop
commit_loop-step k r e found =
    ap
      (λ o. elim o [
        | none ↦ none
        | some e ↦
            if ltb (r.peers / 2) (votes_for r (r.commit_index +ℤ pos (suc k)) e)
            then apply_logs (record r { commit_index = r.commit_index +ℤ pos (suc k) })
            else commit_loop k r
      ])
      found

commit_loop-missing :
    (k : ℕ) (r : Raft)
    → at r.logs (r.commit_index +ℤ pos (suc k)) ≡ none
    → commit_loop (suc k) r ≡ none
unfolding commit_loop
commit_loop-missing k r missing =
    ap
      (λ o. elim o [
        | none ↦ none
        | some e ↦
            if ltb (r.peers / 2) (votes_for r (r.commit_index +ℤ pos (suc k)) e)
            then apply_logs (record r { commit_index = r.commit_index +ℤ pos (suc k) })
            else commit_loop k r
      ])
      missing

commit_loop-done : (r : Raft) → commit_loop 0 r ≡ some r
unfolding commit_loop
commit_loop-done r = refl

-- In a cluster with at least two servers the first loop of CheckCommit, when it returns, either
-- changes nothing or commits an index whose entry has the current term and which the leader and
-- different other servers hold by their match indices, together more than half of all, and then
-- applies it.
pub commit_loop-Commits :
    (k : ℕ) (r r' : Raft) → 1 ≤ r.peers / 2 → commit_loop k r ≡ some r' → (r ≡ r') ⊎ Commits r r'
commit_loop-Commits zero r r' h run = inl (some-injective r r' (sym (commit_loop-done r) ∙ run))
commit_loop-Commits (suc k) r r' h run =
    let n = r.commit_index +ℤ pos (suc k) in
    elim (Option-cases (at r.logs n)) [
      | inl missing ↦ absurd (cc (run, commit_loop-missing k r missing))
      | inr (e, found) ↦
          let step = sym (commit_loop-step k r e found) ∙ run in
          elim (Bool-cases (ltb (r.peers / 2) (votes_for r n e))) [
            | inl win ↦
                let (same, many) = votes_for-majority r n e h win in
                let (others, counted, held) =
                  count_matched-Holders r.me n r.match_index 0 r.match_index refl in
                inr (
                  n,
                  e,
                  found,
                  same,
                  (others, held, omega (arith, many, counted)),
                  sym (if-true _ _ _ win) ∙ step,
                )
            | inr lost ↦ commit_loop-Commits k r r' h (sym (if-false _ _ _ lost) ∙ step)
          ]
    ]

pub commit_loop-Keeps : (k : ℕ) (r r' : Raft) → commit_loop k r ≡ some r' → Keeps r r'
commit_loop-Keeps zero r r' run =
    subst (Keeps r) (some-injective r r' (sym (commit_loop-done r) ∙ run)) (Keeps-refl r)
commit_loop-Keeps (suc k) r r' run =
    let n = r.commit_index +ℤ pos (suc k) in
    elim (Option-cases (at r.logs n)) [
      | inl missing ↦ absurd (cc (run, commit_loop-missing k r missing))
      | inr (e, found) ↦
          let step = sym (commit_loop-step k r e found) ∙ run in
          elim (Bool-cases (ltb (r.peers / 2) (votes_for r n e))) [
            | inl win ↦
                let kept =
                  apply_logs-Keeps (record r { commit_index = n }) r'
                    (sym (if-true _ _ _ win) ∙ step) in
                record {
                  logs = kept.logs;
                  disk = kept.disk;
                  match_index = kept.match_index;
                  me = kept.me;
                  state = kept.state;
                  current_term = kept.current_term;
                  vote_count = kept.vote_count;
                }
            | inr lost ↦ commit_loop-Keeps k r r' (sym (if-false _ _ _ lost) ∙ step)
          ]
    ]

all_matched-replicate : (me i n k : ℕ) → all_matched me i (pos n) (replicate k (pos n)) ≡ true
unfolding all_matched
all_matched-replicate me i n zero = refl
all_matched-replicate me i n (suc k) = ground (arith, all_matched-replicate me (suc i) n k)

drop-length : {A : Type 0} (xs : List A) → drop (length xs) xs ≡ []
drop-length [] = refl
drop-length (x ∷ xs) = drop-length xs

truncate_loop_all :
    (k : ℕ) (r : Raft) (logs : List LogEntry)
    → r.logs ≡ logs
    → r.match_index ≡ replicate k (last_index_of logs)
    → (truncate_loop (length logs) r).logs ≡ []
unfolding truncate_loop truncate
truncate_loop_all k r [] h m = h
truncate_loop_all k r (e ∷ es) h m =
    let everyone : all_matched r.me 0 (pos (length es)) r.match_index ≡ true =
      ap (λ ms. all_matched r.me 0 (pos (length es)) ms) m
      ∙ all_matched-replicate r.me 0 (length es) k in
    ap (λ b. (if b then truncate r (suc (length es)) else truncate_loop (length es) r).logs)
      everyone
    ∙ ap (λ l. drop (suc (length es)) l) h
    ∙ drop-length (e ∷ es)

pub end_check-some :
    (o : Option Raft) (r' : Raft)
    → end_check o ≡ some r'
    → (r1 : Raft) × (o ≡ some r1) × (persist (truncate_loop (length r1.logs) r1) ≡ r')
unfolding end_check
end_check-some none r' h = absurd (ground (arith, h))
end_check-some (some r1) r' h = (r1, refl, some-injective _ _ h)

-- When every server's match index is the last index, as it is right after `convertToLeader`, a
-- `CheckCommit` that returns leaves an empty log.
pub check_commit_drops_all :
    (k : ℕ) (r r' : Raft)
    → r.match_index ≡ replicate k (get_last_index r)
    → check_commit r ≡ some r'
    → r'.logs ≡ []
unfolding check_commit persist
check_commit_drops_all k r r' m run =
    let (r1, found, dropped) = end_check-some _ r' run in
    let kept = commit_loop-Keeps _ r r1 found in
    sym (ap (λ x. x.logs) dropped)
    ∙ truncate_loop_all k r1 r1.logs refl
        (kept.match_index ∙ m ∙ ap (λ l. replicate k (last_index_of l)) (sym kept.logs))
