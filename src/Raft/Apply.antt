-- ===== src/Raft/Apply.antt =====
-- `ApplyLogs` hands the committed entries over, each once and in order.
use lightdb.Common.Int.{ℤ, pos, negsuc, pos_part, ◌+ℤ◌, ◌-ℤ◌, ◌≤ℤ◌, ◌<ℤ◌, at, int_laws}
use mathlib.Core.List.{append_assoc, append-nil}
use mathlib.Core.Path.{subst}
use mathlib.Core.Option.{some-injective}
use lightdb.Common.{
  Option-cases, inl, inr, ℕ, zero, suc, ◌+◌, ◌≤◌, ◌<◌, get_elem?, length, take, drop, ◌≡◌, refl,
  sym, ap, ◌∙◌, none, some, List, [], ◌∷◌, ◌++◌, arith,
}
use lightdb.Raft.State.{Raft, LogEntry, apply_loop, apply_logs}

pub get_elem?-drop {ℓ} :
    {A : Type ℓ} (s : ℕ) (xs : List A)
    → s < length xs
    → (e : A) × (get_elem? xs s ≡ some e) × (drop s xs ≡ e ∷ drop (suc s) xs)
get_elem?-drop s [] h = absurd (omega arith)
get_elem?-drop zero (x ∷ xs) h = (x, refl, refl)
get_elem?-drop (suc s) (x ∷ xs) h = get_elem?-drop s xs (omega arith)

-- The state after n entries from position s are handed over.
abbrev last_of : ℕ → ℕ → ℤ → ℤ
last_of zero s before = before
last_of (suc n) s before = pos (s + n)

abbrev pub applied : ℕ → ℕ → Raft → Raft
applied n s r = record r {
  apply_queue = r.apply_queue ++ take n (drop s r.logs);
  last_applied = last_of n s r.last_applied;
}

last_of-suc : (n s : ℕ) (before : ℤ) → last_of n (suc s) (pos s) ≡ last_of (suc n) s before
last_of-suc zero s before = ap pos (omega arith)
last_of-suc (suc n) s before = ap pos (omega arith)

apply_loop-step :
    (n s : ℕ) (r : Raft) (e : LogEntry)
    → get_elem? r.logs s ≡ some e
    → apply_loop (suc n) (pos s) r
      ≡ apply_loop n
          (pos (suc s))
          (record r { apply_queue = r.apply_queue ++ e ∷ []; last_applied = pos s })
unfolding apply_loop at
apply_loop-step n s r e found =
    ap
      (λ o. elim o [
        | none ↦ none
        | some x ↦
            apply_loop n (pos s +ℤ pos 1)
              (record r { apply_queue = r.apply_queue ++ x ∷ []; last_applied = pos s })
      ])
      found
    ∙ ap
        (λ i.
          apply_loop n i (record r { apply_queue = r.apply_queue ++ e ∷ []; last_applied = pos s }))
        (omega int_laws)

apply_loop-applied :
    (n s : ℕ) (r : Raft) → s + n ≤ length r.logs → apply_loop n (pos s) r ≡ some (applied n s r)
unfolding apply_loop
apply_loop-applied zero s r h =
    λ i. some (record r { apply_queue = (sym (append-nil r.apply_queue)) i })
apply_loop-applied (suc n) s r h =
    let (e, found, split) = get_elem?-drop s r.logs (omega arith) in
    let r1 = record r { apply_queue = r.apply_queue ++ e ∷ []; last_applied = pos s } in
    let queue : (r.apply_queue ++ e ∷ []) ++ take n (drop (suc s) r.logs)
        ≡ r.apply_queue ++ take (suc n) (drop s r.logs) =
      append_assoc r.apply_queue (e ∷ []) (take n (drop (suc s) r.logs))
      ∙ ap (λ t. r.apply_queue ++ take (suc n) t) (sym split) in
    apply_loop-step n s r e found ∙ apply_loop-applied n (suc s) r1 (omega arith) ∙ (λ i.
      some (record r { apply_queue = queue i; last_applied = last_of-suc n s r.last_applied i }))

-- The entries that are committed and not yet applied: where they begin, and how many they are.
abbrev pub first_new : Raft → ℕ
first_new r = pos_part (r.last_applied +ℤ pos 1)

abbrev pub new_count : Raft → ℕ
new_count r = pos_part (r.commit_index -ℤ r.last_applied)

next_lem : (a : ℤ) → negsuc 0 ≤ℤ a → a +ℤ pos 1 ≡ pos (pos_part (a +ℤ pos 1))
unfolding ◌+ℤ◌
next_lem a h = ground arith

fits_lem :
    (a c : ℤ) (n : ℕ)
    → negsuc 0 ≤ℤ a
    → a ≤ℤ c
    → c <ℤ pos n
    → pos_part (a +ℤ pos 1) + pos_part (c -ℤ a) ≤ n
unfolding ◌+ℤ◌ ◌-ℤ◌
fits_lem a c n h k l = ground arith

-- With -1 ≤ applied index ≤ commit index < length of the log, `ApplyLogs` is defined: it enqueues
-- the log entries after the applied one up to the committed one, in the order of the log, and
-- changes nothing but the queue and the applied index.
pub apply_logs-applied :
    (r : Raft)
    → negsuc 0 ≤ℤ r.last_applied
    → r.last_applied ≤ℤ r.commit_index
    → r.commit_index <ℤ pos (length r.logs)
    → apply_logs r ≡ some (applied (new_count r) (first_new r) r)
unfolding apply_logs
apply_logs-applied r h k l = rw (next_lem r.last_applied h) (
    apply_loop-applied (new_count r) (first_new r) r
      (fits_lem r.last_applied r.commit_index (length r.logs) h k l))

-- What `ApplyLogs` leaves alone.
pub record Keeps (r r' : Raft) : Type 0 where
  pub logs : r'.logs ≡ r.logs
  pub disk : r'.disk ≡ r.disk
  pub match_index : r'.match_index ≡ r.match_index
  pub me : r'.me ≡ r.me
  pub state : r'.state ≡ r.state
  pub current_term : r'.current_term ≡ r.current_term
  pub vote_count : r'.vote_count ≡ r.vote_count

pub Keeps-refl : (r : Raft) → Keeps r r
Keeps-refl r = record {
  logs = refl;
  disk = refl;
  match_index = refl;
  me = refl;
  state = refl;
  current_term = refl;
  vote_count = refl;
}

apply_loop-missing : (n : ℕ) (i : ℤ) (r : Raft) → at r.logs i ≡ none → apply_loop (suc n) i r ≡ none
unfolding apply_loop
apply_loop-missing n i r missing =
    ap
      (λ o. elim o [
        | none ↦ none
        | some x ↦
            apply_loop n (i +ℤ pos 1)
              (record r { apply_queue = r.apply_queue ++ x ∷ []; last_applied = i })
      ])
      missing

apply_loop-found :
    (n : ℕ) (i : ℤ) (r : Raft) (e : LogEntry)
    → at r.logs i ≡ some e
    → apply_loop (suc n) i r
      ≡ apply_loop n
          (i +ℤ pos 1)
          (record r { apply_queue = r.apply_queue ++ e ∷ []; last_applied = i })
unfolding apply_loop
apply_loop-found n i r e found =
    ap
      (λ o. elim o [
        | none ↦ none
        | some x ↦
            apply_loop n (i +ℤ pos 1)
              (record r { apply_queue = r.apply_queue ++ x ∷ []; last_applied = i })
      ])
      found

apply_loop-done : (i : ℤ) (r : Raft) → apply_loop 0 i r ≡ some r
unfolding apply_loop
apply_loop-done i r = refl

apply_loop-Keeps : (n : ℕ) (i : ℤ) (r r' : Raft) → apply_loop n i r ≡ some r' → Keeps r r'
apply_loop-Keeps zero i r r' h =
    subst (Keeps r) (some-injective r r' (sym (apply_loop-done i r) ∙ h)) (Keeps-refl r)
apply_loop-Keeps (suc n) i r r' h = elim (Option-cases (at r.logs i)) [
  | inl missing ↦ absurd (cc (h, apply_loop-missing n i r missing))
  | inr (e, found) ↦
      let kept =
        apply_loop-Keeps n (i +ℤ pos 1)
          (record r { apply_queue = r.apply_queue ++ e ∷ []; last_applied = i }) r'
          (sym (apply_loop-found n i r e found) ∙ h) in
      record {
        logs = kept.logs;
        disk = kept.disk;
        match_index = kept.match_index;
        me = kept.me;
        state = kept.state;
        current_term = kept.current_term;
        vote_count = kept.vote_count;
      }
]

-- `ApplyLogs` changes neither the log nor what is on disk.
pub apply_logs-Keeps : (r r' : Raft) → apply_logs r ≡ some r' → Keeps r r'
unfolding apply_logs
apply_logs-Keeps r r' h = apply_loop-Keeps _ _ r r' h
