-- ===== src/Raft/Replicate.antt =====
-- A request that passes the consistency check, and the heartbeats that a leader builds.
use chono_db.Prelude.{
  ℕ, zero, suc, ◌+◌, ◌-◌, ◌≤◌, ◌<◌, ◌≡◌, refl, sym, subst, ap, ◌∙◌, arith, min, ltb, lt→ltb, ◌==◌,
  ==_iff, if◌then◌else◌, true, Bool-cases, inl, inr, some, List, [], ◌∷◌, ◌++◌, length,
  length-append, take, drop, drop-append_length, get_elem?,
}
use chono_db.Prelude.Assoc.{lookup, text_key}
use chono_db.Raft.Node.{
  NodeId, LogEntry, RaftNode, AppendEntriesArgs, position, last_term, step_down,
}
use chono_db.Raft.Append.{append_all, handle_append_entries}
use chono_db.Raft.Handlers.{heartbeat}
use chono_db.Raft.AppendLaws.{Indexed, merge, append_all-merge}

-- The entry in front of position `p + 1`.
last_entry :
    (front back : List LogEntry) (p : ℕ)
    → length front ≡ suc p
    → (e : LogEntry) × (get_elem? (front ++ back) p ≡ some e) × (e.term ≡ last_term front)
unfolding last_term
last_entry [] back p h = absurd (omega arith)
last_entry (e ∷ []) back zero h = (e, refl, refl)
last_entry (e ∷ []) back (suc p) h = absurd (omega arith)
last_entry (e ∷ f ∷ front) back zero h = absurd (omega arith)
last_entry (e ∷ f ∷ front) back (suc p) h = last_entry (f ∷ front) back p (omega arith)

module _ (args : AppendEntriesArgs) (now : ℕ) (n : RaftNode) (front back : List LogEntry)
    (term : n.current_term ≤ args.term) (split : n.log ≡ front ++ back)
    (reached : length front ≡ args.prev_log_index)
    (agreed : 0 < args.prev_log_index → last_term front ≡ args.prev_log_term)
    (indexed : Indexed (suc args.prev_log_index) args.entries) where
  Accepted : Type 0
  Accepted =
      ((handle_append_entries args now n).0.log ≡ append_all n.log args.entries)
      × ((handle_append_entries args now n).0.commit_index ≡ (
          if ltb n.commit_index args.leader_commit
          then min args.leader_commit (length (append_all n.log args.entries))
          else n.commit_index))
      × ((handle_append_entries args now n).1
          ≡ some (record {
            term = args.term;
            success = true;
            match_index = args.prev_log_index + length args.entries;
          }))

  passes_check : (k : ℕ) → args.prev_log_index ≡ k → Accepted
  unfolding Accepted handle_append_entries step_down position
  passes_check zero e = rw e (ground arith)
  passes_check (suc p) e =
      let (x, found, same) = last_entry front back p (reached ∙ e) in
      let fits : args.prev_log_index ≤ length n.log =
        omega (arith, ap length split, length-append front back) in
      let entry : get_elem? n.log p ≡ some x = ap (λ l. get_elem? l p) split ∙ found in
      let agree : x.term ≡ args.prev_log_term = same ∙ agreed (omega arith) in ground arith

  -- A request of a term that is not older, whose previous entry the log has, and whose entries carry
  -- the indices that follow the previous entry's one by one, is accepted: the log keeps what stands
  -- before and merges the request's entries behind it, the commit index rises to the leader's, but
  -- not past the end of the log, and the reply says how far the logs agree.
  pub append_entries_merges :
      ((handle_append_entries args now n).0.log ≡ front ++ merge back args.entries)
      × ((handle_append_entries args now n).0.commit_index ≡ (
          if ltb n.commit_index args.leader_commit
          then min args.leader_commit (length (front ++ merge back args.entries))
          else n.commit_index))
      × ((handle_append_entries args now n).1
          ≡ some (record {
            term = args.term;
            success = true;
            match_index = args.prev_log_index + length args.entries;
          }))
  append_entries_merges =
      subst
        (λ l.
          ((handle_append_entries args now n).0.log ≡ l)
          × ((handle_append_entries args now n).0.commit_index ≡ (
              if ltb n.commit_index args.leader_commit
              then min args.leader_commit (length l)
              else n.commit_index))
          × ((handle_append_entries args now n).1
              ≡ some (record {
                term = args.term;
                success = true;
                match_index = args.prev_log_index + length args.entries;
              })))
        merged (unfold Accepted in passes_check args.prev_log_index refl)
    where
      merged : append_all n.log args.entries ≡ front ++ merge back args.entries
      merged =
          ap (λ l. append_all l args.entries) split
          ∙ append_all-merge front back (suc args.prev_log_index) args.entries
              (ap suc (sym reached)) indexed

abbrev pub terms : List LogEntry → List ℕ
terms [] = []
terms (e ∷ es) = e.term ∷ terms es

take-terms : (l : List LogEntry) → take (length l) (terms l) ≡ terms l
take-terms [] = refl
take-terms (x ∷ l) = ap (λ t. x.term ∷ t) (take-terms l)

-- After a merge the terms are those of the new entries, as far as these go.
merge-terms :
    (back entries : List LogEntry)
    → take (length entries) (terms (merge back entries)) ≡ terms entries
merge-terms back [] = refl
merge-terms [] (n ∷ ns) = take-terms (n ∷ ns)
merge-terms (o ∷ os) (n ∷ ns) = elim (Bool-cases (o.term == n.term)) [
  | inl agree ↦ rw agree (
      ap (λ t. o.term ∷ t) (merge-terms os ns)
      ∙ ap (λ (t : ℕ). t ∷ terms ns) ((==_iff _ _).0 agree))
  | inr conflict ↦ rw conflict (take-terms (n ∷ ns))
]

terms_behind :
    (front back es : List LogEntry)
    → take (length es) (terms back) ≡ terms es
    → take (length (front ++ es)) (terms (front ++ back)) ≡ terms (front ++ es)
terms_behind [] back es h = h
terms_behind (x ∷ front) back es h = ap (λ t. x.term ∷ t) (terms_behind front back es h)

Indexed-behind :
    (front rest : List LogEntry) (i j : ℕ)
    → i + length front ≡ j
    → Indexed i (front ++ rest)
    → Indexed j rest
Indexed-behind [] rest i j e h = let e' : i ≡ j = omega arith in subst (λ k. Indexed k rest) e' h
Indexed-behind (x ∷ front) rest i j e h = Indexed-behind front rest (suc i) j (omega arith) h.1

-- What a leader's heartbeat holds for a peer that has the entries of `front`.
module _ (l : RaftNode) (peer : NodeId) (front rest : List LogEntry)
    (next : lookup peer l.next_index ≡ some (suc (length front)))
    (split : l.log ≡ front ++ rest) where
  heartbeat_start : (heartbeat l peer).prev_log_index ≡ length front
  unfolding heartbeat
  heartbeat_start = rw next (omega arith)

  heartbeat_entries : (heartbeat l peer).entries ≡ rest
  unfolding heartbeat
  heartbeat_entries =
      ap (λ (k : ℕ). drop k l.log) heartbeat_start
      ∙ ap (drop (length front)) split
      ∙ drop-append_length front rest

  heartbeat_term :
      (k : ℕ) → length front ≡ k → 0 < k → last_term front ≡ (heartbeat l peer).prev_log_term
  unfolding heartbeat position
  heartbeat_term zero e h = absurd (omega arith)
  heartbeat_term (suc p) e h =
      let (x, found, same) = last_entry front rest p e in
      let start : suc (length front) - 1 ≡ suc p = omega arith in
      let entry : get_elem? l.log p ≡ some x = ap (λ t. get_elem? t p) split ∙ found in
      rw next (rw start (rw (entry, lt→ltb 0 (suc p) (omega arith)) (sym same)))

  -- Where the entries of a leader's log carry the indices 1, 2, 3 and so on, and the log of a
  -- follower that is no term ahead shares the entries that the leader's `next_index` for it skips,
  -- a heartbeat makes the follower's log agree in its terms with the whole log of the leader.
  pub heartbeat_replicates :
      (f : RaftNode) (back : List LogEntry) (now : ℕ)
      → f.current_term ≤ l.current_term
      → f.log ≡ front ++ back
      → Indexed 1 l.log
      → take (length l.log) (terms (handle_append_entries (heartbeat l peer) now f).0.log)
        ≡ terms l.log
  heartbeat_replicates f back now older shared indexed = rw after (
      subst (λ t. take (length t) (terms (front ++ merge back rest)) ≡ terms t) (sym split)
        (terms_behind front (merge back rest) rest (merge-terms back rest)))
    where
      same_term : (heartbeat l peer).term ≡ l.current_term
      same_term = unfold heartbeat in refl

      behind : Indexed (suc (heartbeat l peer).prev_log_index) (heartbeat l peer).entries
      behind =
          rw (heartbeat_start, heartbeat_entries)
            (Indexed-behind front rest 1 (suc (length front)) (omega arith)
              (subst (Indexed 1) split indexed))

      after : (handle_append_entries (heartbeat l peer) now f).0.log ≡ front ++ merge back rest
      after =
          (append_entries_merges (heartbeat l peer) now f front back (omega (arith, same_term))
            shared (sym heartbeat_start)
            (λ h. heartbeat_term (length front) refl (omega (arith, heartbeat_start, h))) behind).0
          ∙ ap (λ es. front ++ merge back es) heartbeat_entries
