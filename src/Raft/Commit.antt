-- ===== src/Raft/Commit.antt =====
-- What the handlers let a node commit, and when they let it lead.
use chono_db.Prelude.{
  ℕ, zero, suc, ◌+◌, ◌-◌, ◌/◌, ◌≤◌, ◌<◌, ◌≡◌, refl, sym, subst, ap, ◌∙◌, arith, ltb, lt→ltb,
  if◌then◌else◌, Bool, true, false, not, ◌&&◌, some, List, [], ◌∷◌, ◌++◌, map, length,
  length-append, get_elem?, All,
}
use chono_db.Prelude.Assoc.{Assoc, insert, values, text_key}
use chono_db.Raft.Node.{
  NodeId, LogEntry, RaftConfig, RaftNode, RaftMessage, RequestVoteReply, AppendEntriesArgs,
  AppendEntriesReply, new, last_term, leader, is_leader, is_candidate, step_down, request_vote,
  request_vote_response, append_entries, append_entries_response, client_request, client_response,
}
use chono_db.Raft.Append.{handle_append_entries}
use chono_db.Raft.AppendLaws.{Indexed}
use chono_db.Raft.Replicate.{append_entries_merges}
use chono_db.Raft.Handlers.{
  insert_sorted, sort, advance_commit, insert_all, become_leader, handle_append_entries_response,
  handle_election_timeout, handle_request_vote, handle_request_vote_response, handle_client_request,
  handle_message, Event, election_tick, heartbeat_tick, message, round, run,
}

abbrev IsZero : ℕ → Type 0
IsZero k = k ≡ 0

-- Every follower's match index is 0.
abbrev pub NoMatch : RaftNode → Type 0
NoMatch n = All IsZero (values n.match_index)

insert-IsZero :
    (p : NodeId) (m : Assoc NodeId ℕ) → All IsZero (values m) → All IsZero (values (insert p 0 m))
unfolding values insert
insert-IsZero p [] h = (refl, tt)
insert-IsZero p ((q, v) ∷ m) h = ground (arith, insert-IsZero p m h.1)

insert_all-IsZero :
    (ps : List NodeId) (m : Assoc NodeId ℕ)
    → All IsZero (values m)
    → All IsZero (values (insert_all ps 0 m))
unfolding insert_all
insert_all-IsZero [] m h = h
insert_all-IsZero (p ∷ ps) m h = insert_all-IsZero ps (insert p 0 m) (insert-IsZero p m h)

initial-IsZero : (ps : List NodeId) → All IsZero (values (map (λ p. (p, 0)) ps))
unfolding values
initial-IsZero [] = tt
initial-IsZero (p ∷ ps) = (refl, initial-IsZero ps)

-- What every round keeps: the configuration, and that no match index has risen.
record Keeps (n m : RaftNode) : Type 0 where
  same_config : m.config ≡ n.config
  no_match : NoMatch n → NoMatch m

unchanged : (n m : RaftNode) → (m.config ≡ n.config) × (m.match_index ≡ n.match_index) → Keeps n m
unchanged n m (c, e) = record {
  same_config = c;
  no_match = λ h. subst (λ t. All IsZero (values t)) (sym e) h;
}

if_IsZero :
    (b : Bool) (m m' : Assoc NodeId ℕ)
    → All IsZero (values m)
    → All IsZero (values m')
    → All IsZero (values (if b then m else m'))
if_IsZero true m m' h h' = h
if_IsZero false m m' h h' = h'

vote_response_match :
    (reply : RequestVoteReply) (n : RaftNode)
    → (handle_request_vote_response reply n).match_index ≡ (
        if not (ltb n.current_term reply.term) && (reply.vote_granted && is_candidate n.state)
        then insert_all n.config.peers 0 n.match_index
        else n.match_index)
unfolding handle_request_vote_response step_down become_leader
vote_response_match reply n = ground arith

vote_response-NoMatch :
    (reply : RequestVoteReply) (n : RaftNode)
    → NoMatch n
    → NoMatch (handle_request_vote_response reply n)
vote_response-NoMatch reply n h =
    subst (λ t. All IsZero (values t)) (sym (vote_response_match reply n))
      (if_IsZero _ _ _ (insert_all-IsZero n.config.peers n.match_index h) h)

handle_message-Keeps :
    (msg : RaftMessage) (now : ℕ) (n : RaftNode) → Keeps n (handle_message msg now n)
unfolding handle_message
handle_message-Keeps (request_vote args) now n =
    unchanged n _ (unfold handle_request_vote step_down in ground arith)
handle_message-Keeps (request_vote_response reply) now n = record {
  same_config = unfold handle_request_vote_response step_down become_leader in ground arith;
  no_match = vote_response-NoMatch reply n;
}
handle_message-Keeps (append_entries args) now n =
    unchanged n _ (unfold handle_append_entries step_down in ground arith)
handle_message-Keeps (append_entries_response reply) now n =
    unchanged n _ (unfold handle_append_entries_response step_down advance_commit in ground arith)
handle_message-Keeps (client_request args) now n =
    unchanged n _ (unfold handle_client_request in ground arith)
handle_message-Keeps (client_response reply) now n = unchanged n n (refl, refl)

round-Keeps : (e : Event) (n : RaftNode) → Keeps n (round e n)
unfolding round
round-Keeps election_tick n = unchanged n _ (unfold handle_election_timeout in ground arith)
round-Keeps heartbeat_tick n = unchanged n n (refl, refl)
round-Keeps (message msg now) n = handle_message-Keeps msg now n

run-Keeps : (es : List Event) (n : RaftNode) → Keeps n (run es n)
unfolding run
run-Keeps [] n = unchanged n n (refl, refl)
run-Keeps (e ∷ es) n =
    let first = round-Keeps e n in
    let rest = run-Keeps es (round e n) in
    record {
      same_config = rest.same_config ∙ first.same_config;
      no_match = λ h. rest.no_match (first.no_match h);
    }

insert_sorted-zero : (l : List ℕ) → insert_sorted 0 l ≡ 0 ∷ l
unfolding insert_sorted
insert_sorted-zero [] = refl
insert_sorted-zero (y ∷ ys) = ground arith

-- Zeros in front of one number are sorted.
sort_zeros : (zs : List ℕ) (x : ℕ) → All IsZero zs → sort (zs ++ x ∷ []) ≡ zs ++ x ∷ []
unfolding sort
sort_zeros [] x h = refl
sort_zeros (z ∷ zs) x h =
    ap (insert_sorted z) (sort_zeros zs x h.1) ∙ rw h.0 (insert_sorted-zero (zs ++ x ∷ []))

zero_at :
    (zs : List ℕ) (x i : ℕ) → All IsZero zs → i < length zs → get_elem? (zs ++ x ∷ []) i ≡ some 0
zero_at [] x i h p = absurd (omega arith)
zero_at (z ∷ zs) x zero h p = rw h.0
zero_at (z ∷ zs) x (suc i) h p = zero_at zs x i h.1 (omega arith)

-- The index that the majority has reached is 0 while the match indices are.
advance_commit-NoMatch :
    (n : RaftNode) → NoMatch n → 1 ≤ length n.config.peers → advance_commit n ≡ n
unfolding advance_commit
advance_commit-NoMatch n h some_peer =
    let sorted = sort_zeros (values n.match_index) (length n.log) h in
    rw sorted (
      ground (
        arith,
        length-append (values n.match_index) (length n.log ∷ []),
        zero_at (values n.match_index) (length n.log)
            (length (values n.match_index ++ length n.log ∷ [])
              - ((length n.config.peers + 1) / 2 + 1))
            h,
      ))

-- In a cluster of more than one node no reply of a follower ever moves the commit index of a node
-- that was started fresh, whatever happened to it before: the match indices stay 0.
pub replies_never_commit :
    (config : RaftConfig) (start : ℕ) (es : List Event) (reply : AppendEntriesReply)
    → 1 ≤ length config.peers
    → (handle_append_entries_response reply (run es (new config start))).commit_index
      ≡ (run es (new config start)).commit_index
unfolding handle_append_entries_response step_down
replies_never_commit config start es reply some_peer =
    let n = run es (new config start) in
    let kept = run-Keeps es (new config start) in
    ground (arith, advance_commit-NoMatch n (kept.no_match fresh) peers)
  where
    fresh : NoMatch (new config start)
    fresh = unfold new in initial-IsZero config.peers

    peers : 1 ≤ length (run es (new config start)).config.peers
    peers =
        subst (λ (c : RaftConfig). 1 ≤ length c.peers)
          (sym (run-Keeps es (new config start)).same_config) (unfold new in some_peer)

-- A fresh node that times out once leads as soon as one reply grants it a vote, whatever the
-- number of its peers and although the reply may be of the term before.
pub one_vote_leads :
    (config : RaftConfig) (start now term : ℕ)
    → term ≤ 1
    → let granted : RequestVoteReply = record { term = term; vote_granted = true } in
      let n =
        run (election_tick ∷ message (request_vote_response granted) now ∷ []) (new config start) in
      (n.state ≡ leader) × (n.current_term ≡ 1) × (n.config ≡ config)
unfolding run round handle_message handle_election_timeout handle_request_vote_response new
    is_leader is_candidate
one_vote_leads config start now term h = ground arith

-- A heartbeat without entries moves the commit index to the end of the log, past the entry that it
-- compared, where the leader's commit index lies there or further.
pub heartbeat_commits_unchecked :
    (args : AppendEntriesArgs) (now : ℕ) (n : RaftNode) (front back : List LogEntry)
    → n.current_term ≤ args.term
    → n.log ≡ front ++ back
    → length front ≡ args.prev_log_index
    → (0 < args.prev_log_index → last_term front ≡ args.prev_log_term)
    → args.entries ≡ []
    → n.commit_index < args.leader_commit
    → length n.log ≤ args.leader_commit
    → (handle_append_entries args now n).0.commit_index ≡ args.prev_log_index + length back
heartbeat_commits_unchecked args now n front back term split reached agreed empty behind far =
    let r =
      append_entries_merges args now n front back term split reached agreed
        (subst (Indexed (suc args.prev_log_index)) (sym empty) tt) in
    r.1 ∙ rw (empty, lt→ltb _ _ behind) (omega (arith, ap length split, length-append front back))
