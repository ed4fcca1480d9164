-- ===== src/Raft/Votes.antt =====
-- Terms never fall, and within a term a node votes for one candidate at most.
use text.Mathlib.TextEquality.{eq_iff}
use chono_db.Prelude.{
  ℕ, ◌+◌, ◌^◌, ◌≤◌, ◌<◌, ◌≡◌, sym, subst, ◌∙◌, arith, Bool, true, false, Option, some, List, [],
  ◌∷◌, if◌then◌else◌,
}
use chono_db.Raft.Node.{
  NodeId, RequestVoteArgs, RequestVoteReply, AppendEntriesArgs, AppendEntriesReply,
  ClientRequestArgs, RaftNode, step_down, request_vote, request_vote_response, append_entries,
  append_entries_response, client_request, client_response, RaftMessage,
}
use chono_db.Raft.Append.{handle_append_entries}
use chono_db.Raft.Handlers.{
  handle_election_timeout, handle_request_vote, handle_request_vote_response,
  handle_append_entries_response, handle_client_request, advance_commit, handle_message, Event,
  election_tick, heartbeat_tick, message, round, run,
}

-- `m` comes after `n`: its term is no less, and in the same term a vote stands.
pub record Later (n m : RaftNode) : Type 0 where
  pub term_le : n.current_term ≤ m.current_term
  pub vote_kept :
      (a : NodeId) → n.voted_for ≡ some a → m.current_term ≡ n.current_term → m.voted_for ≡ some a

Later-refl : (n : RaftNode) → Later n n
Later-refl n = record { term_le = omega arith; vote_kept = λ a e t. e }

Later-trans : {n m k : RaftNode} → Later n m → Later m k → Later n k
Later-trans p q = record {
  term_le = omega arith;
  vote_kept = λ a e t. q.vote_kept a (p.vote_kept a e (omega arith)) (omega arith);
}

handle_request_vote-Later :
    (args : RequestVoteArgs) (n : RaftNode) → Later n (handle_request_vote args n).0
unfolding handle_request_vote step_down
handle_request_vote-Later args n = record {
  term_le = ground arith;
  vote_kept = λ a e t. ground (arith, eq_iff a args.candidate_id);
}

handle_append_entries-Later :
    (args : AppendEntriesArgs) (now : ℕ) (n : RaftNode)
    → Later n (handle_append_entries args now n).0
unfolding handle_append_entries step_down
handle_append_entries-Later args now n = record {
  term_le = ground arith;
  vote_kept = λ a e t. ground arith;
}

handle_request_vote_response-Later :
    (reply : RequestVoteReply) (n : RaftNode) → Later n (handle_request_vote_response reply n)
unfolding handle_request_vote_response step_down
handle_request_vote_response-Later reply n = record {
  term_le = ground arith;
  vote_kept = λ a e t. ground arith;
}

-- The leader's commit step touches neither the term nor the vote.
advance_commit_keeps :
    (n : RaftNode)
    → ((advance_commit n).current_term ≡ n.current_term)
      × ((advance_commit n).voted_for ≡ n.voted_for)
unfolding advance_commit
advance_commit_keeps n = (ground arith, ground arith)

handle_append_entries_response-Later :
    (reply : AppendEntriesReply) (n : RaftNode) → Later n (handle_append_entries_response reply n)
unfolding step_down handle_append_entries_response
handle_append_entries_response-Later reply n = record {
  term_le = ground (arith, advance_commit_keeps n);
  vote_kept = λ a e t. ground (arith, advance_commit_keeps n);
}

handle_client_request-Later :
    (args : ClientRequestArgs) (n : RaftNode) → Later n (handle_client_request args n).0
unfolding handle_client_request
handle_client_request-Later args n = record {
  term_le = ground arith;
  vote_kept = λ a e t. ground arith;
}

handle_election_timeout-Later :
    (n : RaftNode) → n.current_term + 1 < 2 ^ 64 → Later n (handle_election_timeout n).0
unfolding handle_election_timeout
handle_election_timeout-Later n h = record {
  term_le = ground arith;
  vote_kept = λ a e t. ground arith;
}

handle_message-Later :
    (msg : RaftMessage) (now : ℕ) (n : RaftNode) → Later n (handle_message msg now n)
unfolding handle_message
handle_message-Later (request_vote args) now n = handle_request_vote-Later args n
handle_message-Later (request_vote_response reply) now n =
    handle_request_vote_response-Later reply n
handle_message-Later (append_entries args) now n = handle_append_entries-Later args now n
handle_message-Later (append_entries_response reply) now n =
    handle_append_entries_response-Later reply n
handle_message-Later (client_request args) now n = handle_client_request-Later args n
handle_message-Later (client_response reply) now n = Later-refl n

if_leader-Later : (b : Bool) (n m : RaftNode) → Later n m → Later n (if b then n else m)
if_leader-Later true n m h = Later-refl n
if_leader-Later false n m h = h

round-Later : (e : Event) (n : RaftNode) → n.current_term + 1 < 2 ^ 64 → Later n (round e n)
unfolding round
round-Later election_tick n h = if_leader-Later _ n _ (handle_election_timeout-Later n h)
round-Later heartbeat_tick n h = Later-refl n
round-Later (message msg now) n h = handle_message-Later msg now n

-- No term on the way is the largest `u64`, so that no election timeout wraps it.
abbrev pub TermsFit : List Event → RaftNode → Type 0
TermsFit [] n = Unit {0}
TermsFit (e ∷ es) n = (n.current_term + 1 < 2 ^ 64) × TermsFit es (round e n)

-- Over any sequence of timeouts and messages whose terms do not reach the largest `u64`, the term
-- never falls, and as long as it is the same a vote that was cast stands.
pub run-Later : (es : List Event) (n : RaftNode) → TermsFit es n → Later n (run es n)
unfolding run
run-Later [] n h = Later-refl n
run-Later (e ∷ es) n h = Later-trans (round-Later e n h.0) (run-Later es (round e n) h.1)

-- A granted vote is the vote of record, in the term of the request and of the reply.
pub record Granted (args : RequestVoteArgs) (m : RaftNode) (reply : RequestVoteReply) : Type 0 where
  pub voted : m.voted_for ≡ some args.candidate_id
  pub in_term : m.current_term ≡ args.term
  pub reply_term : reply.term ≡ args.term

pub handle_request_vote-Granted :
    (args : RequestVoteArgs) (n m : RaftNode) (reply : RequestVoteReply)
    → handle_request_vote args n ≡ (m, some reply)
    → reply.vote_granted ≡ true
    → Granted args m reply
unfolding handle_request_vote step_down
handle_request_vote-Granted args n m reply e g = record {
  voted = ground arith;
  in_term = ground arith;
  reply_term = ground arith;
}

-- If a node grants a vote and later, after any events whose terms fit, grants a vote in the same
-- term again, then both go to the same candidate.
pub one_vote_per_term :
    (args args' : RequestVoteArgs) (n m m' : RaftNode) (reply reply' : RequestVoteReply)
    (es : List Event)
    → handle_request_vote args n ≡ (m, some reply)
    → reply.vote_granted ≡ true
    → TermsFit es m
    → handle_request_vote args' (run es m) ≡ (m', some reply')
    → reply'.vote_granted ≡ true
    → args'.term ≡ args.term
    → args'.candidate_id ≡ args.candidate_id
one_vote_per_term args args' n m m' reply reply' es e g fit e' g' t =
    let first = handle_request_vote-Granted args n m reply e g in
    let second = handle_request_vote-Granted args' (run es m) m' reply' e' g' in
    let later : Later (run es m) m' =
      subst (λ (p : RaftNode × Option RequestVoteReply). Later (run es m) p.0) e'
        (handle_request_vote-Later args' (run es m)) in
    let whole = Later-trans (run-Later es m fit) later in
    let same : some args'.candidate_id ≡ some args.candidate_id =
      sym second.voted
      ∙ whole.vote_kept args.candidate_id first.voted (second.in_term ∙ t ∙ sym first.in_term) in
    cc
