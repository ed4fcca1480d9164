-- ===== src/Raft/Handlers.antt =====
-- storage/src/raft/mod.rs: the other handlers, and the dispatch of messages and timers. The source
-- builds its replies and requests and does not send them; the model returns what is built.
use text.Mathlib.Text.{◌==◌ as same_id}
use chono_db.Prelude.{
  ℕ, ◌+◌, ◌-◌, ◌/◌, ◌%◌, ◌^◌, ltb, leb, ◌==◌, if◌then◌else◌, Bool, true, false, ◌&&◌, ◌||◌, Option,
  none, some, List, [], ◌∷◌, ◌++◌, length, drop, get_elem?, map,
}
use chono_db.Prelude.Assoc.{Assoc, lookup, insert, values, text_key}
use chono_db.Raft.Node.{
  NodeId, LogEntry, RequestVoteArgs, RequestVoteReply, AppendEntriesArgs, AppendEntriesReply,
  ClientRequestArgs, ClientResponseReply, RaftMessage, request_vote, request_vote_response,
  append_entries, append_entries_response, client_request, client_response, candidate, leader,
  RaftNode, is_leader, is_candidate, last_term, step_down, position,
}
use chono_db.Raft.Append.{handle_append_entries}

-- `request_votes`: the request for every peer.
unfoldable pub request_votes : ℕ → RaftNode → RequestVoteArgs
request_votes term n = record {
  term = term;
  candidate_id = n.config.node_id;
  last_log_index = length n.log;
  last_log_term = last_term n.log;
}

unfoldable pub handle_election_timeout : RaftNode → RaftNode × Option RequestVoteArgs
handle_election_timeout n =
    if is_leader n.state
    then (n, none)
    else let term = (n.current_term + 1) % 2 ^ 64 in
      let n' = record n {
        state = candidate;
        current_term = term;
        voted_for = some n.config.node_id;
      } in
      (n', some (request_votes term n'))

or_zero : Option LogEntry → ℕ
or_zero none = 0
or_zero (some e) = e.term

or_one : Option ℕ → ℕ
or_one none = 1
or_one (some i) = i

-- The request that `send_heartbeats` builds for one peer; `next_index` is at least 1.
unfoldable pub heartbeat : RaftNode → NodeId → AppendEntriesArgs
unfolding or_zero or_one
heartbeat n peer =
    let prev_log_index = or_one (lookup peer n.next_index) - 1 in
    record {
      term = n.current_term;
      leader_id = n.config.node_id;
      prev_log_index = prev_log_index;
      prev_log_term =
          if ltb 0 prev_log_index then or_zero (get_elem? n.log (position prev_log_index)) else 0;
      entries = drop prev_log_index n.log;
      leader_commit = n.commit_index;
    }

unfoldable pub send_heartbeats : RaftNode → List (NodeId × AppendEntriesArgs)
send_heartbeats n =
    if is_leader n.state then map (λ peer. (peer, heartbeat n peer)) n.config.peers else []

-- `voted_for.is_none() || voted_for.as_ref() == Some(&args.candidate_id)`
can_vote : Option NodeId → NodeId → Bool
can_vote none c = true
can_vote (some v) c = same_id v c

up_to_date : RequestVoteArgs → List LogEntry → Bool
up_to_date args log =
    ltb (last_term log) args.last_log_term
    || args.last_log_term == last_term log && leb (length log) args.last_log_index

grant : RequestVoteArgs → RaftNode → RaftNode × Option RequestVoteReply
unfolding can_vote up_to_date
grant args n =
    if can_vote n.voted_for args.candidate_id && up_to_date args n.log
    then (
      record n { voted_for = some args.candidate_id },
      some (record { term = n.current_term; vote_granted = true }),
    )
    else (n, none)

unfoldable pub handle_request_vote : RequestVoteArgs → RaftNode → RaftNode × Option RequestVoteReply
unfolding grant
handle_request_vote args n =
    if ltb args.term n.current_term
    then (n, some (record { term = n.current_term; vote_granted = false }))
    else grant args (if ltb n.current_term args.term then step_down args.term n else n)

unfoldable pub insert_all : List NodeId → ℕ → Assoc NodeId ℕ → Assoc NodeId ℕ
insert_all [] v m = m
insert_all (p ∷ ps) v m = insert_all ps v (insert p v m)

unfoldable pub become_leader : RaftNode → RaftNode
unfolding insert_all
become_leader n = record n {
  state = leader;
  next_index = insert_all n.config.peers (length n.log + 1) n.next_index;
  match_index = insert_all n.config.peers 0 n.match_index;
}

unfoldable pub handle_request_vote_response : RequestVoteReply → RaftNode → RaftNode
unfolding become_leader
handle_request_vote_response reply n =
    if ltb n.current_term reply.term
    then step_down reply.term n
    else if reply.vote_granted && is_candidate n.state
    then become_leader n
    else n

-- `match_indices.sort_unstable()`
unfoldable pub insert_sorted : ℕ → List ℕ → List ℕ
insert_sorted x [] = x ∷ []
insert_sorted x (y ∷ ys) = if leb x y then x ∷ y ∷ ys else y ∷ insert_sorted x ys

unfoldable pub sort : List ℕ → List ℕ
unfolding insert_sorted
sort [] = []
sort (x ∷ xs) = insert_sorted x (sort xs)

-- `if let Some(entry) = log.get(…) { if entry.term == current_term { … } }`
commit_at : ℕ → Option LogEntry → RaftNode → RaftNode
commit_at index none n = n
commit_at index (some entry) n =
    if entry.term == n.current_term then record n { commit_index = index } else n

try_commit : Option ℕ → RaftNode → RaftNode
unfolding commit_at
try_commit none n = n
try_commit (some index) n =
    if ltb n.commit_index index then commit_at index (get_elem? n.log (position index)) n else n

unfoldable pub advance_commit : RaftNode → RaftNode
unfolding try_commit
advance_commit n =
    let match_indices = sort (values n.match_index ++ (length n.log ∷ [])) in
    let majority = (length n.config.peers + 1) / 2 + 1 in
    if leb majority (length match_indices)
    then try_commit (get_elem? match_indices (length match_indices - majority)) n
    else n

-- The updates of `next_index` and `match_index` are not written yet in the source.
unfoldable pub handle_append_entries_response : AppendEntriesReply → RaftNode → RaftNode
handle_append_entries_response reply n =
    if ltb n.current_term reply.term then step_down reply.term n else advance_commit n

-- The node, the reply if there is one, and the heartbeats that follow an append.
unfoldable pub handle_client_request :
    ClientRequestArgs
    → RaftNode
    → RaftNode × Option ClientResponseReply × List (NodeId × AppendEntriesArgs)
unfolding send_heartbeats
handle_client_request args n =
    if is_leader n.state
    then (let entry : LogEntry = record {
      index = length n.log + 1;
      term = n.current_term;
      command = args.command;
    } in
        let n' = record n { log = n.log ++ (entry ∷ []) } in (n', none, send_heartbeats n'))
    else (n, some (record { success = false; leader_id = none; result = none }), [])

-- `handle_message`, at the time `now`.
unfoldable pub handle_message : RaftMessage → ℕ → RaftNode → RaftNode
handle_message (request_vote args) now n = (handle_request_vote args n).0
handle_message (request_vote_response reply) now n = handle_request_vote_response reply n
handle_message (append_entries args) now n = (handle_append_entries args now n).0
handle_message (append_entries_response reply) now n = handle_append_entries_response reply n
handle_message (client_request args) now n = (handle_client_request args n).0
handle_message (client_response reply) now n = n

-- What the loop of `run` reacts to. The heartbeat timer changes nothing.
pub data Event : Type 0 where
  election_tick : Event
  heartbeat_tick : Event
  message : RaftMessage → ℕ → Event

-- One round of the loop: each state waits for its own timer only.
unfoldable pub round : Event → RaftNode → RaftNode
round election_tick n = if is_leader n.state then n else (handle_election_timeout n).0
round heartbeat_tick n = n
round (message msg now) n = handle_message msg now n

unfoldable pub run : List Event → RaftNode → RaftNode
run [] n = n
run (e ∷ es) n = run es (round e n)
