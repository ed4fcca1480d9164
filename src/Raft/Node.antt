-- ===== src/Raft/Node.antt =====
-- storage/src/raft/mod.rs: messages, the state of a node, and what several handlers do.
-- Terms and indices are `u64`; `Instant`s are numbers. The channel `tx` carries no state.
use chono_db.Prelude.{
  ℕ, zero, suc, ◌-◌, ◌^◌, String, Bool, true, false, Option, none, List, [], ◌∷◌, map,
}
use chono_db.Prelude.Assoc.{Assoc}

abbrev pub NodeId : Type 0
NodeId = String

pub record LogEntry : Type 0 where
  pub index : ℕ
  pub term : ℕ
  pub command : List ℕ

pub record RequestVoteArgs : Type 0 where
  pub term : ℕ
  pub candidate_id : NodeId
  pub last_log_index : ℕ
  pub last_log_term : ℕ

pub record RequestVoteReply : Type 0 where
  pub term : ℕ
  pub vote_granted : Bool

pub record AppendEntriesArgs : Type 0 where
  pub term : ℕ
  pub leader_id : NodeId
  pub prev_log_index : ℕ
  pub prev_log_term : ℕ
  pub entries : List LogEntry
  pub leader_commit : ℕ

pub record AppendEntriesReply : Type 0 where
  pub term : ℕ
  pub success : Bool
  pub match_index : ℕ

pub record ClientRequestArgs : Type 0 where
  pub command : List ℕ

pub record ClientResponseReply : Type 0 where
  pub success : Bool
  pub leader_id : Option NodeId
  pub result : Option (List ℕ)

pub data RaftMessage : Type 0 where
  request_vote : RequestVoteArgs → RaftMessage
  request_vote_response : RequestVoteReply → RaftMessage
  append_entries : AppendEntriesArgs → RaftMessage
  append_entries_response : AppendEntriesReply → RaftMessage
  client_request : ClientRequestArgs → RaftMessage
  client_response : ClientResponseReply → RaftMessage

pub data RaftState : Type 0 where
  follower candidate leader : RaftState

pub record RaftConfig : Type 0 where
  pub node_id : NodeId
  pub peers : List NodeId
  pub election_timeout_min : ℕ
  pub election_timeout_max : ℕ
  pub heartbeat_interval : ℕ

pub record RaftNode : Type 0 where
  pub config : RaftConfig
  pub state : RaftState
  pub current_term : ℕ
  pub voted_for : Option NodeId
  pub log : List LogEntry
  pub commit_index : ℕ
  pub last_applied : ℕ
  pub next_index : Assoc NodeId ℕ
  pub match_index : Assoc NodeId ℕ
  pub last_heartbeat : ℕ

-- `RaftNode::new`, at the time `now`. A repeated peer is one entry of the maps, of the same value.
unfoldable pub new : RaftConfig → ℕ → RaftNode
new config now = record {
  config = config;
  state = follower;
  current_term = 0;
  voted_for = none;
  log = [];
  commit_index = 0;
  last_applied = 0;
  next_index = map (λ p. (p, 1)) config.peers;
  match_index = map (λ p. (p, 0)) config.peers;
  last_heartbeat = now;
}

unfoldable pub is_leader : RaftState → Bool
is_leader leader = true
is_leader _ = false

unfoldable pub is_candidate : RaftState → Bool
is_candidate candidate = true
is_candidate _ = false

-- `log.last().map(|e| e.term).unwrap_or(0)`
unfoldable pub last_term : List LogEntry → ℕ
last_term [] = 0
last_term (e ∷ []) = e.term
last_term (e ∷ f ∷ log) = last_term (f ∷ log)

-- A newer term: take it over, become a follower, forget the vote.
unfoldable pub step_down : ℕ → RaftNode → RaftNode
step_down term n = record n { current_term = term; state = follower; voted_for = none }

-- `(i - 1) as usize` in a release build.
unfoldable pub position : ℕ → ℕ
position zero = 2 ^ 64 - 1
position (suc i) = i
