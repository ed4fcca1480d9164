-- ===== src/Raft/Tests.antt =====
-- A run of a node of three, and the theorems at concrete inputs.
use chono_db.Prelude.{ℕ, ◌+◌, ◌≡◌, refl, arith, true, some, List, [], ◌∷◌, ◌++◌, take}
use chono_db.Prelude.Assoc.{lookup}
use chono_db.Raft.Node.{
  LogEntry, RequestVoteArgs, RequestVoteReply, AppendEntriesArgs, AppendEntriesReply, RaftConfig,
  RaftNode, leader, new, step_down, request_vote, is_leader, last_term, request_vote_response,
  client_request,
}
use chono_db.Raft.Append.{handle_append_entries}
use chono_db.Raft.Handlers.{
  handle_request_vote, handle_append_entries_response, heartbeat, Event, election_tick, message,
  round, handle_election_timeout, run,
}
use chono_db.Raft.AppendLaws.{merge}
use chono_db.Raft.Replicate.{terms, append_entries_merges, heartbeat_replicates}
use chono_db.Raft.Votes.{Later, run-Later, one_vote_per_term}
use chono_db.Raft.Commit.{replies_never_commit, one_vote_leads, heartbeat_commits_unchecked}

abbrev three : RaftConfig
three = record {
  node_id = "a";
  peers = "b" ∷ "c" ∷ [];
  election_timeout_min = 150;
  election_timeout_max = 300;
  heartbeat_interval = 50;
}

abbrev ask : RequestVoteArgs
ask = record { term = 4; candidate_id = "b"; last_log_index = 0; last_log_term = 0 }

abbrev yes_4 : RequestVoteReply
yes_4 = record { term = 4; vote_granted = true }

abbrev voted : RaftNode
voted = record (step_down 4 (new three 0)) { voted_for = some "b" }

grants : handle_request_vote ask (new three 0) ≡ (voted, some yes_4)
unfolding handle_request_vote new step_down last_term
grants = refl

run-Later_example :
    Later (new three 0) (run (election_tick ∷ message (request_vote ask) 7 ∷ []) (new three 0))
unfolding new round handle_election_timeout is_leader
run-Later_example =
    run-Later (election_tick ∷ message (request_vote ask) 7 ∷ []) (new three 0) (omega arith)

grants_again : handle_request_vote ask (run [] voted) ≡ (voted, some yes_4)
unfolding handle_request_vote new step_down last_term run
grants_again = refl

one_vote_per_term_example : ask.candidate_id ≡ ask.candidate_id
one_vote_per_term_example =
    one_vote_per_term ask ask (new three 0) voted voted yes_4 yes_4 [] grants refl tt grants_again
      refl refl

abbrev at : ℕ → ℕ → LogEntry
at i t = record { index = i; term = t; command = [] }

-- Two entries of term 1; the leader of term 2 replaces the second.
abbrev behind : RaftNode
behind = record (new three 0) { current_term = 1; log = at 1 1 ∷ at 2 1 ∷ [] }

abbrev fix_second : AppendEntriesArgs
fix_second = record {
  term = 2;
  leader_id = "b";
  prev_log_index = 1;
  prev_log_term = 1;
  entries = at 2 2 ∷ at 3 2 ∷ [];
  leader_commit = 1;
}

append_entries_merges_example :
    ((handle_append_entries fix_second 9 behind).0.log
      ≡ (at 1 1 ∷ []) ++ merge (at 2 1 ∷ []) (at 2 2 ∷ at 3 2 ∷ []))
    × ((handle_append_entries fix_second 9 behind).0.commit_index ≡ 1)
    × ((handle_append_entries fix_second 9 behind).1
        ≡ some (record { term = 2; success = true; match_index = 3 }))
unfolding new last_term
append_entries_merges_example =
    append_entries_merges fix_second 9 behind (at 1 1 ∷ []) (at 2 1 ∷ []) (omega arith) refl refl
      (λ _. refl) (refl, (refl, tt))

abbrev leading : RaftNode
leading = record (new three 0) {
  state = leader;
  current_term = 2;
  log = at 1 1 ∷ at 2 2 ∷ [];
  next_index = ("b", 2) ∷ ("c", 1) ∷ [];
}

heartbeat_replicates_example :
    take 2 (terms (handle_append_entries (heartbeat leading "b") 9 behind).0.log) ≡ 1 ∷ 2 ∷ []
unfolding new lookup
heartbeat_replicates_example =
    heartbeat_replicates leading "b" (at 1 1 ∷ []) (at 2 2 ∷ []) refl refl behind (at 2 1 ∷ []) 9
      (omega arith) refl (refl, (refl, tt))

abbrev good : AppendEntriesReply
good = record { term = 1; success = true; match_index = 1 }

abbrev elected : List Event
elected =
    election_tick
    ∷ message (request_vote_response (record { term = 1; vote_granted = true })) 3
    ∷ message (client_request (record { command = 7 ∷ [] })) 4
    ∷ []

replies_never_commit_example :
    (handle_append_entries_response good (run elected (new three 0))).commit_index
    ≡ (run elected (new three 0)).commit_index
replies_never_commit_example = replies_never_commit three 0 elected good (omega arith)

one_vote_leads_example :
    let granted : RequestVoteReply = record { term = 0; vote_granted = true } in
    let n = run (election_tick ∷ message (request_vote_response granted) 5 ∷ []) (new three 0) in
    (n.state ≡ leader) × (n.current_term ≡ 1) × (n.config ≡ three)
one_vote_leads_example = one_vote_leads three 0 5 0 (omega arith)

abbrev beat : AppendEntriesArgs
beat = record fix_second { entries = []; leader_commit = 5 }

heartbeat_commits_unchecked_example : (handle_append_entries beat 9 behind).0.commit_index ≡ 1 + 1
unfolding new last_term
heartbeat_commits_unchecked_example =
    heartbeat_commits_unchecked beat 9 behind (at 1 1 ∷ []) (at 2 1 ∷ []) (omega arith) refl refl
      (λ _. refl) refl (omega arith) (omega arith)
