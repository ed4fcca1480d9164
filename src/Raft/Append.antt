-- ===== src/Raft/Append.antt =====
-- storage/src/raft/mod.rs: `handle_append_entries`.
use chono_db.Prelude.{
  ℕ, ◌+◌, min, ltb, leb, ◌==◌, if◌then◌else◌, true, false, Option, none, some, List, [], ◌∷◌, ◌++◌,
  length, take, get_elem?,
}
use chono_db.Raft.Node.{
  LogEntry, RaftNode, AppendEntriesArgs, AppendEntriesReply, step_down, position,
}

-- The body of `for entry in args.entries`, where `existing` is `log.get((entry.index - 1))`.
place : LogEntry → Option LogEntry → List LogEntry → List LogEntry
place entry none log = log
place entry (some existing) log =
    if existing.term == entry.term then log else take (position entry.index) log ++ (entry ∷ [])

unfoldable pub append_entry : List LogEntry → LogEntry → List LogEntry
unfolding place
append_entry log entry =
    if leb entry.index (length log)
    then place entry (get_elem? log (position entry.index)) log
    else log ++ (entry ∷ [])

unfoldable pub append_all : List LogEntry → List LogEntry → List LogEntry
append_all log [] = log
append_all log (entry ∷ entries) = append_all (append_entry log entry) entries

abbrev refused : ℕ → Option AppendEntriesReply
refused term = some (record { term = term; success = false; match_index = 0 })

-- The handler once the terms agree and the log has passed the consistency check.
accept : AppendEntriesArgs → RaftNode → RaftNode × Option AppendEntriesReply
accept args n =
    let log = append_all n.log args.entries in
    (
      record n {
        log = log;
        commit_index =
            if ltb n.commit_index args.leader_commit
            then min args.leader_commit (length log)
            else n.commit_index;
      },
      some (record {
        term = args.term;
        success = true;
        match_index = args.prev_log_index + length args.entries;
      }),
    )

-- `if entry.term != args.prev_log_term`, for the entry at `prev_log_index`. Rust's indexing panics
-- out of bounds, and the test before it leaves no such case.
check_previous :
    AppendEntriesArgs → Option LogEntry → RaftNode → RaftNode × Option AppendEntriesReply
check_previous args none n = (n, refused args.term)
check_previous args (some entry) n =
    if entry.term == args.prev_log_term
    then accept args n
    else (record n { log = take (position args.prev_log_index) n.log }, refused args.term)

check_log : AppendEntriesArgs → RaftNode → RaftNode × Option AppendEntriesReply
check_log args n =
    if ltb 0 args.prev_log_index
    then if ltb (length n.log) args.prev_log_index
      then (n, refused args.term)
      else check_previous args (get_elem? n.log (position args.prev_log_index)) n
    else accept args n

-- The node after the request, and the reply that the handler builds.
unfoldable pub handle_append_entries :
    AppendEntriesArgs → ℕ → RaftNode → RaftNode × Option AppendEntriesReply
unfolding check_log check_previous accept
handle_append_entries args now n =
    if ltb args.term n.current_term
    then (n, refused n.current_term)
    else let heard = record n { last_heartbeat = now } in
      check_log args (if ltb n.current_term args.term then step_down args.term heard else heard)
