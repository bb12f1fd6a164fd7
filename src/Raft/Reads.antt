-- ===== src/Raft/Reads.antt =====
-- `begin_read` and `confirm_read` of raft/node.rs, and `should_start_election` of raft/timer.rs.
pub mod Tokens
use oxide_kv.Common.{
  ℕ, ◌-◌, Bool, true, false, ◌&&◌, Option, none, some, List, [], ltb, leb, if◌then◌else◌,
}
use oxide_kv.Text.{Str}
use oxide_kv.Protocol.{ReadIndex}
use oxide_kv.Raft.{RaftNode, NodeState, is_leader, AppendEntriesArgs}
use oxide_kv.Raft.Replicate.{sync_logs}

-- The token of the read, and the requests of the round of heartbeats that `sync_logs` starts.
unfoldable pub begin_read :
    ℕ → ℕ → RaftNode → RaftNode × List (Str × AppendEntriesArgs) × Option ReadIndex
unfolding sync_logs
begin_read now unix_now n =
    let (synced, sent) = sync_logs unix_now n in
    if is_leader n.state
    then (synced, sent, some (record { index = n.commit_index; issued_at = now }))
    else (n, [], none)

-- `max_election_timeout_ms` is that of the configuration; times are milliseconds.
unfoldable pub confirm_read : ℕ → ℕ → ReadIndex → RaftNode → Bool
confirm_read max_election_timeout_ms now ri n =
    if is_leader n.state
    then (if ltb n.last_applied ri.index then false else elim n.last_quorum_heartbeat_at [
      | none ↦ false
      | some t ↦ ltb (now - t) max_election_timeout_ms && leb ri.issued_at t
    ])
    else false

-- `duration_since` is 0 for an instant that lies ahead.
unfoldable pub should_start_election : NodeState → ℕ → ℕ → ℕ → Bool
should_start_election state last_heartbeat now election_threshold =
    if is_leader state then false else leb election_threshold (now - last_heartbeat)
