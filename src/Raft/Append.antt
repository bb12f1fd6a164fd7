-- ===== src/Raft/Append.antt =====
-- `handle_append_entries` of raft/node.rs.
pub mod Logs
pub mod Sound
pub mod Accepts
pub mod Safety
pub mod Tail
pub mod Settled
pub mod Again
use oxide_kv.Common.{
  ℕ, ◌+◌, ◌-◌, ◌%◌, ◌^◌, Bool, true, false, ◌&&◌, Option, none, some, List, [], ◌∷◌, ◌++◌, length,
  get_elem?, take, min, ltb, ◌==◌, if◌then◌else◌,
}
use oxide_kv.Protocol.{LogEntry}
use oxide_kv.Storage.{append_wal_log}
use oxide_kv.Raft.{RaftNode, follower, is_leader, AppendEntriesArgs, AppendReplyArgs, adopt_term}
use oxide_kv.Raft.Apply.{apply_logs}

-- `entry.index - 1` on a 64-bit `usize`; it wraps at 0.
abbrev pub pred_usize : ℕ → ℕ
pred_usize i = (i + (2 ^ 64 - 1)) % 2 ^ 64

-- The entry goes to the end of the log and of the WAL.
unfoldable pub push_entry : LogEntry → RaftNode → RaftNode
unfolding append_wal_log
push_entry entry n = record n {
  log = n.log ++ entry ∷ [];
  storage = append_wal_log entry n.storage;
}

-- The body of the loop over the entries, with the position of the entry.
unfoldable pub append_at : ℕ → LogEntry → RaftNode → RaftNode
unfolding push_entry
append_at idx entry n = elim (get_elem? n.log idx) [
  | none ↦ push_entry entry n
  | some mine ↦
      if mine.term == entry.term then n else push_entry entry (record n { log = take idx n.log })
]

unfoldable pub append_entry : LogEntry → RaftNode → RaftNode
unfolding append_at
append_entry entry n = append_at (pred_usize entry.index) entry n

unfoldable pub append_all : List LogEntry → RaftNode → RaftNode
unfolding append_entry
append_all [] n = n
append_all (e ∷ es) n = append_all es (append_entry e n)

-- The consistency check on the entry before the new ones.
unfoldable pub is_consistent : ℕ → ℕ → List LogEntry → Bool
is_consistent prev_log_index prev_log_term log =
    if ltb 0 prev_log_index
    then elim (get_elem? log (prev_log_index - 1)) [
      | none ↦ false
      | some e ↦ e.term == prev_log_term
    ]
    else true

unfoldable pub advance_commit : ℕ → ℕ → RaftNode → RaftNode
unfolding apply_logs
advance_commit unix_now leader_commit n =
    if ltb n.commit_index leader_commit
    then apply_logs unix_now (record n { commit_index = min leader_commit (length n.log) })
    else n

-- The node after the term checks: a follower of the leader's term.
unfoldable pub follow : ℕ → ℕ → RaftNode → RaftNode
unfolding adopt_term
follow now term n =
    let adopted = if ltb n.current_term term then adopt_term term n else n in
    record adopted { state = follower; last_heartbeat = now }

unfoldable pub handle_append_entries :
    ℕ → ℕ → AppendEntriesArgs → RaftNode → RaftNode × AppendReplyArgs
unfolding follow is_consistent append_all advance_commit
handle_append_entries now unix_now args n =
    if ltb args.term n.current_term
    then (n, record { term = n.current_term; success = false })
    else if args.term == n.current_term && is_leader n.state
    then (n, record { term = n.current_term; success = false })
    else (let f = follow now args.term n in
        if is_consistent args.prev_log_index args.prev_log_term f.log
        then (
          advance_commit unix_now args.leader_commit (append_all args.entries f),
          record { term = f.current_term; success = true },
        )
        else (f, record { term = f.current_term; success = false }))
