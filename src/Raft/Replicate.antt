-- ===== src/Raft/Replicate.antt =====
-- `sync_logs` and `maybe_commit` of raft/node.rs: the request for each peer, what the leader does
-- with a reply, and the commit rule.
pub mod Commit
pub mod Catchup
use oxide_kv.Common.{
  ℕ, zero, ◌+◌, ◌-◌, Bool, true, false, Option, none, some, List, [], ◌∷◌, length, get_elem?, drop,
  ltb, leb, ◌==◌, if◌then◌else◌,
}
use oxide_kv.Text.{Str}
use oxide_kv.Map
use oxide_kv.Protocol.{LogEntry}
use oxide_kv.Protocol.Quorum.{config_quorum_reached_index}
use oxide_kv.Raft.{RaftNode, follower, is_leader, AppendEntriesArgs, AppendReplyArgs, adopt_term}
use oxide_kv.Raft.Apply.{apply_logs}

-- `log.get(i).map(|e| e.term).unwrap_or(0)`
abbrev pub term_at : ℕ → List LogEntry → ℕ
term_at i log = elim (get_elem? log i) [ none ↦ 0 | some e ↦ e.term ]

unfoldable pub maybe_commit : ℕ → RaftNode → RaftNode
unfolding config_quorum_reached_index apply_logs
maybe_commit unix_now n =
    let highest =
      config_quorum_reached_index n.current_config n.match_index n.node_id (length n.log) in
    if is_leader n.state
    then (if ltb n.commit_index highest
        then (if term_at (highest - 1) n.log == n.current_term
            then apply_logs unix_now (record n { commit_index = highest })
            else n)
        else n)
    else n

-- `*next_index.get(peer).unwrap_or(&1)`
abbrev pub next_index_for : Str → RaftNode → ℕ
next_index_for peer n = elim (Map.get peer n.next_index) [ none ↦ 1 | some i ↦ i ]

unfoldable pub append_args_for : Str → RaftNode → AppendEntriesArgs
append_args_for peer n =
    let next = next_index_for peer n in
    let prev_idx = next - 1 in
    record {
      term = n.current_term;
      leader_id = n.node_id;
      prev_log_index = prev_idx;
      prev_log_term = if prev_idx == 0 then 0 else term_at (prev_idx - 1) n.log;
      entries = if leb next (length n.log) then drop (next - 1) n.log else [];
      leader_commit = n.commit_index;
    }

-- The task of a peer at its reply.
unfoldable pub on_append_reply :
    ℕ → ℕ → Str → AppendEntriesArgs → AppendReplyArgs → RaftNode → RaftNode
unfolding maybe_commit adopt_term
on_append_reply now unix_now peer args reply n =
    if reply.success
    then (let last_idx = args.prev_log_index + length args.entries in
        maybe_commit unix_now (record n {
          match_index = Map.insert peer last_idx n.match_index;
          next_index = Map.insert peer (last_idx + 1) n.next_index;
          last_quorum_heartbeat_at = some now;
        }))
    else if ltb n.current_term reply.term
    then record (adopt_term reply.term n) { state = follower }
    else (let next = next_index_for peer n in
        if ltb 1 next then record n { next_index = Map.insert peer (next - 1) n.next_index } else n)

-- One request for every peer.
unfoldable pub requests : RaftNode → List Str → List (Str × AppendEntriesArgs)
unfolding append_args_for
requests n [] = []
requests n (p ∷ ps) = (p, append_args_for p n) ∷ requests n ps

-- A single node commits at once, any other sends the requests.
unfoldable pub sync_peers : ℕ → List Str → RaftNode → RaftNode × List (Str × AppendEntriesArgs)
unfolding maybe_commit requests
sync_peers unix_now [] n = (maybe_commit unix_now n, [])
sync_peers unix_now (p ∷ ps) n = (n, requests n (p ∷ ps))

unfoldable pub sync_logs : ℕ → RaftNode → RaftNode × List (Str × AppendEntriesArgs)
unfolding sync_peers
sync_logs unix_now n = sync_peers unix_now n.peers n
