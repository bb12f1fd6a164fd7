-- ===== src/Raft/Snapshots/Restores.antt =====
-- A snapshot that a leader takes and the start of a node from it: `maybe_snapshot` and
-- `restore_from_snapshot` of raft/node.rs.
use oxide_kv.Common.{◌≤◌, ◌≡◌, ◌-◌, filter, ltb}
use oxide_kv.Text.{Str}
use oxide_kv.Map
use oxide_kv.Map.{Map}
use oxide_kv.Raft.Replicate.{term_at}
use oxide_kv.Protocol.{Snapshot}
use oxide_kv.Lsm.View.{view, IsValid}
use oxide_kv.Storage.{save_snapshot, rewrite_wal_after_snapshot}
use oxide_kv.Raft.{RaftNode, restore_from_snapshot}

-- A leader's snapshot of `n`, and any node `m` that starts from its disk.
pub record Restored (n after m : RaftNode) : Type 0 where
  pub memory : after.log ≡ n.log
  pub values :
      (key : Str) → view key (restore_from_snapshot m).0.state_machine ≡ view key n.state_machine
  pub valid : IsValid (restore_from_snapshot m).0.state_machine
  pub commit : n.commit_index ≤ (restore_from_snapshot m).0.commit_index
  pub applied : n.commit_index ≤ (restore_from_snapshot m).0.last_applied
  pub wal : after.storage.wal ≡ filter (λ e. ltb n.commit_index e.index) n.storage.wal

-- The node after a snapshot of the entries `out`.
abbrev taken : RaftNode → Map Str → RaftNode
taken n out =
    let snap : Snapshot = record {
      last_included_index = n.commit_index;
      last_included_term = term_at (n.commit_index - 1) n.log;
      entries = out;
    } in
    record n {
      storage = (rewrite_wal_after_snapshot n.commit_index (save_snapshot snap n.storage)).0;
    }
