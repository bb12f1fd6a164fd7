-- ===== src/Raft/Snapshots.antt =====
-- `handle_install_snapshot` and `maybe_snapshot` of raft/node.rs.
pub mod Installs
pub mod Restores
use oxide_kv.Common.{
  ℕ, ◌-◌, Bool, true, false, ◌&&◌, Option, none, some, [], ◌∷◌, filter, ltb, leb, ◌==◌, max, not,
  if◌then◌else◌,
}
use oxide_kv.Text.{Str}
use oxide_kv.Map.{Map}
use oxide_kv.Protocol.{LogEntry, Snapshot}
use oxide_kv.Lsm
use oxide_kv.Lsm.{StateMachine}
use oxide_kv.Lsm.Disk.{ok, err}
use oxide_kv.Storage.{save_snapshot, rewrite_wal_after_snapshot, wal_size_bytes}
use oxide_kv.Raft.{RaftNode, is_leader, InstallSnapshotArgs, InstallSnapshotReplyArgs}
use oxide_kv.Raft.Append.{follow}
use oxide_kv.Raft.Replicate.{term_at}

-- Step 3: every pair of the snapshot goes through `set`.
unfoldable pub set_all : Map Str → StateMachine → StateMachine
set_all [] sm = sm
set_all ((k, v) ∷ entries) sm = set_all entries (Lsm.set k v sm)

-- Steps 2 to 5.
unfoldable pub load_into : ℕ → Snapshot → RaftNode → RaftNode
unfolding save_snapshot rewrite_wal_after_snapshot set_all
load_into last_included snapshot n = record n {
  state_machine = set_all snapshot.entries (Lsm.clear_for_snapshot n.state_machine);
  storage = (rewrite_wal_after_snapshot last_included (save_snapshot snapshot n.storage)).0;
  log = filter (λ e. ltb last_included e.index) n.log;
  commit_index = max last_included n.commit_index;
  last_applied = max last_included n.last_applied;
}

unfoldable pub handle_install_snapshot :
    ℕ → InstallSnapshotArgs → RaftNode → RaftNode × InstallSnapshotReplyArgs
unfolding follow load_into
handle_install_snapshot now args n =
    if ltb args.term n.current_term
    then (n, record { term = n.current_term })
    else if args.term == n.current_term && is_leader n.state
    then (n, record { term = n.current_term })
    else (let f = follow now args.term n in
        (load_into args.last_included_index args.snapshot f, record { term = f.current_term }))

-- The size of the WAL is the sum over its entries of what `bincode` writes for each. Where
-- `snapshot_data` fails the source panics: `none`.
module _ (entry_size : LogEntry → ℕ) where
  -- The early returns before the state machine is read.
  unfoldable pub is_snapshot_due : ℕ → RaftNode → Bool
  unfolding wal_size_bytes
  is_snapshot_due threshold_bytes n =
      if is_leader n.state
      then (if leb (wal_size_bytes entry_size n.storage) threshold_bytes
          then false
          else not (n.commit_index == 0))
      else false

  unfoldable pub maybe_snapshot : ℕ → RaftNode → Option (RaftNode × Bool)
  unfolding is_snapshot_due save_snapshot rewrite_wal_after_snapshot
  maybe_snapshot threshold_bytes n =
      if is_snapshot_due threshold_bytes n
      then elim (Lsm.snapshot_data n.state_machine) [
        | err _ ↦ none
        | ok entries ↦
            let snap : Snapshot = record {
              last_included_index = n.commit_index;
              last_included_term = term_at (n.commit_index - 1) n.log;
              entries = entries;
            } in
            some (
              record n {
                storage =
                    (rewrite_wal_after_snapshot n.commit_index (save_snapshot snap n.storage)).0;
              },
              true,
            )
      ]
      else some (n, false)
