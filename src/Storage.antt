-- ===== src/Storage.antt =====
-- raft/storage.rs: the files of `RaftStorage`. The WAL is the sequence of its entries (`bincode`
-- reads back what it wrote), the metadata file a term and a vote, the snapshot file a snapshot; a
-- write replaces a file at once or appends to it, and succeeds.
use oxide_kv.Common.{ℕ, ◌+◌, Option, none, some, List, [], ◌∷◌, ◌++◌, length, filter, ltb}
use oxide_kv.Text.{Str}
use oxide_kv.Protocol.{LogEntry, Snapshot}

pub record RaftStorage : Type 0 where
  pub wal : List LogEntry
  pub meta : Option (ℕ × Option Str)
  pub snapshot : Option Snapshot

unfoldable pub append_wal_log : LogEntry → RaftStorage → RaftStorage
append_wal_log entry st = record st { wal = st.wal ++ entry ∷ [] }

unfoldable pub restore_wal_log : RaftStorage → List LogEntry
restore_wal_log st = st.wal

unfoldable pub save_meta : ℕ → Option Str → RaftStorage → RaftStorage
save_meta term vote st = record st { meta = some (term, vote) }

unfoldable pub read_meta : RaftStorage → ℕ × Option Str
read_meta st = elim st.meta [ none ↦ (0, none) | some m ↦ m ]

unfoldable pub load_initial_state : RaftStorage → ℕ × Option Str × List LogEntry
unfolding read_meta restore_wal_log
load_initial_state st = let (term, vote) = read_meta st in (term, vote, restore_wal_log st)

unfoldable pub save_snapshot : Snapshot → RaftStorage → RaftStorage
save_snapshot s st = record st { snapshot = some s }

unfoldable pub load_snapshot : RaftStorage → Option Snapshot
load_snapshot st = st.snapshot

unfoldable pub rewrite_wal_after_snapshot : ℕ → RaftStorage → RaftStorage × ℕ
unfolding restore_wal_log
rewrite_wal_after_snapshot snapshot_index st =
    let entries = filter (λ e. ltb snapshot_index e.index) (restore_wal_log st) in
    (record st { wal = entries }, length entries)

-- The bytes of a log entry in the WAL are those of `bincode`, given as `entry_size`.
module _ (entry_size : LogEntry → ℕ) where
  unfoldable pub total_size : List LogEntry → ℕ
  total_size [] = 0
  total_size (e ∷ es) = entry_size e + total_size es

  unfoldable pub wal_size_bytes : RaftStorage → ℕ
  unfolding total_size
  wal_size_bytes st = total_size st.wal
