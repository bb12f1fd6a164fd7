-- ===== src/Lsm.antt =====
-- state_machine.rs: the key-value store of a node, a memtable over SSTables with a write-ahead
-- log, and the staged two-phase-commit transactions. The file system takes every write; a read of
-- a file that is not there fails.
pub mod Disk
pub mod Tx
pub mod Compaction
pub mod Recovery
pub mod View
pub mod Writes
pub mod Scan
pub mod Reads
pub mod Snapshots
use oxide_kv.Common.{
  ℕ, zero, suc, ◌+◌, ◌-◌, Bool, true, false, Option, none, some, List, [], ◌∷◌, ◌++◌, Ordering, map,
  reverse, length, head?, get_last?, filter, count, ltb, leb, not, ◌&&◌, ◌||◌, if◌then◌else◌,
}
use oxide_kv.Text.{Str, cmp}
use oxide_kv.Map
use oxide_kv.Map.{Map, contains_key, values}
use oxide_kv.Protocol.{TxOp, Vote, yes_vote, no_vote, TxDecision, commit, abort}
use Disk.{
  SstEntry, SstableMeta, SstableHandle, SstFile, WalOp, DataDir, Result, ok, err, load_sst_entries,
  write_sst, remove_ssts, ◌>>=◌,
}

-- `value` of `MemEntry`; `none` is a tombstone.
abbrev pub MemEntry : Type 0
MemEntry = Option Str

pub record PendingTx : Type 0 where
  pub ops : List TxOp
  pub votes : Map Vote
  pub decision : Option TxDecision
  pub begin_unix_ms : ℕ

pub record StateMachine : Type 0 where
  pub memtable_size_threshold : ℕ
  pub memtable : Map MemEntry
  pub memtable_bytes : ℕ
  pub sstables : List SstableHandle
  pub next_sst_id : ℕ
  pub pending_txs : Map PendingTx
  -- The files below `data_dir`: the WAL and the SSTables.
  pub disk : DataDir

unfoldable pub estimate_entry : Str → ℕ
estimate_entry key = length key + 40

-- `map(String::len).unwrap_or(0)`
unfoldable pub value_len : MemEntry → ℕ
value_len none = 0
value_len (some v) = length v

unfoldable pub memtable_len : StateMachine → ℕ
memtable_len sm = count (λ e. elim e [ none ↦ false | some _ ↦ true ]) (values sm.memtable)

unfoldable pub sstable_count : StateMachine → ℕ
sstable_count sm = length sm.sstables

unfoldable pub append_wal : WalOp → StateMachine → StateMachine
append_wal op sm = record sm { disk = record sm.disk { wal = sm.disk.wal ++ op ∷ [] } }

abbrev pub sst_entry : Str × MemEntry → SstEntry
sst_entry (k, none) = record { key = k; value = none; tombstone = true }
sst_entry (k, some v) = record { key = k; value = some v; tombstone = false }

abbrev pub first_key : List SstEntry → Str
first_key entries = elim (head? entries) [ none ↦ [] | some e ↦ e.key ]

abbrev pub last_key : List SstEntry → Str
last_key entries = elim (get_last? entries) [ none ↦ [] | some e ↦ e.key ]

-- The handle and sidecar of a table of `entries` under `id`.
unfoldable pub table_meta : ℕ → List SstEntry → SstableMeta
table_meta id entries = record {
  id = id;
  first_key = first_key entries;
  last_key = last_key entries;
  entry_count = length entries;
}

-- `flush` of the entries `rows` of the memtable.
unfoldable pub flush_rows : Map MemEntry → StateMachine → StateMachine
unfolding table_meta
flush_rows [] sm = sm
flush_rows (row ∷ rows) sm =
    let entries = map sst_entry (row ∷ rows) in
    let meta = table_meta sm.next_sst_id entries in
    record sm {
      memtable = [];
      memtable_bytes = 0;
      sstables = sm.sstables ++ record { path = sm.next_sst_id; meta = meta } ∷ [];
      next_sst_id = sm.next_sst_id + 1;
      disk = record (write_sst sm.next_sst_id entries meta sm.disk) { wal = [] };
    }

unfoldable pub flush : StateMachine → StateMachine
unfolding flush_rows
flush sm = flush_rows sm.memtable sm

-- The accounting of `set` and `delete` before the new value is added.
unfoldable pub account : Str → StateMachine → ℕ
unfolding estimate_entry value_len
account key sm = elim (Map.get key sm.memtable) [
  | some prev ↦ sm.memtable_bytes - value_len prev
  | none ↦ sm.memtable_bytes + estimate_entry key
]

unfoldable pub flush_if_full : StateMachine → StateMachine
unfolding flush
flush_if_full sm = if leb sm.memtable_size_threshold sm.memtable_bytes then flush sm else sm

-- The write of a value or a tombstone to the memtable, with the bytes that it accounts for.
unfoldable pub write_entry : Str → MemEntry → ℕ → StateMachine → StateMachine
write_entry key value bytes sm = record sm {
  memtable = Map.insert key value sm.memtable;
  memtable_bytes = bytes;
}

unfoldable pub set : Str → Str → StateMachine → StateMachine
unfolding append_wal account write_entry flush_if_full
set key value sm =
    let logged = append_wal (WalOp.put key value) sm in
    flush_if_full (write_entry key (some value) (account key logged + length value) logged)

unfoldable pub delete : Str → StateMachine → StateMachine
unfolding append_wal account write_entry flush_if_full
delete key sm =
    let logged = append_wal (WalOp.delete key) sm in
    flush_if_full (write_entry key none (account key logged) logged)

-- The inner loop of `get`: `some r` when the loop returns `r`, `none` when it runs off the end.
unfoldable pub scan : Str → List SstEntry → Option (Option Str)
scan key [] = none
scan key (entry ∷ entries) =
    let rest = scan key entries in
    elim (cmp entry.key key) [
      | Ordering.eq ↦ some (if entry.tombstone then none else entry.value)
      | Ordering.gt ↦ some none
      | Ordering.lt ↦ rest
    ]

-- `key < first_key || key > last_key`
unfoldable pub out_of_range : Str → SstableMeta → Bool
out_of_range key meta =
    elim (cmp key meta.first_key) [ Ordering.lt ↦ true | _ ↦ false ]
    || elim (cmp key meta.last_key) [ Ordering.gt ↦ true | _ ↦ false ]

-- What one table answers: `none` to go on with the next older one.
unfoldable pub table_answer : DataDir → Str → SstableHandle → Option (Option Str)
unfolding scan out_of_range load_sst_entries
table_answer disk key sst =
    if out_of_range key sst.meta
    then none
    else elim (load_sst_entries sst.path disk) [ err _ ↦ none | ok entries ↦ scan key entries ]

-- The loop over the tables, newest first.
unfoldable pub get_from : DataDir → Str → List SstableHandle → Option Str
unfolding table_answer
get_from disk key [] = none
get_from disk key (sst ∷ older) =
    let rest = get_from disk key older in
    elim (table_answer disk key sst) [ some r ↦ r | none ↦ rest ]

unfoldable pub get : Str → StateMachine → Option Str
unfolding get_from
get key sm = elim (Map.get key sm.memtable) [
  | some entry ↦ entry
  | none ↦ get_from sm.disk key (reverse sm.sstables)
]

-- The loop body of `snapshot_data` for an entry of an SSTable.
unfoldable pub overlay_entry : Map Str → SstEntry → Map Str
overlay_entry result entry =
    if entry.tombstone
    then Map.remove entry.key result
    else elim entry.value [ some v ↦ Map.insert entry.key v result | none ↦ result ]

unfoldable pub overlay_entries : Map Str → List SstEntry → Map Str
unfolding overlay_entry
overlay_entries result [] = result
overlay_entries result (e ∷ es) = overlay_entries (overlay_entry result e) es

unfoldable pub overlay_ssts : DataDir → Map Str → List SstableHandle → Result (Map Str)
unfolding overlay_entries load_sst_entries
overlay_ssts disk result [] = ok result
overlay_ssts disk result (sst ∷ ssts) = elim (load_sst_entries sst.path disk) [
  | ok entries ↦ overlay_ssts disk (overlay_entries result entries) ssts
  | err e ↦ err e
]

-- The overlay of the memtable.
unfoldable pub overlay_memtable : Map Str → Map MemEntry → Map Str
overlay_memtable result [] = result
overlay_memtable result ((k, some v) ∷ m) = overlay_memtable (Map.insert k v result) m
overlay_memtable result ((k, none) ∷ m) = overlay_memtable (Map.remove k result) m

unfoldable pub snapshot_data : StateMachine → Result (Map Str)
unfolding overlay_ssts overlay_memtable
snapshot_data sm = do
  result ← overlay_ssts sm.disk [] sm.sstables
  ok (overlay_memtable result sm.memtable)

unfoldable pub clear_for_snapshot : StateMachine → StateMachine
clear_for_snapshot sm = record sm {
  memtable = [];
  memtable_bytes = 0;
  sstables = [];
  next_sst_id = 0;
  pending_txs = [];
  disk = record (remove_ssts sm.sstables sm.disk) { wal = [] };
}

-- The loop of `install_snapshot`.
unfoldable pub load_data : Map Str → StateMachine → StateMachine
unfolding estimate_entry write_entry
load_data [] sm = sm
load_data ((k, v) ∷ entries) sm =
    load_data entries (write_entry k (some v) (sm.memtable_bytes + estimate_entry k + length v) sm)

unfoldable pub install_snapshot : Map Str → StateMachine → StateMachine
unfolding clear_for_snapshot load_data
install_snapshot entries sm =
    load_data entries (record (clear_for_snapshot sm) { memtable_bytes = 0 })
