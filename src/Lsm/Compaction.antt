-- ===== src/Lsm/Compaction.antt =====
-- `compact` of state_machine.rs.
pub mod Merge
pub mod Keeps
use oxide_kv.Common.{
  ℕ, ◌+◌, Bool, Option, none, some, List, [], ◌∷◌, ◌++◌, map, length, filter, ltb, not,
  if◌then◌else◌,
}
use oxide_kv.Text.{Str}
use oxide_kv.Map
use oxide_kv.Map.{Map, values}
use oxide_kv.Lsm.{StateMachine, table_meta}
use oxide_kv.Lsm.Disk.{
  SstEntry, SstableHandle, DataDir, Result, ok, err, load_sst_entries, write_sst, remove_ssts,
  ◌>>=◌,
}

unfoldable pub merge_entries : Map SstEntry → List SstEntry → Map SstEntry
merge_entries merged [] = merged
merge_entries merged (e ∷ es) = merge_entries (Map.insert e.key e merged) es

unfoldable pub merge_ssts : DataDir → Map SstEntry → List SstableHandle → Result (Map SstEntry)
unfolding merge_entries load_sst_entries
merge_ssts disk merged [] = ok merged
merge_ssts disk merged (sst ∷ ssts) = elim (load_sst_entries sst.path disk) [
  | ok entries ↦ merge_ssts disk (merge_entries merged entries) ssts
  | err e ↦ err e
]

-- `merged.retain(|_, v| !v.tombstone)` and `into_values`
unfoldable pub live_entries : Map SstEntry → List SstEntry
live_entries merged = filter (λ e. not e.tombstone) (values merged)

-- The new table takes the place of all others.
unfoldable pub replace_tables : List SstEntry → StateMachine → StateMachine
unfolding table_meta
replace_tables entries sm =
    let meta = table_meta sm.next_sst_id entries in
    record sm {
      next_sst_id = sm.next_sst_id + 1;
      sstables = record { path = sm.next_sst_id; meta = meta } ∷ [];
      disk = remove_ssts sm.sstables (write_sst sm.next_sst_id entries meta sm.disk);
    }

unfoldable pub compact : StateMachine → Result StateMachine
unfolding merge_ssts live_entries replace_tables
compact sm =
    if ltb (length sm.sstables) 2
    then ok sm
    else do merged ← merge_ssts sm.disk [] sm.sstables; ok (replace_tables (live_entries merged) sm)
