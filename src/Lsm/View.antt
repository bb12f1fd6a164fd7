-- ===== src/Lsm/View.antt =====
-- The abstract store behind `StateMachine`: a key reads as the newest row that names it, over the
-- memtable and then the SSTables. `IsValid` ties the handles to the files on disk.
pub mod Rows
pub mod Files
use oxide_kv.Common.{ℕ, ◌<◌, ◌≡◌, Option, none, some, List, [], ◌∷◌, map, All, if◌then◌else◌}
use oxide_kv.Text.{Str, ◌=s◌}
use oxide_kv.Map
use oxide_kv.Map.{Map}
use oxide_kv.Map.Order.{IsSorted}
use oxide_kv.Lsm.{StateMachine, MemEntry, sst_entry, table_meta}
use oxide_kv.Lsm.Disk.{
  SstEntry, SstableHandle, SstFile, DataDir, ok, err, load_sst_entries, find_file,
}

-- The first row for `key`: `some none` is a tombstone.
unfoldable pub row_of : Str → List SstEntry → Option MemEntry
row_of key [] = none
row_of key (e ∷ es) =
    if e.key =s key then some (if e.tombstone then none else e.value) else row_of key es

unfoldable pub row : DataDir → Str → SstableHandle → Option MemEntry
unfolding row_of load_sst_entries
row disk key sst = elim (load_sst_entries sst.path disk) [
  | ok entries ↦ row_of key entries
  | err e ↦ none
]

abbrev pub or_else : Option MemEntry → MemEntry → MemEntry
or_else none older = older
or_else (some newer) older = newer

-- What the tables hold for a key, oldest first, over what older ones gave.
unfoldable pub view_tables : DataDir → Str → MemEntry → List SstableHandle → MemEntry
view_tables disk key older [] = older
view_tables disk key older (sst ∷ ssts) =
    view_tables disk key (or_else (row disk key sst) older) ssts

-- The value that the store holds for a key.
unfoldable pub view : Str → StateMachine → Option Str
view key sm = or_else (Map.get key sm.memtable) (view_tables sm.disk key none sm.sstables)

-- The file of a handle: sorted rows, a sidecar that agrees with the handle and with the rows.
pub record IsTable (disk : DataDir) (sst : SstableHandle) : Type 0 where
  pub rows : Map MemEntry
  pub stored :
      find_file sst.path disk.files
      ≡ some (record { entries = map sst_entry rows; sidecar = sst.meta })
  pub meta : sst.meta ≡ table_meta sst.path (map sst_entry rows)
  pub sorted : IsSorted rows

pub record IsValid (sm : StateMachine) : Type 0 where
  pub sorted : IsSorted sm.memtable
  pub tables : All (IsTable sm.disk) sm.sstables
  pub fresh : All (λ h. h.path < sm.next_sst_id) sm.sstables
