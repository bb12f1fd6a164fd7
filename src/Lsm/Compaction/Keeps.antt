-- ===== src/Lsm/Compaction/Keeps.antt =====
-- `compact` of state_machine.rs against the abstract store.
use oxide_kv.Common.{
  ℕ, ◌<◌, ◌≤◌, ◌≡◌, ◌≢◌, refl, ◌∙◌, inl, inr, true, none, some, List, [], ◌∷◌, arith, map, All,
  length, ltb, reverse, Bool-cases,
}
use oxide_kv.Text.{Str}
use oxide_kv.Map
use oxide_kv.Map.{Map}
use oxide_kv.Map.Order.{IsSorted}
use oxide_kv.Lsm.{StateMachine, MemEntry, sst_entry, table_meta, get, get_from}
use oxide_kv.Lsm.Disk.{SstableHandle, DataDir, ok, find_file, write_sst}
use oxide_kv.Lsm.View.{row, or_else, view_tables, view, IsTable, IsValid}
use oxide_kv.Lsm.View.Rows.{row-rows}
use oxide_kv.Lsm.View.Files.{find_file-write_sst, find_file-remove_ssts}
use oxide_kv.Lsm.Reads.{get_from_single}
use oxide_kv.Lsm.Compaction.{replace_tables, compact}
use oxide_kv.Lsm.Compaction.Merge.{merged, live, live_entries-keyed, live-IsSorted, get-live}

pub All-lt-ne :
    (n : ℕ) (hs : List SstableHandle) → All (λ h. h.path < n) hs → All (λ h. h.path ≢ n) hs
All-lt-ne n [] a = tt
All-lt-ne n (h ∷ hs) a = (omega (arith, a.0), All-lt-ne n hs a.1)

module _ (sm : StateMachine) (v : IsValid sm) (rows : Map MemEntry) (s : IsSorted rows) where
  abbrev after : StateMachine
  after = replace_tables (map sst_entry rows) sm

  abbrev handle : SstableHandle
  handle = record { path = sm.next_sst_id; meta = table_meta sm.next_sst_id (map sst_entry rows) }

  handle-stored :
      find_file sm.next_sst_id after.disk.files
      ≡ some (record { entries = map sst_entry rows; sidecar = handle.meta })
  unfolding replace_tables
  handle-stored =
      let disk : DataDir = write_sst sm.next_sst_id (map sst_entry rows) handle.meta sm.disk in
      find_file-remove_ssts sm.next_sst_id sm.sstables disk
        (All-lt-ne sm.next_sst_id sm.sstables v.fresh)
      ∙ ground (
        arith,
        find_file-write_sst sm.next_sst_id sm.next_sst_id (map sst_entry rows) handle.meta sm.disk,
      )

  handle-IsTable : IsTable after.disk handle
  handle-IsTable = record { rows = rows; stored = handle-stored; meta = refl; sorted = s }

  row-handle : (key : Str) → row after.disk key handle ≡ Map.get key rows
  unfolding handle-IsTable
  row-handle key = row-rows after.disk key handle handle-IsTable

  after-IsValid : IsValid after
  unfolding replace_tables
  after-IsValid = record {
    sorted = v.sorted;
    tables = (handle-IsTable, tt);
    fresh = (omega arith, tt);
  }

  view-after :
      (key : Str)
      → or_else (Map.get key rows) none ≡ view_tables sm.disk key none sm.sstables
      → view key after ≡ view key sm
  unfolding replace_tables view view_tables
  view-after key e = ground (arith, row-handle key)

  get-after : (key : Str) → get key after ≡ view key after
  unfolding replace_tables get view view_tables
  get-after key = ground (arith, get_from_single after.disk key handle handle-IsTable)

get_few :
    (disk : DataDir) (key : Str) (hs : List SstableHandle)
    → All (IsTable disk) hs
    → ltb (length hs) 2 ≡ true
    → get_from disk key (reverse hs) ≡ view_tables disk key none hs
unfolding get_from view_tables
get_few disk key [] t e = refl
get_few disk key (h ∷ []) t e = get_from_single disk key h t.0
get_few disk key (h ∷ g ∷ hs) t e = absurd (ground arith)

-- What `compact` leaves of a store.
pub record Compacted (sm after : StateMachine) : Type 0 where
  pub valid : IsValid after
  pub views : (key : Str) → view key after ≡ view key sm
  pub reads : (key : Str) → get key after ≡ view key sm
  pub single : length after.sstables ≤ 1

-- Compaction of a valid store succeeds, keeps the value of every key, leaves one table at most,
-- and then every read returns the value that the store held before.
pub compact-Compacted :
    (sm : StateMachine)
    → IsValid sm
    → (after : StateMachine) × (compact sm ≡ ok after) × Compacted sm after
unfolding compact Map.get
compact-Compacted sm v = elim (Bool-cases (ltb (length sm.sstables) 2)) [
  | inl few ↦ (
    sm,
    ground arith,
    record {
      valid = v;
      views = λ key. refl;
      reads =
          λ key. unfold get view in ground (arith, get_few sm.disk key sm.sstables v.tables few);
      single = ground arith;
    },
  )
  | inr many ↦
      let m = merged sm.disk [] sm.sstables tt v.tables in
      let s = live-IsSorted m.out m.sorted in
      let rows : Map MemEntry = live m.out in
      let same : (key : Str)
          → or_else (Map.get key rows) none ≡ view_tables sm.disk key none sm.sstables =
        λ key. get-live key m.out m.sorted ∙ m.reads key in
      (
        replace_tables (map sst_entry rows) sm,
        ground (arith, m.loaded, live_entries-keyed m.out),
        record {
          valid = after-IsValid sm v rows s;
          views = λ key. view-after sm v rows s key (same key);
          reads = λ key. get-after sm v rows s key ∙ view-after sm v rows s key (same key);
          single = unfold replace_tables in omega arith;
        },
      )
]
