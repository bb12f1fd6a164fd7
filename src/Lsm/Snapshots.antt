-- ===== src/Lsm/Snapshots.antt =====
-- `snapshot_data`, `clear_for_snapshot` and `install_snapshot` of state_machine.rs against the
-- abstract store.
pub mod Sorted
use oxide_kv.Common.{◌+◌, ◌≡◌, refl, ◌∙◌, none, some, List, [], ◌∷◌, arith, map, All, length}
use oxide_kv.Text.{Str, eq_of_cmp}
use oxide_kv.Map
use oxide_kv.Map.{Map}
use oxide_kv.Map.Laws.{get-insert, get-remove}
use oxide_kv.Map.Order.{IsSorted, get-Below, insert-IsSorted}
use oxide_kv.Lsm.{
  StateMachine, MemEntry, sst_entry, overlay_entries, overlay_ssts, overlay_memtable, snapshot_data,
  clear_for_snapshot, write_entry, load_data, install_snapshot, estimate_entry,
}
use oxide_kv.Lsm.Disk.{SstableHandle, DataDir, ok}
use oxide_kv.Lsm.View.{or_else, view_tables, view, IsTable, IsValid}
use oxide_kv.Lsm.View.Rows.{row-rows}

-- Sorted rows laid over a map: a row of the key decides.
overlay_rows :
    (key : Str) (result : Map Str) (m : Map MemEntry)
    → IsSorted m
    → Map.get key (overlay_entries result (map sst_entry m))
      ≡ or_else (Map.get key m) (Map.get key result)
unfolding overlay_entries Map.get
overlay_rows key result [] s = refl
overlay_rows key result ((k, none) ∷ m) s = ground (
  arith,
  overlay_rows key (Map.remove k result) m s.1,
  get-remove k key result,
  get-Below k m s.0,
  eq_of_cmp k key,
)
overlay_rows key result ((k, some v) ∷ m) s = ground (
  arith,
  overlay_rows key (Map.insert k v result) m s.1,
  get-insert k key v result,
  get-Below k m s.0,
  eq_of_cmp k key,
)

overlay_memtable_lem :
    (key : Str) (result : Map Str) (m : Map MemEntry)
    → IsSorted m
    → Map.get key (overlay_memtable result m) ≡ or_else (Map.get key m) (Map.get key result)
unfolding overlay_memtable Map.get
overlay_memtable_lem key result [] s = refl
overlay_memtable_lem key result ((k, none) ∷ m) s = ground (
  arith,
  overlay_memtable_lem key (Map.remove k result) m s.1,
  get-remove k key result,
  get-Below k m s.0,
  eq_of_cmp k key,
)
overlay_memtable_lem key result ((k, some v) ∷ m) s = ground (
  arith,
  overlay_memtable_lem key (Map.insert k v result) m s.1,
  get-insert k key v result,
  get-Below k m s.0,
  eq_of_cmp k key,
)

-- The overlay of the tables, oldest first, with no file missing.
record Overlaid (disk : DataDir) (result : Map Str) (hs : List SstableHandle) : Type 0 where
  out : Map Str
  loaded : overlay_ssts disk result hs ≡ ok out
  reads : (key : Str) → Map.get key out ≡ view_tables disk key (Map.get key result) hs

overlaid :
    (disk : DataDir) (result : Map Str) (hs : List SstableHandle)
    → All (IsTable disk) hs
    → Overlaid disk result hs
unfolding overlay_ssts view_tables
overlaid disk result [] t = record { out = result; loaded = refl; reads = λ key. refl }
overlaid disk result (h ∷ hs) t =
    let rest = overlaid disk (overlay_entries result (map sst_entry t.0.rows)) hs t.1 in
    record {
      out = rest.out;
      loaded = ground (arith, t.0.stored, rest.loaded);
      reads = λ key. ground (
        arith,
        rest.reads key,
        overlay_rows key result t.0.rows t.0.sorted,
        row-rows disk key h t.0,
      );
    }

-- `snapshot_data` of a valid store succeeds, and its map holds the value of every key.
pub snapshot_data-view :
    (sm : StateMachine)
    → IsValid sm
    → (out : Map Str) × (snapshot_data sm ≡ ok out) × ((key : Str) → Map.get key out ≡ view key sm)
unfolding snapshot_data view Map.get
snapshot_data-view sm v =
    let tables = overlaid sm.disk [] sm.sstables v.tables in
    (
      overlay_memtable tables.out sm.memtable,
      ground (arith, tables.loaded),
      λ key.
          ground
            (arith, overlay_memtable_lem key tables.out sm.memtable v.sorted, tables.reads key),
    )

pub clear_for_snapshot-IsValid : (sm : StateMachine) → IsValid (clear_for_snapshot sm)
unfolding clear_for_snapshot
clear_for_snapshot-IsValid sm = record { sorted = tt; tables = tt; fresh = tt }

load_data-IsValid :
    (entries : Map Str) (sm : StateMachine) → IsValid sm → IsValid (load_data entries sm)
unfolding load_data write_entry
load_data-IsValid [] sm v = v
load_data-IsValid ((k, x) ∷ entries) sm v =
    load_data-IsValid entries
      (write_entry k (some x) (sm.memtable_bytes + estimate_entry k + length x) sm)
      (record {
        sorted = insert-IsSorted k (some x) sm.memtable v.sorted;
        tables = v.tables;
        fresh = v.fresh;
      })

view-load_data :
    (key : Str) (entries : Map Str) (sm : StateMachine)
    → IsSorted entries
    → view key (load_data entries sm)
      ≡ or_else (elim (Map.get key entries) [ none ↦ none | some x ↦ some (some x) ]) (view key sm)
unfolding load_data write_entry view Map.get
view-load_data key [] sm s = refl
view-load_data key ((k, x) ∷ entries) sm s = ground (
  arith,
  view-load_data key entries
      (write_entry k (some x) (sm.memtable_bytes + estimate_entry k + length x) sm) s.1,
  get-insert k key (some x) sm.memtable,
  get-Below k entries s.0,
  eq_of_cmp k key,
)

load_data-pending :
    (entries : Map Str) (sm : StateMachine) → (load_data entries sm).pending_txs ≡ sm.pending_txs
unfolding load_data write_entry
load_data-pending [] sm = refl
load_data-pending ((k, x) ∷ entries) sm =
    load_data-pending entries
      (write_entry k (some x) (sm.memtable_bytes + estimate_entry k + length x) sm)

abbrev cleared : StateMachine → StateMachine
cleared sm = record (clear_for_snapshot sm) { memtable_bytes = 0 }

cleared-IsValid : (sm : StateMachine) → IsValid (cleared sm)
unfolding clear_for_snapshot
cleared-IsValid sm = record { sorted = tt; tables = tt; fresh = tt }

view-cleared : (sm : StateMachine) (key : Str) → view key (cleared sm) ≡ none
unfolding clear_for_snapshot view view_tables Map.get
view-cleared sm key = refl

-- After a snapshot is installed the store is valid, no transaction is staged, and the store holds
-- the snapshot's entries and no others.
pub install_snapshot-view :
    (entries : Map Str) (sm : StateMachine)
    → IsSorted entries
    → IsValid (install_snapshot entries sm)
      × ((install_snapshot entries sm).pending_txs ≡ [])
      × ((key : Str) → view key (install_snapshot entries sm) ≡ Map.get key entries)
unfolding install_snapshot
install_snapshot-view entries sm s = (
  load_data-IsValid entries (cleared sm) (cleared-IsValid sm),
  load_data-pending entries (cleared sm) ∙ unfold clear_for_snapshot in refl,
  λ key. ground (arith, view-load_data key entries (cleared sm) s, view-cleared sm key),
)
