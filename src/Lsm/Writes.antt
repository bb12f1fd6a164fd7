-- ===== src/Lsm/Writes.antt =====
-- `set`, `delete` and `flush` of state_machine.rs against the abstract store.
use oxide_kv.Common.{
  ℕ, ◌+◌, ◌<◌, ◌≡◌, refl, ◌∙◌, none, some, List, [], ◌∷◌, arith, map, All, All-append,
  if◌then◌else◌, Bool-cases, inl, inr, leb,
}
use mathlib.Core.Path.{subst}
use oxide_kv.Text.{Str, ◌=s◌}
use oxide_kv.Map
use oxide_kv.Map.{Map}
use oxide_kv.Map.Laws.{get-insert}
use oxide_kv.Map.Order.{IsSorted, insert-IsSorted}
use oxide_kv.Lsm.{
  StateMachine, MemEntry, sst_entry, table_meta, append_wal, flush_rows, flush, flush_if_full,
  write_entry, set, delete,
}
use oxide_kv.Lsm.Disk.{SstableHandle, DataDir, WalOp, write_sst, find_file}
use oxide_kv.Lsm.View.{view, IsTable, IsValid}
use oxide_kv.Lsm.View.Rows.{row-rows, view_tables-append}
use oxide_kv.Lsm.View.Files.{find_file-write_sst, IsTable_agree, view_tables_agree}

All-lt_suc :
    (n : ℕ) (hs : List SstableHandle) → All (λ h. h.path < n) hs → All (λ h. h.path < n + 1) hs
All-lt_suc n [] a = tt
All-lt_suc n (h ∷ hs) a = (omega (arith, a.0), All-lt_suc n hs a.1)

module _ (sm : StateMachine) (rows : Map MemEntry) (e : Str × MemEntry) (v : IsValid sm)
    (same : sm.memtable ≡ e ∷ rows) where
  abbrev handle : SstableHandle
  handle = record {
    path = sm.next_sst_id;
    meta = table_meta sm.next_sst_id (map sst_entry (e ∷ rows));
  }

  abbrev written : DataDir
  written = record (write_sst sm.next_sst_id (map sst_entry (e ∷ rows)) handle.meta sm.disk) {
    wal = [];
  }

  agree : (p : ℕ) → p < sm.next_sst_id → find_file p written.files ≡ find_file p sm.disk.files
  agree p h =
      ground
        (arith, find_file-write_sst p sm.next_sst_id (map sst_entry (e ∷ rows)) handle.meta sm.disk)

  handle-IsTable : IsTable written handle
  handle-IsTable = record {
    rows = e ∷ rows;
    stored = ground (
      arith,
      find_file-write_sst sm.next_sst_id sm.next_sst_id (map sst_entry (e ∷ rows)) handle.meta
          sm.disk,
    );
    meta = refl;
    sorted = subst IsSorted same v.sorted;
  }

  pub flush_rows-IsValid : IsValid (flush_rows (e ∷ rows) sm)
  unfolding flush_rows
  flush_rows-IsValid = record {
    sorted = tt;
    tables =
        All-append (IsTable written) sm.sstables (handle ∷ [])
          (IsTable_agree sm.disk written sm.next_sst_id agree sm.sstables v.fresh v.tables)
          (handle-IsTable, tt);
    fresh =
        All-append _ sm.sstables (handle ∷ []) (All-lt_suc sm.next_sst_id sm.sstables v.fresh)
          (omega arith, tt);
  }

  view-flush_rows : (key : Str) → view key (flush_rows (e ∷ rows) sm) ≡ view key sm
  unfolding view flush_rows Map.get handle-IsTable
  view-flush_rows key = rw (
    view_tables-append written key none sm.sstables handle,
    row-rows written key handle handle-IsTable,
    view_tables_agree sm.disk written sm.next_sst_id agree key none sm.sstables v.fresh,
    same,
  )

pub flush_cases :
    (P : StateMachine → Type 0) (sm : StateMachine) (rows : Map MemEntry)
    → sm.memtable ≡ rows
    → P sm
    → ((e : Str × MemEntry) (m : Map MemEntry) → sm.memtable ≡ e ∷ m → P (flush_rows (e ∷ m) sm))
    → P (flush_rows rows sm)
unfolding flush_rows
flush_cases P sm [] same p q = p
flush_cases P sm (e ∷ m) same p q = q e m same

pub flush-IsValid : (sm : StateMachine) → IsValid sm → IsValid (flush sm)
unfolding flush
flush-IsValid sm v =
    flush_cases IsValid sm sm.memtable refl v (λ e m same. flush_rows-IsValid sm m e v same)

-- A flush of a valid store changes the value of no key.
pub view-flush : (sm : StateMachine) (key : Str) → IsValid sm → view key (flush sm) ≡ view key sm
unfolding flush
view-flush sm key v =
    flush_cases (λ s. view key s ≡ view key sm) sm sm.memtable refl refl
      (λ e m same. view-flush_rows sm m e v same key)

pub flush_if_full_cases :
    (P : StateMachine → Type 0) (sm : StateMachine) → P sm → P (flush sm) → P (flush_if_full sm)
unfolding flush_if_full
flush_if_full_cases P sm p q =
    elim (Bool-cases (leb sm.memtable_size_threshold sm.memtable_bytes)) [
      | inl full ↦ rw full q
      | inr room ↦ rw room p
    ]

-- The write of an entry, before the flush that may follow.
module _ (key : Str) (value : MemEntry) (bytes : ℕ) (op : WalOp) (sm : StateMachine)
    (v : IsValid sm) where
  abbrev pub logged : StateMachine
  logged = write_entry key value bytes (append_wal op sm)

  pub write_entry-IsValid : IsValid logged
  unfolding write_entry append_wal
  write_entry-IsValid = record {
    sorted = insert-IsSorted key value sm.memtable v.sorted;
    tables =
        IsTable_agree sm.disk (append_wal op sm).disk sm.next_sst_id (λ p h. refl) sm.sstables
          v.fresh v.tables;
    fresh = v.fresh;
  }

  view-write_entry : (j : Str) → view j logged ≡ (if key =s j then value else view j sm)
  unfolding view write_entry append_wal
  view-write_entry j = ground (
    arith,
    get-insert key j value sm.memtable,
    view_tables_agree sm.disk (append_wal op sm).disk sm.next_sst_id (λ p h. refl) j none
        sm.sstables v.fresh,
  )

  write-IsValid : IsValid (flush_if_full logged)
  write-IsValid =
      flush_if_full_cases IsValid logged write_entry-IsValid
        (flush-IsValid logged write_entry-IsValid)

  view-write : (j : Str) → view j (flush_if_full logged) ≡ (if key =s j then value else view j sm)
  view-write j =
      flush_if_full_cases (λ s. view j s ≡ (if key =s j then value else view j sm)) logged
        (view-write_entry j) (view-flush logged j write_entry-IsValid ∙ view-write_entry j)

pub set-IsValid : (key value : Str) (sm : StateMachine) → IsValid sm → IsValid (set key value sm)
unfolding set
set-IsValid key value sm v = write-IsValid key (some value) _ (WalOp.put key value) sm v

pub delete-IsValid : (key : Str) (sm : StateMachine) → IsValid sm → IsValid (delete key sm)
unfolding delete
delete-IsValid key sm v = write-IsValid key none _ (WalOp.delete key) sm v

-- `set` on a valid store changes the value of its key alone, whether or not it flushes.
pub view-set :
    (key value : Str) (sm : StateMachine) (j : Str)
    → IsValid sm
    → view j (set key value sm) ≡ (if key =s j then some value else view j sm)
unfolding set
view-set key value sm j v = view-write key (some value) _ (WalOp.put key value) sm v j

-- `delete` on a valid store removes the value of its key alone, also one that lies in an SSTable.
pub view-delete :
    (key : Str) (sm : StateMachine) (j : Str)
    → IsValid sm
    → view j (delete key sm) ≡ (if key =s j then none else view j sm)
unfolding delete
view-delete key sm j v = view-write key none _ (WalOp.delete key) sm v j

-- Writes leave the staged transactions alone.
pending-flush : (sm : StateMachine) → (flush sm).pending_txs ≡ sm.pending_txs
unfolding flush flush_rows
pending-flush sm =
    flush_cases (λ s. s.pending_txs ≡ sm.pending_txs) sm sm.memtable refl refl (λ e m same. refl)

pub pending-set :
    (key value : Str) (sm : StateMachine) → (set key value sm).pending_txs ≡ sm.pending_txs
unfolding set write_entry append_wal
pending-set key value sm =
    flush_if_full_cases (λ s. s.pending_txs ≡ sm.pending_txs) _ refl (pending-flush _)

pub pending-delete : (key : Str) (sm : StateMachine) → (delete key sm).pending_txs ≡ sm.pending_txs
unfolding delete write_entry append_wal
pending-delete key sm =
    flush_if_full_cases (λ s. s.pending_txs ≡ sm.pending_txs) _ refl (pending-flush _)
