-- ===== src/Lsm/Recovery/Keeps.antt =====
-- `set`, `delete` and `flush` of state_machine.rs and the disk that a restart finds.
use oxide_kv.Common.{
  ℕ, ◌+◌, ◌<◌, ◌≤◌, ◌≡◌, ◌≢◌, refl, ◌∙◌, sym, ap, none, some, List, [], ◌∷◌, ◌++◌, arith, All,
}
use mathlib.Core.Path.{subst}
use oxide_kv.Text.{Str}
use oxide_kv.Map
use oxide_kv.Map.{Map}
use oxide_kv.Lsm.{
  StateMachine, MemEntry, table_meta, append_wal, flush_rows, flush, flush_if_full, write_entry,
  set, delete,
}
use oxide_kv.Lsm.Disk.{SstEntry, SstableMeta, SstableHandle, SstFile, WalOp, remove_file, write_sst}
use oxide_kv.Lsm.Writes.{flush_cases, flush_if_full_cases, flush_rows-IsValid, write_entry-IsValid}
use oxide_kv.Lsm.Recovery.{discover, replay_wal}
use oxide_kv.Lsm.Recovery.Restart.{Ascending, IsRecoverable}

-- The row that a WAL line writes.
abbrev wal_row : WalOp → Str × MemEntry
wal_row (WalOp.put k v) = (k, some v)
wal_row (WalOp.delete k) = (k, none)

replay_wal-append :
    (m : Map MemEntry) (bytes : ℕ) (ops : List WalOp) (op : WalOp)
    → (replay_wal m bytes (ops ++ op ∷ [])).0
      ≡ Map.insert (wal_row op).0 (wal_row op).1 (replay_wal m bytes ops).0
unfolding replay_wal
replay_wal-append m bytes [] (WalOp.put k v) = refl
replay_wal-append m bytes [] (WalOp.delete k) = refl
replay_wal-append m bytes (WalOp.put j w ∷ ops) op =
    replay_wal-append (Map.insert j (some w) m) _ ops op
replay_wal-append m bytes (WalOp.delete j ∷ ops) op =
    replay_wal-append (Map.insert j none m) _ ops op

pub remove_file-absent :
    (p : ℕ) (files : List (ℕ × SstFile))
    → All (λ h. h.path ≢ p) (discover files)
    → remove_file p files ≡ files
unfolding discover remove_file
remove_file-absent p [] a = refl
remove_file-absent p ((q, f) ∷ files) a = ground (arith, remove_file-absent p files a.1, a.0)

discover-append :
    (files : List (ℕ × SstFile)) (p : ℕ) (f : SstFile)
    → discover (files ++ (p, f) ∷ []) ≡ discover files ++ record { path = p; meta = f.sidecar } ∷ []
unfolding discover
discover-append [] p f = refl
discover-append ((q, g) ∷ files) p f =
    let first : SstableHandle = record { path = q; meta = g.sidecar } in
    ap (◌∷◌ first) (discover-append files p f)

Ascending-append :
    (lo : ℕ) (hs : List SstableHandle) (h : SstableHandle)
    → lo ≤ h.path
    → h.meta.id ≡ h.path
    → Ascending lo hs
    → All (λ g. g.path < h.path) hs
    → Ascending lo (hs ++ h ∷ [])
Ascending-append lo [] h le e a f = (le, e, tt)
Ascending-append lo (g ∷ gs) h le e a f =
    (a.0, a.1, Ascending-append (g.path + 1) gs h (omega (arith, f.0)) e a.2 f.1)

pub All-distinct :
    (n : ℕ) (hs : List SstableHandle) → All (λ h. h.path < n) hs → All (λ h. h.path ≢ n) hs
All-distinct n [] a = tt
All-distinct n (h ∷ hs) a = (omega (arith, a.0), All-distinct n hs a.1)

-- A table under a fresh id is found after the others.
pub discover-write_sst :
    (sm : StateMachine) (entries : List SstEntry) (meta : SstableMeta)
    → IsRecoverable sm
    → discover (write_sst sm.next_sst_id entries meta sm.disk).files
      ≡ sm.sstables ++ record { path = sm.next_sst_id; meta = meta } ∷ []
unfolding write_sst
discover-write_sst sm entries meta r =
    let id = sm.next_sst_id in
    let file : SstFile = record { entries = entries; sidecar = meta } in
    let handle : SstableHandle = record { path = id; meta = meta } in
    let absent =
      remove_file-absent id sm.disk.files (
        subst (All (λ h. h.path ≢ id)) (sym r.files) (All-distinct id sm.sstables r.valid.fresh)) in
    ap (λ files. discover (files ++ (id, file) ∷ [])) absent
    ∙ (discover-append sm.disk.files id file ∙ ap (λ hs. hs ++ handle ∷ []) r.files)

flush_rows-IsRecoverable :
    (sm : StateMachine) (e : Str × MemEntry) (rows : Map MemEntry)
    → IsRecoverable sm
    → sm.memtable ≡ e ∷ rows
    → IsRecoverable (flush_rows (e ∷ rows) sm)
unfolding flush_rows replay_wal table_meta
flush_rows-IsRecoverable sm e rows r same = record {
  valid = flush_rows-IsValid sm rows e r.valid same;
  log = refl;
  files = discover-write_sst sm _ _ r;
  ascending = Ascending-append 0 sm.sstables _ (omega arith) refl r.ascending r.valid.fresh;
}

-- A flush leaves the disk in step with the store.
pub flush-IsRecoverable : (sm : StateMachine) → IsRecoverable sm → IsRecoverable (flush sm)
unfolding flush
flush-IsRecoverable sm r =
    flush_cases IsRecoverable sm sm.memtable refl r
      (λ e m same. flush_rows-IsRecoverable sm e m r same)

write-IsRecoverable :
    (key : Str) (value : MemEntry) (bytes : ℕ) (op : WalOp) (sm : StateMachine)
    → wal_row op ≡ (key, value)
    → IsRecoverable sm
    → IsRecoverable (flush_if_full (write_entry key value bytes (append_wal op sm)))
unfolding write_entry append_wal
write-IsRecoverable key value bytes op sm row r =
    let logged : IsRecoverable (write_entry key value bytes (append_wal op sm)) = record {
      valid = write_entry-IsValid key value bytes op sm r.valid;
      log =
          replay_wal-append [] 0 sm.disk.wal op
          ∙ (ap (λ e. Map.insert e.0 e.1 (replay_wal [] 0 sm.disk.wal).0) row
              ∙ ap (Map.insert key value) r.log);
      files = r.files;
      ascending = r.ascending;
    } in
    flush_if_full_cases IsRecoverable _ logged (flush-IsRecoverable _ logged)

-- After a `set`, flushed or not, a restart finds the store.
pub set-IsRecoverable :
    (key value : Str) (sm : StateMachine) → IsRecoverable sm → IsRecoverable (set key value sm)
unfolding set
set-IsRecoverable key value sm r =
    write-IsRecoverable key (some value) _ (WalOp.put key value) sm refl r

pub delete-IsRecoverable :
    (key : Str) (sm : StateMachine) → IsRecoverable sm → IsRecoverable (delete key sm)
unfolding delete
delete-IsRecoverable key sm r = write-IsRecoverable key none _ (WalOp.delete key) sm refl r
