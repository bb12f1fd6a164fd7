-- ===== src/Lsm/Recovery.antt =====
-- `StateMachine::open` of state_machine.rs: the tables found on disk and the replay of the WAL.
pub mod Restart
pub mod Keeps
pub mod Compacts
pub mod Lives
use oxide_kv.Common.{
  ℕ, ◌+◌, ◌-◌, Option, none, some, List, [], ◌∷◌, map, max, length, leb, if◌then◌else◌,
}
use oxide_kv.Text.{Str}
use oxide_kv.Map
use oxide_kv.Map.{Map}
use oxide_kv.Lsm.{StateMachine, MemEntry, estimate_entry}
use oxide_kv.Lsm.Disk.{SstableHandle, SstFile, WalOp, DataDir}

-- `sort_by_key(|s| s.meta.id)`, which is stable.
unfoldable pub insert_by_id : SstableHandle → List SstableHandle → List SstableHandle
insert_by_id h [] = h ∷ []
insert_by_id h (g ∷ gs) =
    let rest = insert_by_id h gs in if leb h.meta.id g.meta.id then h ∷ g ∷ gs else g ∷ rest

unfoldable pub sort_by_id : List SstableHandle → List SstableHandle
unfolding insert_by_id
sort_by_id [] = []
sort_by_id (h ∷ hs) = insert_by_id h (sort_by_id hs)

-- The files that `read_dir` lists, each with its sidecar.
unfoldable pub discover : List (ℕ × SstFile) → List SstableHandle
discover = map (λ f. record { path = f.0; meta = f.1.sidecar })

unfoldable pub next_id : ℕ → List (ℕ × SstFile) → ℕ
next_id id [] = id
next_id id ((p, f) ∷ files) = next_id (max id (p + 1)) files

-- The replay loop over the WAL, with its own accounting of bytes.
unfoldable pub replay_wal : Map MemEntry → ℕ → List WalOp → Map MemEntry × ℕ
unfolding estimate_entry
replay_wal memtable bytes [] = (memtable, bytes)
replay_wal memtable bytes (WalOp.put key value ∷ ops) =
    replay_wal (Map.insert key (some value) memtable)
      (bytes - estimate_entry key + (estimate_entry key + length value)) ops
replay_wal memtable bytes (WalOp.delete key ∷ ops) =
    replay_wal (Map.insert key none memtable) (bytes - estimate_entry key + estimate_entry key) ops

unfoldable pub open_dir : ℕ → DataDir → StateMachine
unfolding sort_by_id discover next_id replay_wal
open_dir threshold disk =
    let (memtable, bytes) = replay_wal [] 0 disk.wal in
    record {
      memtable_size_threshold = threshold;
      memtable = memtable;
      memtable_bytes = bytes;
      sstables = sort_by_id (discover disk.files);
      next_sst_id = next_id 0 disk.files;
      pending_txs = [];
      disk = disk;
    }
