-- ===== src/Tests/Store.antt =====
-- The store of state_machine.rs at concrete inputs.
use oxide_kv.Common.{ℕ, All, ◌≡◌, refl, none, some, List, [], ◌∷◌, ◌++◌, arith}
use oxide_kv.Text.{Str, cmp}
use oxide_kv.Map
use oxide_kv.Map.{Map}
use oxide_kv.Protocol.{TxOp, commit, abort}
use oxide_kv.Lsm
use oxide_kv.Lsm.{StateMachine, PendingTx}
use oxide_kv.Lsm.Disk.{DataDir, SstableHandle, ok, write_sst, remove_file}
use oxide_kv.Lsm.View.{row, view, view_tables, IsValid}
use oxide_kv.Lsm.Tx.{begin_tx_at, decide_tx}
use oxide_kv.Lsm.Tx.Atomic.{Decided, begin_tx_at-IsValid, decide_tx-Decided, decide_tx_unknown}
use oxide_kv.Lsm.Reads.{Covers, Gapless, present, get-view, get-none_of_Covers}
use oxide_kv.Lsm.Compaction.{compact}
use oxide_kv.Lsm.Recovery.{open_dir}
use oxide_kv.Lsm.Recovery.Restart.{IsRecoverable}
use oxide_kv.Lsm.Recovery.Keeps.{set-IsRecoverable, flush-IsRecoverable}
use oxide_kv.Lsm.Recovery.Lives.{StoreOp, run_op, run_ops, last_written, run_ops-open_dir}

program : Unit {0}
unfolding Map.get Map.insert Map.remove Lsm.set Lsm.delete Lsm.get Lsm.flush Lsm.flush_if_full
    Lsm.write_entry Lsm.append_wal Lsm.account compact begin_tx_at decide_tx open_dir view
    view_tables run_op run_ops Lsm.snapshot_data Lsm.install_snapshot cmp write_sst remove_file
    Lsm.sstable_count row
program = tt

abbrev pub a : Str
a = 97 ∷ []

abbrev pub b : Str
b = 98 ∷ []

abbrev pub c : Str
c = 99 ∷ []

abbrev pub one : Str
one = 49 ∷ []

abbrev pub two : Str
two = 50 ∷ []

abbrev pub empty_disk : DataDir
empty_disk = record { wal = []; files = [] }

-- An empty store that flushes at `threshold` bytes.
abbrev pub empty_store : ℕ → StateMachine
empty_store threshold = record {
  memtable_size_threshold = threshold;
  memtable = [];
  memtable_bytes = 0;
  sstables = [];
  next_sst_id = 0;
  pending_txs = [];
  disk = empty_disk;
}

pub empty-IsRecoverable : (threshold : ℕ) → IsRecoverable (empty_store threshold)
unfolding program
empty-IsRecoverable threshold = record {
  valid = record { sorted = tt; tables = tt; fresh = tt };
  log = refl;
  files = refl;
  ascending = tt;
}

-- A value in a table, overwritten in a second one.
abbrev tables : StateMachine
tables = Lsm.set a two (Lsm.set a one (empty_store 1))

tables-IsRecoverable : IsRecoverable tables
tables-IsRecoverable =
    set-IsRecoverable a two (Lsm.set a one (empty_store 1))
      (set-IsRecoverable a one (empty_store 1) (empty-IsRecoverable 1))

tables_read : (Lsm.get a tables ≡ some two) × (Lsm.sstable_count tables ≡ 2)
unfolding program
tables_read = (refl, refl)

abbrev script : List StoreOp
script =
    StoreOp.set a one
    ∷ StoreOp.flush
    ∷ StoreOp.set b two
    ∷ StoreOp.delete a
    ∷ StoreOp.flush
    ∷ StoreOp.compact
    ∷ []

run_ops-open_dir_example :
    (after : StateMachine) × (run_ops script (empty_store 1000) ≡ ok after)
    × ((key : Str)
        → view key (open_dir 1000 after.disk)
          ≡ last_written key script (view key (empty_store 1000)))
run_ops-open_dir_example =
    run_ops-open_dir 1000 script (empty_store 1000) (empty-IsRecoverable 1000)

-- `b` in an older table, `a` and `c` in a newer one.
abbrev gap : StateMachine
gap = Lsm.flush (Lsm.set c one (Lsm.set a one (Lsm.flush (Lsm.set b two (empty_store 1000)))))

gap-IsRecoverable : IsRecoverable gap
gap-IsRecoverable =
    let older = set-IsRecoverable b two (empty_store 1000) (empty-IsRecoverable 1000) in
    let flushed = flush-IsRecoverable _ older in
    flush-IsRecoverable _ (set-IsRecoverable c one _ (set-IsRecoverable a one _ flushed))

abbrev handle : ℕ → Str → Str → ℕ → SstableHandle
handle id first last rows = record {
  path = id;
  meta = record { id = id; first_key = first; last_key = last; entry_count = rows };
}

gap_tables : gap.sstables ≡ (handle 0 b b 1 ∷ []) ++ handle 1 a c 2 ∷ []
unfolding program
gap_tables = refl

gap-Covers : Covers gap.disk b (handle 1 a c 2)
unfolding program
gap-Covers = record { inside = refl; missing = refl; occupied = omega arith }

gap_absent : Map.get b gap.memtable ≡ none
unfolding program
gap_absent = refl

get-none_of_Covers_example :
    (Lsm.get b gap ≡ none) × (view b gap ≡ view_tables gap.disk b none (handle 0 b b 1 ∷ []))
get-none_of_Covers_example =
    get-none_of_Covers b gap (handle 0 b b 1 ∷ []) (handle 1 a c 2) gap-IsRecoverable.valid
      gap_tables gap_absent gap-Covers

-- The value that the read misses.
gap_hidden : view b gap ≡ some two
unfolding program
gap_hidden = refl

tables-Gapless : All (Gapless tables.disk a) tables.sstables
unfolding program
tables-Gapless = (present (some one) refl, (present (some two) refl, tt))

get-view_example : Lsm.get a tables ≡ view a tables
get-view_example = get-view a tables tables-IsRecoverable.valid tables-Gapless

abbrev transfer : List TxOp
transfer = TxOp.put a two ∷ TxOp.delete b ∷ []

abbrev staged : StateMachine
staged = begin_tx_at c transfer 5 tables

abbrev tx : PendingTx
tx = record { ops = transfer; votes = []; decision = none; begin_unix_ms = 5 }

staged_tx : Map.get c staged.pending_txs ≡ some tx
unfolding program
staged_tx = refl

staged-IsValid : IsValid staged
staged-IsValid = begin_tx_at-IsValid c transfer 5 tables tables-IsRecoverable.valid

decide_tx-Decided_example : Decided c commit transfer staged (decide_tx c commit staged)
decide_tx-Decided_example = decide_tx-Decided c commit staged tx staged-IsValid staged_tx

tables_unstaged : Map.get c tables.pending_txs ≡ none
unfolding program
tables_unstaged = refl

decide_tx_unknown_example : decide_tx c abort tables ≡ tables
decide_tx_unknown_example = decide_tx_unknown c abort tables tables_unstaged
