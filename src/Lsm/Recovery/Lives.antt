-- ===== src/Lsm/Recovery/Lives.antt =====
-- The life of a store of state_machine.rs: any writes, flushes and compactions, then a restart.
use oxide_kv.Common.{◌≡◌, refl, ◌∙◌, ap, Option, none, some, List, [], ◌∷◌, ℕ, if◌then◌else◌}
use oxide_kv.Text.{Str, ◌=s◌}
use oxide_kv.Lsm.{StateMachine}
use oxide_kv.Lsm
use oxide_kv.Lsm.Disk.{Result, ok, ◌>>=◌}
use oxide_kv.Lsm.Compaction
use oxide_kv.Lsm.View.{view}
use oxide_kv.Lsm.Writes.{view-set, view-delete, view-flush}
use oxide_kv.Lsm.Recovery.{open_dir}
use oxide_kv.Lsm.Recovery.Restart.{IsRecoverable, open_dir-view}
use oxide_kv.Lsm.Recovery.Keeps.{flush-IsRecoverable, set-IsRecoverable, delete-IsRecoverable}
use oxide_kv.Lsm.Recovery.Compacts.{compact-IsRecoverable}

-- An operation on the store.
pub data StoreOp : Type 0 where
  set : Str → Str → StoreOp
  delete : Str → StoreOp
  flush compact : StoreOp

unfoldable pub run_op : StoreOp → StateMachine → Result StateMachine
run_op (set key value) sm = ok (Lsm.set key value sm)
run_op (delete key) sm = ok (Lsm.delete key sm)
run_op flush sm = ok (Lsm.flush sm)
run_op compact sm = Compaction.compact sm

unfoldable pub run_ops : List StoreOp → StateMachine → Result StateMachine
unfolding run_op
run_ops [] sm = ok sm
run_ops (op ∷ ops) sm = run_op op sm >>= run_ops ops

-- What the operations make of the value of a key, by the writes of that key alone.
abbrev pub last_written : Str → List StoreOp → Option Str → Option Str
last_written key [] old = old
last_written key (set k v ∷ ops) old = last_written key ops (if k =s key then some v else old)
last_written key (delete k ∷ ops) old = last_written key ops (if k =s key then none else old)
last_written key (flush ∷ ops) old = last_written key ops old
last_written key (compact ∷ ops) old = last_written key ops old

pub record Stepped (op : StoreOp) (sm : StateMachine) : Type 0 where
  pub after : StateMachine
  pub runs : run_op op sm ≡ ok after
  pub recoverable : IsRecoverable after
  pub views : (key : Str) → view key after ≡ last_written key (op ∷ []) (view key sm)

run_op-Stepped : (op : StoreOp) (sm : StateMachine) → IsRecoverable sm → Stepped op sm
unfolding run_op
run_op-Stepped (set k v) sm r = record {
  after = Lsm.set k v sm;
  runs = refl;
  recoverable = set-IsRecoverable k v sm r;
  views = λ key. view-set k v sm key r.valid;
}
run_op-Stepped (delete k) sm r = record {
  after = Lsm.delete k sm;
  runs = refl;
  recoverable = delete-IsRecoverable k sm r;
  views = λ key. view-delete k sm key r.valid;
}
run_op-Stepped flush sm r = record {
  after = Lsm.flush sm;
  runs = refl;
  recoverable = flush-IsRecoverable sm r;
  views = λ key. view-flush sm key r.valid;
}
run_op-Stepped compact sm r =
    let (after, runs, recoverable, views) = compact-IsRecoverable sm r in
    record { after = after; runs = runs; recoverable = recoverable; views = views }

last_written-step :
    (key : Str) (op : StoreOp) (ops : List StoreOp) (old : Option Str)
    → last_written key ops (last_written key (op ∷ []) old) ≡ last_written key (op ∷ ops) old
last_written-step key (set k v) ops old = refl
last_written-step key (delete k) ops old = refl
last_written-step key flush ops old = refl
last_written-step key compact ops old = refl

run_ops-kept :
    (ops : List StoreOp) (sm : StateMachine)
    → IsRecoverable sm
    → (after : StateMachine) × (run_ops ops sm ≡ ok after)
      × IsRecoverable after
      × ((key : Str) → view key after ≡ last_written key ops (view key sm))
unfolding run_ops
run_ops-kept [] sm r = (sm, refl, r, λ key. refl)
run_ops-kept (op ∷ ops) sm r =
    let one = run_op-Stepped op sm r in
    let (after, runs, recoverable, views) = run_ops-kept ops one.after one.recoverable in
    (
      after,
      ap (λ m. m >>= run_ops ops) one.runs ∙ runs,
      recoverable,
      λ key.
          views key
          ∙ (ap (last_written key ops) (one.views key)
              ∙ last_written-step key op ops (view key sm)),
    )

-- Any writes, flushes and compactions of a store that is in step with its disk succeed, and a store
-- that is opened on the disk they leave holds for every key the value last written to it, or the one
-- that it had before when they wrote none.
pub run_ops-open_dir :
    (threshold : ℕ) (ops : List StoreOp) (sm : StateMachine)
    → IsRecoverable sm
    → (after : StateMachine) × (run_ops ops sm ≡ ok after)
      × ((key : Str)
          → view key (open_dir threshold after.disk) ≡ last_written key ops (view key sm))
run_ops-open_dir threshold ops sm r =
    let (after, runs, recoverable, views) = run_ops-kept ops sm r in
    let (again, found, none_staged) = open_dir-view threshold after recoverable in
    (after, runs, λ key. found key ∙ views key)
