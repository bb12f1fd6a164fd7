-- ===== src/Reference/Refines.antt =====
-- The commands of raft/reference_model.rs against those of state_machine.rs.
use oxide_kv.Common.{
  ℕ, ◌≡◌, refl, ◌∙◌, Option, none, some, List, [], ◌∷◌, arith, Option-cases, inl, inr,
}
use oxide_kv.Text.{Str}
use oxide_kv.Map
use oxide_kv.Map.{Map}
use oxide_kv.Map.Laws.{get-insert, get-remove}
use oxide_kv.Protocol.{
  Command, set, get, delete, compact, abort_tx, begin_tx, decide_tx, add_node, remove_node,
  install_configuration, TxOp, TxDecision, commit, abort,
}
use oxide_kv.Lsm.{StateMachine, PendingTx}
use oxide_kv.Lsm.View.{view, IsValid}
use oxide_kv.Lsm.Writes.{
  set-IsValid, delete-IsValid, view-set, view-delete, pending-set, pending-delete,
}
use oxide_kv.Lsm.Tx
use oxide_kv.Lsm.Tx.Atomic.{
  ops_value, begin_tx_at-IsValid, view-begin_tx_at, decide_tx-Decided, decide_tx_unknown,
}
use oxide_kv.Raft.Apply.{state_effect}
use oxide_kv.Reference.{ReferenceModel, run_ops, decide, model_effect}

abbrev pub staged_ops : Option PendingTx → Option (List TxOp)
staged_ops none = none
staged_ops (some tx) = some tx.ops

pub record Simulates (sm : StateMachine) (rm : ReferenceModel) : Type 0 where
  pub valid : IsValid sm
  pub values : (key : Str) → view key sm ≡ Map.get key rm.state
  pub staged : (tx_id : Str) → staged_ops (Map.get tx_id sm.pending_txs) ≡ Map.get tx_id rm.pending

get-run_ops :
    (ops : List TxOp) (m : Map Str) (key : Str)
    → Map.get key (run_ops ops m) ≡ ops_value ops key (Map.get key m)
unfolding run_ops
get-run_ops [] m key = refl
get-run_ops (TxOp.put k v ∷ ops) m key =
    get-run_ops ops (Map.insert k v m) key ∙ ground (arith, get-insert k key v m)
get-run_ops (TxOp.delete k ∷ ops) m key =
    get-run_ops ops (Map.remove k m) key ∙ ground (arith, get-remove k key m)

module _ (sm : StateMachine) (rm : ReferenceModel) (s : Simulates sm rm) where
  set-Simulates :
      (k v : Str) (now : ℕ) → Simulates (state_effect now (set k v) sm) (model_effect (set k v) rm)
  unfolding state_effect model_effect
  set-Simulates k v now = record {
    valid = set-IsValid k v sm s.valid;
    values = λ key.
        ground (arith, view-set k v sm key s.valid, get-insert k key v rm.state, s.values key);
    staged = λ tx_id. ground (arith, pending-set k v sm, s.staged tx_id);
  }

  delete-Simulates :
      (k : Str) (now : ℕ) → Simulates (state_effect now (delete k) sm) (model_effect (delete k) rm)
  unfolding state_effect model_effect
  delete-Simulates k now = record {
    valid = delete-IsValid k sm s.valid;
    values = λ key.
        ground (arith, view-delete k sm key s.valid, get-remove k key rm.state, s.values key);
    staged = λ tx_id. ground (arith, pending-delete k sm, s.staged tx_id);
  }

  begin-Simulates :
      (id : Str) (ops : List TxOp) (now : ℕ)
      → Simulates (state_effect now (begin_tx id ops) sm) (model_effect (begin_tx id ops) rm)
  unfolding state_effect model_effect
  begin-Simulates id ops now = record {
    valid = begin_tx_at-IsValid id ops now sm s.valid;
    values = λ key. view-begin_tx_at id ops now sm key ∙ s.values key;
    staged = λ tx_id.
        unfold Tx.begin_tx_at in
        ground (
          arith,
          get-insert id tx_id
              (record { ops = ops; votes = []; decision = none; begin_unix_ms = now })
              sm.pending_txs,
          get-insert id tx_id ops rm.pending,
          s.staged tx_id,
        );
  }

  decide_staged :
      (id : Str) (d : TxDecision) (tx : PendingTx)
      → Map.get id sm.pending_txs ≡ some tx
      → Map.get id rm.pending ≡ some tx.ops
      → Simulates (Tx.decide_tx id d sm) (decide id d rm)
  unfolding decide
  decide_staged id commit tx e f =
      let done = decide_tx-Decided id commit sm tx s.valid e in
      rw (f, decide)
        (record {
          valid = done.valid;
          values =
              λ key. ground (arith, done.values key, s.values key, get-run_ops tx.ops rm.state key);
          staged = λ tx_id. ground (
            arith,
            done.removed,
            get-remove id tx_id sm.pending_txs,
            get-remove id tx_id rm.pending,
            s.staged tx_id,
          );
        })
  decide_staged id abort tx e f =
      let done = decide_tx-Decided id abort sm tx s.valid e in
      rw (f, decide)
        (record {
          valid = done.valid;
          values = λ key. done.values key ∙ s.values key;
          staged = λ tx_id. ground (
            arith,
            done.removed,
            get-remove id tx_id sm.pending_txs,
            get-remove id tx_id rm.pending,
            s.staged tx_id,
          );
        })

  decide-Simulates : (id : Str) (d : TxDecision) → Simulates (Tx.decide_tx id d sm) (decide id d rm)
  unfolding decide
  decide-Simulates id d = elim (Option-cases (Map.get id sm.pending_txs)) [
    | inr (tx, e) ↦ decide_staged id d tx e (ground (arith, s.staged id))
    | inl e ↦
        let f : Map.get id rm.pending ≡ none = ground (arith, s.staged id) in
        rw (f, decide, decide_tx_unknown id d sm e) s
  ]

  -- A valid state machine that agrees with the sequential model on the values of all keys and on the
  -- staged transactions is valid and agrees with it after any one command too, whether or not the
  -- store flushes.
  pub state_effect-Simulates :
      (c : Command) (now : ℕ) → Simulates (state_effect now c sm) (model_effect c rm)
  unfolding state_effect model_effect
  state_effect-Simulates (set k v) now = set-Simulates k v now
  state_effect-Simulates (delete k) now = delete-Simulates k now
  state_effect-Simulates (begin_tx id ops) now = begin-Simulates id ops now
  state_effect-Simulates (decide_tx id d) now = decide-Simulates id d
  state_effect-Simulates (get k) now = s
  state_effect-Simulates compact now = s
  state_effect-Simulates (abort_tx id) now = s
  state_effect-Simulates (add_node server) now = s
  state_effect-Simulates (remove_node node_id) now = s
  state_effect-Simulates (install_configuration config) now = s
