-- ===== src/Lsm/Tx/Atomic.antt =====
-- Staged transactions of state_machine.rs against the abstract store.
use oxide_kv.Common.{ℕ, ◌≡◌, refl, ◌∙◌, Option, none, some, List, [], ◌∷◌, arith, if◌then◌else◌}
use oxide_kv.Text.{Str, ◌=s◌}
use oxide_kv.Map
use oxide_kv.Map.{Map}
use oxide_kv.Protocol.{TxOp, TxDecision, commit, abort}
use oxide_kv.Lsm.{StateMachine, PendingTx}
use oxide_kv.Lsm.View.{view, IsValid}
use oxide_kv.Lsm.Writes.{
  set-IsValid, delete-IsValid, view-set, view-delete, pending-set, pending-delete,
}
use oxide_kv.Lsm.Tx.{begin_tx_at, apply_op, apply_ops, decide_tx}

-- The value of a key after the operations of a transaction, one after another.
abbrev pub op_value : TxOp → Str → Option Str → Option Str
op_value (TxOp.put k v) key old = if k =s key then some v else old
op_value (TxOp.delete k) key old = if k =s key then none else old

abbrev pub ops_value : List TxOp → Str → Option Str → Option Str
ops_value [] key old = old
ops_value (op ∷ ops) key old = ops_value ops key (op_value op key old)

apply_op-IsValid : (op : TxOp) (sm : StateMachine) → IsValid sm → IsValid (apply_op op sm)
unfolding apply_op
apply_op-IsValid (TxOp.put k v) sm h = set-IsValid k v sm h
apply_op-IsValid (TxOp.delete k) sm h = delete-IsValid k sm h

view-apply_op :
    (op : TxOp) (sm : StateMachine) (key : Str)
    → IsValid sm
    → view key (apply_op op sm) ≡ op_value op key (view key sm)
unfolding apply_op
view-apply_op (TxOp.put k v) sm key h = view-set k v sm key h
view-apply_op (TxOp.delete k) sm key h = view-delete k sm key h

pub apply_ops-IsValid :
    (ops : List TxOp) (sm : StateMachine) → IsValid sm → IsValid (apply_ops ops sm)
unfolding apply_ops
apply_ops-IsValid [] sm h = h
apply_ops-IsValid (op ∷ ops) sm h =
    apply_ops-IsValid ops (apply_op op sm) (apply_op-IsValid op sm h)

pub view-apply_ops :
    (ops : List TxOp) (sm : StateMachine) (key : Str)
    → IsValid sm
    → view key (apply_ops ops sm) ≡ ops_value ops key (view key sm)
unfolding apply_ops
view-apply_ops [] sm key h = refl
view-apply_ops (op ∷ ops) sm key h =
    view-apply_ops ops (apply_op op sm) key (apply_op-IsValid op sm h)
    ∙ ground (arith, view-apply_op op sm key h)

pending-apply_op : (op : TxOp) (sm : StateMachine) → (apply_op op sm).pending_txs ≡ sm.pending_txs
unfolding apply_op
pending-apply_op (TxOp.put k v) sm = pending-set k v sm
pending-apply_op (TxOp.delete k) sm = pending-delete k sm

pub pending-apply_ops :
    (ops : List TxOp) (sm : StateMachine) → (apply_ops ops sm).pending_txs ≡ sm.pending_txs
unfolding apply_ops
pending-apply_ops [] sm = refl
pending-apply_ops (op ∷ ops) sm = pending-apply_ops ops (apply_op op sm) ∙ pending-apply_op op sm

pub begin_tx_at-IsValid :
    (tx_id : Str) (ops : List TxOp) (at : ℕ) (sm : StateMachine)
    → IsValid sm
    → IsValid (begin_tx_at tx_id ops at sm)
unfolding begin_tx_at
begin_tx_at-IsValid tx_id ops at sm h = record {
  sorted = h.sorted;
  tables = h.tables;
  fresh = h.fresh;
}

-- Staging a transaction changes no value.
pub view-begin_tx_at :
    (tx_id : Str) (ops : List TxOp) (at : ℕ) (sm : StateMachine) (key : Str)
    → view key (begin_tx_at tx_id ops at sm) ≡ view key sm
unfolding begin_tx_at view
view-begin_tx_at tx_id ops at sm key = refl

-- The store without a staged transaction.
abbrev pub unstaged : Str → StateMachine → StateMachine
unstaged tx_id sm = record sm { pending_txs = Map.remove tx_id sm.pending_txs }

unstaged-IsValid : (tx_id : Str) (sm : StateMachine) → IsValid sm → IsValid (unstaged tx_id sm)
unstaged-IsValid tx_id sm h = record { sorted = h.sorted; tables = h.tables; fresh = h.fresh }

view-unstaged : (tx_id key : Str) (sm : StateMachine) → view key (unstaged tx_id sm) ≡ view key sm
unfolding view
view-unstaged tx_id key sm = refl

-- The effect of a decision on a staged transaction.
pub record Decided (tx_id : Str) (decision : TxDecision) (ops : List TxOp) (sm after : StateMachine)
    : Type 0 where
  pub valid : IsValid after
  pub removed : after.pending_txs ≡ Map.remove tx_id sm.pending_txs
  pub values :
      (key : Str)
      → view key after
        ≡ elim decision [ commit ↦ ops_value ops key (view key sm) | abort ↦ view key sm ]

-- A decision about a transaction that is staged on a valid store keeps it valid, applies all of its operations in order, or none of them,
-- and takes the transaction, and no other, from the staged ones.
pub decide_tx-Decided :
    (tx_id : Str) (decision : TxDecision) (sm : StateMachine) (tx : PendingTx)
    → IsValid sm
    → Map.get tx_id sm.pending_txs ≡ some tx
    → Decided tx_id decision tx.ops sm (decide_tx tx_id decision sm)
unfolding decide_tx
decide_tx-Decided tx_id commit sm tx h e =
    let u = unstaged tx_id sm in
    let v = unstaged-IsValid tx_id sm h in
    rw (e, decide_tx)
      (record {
        valid = apply_ops-IsValid tx.ops u v;
        removed = pending-apply_ops tx.ops u;
        values = λ key. view-apply_ops tx.ops u key v ∙ ground (arith, view-unstaged tx_id key sm);
      })
decide_tx-Decided tx_id abort sm tx h e =
    rw (e, decide_tx)
      (record {
        valid = unstaged-IsValid tx_id sm h;
        removed = refl;
        values = λ key. view-unstaged tx_id key sm;
      })

-- A decision about a transaction that is not staged changes nothing.
pub decide_tx_unknown :
    (tx_id : Str) (decision : TxDecision) (sm : StateMachine)
    → Map.get tx_id sm.pending_txs ≡ none
    → decide_tx tx_id decision sm ≡ sm
unfolding decide_tx
decide_tx_unknown tx_id decision sm e = ground arith
