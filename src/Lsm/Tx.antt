-- ===== src/Lsm/Tx.antt =====
-- The two-phase-commit half of state_machine.rs: staging, votes, the decision and the timeout view.
pub mod Atomic
use oxide_kv.Common.{
  ℕ, ◌-◌, Bool, true, false, Option, none, some, List, [], ◌∷◌, map, length, count, filter, ltb,
}
use oxide_kv.Text.{Str}
use oxide_kv.Map
use oxide_kv.Map.{Map, contains_key, values}
use oxide_kv.Protocol.{TxOp, Vote, yes_vote, no_vote, TxDecision, commit, abort}
use oxide_kv.Lsm.{StateMachine, PendingTx, set, delete}

-- `now` is the reading of the wall clock that the caller takes.
unfoldable pub begin_tx_at : Str → List TxOp → ℕ → StateMachine → StateMachine
begin_tx_at tx_id ops begin_unix_ms sm = record sm {
  pending_txs =
      Map.insert tx_id
        (record { ops = ops; votes = []; decision = none; begin_unix_ms = begin_unix_ms })
        sm.pending_txs;
}

unfoldable pub record_vote : Str → Str → Vote → StateMachine → StateMachine
record_vote tx_id voter vote sm = elim (Map.get tx_id sm.pending_txs) [
  | none ↦ sm
  | some tx ↦ record sm {
    pending_txs =
        Map.insert tx_id (record tx { votes = Map.insert voter vote tx.votes }) sm.pending_txs;
  }
]

unfoldable pub apply_op : TxOp → StateMachine → StateMachine
unfolding set delete
apply_op (TxOp.put key value) sm = set key value sm
apply_op (TxOp.delete key) sm = delete key sm

unfoldable pub apply_ops : List TxOp → StateMachine → StateMachine
unfolding apply_op
apply_ops [] sm = sm
apply_ops (op ∷ ops) sm = apply_ops ops (apply_op op sm)

unfoldable pub decide_tx : Str → TxDecision → StateMachine → StateMachine
unfolding apply_ops
decide_tx tx_id decision sm = elim (Map.get tx_id sm.pending_txs) [
  | none ↦ sm
  | some tx ↦
      let removed = record sm { pending_txs = Map.remove tx_id sm.pending_txs } in
      elim decision [ commit ↦ apply_ops tx.ops removed | abort ↦ removed ]
]

unfoldable pub pending_tx_count : StateMachine → ℕ
pending_tx_count sm = length sm.pending_txs

-- `saturating_sub` is the subtraction of ℕ.
unfoldable pub pending_txs_older_than : ℕ → ℕ → StateMachine → List Str
pending_txs_older_than now threshold_ms sm =
    map (λ e. e.0) (filter (λ e. ltb threshold_ms (now - e.1.begin_unix_ms)) sm.pending_txs)

unfoldable pub is_tx_pending : Str → StateMachine → Bool
is_tx_pending tx_id sm = contains_key tx_id sm.pending_txs

pub record PendingTxView : Type 0 where
  pub op_count : ℕ
  pub yes_votes : ℕ
  pub no_votes : ℕ

abbrev is_yes : Vote → Bool
is_yes yes_vote = true
is_yes (no_vote reason) = false

abbrev is_no : Vote → Bool
is_no yes_vote = false
is_no (no_vote reason) = true

unfoldable pub pending_tx : Str → StateMachine → Option PendingTxView
pending_tx tx_id sm = elim (Map.get tx_id sm.pending_txs) [
  | none ↦ none
  | some tx ↦ some (record {
    op_count = length tx.ops;
    yes_votes = count is_yes (values tx.votes);
    no_votes = count is_no (values tx.votes);
  })
]
