-- ===== src/Reference.antt =====
-- raft/reference_model.rs: the sequential model that the simulated cluster is checked against.
pub mod Refines
use oxide_kv.Common.{
  ℕ, zero, suc, ◌+◌, ◌-◌, Bool, true, false, Option, none, some, List, [], ◌∷◌, ltb, leb, get_elem?,
  ◌==◌, if◌then◌else◌,
}
use oxide_kv.Text.{Str}
use oxide_kv.Map
use oxide_kv.Map.{Map}
use oxide_kv.Protocol.{
  Command, set, get, delete, compact, abort_tx, begin_tx, decide_tx, add_node, remove_node,
  install_configuration, TxOp, TxDecision, commit, abort, LogEntry,
}

pub record ReferenceModel : Type 0 where
  pub state : Map Str
  pub pending : Map (List TxOp)
  pub next_index : ℕ

abbrev pub new_model : ReferenceModel
new_model = record { state = []; pending = []; next_index = 1 }

-- The loop over the staged operations.
unfoldable pub run_ops : List TxOp → Map Str → Map Str
run_ops [] state = state
run_ops (TxOp.put key value ∷ ops) state = run_ops ops (Map.insert key value state)
run_ops (TxOp.delete key ∷ ops) state = run_ops ops (Map.remove key state)

unfoldable pub decide : Str → TxDecision → ReferenceModel → ReferenceModel
unfolding run_ops
decide tx_id decision rm = elim (Map.get tx_id rm.pending) [
  | none ↦ rm
  | some ops ↦
      let drained = record rm { pending = Map.remove tx_id rm.pending } in
      elim decision [ commit ↦ record drained { state = run_ops ops rm.state } | abort ↦ drained ]
]

-- The `match` of `apply`.
unfoldable pub model_effect : Command → ReferenceModel → ReferenceModel
unfolding decide
model_effect (set key value) rm = record rm { state = Map.insert key value rm.state }
model_effect (delete key) rm = record rm { state = Map.remove key rm.state }
model_effect (begin_tx tx_id ops) rm = record rm { pending = Map.insert tx_id ops rm.pending }
model_effect (decide_tx tx_id decision) rm = decide tx_id decision rm
model_effect (get key) rm = rm
model_effect compact rm = rm
model_effect (abort_tx tx_id) rm = rm
model_effect (add_node server) rm = rm
model_effect (remove_node node_id) rm = rm
model_effect (install_configuration config) rm = rm

unfoldable pub apply : ℕ → Command → ReferenceModel → ReferenceModel × Bool
unfolding model_effect
apply index command rm =
    if ltb index rm.next_index
    then (rm, false)
    else if ltb rm.next_index index
    then (rm, false)
    else (model_effect command (record rm { next_index = rm.next_index + 1 }), true)

-- `get_log_entry` of the node whose log is drained.
abbrev pub entry_at : ℕ → List LogEntry → Option LogEntry
entry_at index log = if index == 0 then none else get_elem? log (index - 1)

-- The `while` loop of `drain_to` and `replay_from_node` over the log of the chosen node, with the
-- count of applied entries; each round applies one entry or ends the loop.
unfoldable pub drain_loop : ℕ → List LogEntry → ℕ → ReferenceModel → ℕ → ReferenceModel × ℕ
unfolding apply
drain_loop zero log commit_index rm applied = (rm, applied)
drain_loop (suc fuel) log commit_index rm applied =
    if leb rm.next_index commit_index
    then elim (entry_at rm.next_index log) [
      | none ↦ (rm, applied)
      | some e ↦
          let (next, done) = apply rm.next_index e.command rm in
          let rest = drain_loop fuel log commit_index next (applied + 1) in
          if done then rest else (next, applied)
    ]
    else (rm, applied)

unfoldable pub drain_to : List LogEntry → ℕ → ReferenceModel → ReferenceModel × ℕ
unfolding drain_loop
drain_to log commit_index rm = drain_loop (commit_index + 1 - rm.next_index) log commit_index rm 0

unfoldable pub replay_from_node : List LogEntry → ℕ → ReferenceModel × ℕ
unfolding drain_to
replay_from_node log commit_index = drain_to log commit_index new_model

unfoldable pub applied_index : ReferenceModel → ℕ
applied_index rm = rm.next_index - 1
