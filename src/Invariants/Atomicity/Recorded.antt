-- ===== src/Invariants/Atomicity/Recorded.antt =====
-- What `check_2pc_atomicity` of raft/invariants.rs records of the logs of a cluster.
use oxide_kv.Common.{
  ℕ, ◌≡◌, refl, ap, ◌∙◌, true, false, Option, none, some, List, [], ◌∷◌, All, arith, if◌then◌else◌,
  Bool-cases, inl, inr,
}
use oxide_kv.Text.{Str, ◌=s◌, =s_iff}
use oxide_kv.Map
use oxide_kv.Map.{Map}
use oxide_kv.Map.Laws.{get-insert}
use oxide_kv.Protocol.{Command, LogEntry, TxDecision}
use oxide_kv.Invariants.{SimNode}
use oxide_kv.Invariants.Pairs.{AllPairs}
use oxide_kv.Invariants.Printing.{fmt_decision}
use oxide_kv.Invariants.Atomicity.{Decisions, or_default, record_command, record_log, record_nodes}

-- What is recorded of a transaction on a node.
abbrev pub recorded : Str → Str → Decisions → Option (ℕ × Str)
recorded tx_id id m = Map.get id (or_default (Map.get tx_id m))

-- The decision of a command, and the last one of a log.
abbrev decided : Str → ℕ → Command → Option (ℕ × TxDecision)
decided tx_id term (Command.decide_tx t decision) =
    if t =s tx_id then some (term, decision) else none
decided tx_id term _ = none

abbrev or_else : {A : Type 0} → Option A → Option A → Option A
or_else (some a) b = some a
or_else none b = b

unfoldable pub last_decision : Str → List LogEntry → Option (ℕ × TxDecision)
last_decision tx_id [] = none
last_decision tx_id (e ∷ log) = or_else (last_decision tx_id log) (decided tx_id e.term e.command)

abbrev printed : Option (ℕ × TxDecision) → Option (ℕ × Str)
printed none = none
printed (some (term, decision)) = some (term, fmt_decision decision)

recorded-insert :
    (tx_id t id j : Str) (d : ℕ × Str) (m : Decisions)
    → recorded tx_id id (Map.insert t (Map.insert j d (or_default (Map.get t m))) m) ≡ (
        if t =s tx_id
        then (if j =s id then some d else recorded tx_id id m)
        else recorded tx_id id m)
recorded-insert tx_id t id j d m = elim (Bool-cases (t =s tx_id)) [
  | inr other ↦ rw (get-insert t tx_id (Map.insert j d (or_default (Map.get t m))) m, other) refl
  | inl same ↦
      let e : t ≡ tx_id = (=s_iff t tx_id).0 same in
      let inner = get-insert j id d (or_default (Map.get t m)) in
      rw (get-insert t tx_id (Map.insert j d (or_default (Map.get t m))) m, same)
        (inner ∙ ap (λ u. if j =s id then some d else recorded u id m) e)
]

recorded-own :
    (tx_id id : Str) (term : ℕ) (c : Command) (m : Decisions)
    → recorded tx_id id (record_command id term c m)
      ≡ or_else (printed (decided tx_id term c)) (recorded tx_id id m)
recorded-own tx_id id term (Command.decide_tx t decision) m =
    let self : (id =s id) ≡ true = (=s_iff id id).1 refl in
    let e = recorded-insert tx_id t id id (term, fmt_decision decision) m in
    elim (Bool-cases (t =s tx_id)) [ inl same ↦ ground arith | inr other ↦ ground arith ]
recorded-own tx_id id term _ m = refl

recorded-other :
    (tx_id id j : Str) (term : ℕ) (c : Command) (m : Decisions)
    → (j =s id) ≡ false
    → recorded tx_id id (record_command j term c m) ≡ recorded tx_id id m
recorded-other tx_id id j term (Command.decide_tx t decision) m differ =
    let e = recorded-insert tx_id t id j (term, fmt_decision decision) m in
    elim (Bool-cases (t =s tx_id)) [ inl same ↦ ground arith | inr other ↦ ground arith ]
recorded-other tx_id id j term _ m differ = refl

record_log-own :
    (tx_id id : Str) (log : List LogEntry) (m : Decisions)
    → recorded tx_id id (record_log id log m)
      ≡ or_else (printed (last_decision tx_id log)) (recorded tx_id id m)
unfolding record_log last_decision
record_log-own tx_id id [] m = refl
record_log-own tx_id id (e ∷ log) m =
    record_log-own tx_id id log (record_command id e.term e.command m)
    ∙ ap (or_else (printed (last_decision tx_id log))) (recorded-own tx_id id e.term e.command m)
    ∙ together (last_decision tx_id log) (decided tx_id e.term e.command) (recorded tx_id id m)
  where
    together :
        (a b : Option (ℕ × TxDecision)) (x : Option (ℕ × Str))
        → or_else (printed a) (or_else (printed b) x) ≡ or_else (printed (or_else a b)) x
    together none b x = refl
    together (some a) b x = refl

record_log-other :
    (tx_id id j : Str) (log : List LogEntry) (m : Decisions)
    → (j =s id) ≡ false
    → recorded tx_id id (record_log j log m) ≡ recorded tx_id id m
unfolding record_log
record_log-other tx_id id j [] m differ = refl
record_log-other tx_id id j (e ∷ log) m differ =
    record_log-other tx_id id j log (record_command j e.term e.command m) differ
    ∙ recorded-other tx_id id j e.term e.command m differ

-- Nodes of other names.
abbrev Others : Str → List SimNode → Type 0
Others id = All (λ node. (node.id =s id) ≡ false)

record_nodes-other :
    (tx_id id : Str) (nodes : List SimNode) (m : Decisions)
    → Others id nodes
    → recorded tx_id id (record_nodes nodes m) ≡ recorded tx_id id m
unfolding record_nodes
record_nodes-other tx_id id [] m differ = refl
record_nodes-other tx_id id (node ∷ nodes) m differ =
    record_nodes-other tx_id id nodes (record_log node.id node.raft.log m) differ.1
    ∙ record_log-other tx_id id node.id node.raft.log m differ.0

abbrev pub Named : List SimNode → Type 0
Named = AllPairs (λ a b. (b.id =s a.id) ≡ false)

-- The decisions of a node's log are recorded.
abbrev pub IsRecorded : Decisions → SimNode → Type 0
IsRecorded m node =
    (tx_id : Str) (d : ℕ × TxDecision)
    → last_decision tx_id node.raft.log ≡ some d
    → recorded tx_id node.id m ≡ some (d.0, fmt_decision d.1)

pub record_nodes-IsRecorded :
    (nodes : List SimNode) (m : Decisions)
    → Named nodes
    → All (IsRecorded (record_nodes nodes m)) nodes
unfolding record_nodes
record_nodes-IsRecorded [] m named = tt
record_nodes-IsRecorded (node ∷ nodes) m named = (
  λ tx_id d last.
      record_nodes-other tx_id node.id nodes (record_log node.id node.raft.log m) named.0
      ∙ record_log-own tx_id node.id node.raft.log m
      ∙ ap (λ o. or_else (printed o) (recorded tx_id node.id m)) last,
  record_nodes-IsRecorded nodes (record_log node.id node.raft.log m) named.1,
)
