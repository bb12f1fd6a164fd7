-- ===== src/Invariants/Atomicity.antt =====
-- `check_2pc_atomicity` and `assert_invariants` of raft/invariants.rs.
pub mod Recorded
pub mod Outcomes
use oxide_kv.Common.{
  ℕ, Option, none, some, List, [], ◌∷◌, map, length, ltb, if◌then◌else◌, Ordering,
}
use oxide_kv.Text.{Str, cmp, ◌=s◌}
use oxide_kv.Map
use oxide_kv.Map.{Map}
use oxide_kv.Protocol.{Command, LogEntry}
use oxide_kv.Invariants.{
  SimNode, InvariantResult, passed, violated, and_then, two_phase_commit_atomicity,
  check_election_safety, check_log_matching_property, check_state_machine_safety,
}
use oxide_kv.Invariants.Printing.{fmt_decision}
use oxide_kv.Invariants.Durability.{check_committed_entry_durability}

-- By transaction and node, the term and the text of a decision.
abbrev pub Decisions : Type 0
Decisions = Map (Map (ℕ × Str))

abbrev pub or_default : Option (Map (ℕ × Str)) → Map (ℕ × Str)
or_default none = []
or_default (some per_node) = per_node

abbrev pub record_command : Str → ℕ → Command → Decisions → Decisions
record_command id term (Command.decide_tx tx_id decision) m =
    Map.insert tx_id (Map.insert id (term, fmt_decision decision) (or_default (Map.get tx_id m))) m
record_command id term _ m = m

unfoldable pub record_log : Str → List LogEntry → Decisions → Decisions
record_log id [] m = m
record_log id (e ∷ log) m = record_log id log (record_command id e.term e.command m)

unfoldable pub record_nodes : List SimNode → Decisions → Decisions
unfolding record_log
record_nodes [] m = m
record_nodes (node ∷ nodes) m = record_nodes nodes (record_log node.id node.raft.log m)

-- `sort` and `dedup`
unfoldable pub insert_outcome : Str → List Str → List Str
insert_outcome x [] = x ∷ []
insert_outcome x (y ∷ ys) =
    let rest = insert_outcome x ys in elim (cmp x y) [ Ordering.gt ↦ y ∷ rest | _ ↦ x ∷ y ∷ ys ]

unfoldable pub sort_outcomes : List Str → List Str
unfolding insert_outcome
sort_outcomes [] = []
sort_outcomes (x ∷ xs) = insert_outcome x (sort_outcomes xs)

-- After an outcome that is kept.
unfoldable pub dedup_after : Str → List Str → List Str
dedup_after x [] = []
dedup_after x (y ∷ ys) =
    let rest = dedup_after (if x =s y then x else y) ys in if x =s y then rest else y ∷ rest

abbrev pub dedup : List Str → List Str
dedup [] = []
dedup (x ∷ xs) = x ∷ dedup_after x xs

abbrev pub outcomes : Map (ℕ × Str) → List Str
outcomes per_node = map (λ e. e.1.1) per_node

unfoldable pub check_outcomes : Decisions → InvariantResult
unfolding sort_outcomes dedup_after
check_outcomes [] = passed
check_outcomes ((tx_id, per_node) ∷ tx_decisions) =
    let rest = check_outcomes tx_decisions in
    if ltb 1 (length (dedup (sort_outcomes (outcomes per_node))))
    then violated (two_phase_commit_atomicity tx_id (map (λ e. (e.0, e.1.1)) per_node))
    else rest

unfoldable pub check_2pc_atomicity : List SimNode → InvariantResult
unfolding record_nodes check_outcomes
check_2pc_atomicity nodes = check_outcomes (record_nodes nodes [])

unfoldable pub assert_invariants : List SimNode → InvariantResult
assert_invariants nodes = and_then (check_election_safety nodes) (
    and_then (check_log_matching_property nodes) (
      and_then (check_state_machine_safety nodes)
        (and_then (check_committed_entry_durability nodes) (check_2pc_atomicity nodes))))
