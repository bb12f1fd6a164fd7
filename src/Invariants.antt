-- ===== src/Invariants.antt =====
-- Of the checks of raft/invariants.rs over a simulated cluster: election safety, log matching and state
-- machine safety. An index past the end of a log panics in the code.
pub mod Pairs
pub mod Leaders
pub mod Printing
pub mod Durability
pub mod Atomicity
use oxide_kv.Common.{
  ℕ, zero, suc, ◌+◌, Bool, true, false, ◌&&◌, Option, none, some, List, [], ◌∷◌, get_elem?, min,
  ◌==◌, ltb, length, ◌++◌, if◌then◌else◌,
}
use oxide_kv.Text.{Str}
use oxide_kv.Protocol.{LogEntry}
use oxide_kv.Protocol.Equality.{same_command}
use oxide_kv.Raft.{RaftNode, is_leader}

-- A node of `SimCluster`.
pub record SimNode : Type 0 where
  pub id : Str
  pub raft : RaftNode

-- The violation names the two entries themselves, not their terms and printed commands.
pub data InvariantViolation : Type 0 where
  election_safety : ℕ → List Str → InvariantViolation
  log_matching_property : ℕ → Str → Str → LogEntry → LogEntry → InvariantViolation
  state_machine_safety : ℕ → Str → Str → LogEntry → LogEntry → InvariantViolation
  committed_entry_durability : ℕ → Str → Str → Str → InvariantViolation
  two_phase_commit_atomicity : Str → List (Str × Str) → InvariantViolation

pub data InvariantResult : Type 0 where
  passed : InvariantResult
  violated : InvariantViolation → InvariantResult
  panicked : InvariantResult

-- The loop `for k in k..k + rounds` over two logs.
unfoldable pub compare_logs :
    (LogEntry → LogEntry → Bool)
    → (ℕ → LogEntry → LogEntry → InvariantViolation)
    → ℕ
    → ℕ
    → List LogEntry
    → List LogEntry
    → InvariantResult
compare_logs agree report zero k la lb = passed
compare_logs agree report (suc rounds) k la lb =
    let rest = compare_logs agree report rounds (k + 1) la lb in
    elim (get_elem? la k) [
      | none ↦ panicked
      | some ea ↦ elim (get_elem? lb k) [
        | none ↦ panicked
        | some eb ↦ if agree ea eb then rest else violated (report (k + 1) ea eb)
      ]
    ]

abbrev pub and_then : InvariantResult → InvariantResult → InvariantResult
and_then passed next = next
and_then (violated v) next = violated v
and_then panicked next = panicked

-- The loop over `j` for one `i`, and the loop over `i`.
unfoldable pub check_against :
    (SimNode → SimNode → InvariantResult) → SimNode → List SimNode → InvariantResult
check_against check a [] = passed
check_against check a (b ∷ nodes) = and_then (check a b) (check_against check a nodes)

unfoldable pub check_pairs : (SimNode → SimNode → InvariantResult) → List SimNode → InvariantResult
unfolding check_against
check_pairs check [] = passed
check_pairs check (a ∷ nodes) = and_then (check_against check a nodes) (check_pairs check nodes)

abbrev pub same_entry : LogEntry → LogEntry → Bool
same_entry ea eb = ea.term == eb.term && same_command ea.command eb.command

abbrev pub same_effect : LogEntry → LogEntry → Bool
same_effect ea eb = same_command ea.command eb.command

abbrev pub check_committed : SimNode → SimNode → InvariantResult
check_committed a b =
    compare_logs same_entry (λ index. log_matching_property index a.id b.id)
      (min a.raft.commit_index b.raft.commit_index) 0 a.raft.log b.raft.log

abbrev pub check_applied : SimNode → SimNode → InvariantResult
check_applied a b =
    compare_logs same_effect (λ index. state_machine_safety index a.id b.id)
      (min a.raft.last_applied b.raft.last_applied) 0 a.raft.log b.raft.log

unfoldable pub check_log_matching_property : List SimNode → InvariantResult
unfolding check_pairs compare_logs
check_log_matching_property nodes = check_pairs check_committed nodes

unfoldable pub check_state_machine_safety : List SimNode → InvariantResult
unfolding check_pairs compare_logs
check_state_machine_safety nodes = check_pairs check_applied nodes

-- `by_term.entry(term).or_default().push(id)`, the map a list in the order of the terms.
unfoldable pub add_leader : ℕ → Str → List (ℕ × List Str) → List (ℕ × List Str)
add_leader term id [] = (term, id ∷ []) ∷ []
add_leader term id ((other, ids) ∷ by_term) =
    let rest = add_leader term id by_term in
    if term == other
    then (other, ids ++ id ∷ []) ∷ by_term
    else if ltb term other
    then (term, id ∷ []) ∷ (other, ids) ∷ by_term
    else (other, ids) ∷ rest

unfoldable pub leaders_by_term : List SimNode → List (ℕ × List Str) → List (ℕ × List Str)
unfolding add_leader
leaders_by_term [] by_term = by_term
leaders_by_term (node ∷ nodes) by_term = leaders_by_term nodes (
    if is_leader node.raft.state
    then add_leader node.raft.current_term node.id by_term
    else by_term)

unfoldable pub check_terms : List (ℕ × List Str) → InvariantResult
check_terms [] = passed
check_terms ((term, ids) ∷ by_term) =
    let rest = check_terms by_term in
    if ltb 1 (length ids) then violated (election_safety term ids) else rest

unfoldable pub check_election_safety : List SimNode → InvariantResult
unfolding leaders_by_term check_terms
check_election_safety nodes = check_terms (leaders_by_term nodes [])
