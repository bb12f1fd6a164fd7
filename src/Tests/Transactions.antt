-- ===== src/Tests/Transactions.antt =====
-- The coordinator's decision, and snapshots taken and restored, at concrete inputs.
use oxide_kv.Common.{ℕ, length, map, ◌≡◌, refl, true, false, none, some, List, [], ◌∷◌, Option}
use oxide_kv.Text.{Str, cmp}
use oxide_kv.Map
use oxide_kv.Protocol.{TxDecision, commit, abort}
use oxide_kv.Storage.{wal_size_bytes, total_size}
use oxide_kv.Raft.{RaftNode, new_node}
use oxide_kv.Raft.TxVote.{VoteResponse, granted_reason, tx_not_pending}
use oxide_kv.Raft.Snapshots.{is_snapshot_due}
use oxide_kv.Visits.{visit, write}
use oxide_kv.Coordinator.{
  tally_votes, step_down, record_yes, expected_voters, same_set, decide_votes, decision_of, add,
}
use oxide_kv.Tests.Store.{b, c}
use oxide_kv.Tests.Consensus.{leading}
use oxide_kv.Tests.Log.{first, stale}

program : Unit {0}
unfolding Map.get Map.insert cmp new_node tally_votes step_down record_yes expected_voters same_set
    decide_votes visit write is_snapshot_due wal_size_bytes total_size
program = tt

abbrev granted : VoteResponse
granted = record { term = 1; vote_granted = true; reason = granted_reason }

abbrev refused : VoteResponse
refused = record { term = 1; vote_granted = false; reason = tx_not_pending }

abbrev answers : List (Str × Option VoteResponse)
answers = (b, some granted) ∷ (c, some granted) ∷ []

-- The decision after answers, and how many times the node was changed.
abbrev decided_by : List (Str × Option VoteResponse) → Option TxDecision × ℕ
decided_by results =
    let r = tally_votes b 1 results (add leading.node_id []) none (record {
      visits =
          record { now = 1; node = leading }
          ∷ record { now = 2; node = leading }
          ∷ record { now = 3; node = leading }
          ∷ [];
      written = [];
    }) in
    (
      elim r.0 [
        | none ↦ none
        | some tally ↦ decision_of (expected_voters leading.node_id (b ∷ c ∷ [])) tally
      ],
      length r.1.written,
    )

all_yes : decided_by answers ≡ (some commit, 2)
unfolding program
all_yes = refl

one_no : decided_by ((b, some granted) ∷ (c, some refused) ∷ []) ≡ (some abort, 1)
unfolding program
one_no = refl

one_late : decided_by ((b, none) ∷ (c, some granted) ∷ []) ≡ (some abort, 1)
unfolding program
one_late = refl

one_newer :
    decided_by ((b, some (record granted { term = 2 })) ∷ (c, some granted) ∷ []) ≡ (none, 1)
unfolding program
one_newer = refl

-- An answer of term 2 to a round of term 1 takes a node back that leads in term 5 by then.
taken_back :
    map
      (λ n. n.current_term)
      (tally_votes b 1 ((b, some (record granted { term = 2 })) ∷ []) [] none (record {
        visits = record { now = 1; node = record leading { current_term = 5 } } ∷ [];
        written = [];
      })).1.written
    ≡ 2 ∷ []
unfolding program
taken_back = refl

-- A leader with two entries in its WAL, one of them committed.
abbrev full : RaftNode
full = record leading {
  commit_index = 1;
  log = first ∷ stale ∷ [];
  storage = record { wal = first ∷ stale ∷ []; meta = none; snapshot = none };
}
