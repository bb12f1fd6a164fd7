-- ===== src/Tests/Client.antt =====
-- Transactions, reads and refusals through the client front end at concrete inputs.
use oxide_kv.Common.{
  ℕ, zero, suc, ◌+◌, ◌≡◌, refl, Bool, true, Option, none, some, List, [], ◌∷◌, arith, length, ◌<◌,
  ◌≤◌,
}
use oxide_kv.Text.{Str, cmp}
use oxide_kv.Map
use oxide_kv.Protocol.{Command, commit}
use oxide_kv.Lsm
use oxide_kv.Raft.{RaftNode, match_index_for, new_node}
use oxide_kv.Raft.Apply.{append_own}
use oxide_kv.Storage.{append_wal_log}
use oxide_kv.Lsm.Tx.{record_vote}
use oxide_kv.Raft.Propose.{propose}
use oxide_kv.Raft.Replicate.{sync_logs}
use oxide_kv.Raft.Reads.{begin_read, confirm_read}
use oxide_kv.Raft.TxVote.{VoteRequest, VoteResponse, granted_reason}
use oxide_kv.Visits.{Visit, Task, visit, write, poll, poll_visits, until, split_at}
use oxide_kv.Visits.Polls.{Paced}
use oxide_kv.Coordinator.{
  tally_votes, step_down, record_yes, decide_votes, expected_voters, same_set,
}
use oxide_kv.Coordinator.Rounds.{
  committed, coordinate_tx, coordinate_tx_inner, multi_node, propose_and_wait_for_apply, propose_at,
  sync_and_wait, look_applied, look_replicated, all_replicated, wait_for_replication, vote_round,
  vote_request, conclude,
}
use oxide_kv.Coordinator.Outcome.{Basis, coordinate_tx-Basis}
use oxide_kv.Client.{
  Settings, invalid_json, not_a_leader, read_response, look_confirmed, read_index, read_value,
  linearizable_get, handle_client_request,
}
use oxide_kv.Client.Waits.{Waited}
use oxide_kv.Client.Reads.{Read, linearizable_get-Read, look_confirmed-ends}
use oxide_kv.Client.Refusals.{handle_client_request-refusal}
use oxide_kv.Tests.Store.{a, b, one}
use oxide_kv.Tests.Consensus.{started, leading, heard, token}
use oxide_kv.Tests.Log.{entry}

program : Unit {0}
unfolding Map.get Map.insert cmp new_node visit write poll poll_visits until split_at
    linearizable_get read_index read_value look_confirmed begin_read confirm_read Lsm.get
    coordinate_tx coordinate_tx_inner multi_node propose_and_wait_for_apply propose_at sync_and_wait
    look_applied look_replicated all_replicated wait_for_replication vote_round vote_request
    conclude propose append_own append_wal_log tally_votes step_down record_yes decide_votes
    expected_voters same_set sync_logs record_vote match_index_for
program = tt

abbrev pub at : ℕ → RaftNode → Visit
at now n = record { now = now; node = n }

abbrev pub task : List Visit → Task
task vs = record { visits = vs; written = [] }

-- A leader with the one peer `b`, before a transaction, with it begun, and with it decided.
abbrev before : RaftNode
before = record leading { peers = b ∷ [] }

abbrev begun : RaftNode
begun = record before {
  log = entry 1 1 (Command.begin_tx one []) ∷ [];
  commit_index = 1;
  last_applied = 1;
  match_index = (b, 1) ∷ [];
}

abbrev decided : RaftNode
decided = record begun {
  log = entry 1 1 (Command.begin_tx one []) ∷ entry 1 2 (Command.decide_tx one commit) ∷ [];
  commit_index = 2;
  last_applied = 2;
}

abbrev schedule : List Visit
schedule =
    at 0 before
    ∷ at 1 before
    ∷ at 2 before
    ∷ at 9 before
    ∷ at 19 begun
    ∷ at 20 begun
    ∷ at 21 begun
    ∷ at 30 begun
    ∷ at 30 begun
    ∷ at 30 begun
    ∷ at 31 begun
    ∷ at 32 begun
    ∷ at 40 begun
    ∷ at 50 decided
    ∷ []

abbrev pub yes_votes : VoteRequest → List Str → List (Str × Option VoteResponse)
yes_votes req [] = []
yes_votes req (p ∷ ps) =
    (p, some (record { term = req.term; vote_granted = true; reason = granted_reason }))
    ∷ yes_votes req ps

through : (coordinate_tx 0 yes_votes 0 one [] (task schedule)).0 ≡ some (committed 1 2 one)
unfolding program
through = refl

coordinate_tx-Basis_example :
    (one ≡ one)
    × ((t' : Task) × ((coordinate_tx 0 yes_votes 0 one [] (task schedule)).1.written ≡ t'.written)
        × Basis 0 yes_votes one [] 1 2 (task (split_at 10000 schedule).0) t')
coordinate_tx-Basis_example =
    coordinate_tx-Basis 0 yes_votes 0 1 2 one one [] (task schedule) through

abbrev pub settings : Settings
settings = record { max_election_timeout_ms = 300; unix_now = 0 }

abbrev pub reading : List Visit
reading = at 19 leading ∷ at 20 leading ∷ at 23 leading ∷ at 25 heard ∷ at 26 heard ∷ []

nothing_there : linearizable_get settings a (task reading) ≡ (
  some (read_response none),
  record { visits = []; written = (begin_read 20 0 leading).0 ∷ [] },
)
unfolding program
nothing_there = refl

linearizable_get-Read_example :
    Read settings a none
      (task reading)
      (record { visits = []; written = (begin_read 20 0 leading).0 ∷ [] })
linearizable_get-Read_example =
    linearizable_get-Read settings a none (task reading)
      (record { visits = []; written = (begin_read 20 0 leading).0 ∷ [] }) nothing_there

-- A node that hears of no quorum, looked at every 10 ms.
abbrev every_10_ms : ℕ → ℕ → List Visit
every_10_ms zero now = []
every_10_ms (suc k) now = at now leading ∷ every_10_ms k (now + 10)

every_10_ms-Paced : (k now : ℕ) → Paced 10 now (every_10_ms k now)
every_10_ms-Paced zero now = tt
every_10_ms-Paced (suc k) now = (omega arith, every_10_ms-Paced k (now + 10))

every_10_ms-length : (k now : ℕ) → length (every_10_ms k now) ≡ k
every_10_ms-length zero now = refl
every_10_ms-length (suc k) now = omega (arith, every_10_ms-length k (now + 10))

many : 201 < length (every_10_ms 202 20)
many = omega (arith, every_10_ms-length 202 20)

look_confirmed-ends_example :
    (r : Bool) × (rest : List Visit) × (poll_visits
        (look_confirmed 300 20 token)
        (every_10_ms 202 20)
      ≡ some (r, rest))
    × Waited 300 20 token r (every_10_ms 202 20) rest
    × (length (every_10_ms 202 20) ≤ length rest + 202)
look_confirmed-ends_example =
    look_confirmed-ends 300 20 token (every_10_ms 202 20) (every_10_ms-Paced 202 20) many

abbrev lines : List (Option Command)
lines = some (Command.set a one) ∷ none ∷ some (Command.get a) ∷ []

handle_client_request-refusal_example :
    (rest : List Visit) × (handle_client_request settings yes_votes lines
        (task (at 1 started ∷ at 2 started ∷ []))
      ≡ (some (not_a_leader ∷ invalid_json ∷ not_a_leader ∷ []), task rest))
unfolding program
handle_client_request-refusal_example =
    handle_client_request-refusal settings yes_votes lines (at 1 started ∷ at 2 started ∷ []) []
      (refl, (refl, tt)) (omega arith)
