-- ===== src/Tests/Elections.antt =====
-- Probes that fail, timers that are stuck, and the checks on committed entries and transactions, at
-- concrete inputs.
use oxide_kv.Common.{◌≡◌, ◌<◌, refl, All, true, none, some, List, [], ◌∷◌, arith, get_elem?}
use oxide_kv.Text.{Str, cmp}
use oxide_kv.Map
use oxide_kv.Protocol.{Command, put, commit, abort}
use oxide_kv.Raft.{RaftNode, VoteResponseArgs, new_node, get_last_log_info, pre_candidate}
use oxide_kv.Raft.Election.{VoteRound, become_pre_candidate}
use oxide_kv.Raft.Election.Probes.{probe_replies, probe_replies-granted_in}
use oxide_kv.Visits.{Task}
use oxide_kv.Timers.{run_election_timer}
use oxide_kv.Timers.Stuck.{IsStanding, Standing, Leaves, run_election_timer-Leaves}
use oxide_kv.Invariants.{SimNode, passed, violated, two_phase_commit_atomicity}
use oxide_kv.Invariants.Pairs.{AllPairs}
use oxide_kv.Invariants.Printing.{text, digits, decimal, fmt_command}
use oxide_kv.Invariants.Durability.{
  max_u64, least_commit, most_committed, compare_printed, check_others,
  check_committed_entry_durability,
}
use oxide_kv.Invariants.Durability.Alike.{Durable, check_committed_entry_durability-Durable}
use oxide_kv.Invariants.Atomicity.{
  record_log, record_nodes, sort_outcomes, insert_outcome, dedup_after, check_outcomes,
  check_2pc_atomicity,
}
use oxide_kv.Invariants.Atomicity.Recorded.{Named}
use oxide_kv.Invariants.Atomicity.Outcomes.{Agree, check_2pc_atomicity-AllPairs}
use oxide_kv.Tests.Store.{a, b, one}
use oxide_kv.Tests.Consensus.{started}
use oxide_kv.Tests.Log.{entry}

program : Unit {0}
unfolding Map.get Map.insert cmp new_node get_last_log_info become_pre_candidate least_commit
    most_committed compare_printed check_others check_committed_entry_durability fmt_command decimal
    digits record_log record_nodes sort_outcomes insert_outcome dedup_after check_outcomes
    check_2pc_atomicity
program = tt

-- One of three nodes probes, and one peer is left to grant it.
abbrev probing : RaftNode
probing = (become_pre_candidate 5 started).0

abbrev round : VoteRound
round = record {
  total_nodes = 3;
  term = 1;
  votes_received = 0;
  args = record { term = 1; candidate_id = a; last_log_index = 0; last_log_term = 0 };
}

probe_sent : become_pre_candidate 5 started ≡ (probing, some round)
unfolding program
probe_sent = refl

abbrev granted : VoteResponseArgs
granted = record { term = 0; vote_granted = true }

probe_replies-granted_in_example :
    (probe_replies 9 (granted ∷ []) round probing ≡ (probing, record round { votes_received = 1 }))
    × (probing.state ≡ pre_candidate)
unfolding program
probe_replies-granted_in_example =
    probe_replies-granted_in 5 9 (granted ∷ []) started probing round probe_sent (omega arith, tt)
      (omega arith)

-- Looked at long after it was last heard of.
abbrev waiting : Task
waiting = record {
  visits =
      record { now = 5000; node = probing }
      ∷ record { now = 5100; node = probing }
      ∷ record { now = 5100; node = probing }
      ∷ [];
  written = [];
}

probing-IsStanding : IsStanding probing
unfolding program
probing-IsStanding = (refl, refl)

waiting-Standing : Standing waiting
waiting-Standing = ((probing-IsStanding, (probing-IsStanding, (probing-IsStanding, tt))), tt)

run_election_timer-Leaves_example : Leaves (All (λ p. p ≡ none)) (run_election_timer 1 150 waiting)
run_election_timer-Leaves_example = run_election_timer-Leaves 1 150 waiting waiting-Standing

-- Two nodes that have committed transactions with different writes, and decided one of them.
abbrev node : Str → RaftNode
node id = record started {
  node_id = id;
  log =
      entry 1 1 (Command.begin_tx one (put a id ∷ []))
      ∷ entry 1 2 (Command.decide_tx one commit)
      ∷ [];
  commit_index = 2;
}

abbrev cluster : List SimNode
cluster = record { id = a; raft = node a } ∷ record { id = b; raft = node b } ∷ []

printed_number : decimal 120 ≡ text "120"
unfolding program
printed_number = refl

-- The texts of the two transactions are the same.
committed_alike : check_committed_entry_durability cluster ≡ passed
unfolding program
committed_alike = refl

some_commit : least_commit max_u64 cluster < max_u64
unfolding program
some_commit = omega arith

check_committed_entry_durability-Durable_example :
    (reference : SimNode) × (get_elem? cluster (most_committed 0 0 0 cluster) ≡ some reference)
    × All (Durable (least_commit max_u64 cluster) reference.raft.log) cluster
check_committed_entry_durability-Durable_example =
    check_committed_entry_durability-Durable cluster committed_alike some_commit

decided_alike : check_2pc_atomicity cluster ≡ passed
unfolding program
decided_alike = refl

cluster-Named : Named cluster
unfolding program
cluster-Named = ((refl, tt), (tt, tt))

check_2pc_atomicity-AllPairs_example : AllPairs Agree cluster
check_2pc_atomicity-AllPairs_example =
    check_2pc_atomicity-AllPairs cluster decided_alike cluster-Named

abbrev aborted_there : List SimNode
aborted_there =
    record { id = a; raft = node a }
    ∷ record {
      id = b;
      raft = record started { log = entry 1 1 (Command.decide_tx one abort) ∷ [] };
    }
    ∷ []

decided_differently :
    check_2pc_atomicity aborted_there
    ≡ violated (two_phase_commit_atomicity one ((a, text "Commit") ∷ (b, text "Abort") ∷ []))
unfolding program
decided_differently = refl
