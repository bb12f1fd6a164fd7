-- ===== src/Tests/Cluster.antt =====
-- The checks over a cluster at concrete clusters.
use oxide_kv.Common.{◌≡◌, refl, List, [], ◌∷◌}
use oxide_kv.Text.{cmp}
use oxide_kv.Protocol.Equality.{same_command}
use oxide_kv.Map
use oxide_kv.Raft.{RaftNode, leader, new_node}
use oxide_kv.Invariants.{
  SimNode, election_safety, state_machine_safety, log_matching_property, passed, violated,
  compare_logs, check_against, check_pairs, check_log_matching_property, check_state_machine_safety,
  add_leader, leaders_by_term, check_terms, check_election_safety,
}
use oxide_kv.Invariants.Pairs.{AllPairs, Committed, Applied, check_log_matching_property-AllPairs}
use oxide_kv.Tests.Store.{a, b, c}
use oxide_kv.Tests.Log.{first, stale, fresh, behind}

program : Unit {0}
unfolding Map.get Map.insert cmp new_node same_command compare_logs check_against check_pairs
    check_log_matching_property check_state_machine_safety add_leader leaders_by_term check_terms
    check_election_safety
program = tt

-- One entry is committed on both nodes; their second entries differ.
abbrev ahead : RaftNode
ahead = record behind { log = first ∷ fresh ∷ []; commit_index = 2 }

abbrev cluster : List SimNode
cluster = record { id = a; raft = behind } ∷ record { id = b; raft = ahead } ∷ []

matching : check_log_matching_property cluster ≡ passed
unfolding program
matching = refl

safe : check_state_machine_safety cluster ≡ passed
unfolding program
safe = refl

-- The same two nodes, once both have committed two entries.
abbrev diverged : List SimNode
diverged =
    record { id = a; raft = record behind { commit_index = 2; last_applied = 2 } }
    ∷ record { id = b; raft = record ahead { last_applied = 2 } }
    ∷ []

terms_differ :
    check_log_matching_property diverged ≡ violated (log_matching_property 2 a b stale fresh)
unfolding program
terms_differ = refl

commands_differ :
    check_state_machine_safety diverged ≡ violated (state_machine_safety 2 a b stale fresh)
unfolding program
commands_differ = refl

check_log_matching_property-AllPairs_example : AllPairs Committed cluster × AllPairs Applied cluster
check_log_matching_property-AllPairs_example =
    check_log_matching_property-AllPairs cluster matching safe

-- Leaders of terms 2 and 1, and a follower.
abbrev elected : List SimNode
elected =
    record { id = a; raft = record behind { state = leader; current_term = 2 } }
    ∷ record { id = b; raft = record behind { state = leader } }
    ∷ record { id = c; raft = behind }
    ∷ []

one_each : check_election_safety elected ≡ passed
unfolding program
one_each = refl

-- Two leaders of term 1.
two_lead :
    check_election_safety (record { id = c; raft = record behind { state = leader } } ∷ elected)
    ≡ violated (election_safety 1 (c ∷ b ∷ []))
unfolding program
two_lead = refl
