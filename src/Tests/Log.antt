-- ===== src/Tests/Log.antt =====
-- Replication, commit, application and the reference model at concrete inputs.
use oxide_kv.Common.{
  ℕ, zero, suc, ◌+◌, ◌-◌, ◌≡◌, ◌≤◌, ◌<◌, refl, ◌⊎◌, true, some, [], ◌∷◌, arith, length,
}
use oxide_kv.Text.{cmp}
use oxide_kv.Protocol.{LogEntry, Command, set, begin_tx}
use oxide_kv.Protocol.Quorum.{config_quorum_reached, majority_reached, count_reached, replicated}
use oxide_kv.Map
use oxide_kv.Lsm.View.{view, view_tables}
use oxide_kv.Raft.{RaftNode, leader, new_node, AppendEntriesArgs}
use oxide_kv.Raft.Apply.{state_effect, apply_logs}
use oxide_kv.Raft.Apply.Frame.{Indexed}
use oxide_kv.Raft.Apply.Drains.{InStep, apply_logs-drain_to}
use oxide_kv.Raft.Append.{
  handle_append_entries, is_consistent, follow, append_all, append_entry, append_at, push_entry,
  advance_commit,
}
use oxide_kv.Raft.Append.Logs.{log_term}
use oxide_kv.Raft.Append.Sound.{Agrees}
use oxide_kv.Raft.Append.Accepts.{Accepted, IsRequest}
use oxide_kv.Raft.Append.Safety.{
  IsValid, Preserved, handle_append_entries-Accepted, handle_append_entries-Preserved,
}
use oxide_kv.Raft.Replicate.{maybe_commit}
use oxide_kv.Raft.Replicate.Commit.{Advance, quorum_at, maybe_commit-Advance, maybe_commit-reaches}
use oxide_kv.Reference.{new_model, model_effect, drain_to}
use oxide_kv.Reference.Refines.{Simulates, state_effect-Simulates}
use oxide_kv.Tests.Store.{a, b, c, one, two, empty_store, empty-IsRecoverable}
use oxide_kv.Tests.Consensus.{started}

program : Unit {0}
unfolding Map.get Map.insert cmp count_reached majority_reached replicated config_quorum_reached
    new_node handle_append_entries is_consistent follow append_all append_entry append_at push_entry
    advance_commit view view_tables
program = tt

abbrev pub entry : ℕ → ℕ → Command → LogEntry
entry term index command = record { term = term; index = index; command = command }

abbrev pub first : LogEntry
first = entry 1 1 (set a one)

abbrev pub stale : LogEntry
stale = entry 1 2 (set b one)

abbrev pub fresh : LogEntry
fresh = entry 2 2 (set b two)

-- A follower with one committed and applied entry, and one that a leader of term 2 replaces.
abbrev pub behind : RaftNode
behind = record started {
  current_term = 1;
  log = first ∷ stale ∷ [];
  commit_index = 1;
  last_applied = 1;
}

abbrev pub replace : AppendEntriesArgs
replace = record {
  term = 2;
  leader_id = b;
  prev_log_index = 1;
  prev_log_term = 1;
  entries = fresh ∷ [];
  leader_commit = 2;
}

pub replace-IsRequest : IsRequest replace
replace-IsRequest = ((refl, tt), omega arith)

behind-Indexed : Indexed 0 behind.log
behind-Indexed = (refl, (refl, tt))

replace_succeeds : (handle_append_entries 5 0 replace behind).1.success ≡ true
unfolding program
replace_succeeds = refl

handle_append_entries-Accepted_example :
    Accepted replace behind (handle_append_entries 5 0 replace behind).0
handle_append_entries-Accepted_example =
    handle_append_entries-Accepted 5 0 replace behind replace-IsRequest behind-Indexed
      replace_succeeds

behind-IsValid : IsValid behind
unfolding program
behind-IsValid = record { indexed = behind-Indexed; applied = omega arith; committed = omega arith }

replace-Agrees : Agrees behind.commit_index replace.prev_log_index replace.entries behind.log
unfolding program
replace-Agrees i e h lt = absurd (omega arith)

handle_append_entries-Preserved_example :
    Preserved behind (handle_append_entries 5 0 replace behind).0
handle_append_entries-Preserved_example =
    handle_append_entries-Preserved 5 0 replace behind replace-IsRequest behind-IsValid
      replace-Agrees

-- A leader of term 2 whose two entries `b` holds.
abbrev committing : RaftNode
committing = record started {
  state = leader;
  current_term = 2;
  log = first ∷ fresh ∷ [];
  match_index = (b, 2) ∷ [];
}

maybe_commit-Advance_example :
    ((maybe_commit 0 committing).commit_index ≡ committing.commit_index)
    ⊎ Advance committing (maybe_commit 0 committing)
maybe_commit-Advance_example = maybe_commit-Advance 0 committing

committing_quorum : quorum_at committing 2 ≡ true
unfolding program
committing_quorum = refl

committing_below : committing.commit_index < 2
unfolding program
committing_below = omega arith

committing_own :
    (j : ℕ)
    → 2 ≤ j + 1
    → j < length committing.log
    → log_term j committing.log ≡ some committing.current_term
committing_own zero h lt = absurd (omega arith)
committing_own (suc zero) h lt = refl
committing_own (suc (suc j)) h lt = absurd (omega arith)

maybe_commit-reaches_example : 2 ≤ (maybe_commit 0 committing).commit_index
maybe_commit-reaches_example =
    maybe_commit-reaches 0 committing 2 refl committing_below (omega arith) committing_quorum
      committing_own

-- A node with two committed entries to apply, and the model at its start.
abbrev applying : RaftNode
applying = record started { log = first ∷ stale ∷ []; commit_index = 2 }

applying_applied : applying.last_applied ≤ applying.commit_index
unfolding program
applying_applied = omega arith

empty-Simulates : Simulates (empty_store 1000) new_model
unfolding program
empty-Simulates = record {
  valid = (empty-IsRecoverable 1000).valid;
  values = λ key. refl;
  staged = λ tx_id. refl;
}

applying-InStep : InStep applying new_model
unfolding program
applying-InStep = record { simulates = empty-Simulates; index = refl }

apply_logs-drain_to_example :
    InStep (apply_logs 0 applying) (drain_to applying.log applying.commit_index new_model).0
    × ((drain_to applying.log applying.commit_index new_model).1
        ≡ applying.commit_index - applying.last_applied)
    × ((apply_logs 0 applying).last_applied ≡ applying.commit_index)
apply_logs-drain_to_example =
    apply_logs-drain_to 0 applying new_model applying-InStep applying_applied (omega arith)

state_effect-Simulates_example :
    Simulates
      (state_effect 0 (begin_tx c []) (empty_store 1000))
      (model_effect (begin_tx c []) new_model)
state_effect-Simulates_example =
    state_effect-Simulates (empty_store 1000) new_model empty-Simulates (begin_tx c []) 0
