-- ===== src/Tests/Sdk.antt =====
-- The client library at concrete inputs.
use oxide_kv.Common.{◌≡◌, refl, true, some, none, [], ◌∷◌}
use oxide_kv.Text.{cmp}
use oxide_kv.Map
use oxide_kv.Lsm
use oxide_kv.Raft.{is_leader, new_node}
use oxide_kv.Raft.Propose.{ok, err}
use oxide_kv.Raft.Reads.{begin_read, confirm_read}
use oxide_kv.Raft.Replicate.{sync_logs}
use oxide_kv.Visits.{Visit, Task, visit, write, poll, poll_visits}
use oxide_kv.Client.{
  dispatch_command, run_command, linearizable_get, read_index, read_value, look_confirmed,
}
use oxide_kv.Client.Reads.{Read}
use oxide_kv.Sdk.{server, begin_tx, commit_tx, get, parse_get, check_not_leader, json}
use oxide_kv.Sdk.Commits.{set_op, stage_all, commit_tx-stage_all}
use oxide_kv.Sdk.Reads.{get-Read}
use oxide_kv.Tests.Store.{a, one}
use oxide_kv.Tests.Consensus.{leading}
use oxide_kv.Tests.Client.{at, task, settings, reading, yes_votes}

program : Unit {0}
unfolding Map.get cmp new_node visit write poll poll_visits dispatch_command run_command
    linearizable_get read_index read_value look_confirmed begin_read confirm_read sync_logs Lsm.get
    get parse_get check_not_leader json
program = tt

abbrev got : Task
got = record { visits = []; written = (begin_read 20 0 leading).0 ∷ [] }

nothing_got : get settings yes_votes a (task (at 18 leading ∷ reading)) ≡ (some (ok none), got)
unfolding program
nothing_got = refl

get-Read_example :
    (v : Visit) × (t1 : Task) × (at 18 leading ∷ reading ≡ v ∷ t1.visits)
    × (t1.written ≡ [])
    × (is_leader v.node.state ≡ true)
    × Read settings a none t1 got
get-Read_example =
    get-Read settings yes_votes a none (task (at 18 leading ∷ reading)) got nothing_got

commit_tx-stage_all_example :
    commit_tx settings yes_votes (stage_all (set_op a one ∷ []) (begin_tx one)) (task reading)
    ≡ (some (err server), task reading)
commit_tx-stage_all_example =
    commit_tx-stage_all settings yes_votes one (set_op a one) [] (task reading)
