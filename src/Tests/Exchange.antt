-- ===== src/Tests/Exchange.antt =====
-- A leader and a follower exchanging requests at concrete inputs.
use oxide_kv.Common.{refl, true, [], ◌∷◌, arith}
use oxide_kv.Text.{cmp}
use oxide_kv.Map
use oxide_kv.Raft.{
  RaftNode, AppendReplyArgs, leader, new_node, is_log_up_to_date, get_last_log_info,
}
use oxide_kv.Raft.Append.{handle_append_entries, is_consistent}
use oxide_kv.Raft.Replicate.{append_args_for}
use oxide_kv.Raft.Replicate.Catchup.{Reachable, CaughtUp, append_args_for-handle_append_entries}
use oxide_kv.Tests.Store.{c}
use oxide_kv.Tests.Consensus.{started}
use oxide_kv.Tests.Log.{first, fresh, behind}

program : Unit {0}
unfolding Map.get cmp new_node is_consistent is_log_up_to_date get_last_log_info
program = tt

-- The leader of term 2, which goes on at the second entry for `c`.
abbrev sending : RaftNode
sending = record started {
  state = leader;
  current_term = 2;
  log = first ∷ fresh ∷ [];
  next_index = (c, 2) ∷ [];
}

behind-Reachable : Reachable c sending behind
unfolding program
behind-Reachable = record {
  next = omega arith;
  within = omega arith;
  bound = omega arith;
  leader_indexed = (refl, (refl, tt));
  indexed = (refl, (refl, tt));
  newer = omega arith;
  follows = refl;
  agrees = λ h. refl;
}

append_args_for-handle_append_entries_example :
    CaughtUp c sending behind
      (handle_append_entries 5 0 (append_args_for c sending) behind).0
      (handle_append_entries 5 0 (append_args_for c sending) behind).1
append_args_for-handle_append_entries_example =
    append_args_for-handle_append_entries 5 0 c sending behind behind-Reachable

abbrev success : AppendReplyArgs
success = record { term = 2; success = true }
