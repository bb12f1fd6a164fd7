-- ===== src/Tests/Membership.antt =====
-- Membership changes and installed snapshots at concrete inputs.
use oxide_kv.Common.{◌≡◌, ◌≤◌, refl, true, false, List, [], ◌∷◌, ◌++◌, arith, ◌==◌, ◌&&◌}
use oxide_kv.Text.{Str, cmp, ◌=s◌}
use oxide_kv.Map.Order.{IsSorted}
use oxide_kv.Lsm.Recovery.Restart.{IsRecoverable}
use oxide_kv.Protocol.{ServerId, simple, joint, all_servers, contains}
use oxide_kv.Raft.{RaftNode, named, new_node, is_leader, InstallSnapshotArgs}
use oxide_kv.Raft.Apply.{append_own, install_config, propose_pending}
use oxide_kv.Raft.Propose.{append_joint, propose_add_node, propose_remove_node}
use oxide_kv.Raft.Propose.Phases.{Phases, without, propose_add_node-Phases}
use oxide_kv.Raft.Snapshots.{handle_install_snapshot}
use oxide_kv.Raft.Snapshots.Installs.{Installed, handle_install_snapshot-Installed}
use oxide_kv.Tests.Store.{a, b, c, one, two, empty-IsRecoverable}
use oxide_kv.Tests.Consensus.{started, leading}

program : Unit {0}
unfolding cmp all_servers contains new_node append_own append_joint propose_add_node
    propose_remove_node install_config propose_pending
program = tt

abbrev d : Str
d = 100 ∷ []

-- The leader of `a`, `b` and `c`, and the servers.
abbrev servers : List ServerId
servers = named a ∷ named b ∷ named c ∷ []

abbrev adding : RaftNode
adding = (propose_add_node (named d) leading).0

d_fresh : contains leading.current_config d ≡ false
unfolding program
d_fresh = refl

adding_leads : is_leader adding.state ≡ true
unfolding program
adding_leads = refl

propose_add_node-Phases_example :
    Phases
      (all_servers leading.current_config)
      (all_servers leading.current_config ++ named d ∷ [])
      leading
      (propose_add_node (named d) leading).0
      adding
propose_add_node-Phases_example =
    propose_add_node-Phases (named d) leading adding refl d_fresh adding_leads refl

-- The run of both phases: the joint entry and the new one, in the log of the leader.
adding_run :
    (install_config
      (simple (servers ++ named d ∷ []))
      (install_config (joint servers (servers ++ named d ∷ [])) adding)).peers
    ≡ b ∷ c ∷ d ∷ []
unfolding program
adding_run = refl

abbrev removing : RaftNode
removing = (propose_remove_node c leading).0

c_other : (c =s leading.node_id) ≡ false
unfolding program
c_other = refl

c_member : contains leading.current_config c ≡ true
unfolding program
c_member = refl

c_left : without c (all_servers leading.current_config) ≡ named a ∷ named b ∷ []
unfolding program
c_left = refl

removing_leads : is_leader removing.state ≡ true
unfolding program
removing_leads = refl

abbrev installing : InstallSnapshotArgs
installing = record {
  term = 1;
  leader_id = b;
  last_included_index = 4;
  last_included_term = 1;
  snapshot = record {
    last_included_index = 4;
    last_included_term = 1;
    entries = (a, one) ∷ (b, two) ∷ [];
  };
}

started_older : started.current_term ≤ 1
unfolding program
started_older = omega arith

started_follows : (1 == started.current_term && is_leader started.state) ≡ false
unfolding program
started_follows = refl

started-IsRecoverable : IsRecoverable started.state_machine
unfolding program
started-IsRecoverable = empty-IsRecoverable 1000

snapshot-IsSorted : IsSorted installing.snapshot.entries
unfolding program
snapshot-IsSorted = ((refl, tt), (tt, tt))

handle_install_snapshot-Installed_example :
    Installed installing started (handle_install_snapshot 5 installing started).0
handle_install_snapshot-Installed_example =
    handle_install_snapshot-Installed 5 installing started started_older started_follows
      started-IsRecoverable snapshot-IsSorted
