-- ===== src/Raft.antt =====
-- raft/node.rs and the messages of raft/rpc.rs: the state of a node and its small operations.
-- A handler takes the reading of the clock that it asks for as an argument.
pub mod Apply
pub mod Election
pub mod Append
pub mod Replicate
pub mod Propose
pub mod Snapshots
pub mod TxVote
pub mod Reads
pub mod Votes
pub mod Ballot
use oxide_kv.Common.{
  ℕ, zero, suc, ◌+◌, ◌-◌, ◌%◌, ◌^◌, ◌/◌, Bool, true, false, ◌&&◌, ◌||◌, Option, none, some, List,
  [], ◌∷◌, ◌++◌, map, length, get_elem?, get_last?, filter, ltb, leb, ◌==◌, not, if◌then◌else◌, max,
}
use oxide_kv.Text.{Str, ◌=s◌}
use oxide_kv.Map
use oxide_kv.Map.{Map}
use oxide_kv.Protocol.{
  ServerId, Configuration, simple, joint, Command, LogEntry, Snapshot, all_servers,
}
use oxide_kv.Protocol.Quorum.{index_or_zero}
use oxide_kv.Lsm
use oxide_kv.Lsm.{StateMachine}
use oxide_kv.Storage.{RaftStorage, load_initial_state, load_snapshot, save_meta}

pub data NodeState : Type 0 where
  follower candidate leader pre_candidate : NodeState

abbrev pub is_leader : NodeState → Bool
is_leader leader = true
is_leader _ = false

abbrev pub is_candidate : NodeState → Bool
is_candidate candidate = true
is_candidate _ = false

abbrev pub is_pre_candidate : NodeState → Bool
is_pre_candidate pre_candidate = true
is_pre_candidate _ = false

abbrev pub is_follower : NodeState → Bool
is_follower follower = true
is_follower _ = false

pub record RaftNode : Type 0 where
  pub state_machine : StateMachine
  pub current_term : ℕ
  pub vote_for : Option Str
  pub storage : RaftStorage
  pub log : List LogEntry
  pub state : NodeState
  pub node_id : Str
  pub peers : List Str
  pub commit_index : ℕ
  pub last_applied : ℕ
  pub last_heartbeat : ℕ
  pub last_quorum_heartbeat_at : Option ℕ
  pub next_index : Map ℕ
  pub match_index : Map ℕ
  pub current_config : Configuration
  pub pending_post_joint_simple : Option Configuration

-- `RequestVoteArgs`, also the body of a pre-vote probe.
pub record RequestVoteArgs : Type 0 where
  pub term : ℕ
  pub candidate_id : Str
  pub last_log_index : ℕ
  pub last_log_term : ℕ

pub record VoteResponseArgs : Type 0 where
  pub term : ℕ
  pub vote_granted : Bool

pub record AppendEntriesArgs : Type 0 where
  pub term : ℕ
  pub leader_id : Str
  pub prev_log_index : ℕ
  pub prev_log_term : ℕ
  pub entries : List LogEntry
  pub leader_commit : ℕ

pub record AppendReplyArgs : Type 0 where
  pub term : ℕ
  pub success : Bool

pub record InstallSnapshotArgs : Type 0 where
  pub term : ℕ
  pub leader_id : Str
  pub last_included_index : ℕ
  pub last_included_term : ℕ
  pub snapshot : Snapshot

pub record InstallSnapshotReplyArgs : Type 0 where
  pub term : ℕ

-- A server whose address is its name.
abbrev pub named : Str → ServerId
named n = record { node_id = n; addr = n }

unfoldable pub new_node : Str → List Str → StateMachine → RaftStorage → ℕ → RaftNode
unfolding load_initial_state
new_node raft_addr peers sm storage now =
    let (term, vote, logs) = load_initial_state storage in
    record {
      state_machine = sm;
      current_term = term;
      vote_for = vote;
      storage = storage;
      log = logs;
      state = follower;
      node_id = raft_addr;
      peers = peers;
      commit_index = 0;
      last_applied = 0;
      last_heartbeat = now;
      last_quorum_heartbeat_at = none;
      next_index = [];
      match_index = [];
      current_config = simple (named raft_addr ∷ map named peers);
      pending_post_joint_simple = none;
    }

unfoldable pub restore_from_snapshot : RaftNode → RaftNode × Option (ℕ × ℕ)
unfolding load_snapshot
restore_from_snapshot n = elim (load_snapshot n.storage) [
  | none ↦ (n, none)
  | some snap ↦ (
    record n {
      state_machine = Lsm.install_snapshot snap.entries n.state_machine;
      commit_index = max n.commit_index snap.last_included_index;
      last_applied = max n.last_applied snap.last_included_index;
    },
    some (snap.last_included_index, snap.last_included_term),
  )
]

unfoldable pub is_single_node : RaftNode → Bool
is_single_node n = length n.peers == 0

unfoldable pub get_log_entry : ℕ → RaftNode → Option LogEntry
get_log_entry index n = if index == 0 then none else get_elem? n.log (index - 1)

unfoldable pub set_peers : List Str → RaftNode → RaftNode
set_peers peers n = record n {
  current_config = simple (named n.node_id ∷ map named peers);
  peers = peers;
}

unfoldable pub match_index_for : Str → RaftNode → ℕ
match_index_for peer n = index_or_zero n.match_index peer

-- Index and term of the last entry.
unfoldable pub get_last_log_info : RaftNode → ℕ × ℕ
get_last_log_info n = elim (get_last? n.log) [ none ↦ (0, 0) | some e ↦ (e.index, e.term) ]

-- The election restriction: a log with this last index and term is at least as fresh as the node's.
unfoldable pub is_log_up_to_date : ℕ → ℕ → RaftNode → Bool
unfolding get_last_log_info
is_log_up_to_date last_log_index last_log_term n =
    let (my_index, my_term) = get_last_log_info n in
    ltb my_term last_log_term || last_log_term == my_term && leb my_index last_log_index

-- The dial list of a configuration.
unfoldable pub peers_of : Str → Configuration → List Str
unfolding all_servers
peers_of node_id config =
    map (λ s. s.addr) (filter (λ s. not (s.node_id =s node_id)) (all_servers config))

-- Adopting a newer term: the vote is cleared and both are written to disk.
unfoldable pub adopt_term : ℕ → RaftNode → RaftNode
unfolding save_meta
adopt_term term n = record n {
  current_term = term;
  vote_for = none;
  storage = save_meta term none n.storage;
}
