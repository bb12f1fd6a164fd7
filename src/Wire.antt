-- ===== src/Wire.antt =====
-- The messages of proto/raft.proto, as the generated types of raft/proto.rs hold them: a field of a
-- message type and a `oneof` are options, an enumeration is its number. The text of a join reply's
-- `reason` is a tag, as in the node's reply.
pub mod Encode
pub mod Decode
pub mod RoundTrip
use oxide_kv.Common.{ℕ, Bool, Option, List}
use oxide_kv.Text.{Str}
use oxide_kv.Map.{Map}
use oxide_kv.Raft.{
  RequestVoteArgs, VoteResponseArgs, AppendEntriesArgs, AppendReplyArgs, InstallSnapshotArgs,
  InstallSnapshotReplyArgs,
}
use oxide_kv.Raft.Propose.{JoinReason, JoinClusterResponse}

-- `RaftMessage` of raft/rpc.rs.
pub data RaftMessage : Type 0 where
  request_vote : RequestVoteArgs → RaftMessage
  vote_response : VoteResponseArgs → RaftMessage
  append_entries : AppendEntriesArgs → RaftMessage
  append_reply : AppendReplyArgs → RaftMessage
  install_snapshot : InstallSnapshotArgs → RaftMessage
  install_snapshot_reply : InstallSnapshotReplyArgs → RaftMessage
  request_pre_vote : RequestVoteArgs → RaftMessage
  pre_vote_response : VoteResponseArgs → RaftMessage
  join_cluster : Str → RaftMessage
  join_cluster_response : JoinClusterResponse → RaftMessage

pub record PbSet : Type 0 where
  pub key : Str
  pub value : Str

pub record PbGet : Type 0 where
  pub key : Str

pub record PbDelete : Type 0 where
  pub key : Str

pub record PbServerId : Type 0 where
  pub node_id : Str
  pub addr : Str

-- `Kind` of `ConfigurationEntry`: 0 is unspecified.
pub data PbKind : Type 0 where
  kind_unspecified kind_simple kind_joint : PbKind

pub record PbConfigurationEntry : Type 0 where
  pub kind : ℕ
  pub old_servers : List PbServerId
  pub new_servers : List PbServerId

pub data PbTxOpBody : Type 0 where
  put : PbSet → PbTxOpBody
  delete : PbDelete → PbTxOpBody

pub record PbTxOp : Type 0 where
  pub body : Option PbTxOpBody

pub record PbBeginTx : Type 0 where
  pub tx_id : Str
  pub ops : List PbTxOp

pub record PbDecideTx : Type 0 where
  pub tx_id : Str
  pub commit : Bool

pub data PbCommandBody : Type 0 where
  set : PbSet → PbCommandBody
  get : PbGet → PbCommandBody
  delete : PbDelete → PbCommandBody
  compact : PbCommandBody
  begin_tx : PbBeginTx → PbCommandBody
  decide_tx : PbDecideTx → PbCommandBody
  add_node : PbServerId → PbCommandBody
  remove_node : Str → PbCommandBody
  install_configuration : PbConfigurationEntry → PbCommandBody
  abort_tx : Str → PbCommandBody

pub record PbCommand : Type 0 where
  pub body : Option PbCommandBody

pub record PbLogEntry : Type 0 where
  pub term : ℕ
  pub index : ℕ
  pub command : Option PbCommand

pub record PbRequestVoteArgs : Type 0 where
  pub term : ℕ
  pub candidate_id : Str
  pub last_log_index : ℕ
  pub last_log_term : ℕ

pub record PbVoteResponseArgs : Type 0 where
  pub term : ℕ
  pub vote_granted : Bool

pub record PbAppendEntriesArgs : Type 0 where
  pub term : ℕ
  pub leader_id : Str
  pub prev_log_index : ℕ
  pub prev_log_term : ℕ
  pub entries : List PbLogEntry
  pub leader_commit : ℕ

pub record PbAppendReplyArgs : Type 0 where
  pub term : ℕ
  pub success : Bool

pub record PbSnapshot : Type 0 where
  pub last_included_index : ℕ
  pub last_included_term : ℕ
  pub entries : Map Str

pub record PbInstallSnapshotArgs : Type 0 where
  pub term : ℕ
  pub leader_id : Str
  pub last_included_index : ℕ
  pub last_included_term : ℕ
  pub snapshot : Option PbSnapshot

pub record PbInstallSnapshotReplyArgs : Type 0 where
  pub term : ℕ

pub record PbJoinClusterRequest : Type 0 where
  pub candidate_addr : Str

pub record PbJoinClusterResponse : Type 0 where
  pub accepted : Bool
  pub term : ℕ
  pub leader_addr : Str
  pub peer_addrs : List Str
  pub reason : JoinReason

pub data PbRaftMessageBody : Type 0 where
  request_vote : PbRequestVoteArgs → PbRaftMessageBody
  vote_response : PbVoteResponseArgs → PbRaftMessageBody
  append_entries : PbAppendEntriesArgs → PbRaftMessageBody
  append_reply : PbAppendReplyArgs → PbRaftMessageBody
  install_snapshot : PbInstallSnapshotArgs → PbRaftMessageBody
  install_snapshot_reply : PbInstallSnapshotReplyArgs → PbRaftMessageBody
  request_pre_vote : PbRequestVoteArgs → PbRaftMessageBody
  pre_vote_response : PbVoteResponseArgs → PbRaftMessageBody
  join_cluster : PbJoinClusterRequest → PbRaftMessageBody
  join_cluster_response : PbJoinClusterResponse → PbRaftMessageBody

pub record PbRaftMessage : Type 0 where
  pub body : Option PbRaftMessageBody
