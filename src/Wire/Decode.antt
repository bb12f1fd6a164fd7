-- ===== src/Wire/Decode.antt =====
-- The conversions of raft/proto.rs from the generated types to the node's, and `decode_domain`.
use oxide_kv.Common.{ℕ, false, Option, none, some, List, [], map, ◌==◌, if◌then◌else◌}
use oxide_kv.Protocol.{
  Command, Configuration, simple, joint, ServerId, TxOp, commit, abort, LogEntry, Snapshot,
}
use oxide_kv.Raft.{
  RequestVoteArgs, VoteResponseArgs, AppendEntriesArgs, AppendReplyArgs, InstallSnapshotArgs,
  InstallSnapshotReplyArgs,
}
use oxide_kv.Raft.Propose.{JoinClusterResponse}
use oxide_kv.Wire.{
  RaftMessage, PbKind, kind_unspecified, kind_simple, kind_joint, PbServerId, PbConfigurationEntry,
  PbTxOpBody, PbTxOp, PbCommandBody, PbCommand, PbLogEntry, PbRequestVoteArgs, PbVoteResponseArgs,
  PbAppendEntriesArgs, PbAppendReplyArgs, PbSnapshot, PbInstallSnapshotArgs,
  PbInstallSnapshotReplyArgs, PbJoinClusterResponse, PbRaftMessageBody, PbRaftMessage,
}

abbrev pub decode_server : PbServerId → ServerId
decode_server s = record { node_id = s.node_id; addr = s.addr }

-- The generated getter of an enumeration gives the default for a number that it does not know.
abbrev pub kind_of : ℕ → PbKind
kind_of n = if n == 1 then kind_simple else if n == 2 then kind_joint else kind_unspecified

abbrev pub configuration_of : PbKind → List ServerId → List ServerId → Configuration
configuration_of kind_simple old new = simple new
configuration_of kind_joint old new = joint old new
configuration_of kind_unspecified old new = simple new

abbrev pub decode_configuration : PbConfigurationEntry → Configuration
decode_configuration c =
    configuration_of (kind_of c.kind) (map decode_server c.old_servers)
      (map decode_server c.new_servers)

abbrev pub decode_op_body : Option PbTxOpBody → TxOp
decode_op_body (some (PbTxOpBody.put s)) = TxOp.put s.key s.value
decode_op_body (some (PbTxOpBody.delete d)) = TxOp.delete d.key
decode_op_body none = TxOp.delete []

abbrev pub decode_op : PbTxOp → TxOp
decode_op p = decode_op_body p.body

abbrev pub decode_body : Option PbCommandBody → Command
decode_body (some (PbCommandBody.set s)) = Command.set s.key s.value
decode_body (some (PbCommandBody.get g)) = Command.get g.key
decode_body (some (PbCommandBody.delete d)) = Command.delete d.key
decode_body (some PbCommandBody.compact) = Command.compact
decode_body (some (PbCommandBody.begin_tx b)) = Command.begin_tx b.tx_id (map decode_op b.ops)
decode_body (some (PbCommandBody.decide_tx d)) =
    Command.decide_tx d.tx_id (if d.commit then commit else abort)
decode_body (some (PbCommandBody.add_node _)) = Command.compact
decode_body (some (PbCommandBody.remove_node _)) = Command.compact
decode_body (some (PbCommandBody.install_configuration c)) =
    Command.install_configuration (decode_configuration c)
decode_body (some (PbCommandBody.abort_tx _)) = Command.compact
decode_body none = Command.compact

abbrev pub decode_command : PbCommand → Command
decode_command p = decode_body p.body

abbrev pub decode_entry : PbLogEntry → LogEntry
decode_entry p = record {
  term = p.term;
  index = p.index;
  command = elim p.command as (λ _. Command) [ some c ↦ decode_command c | none ↦ Command.compact ];
}

abbrev pub decode_vote_args : PbRequestVoteArgs → RequestVoteArgs
decode_vote_args p = record {
  term = p.term;
  candidate_id = p.candidate_id;
  last_log_index = p.last_log_index;
  last_log_term = p.last_log_term;
}

abbrev pub decode_vote : PbVoteResponseArgs → VoteResponseArgs
decode_vote p = record { term = p.term; vote_granted = p.vote_granted }

abbrev pub decode_append_args : PbAppendEntriesArgs → AppendEntriesArgs
decode_append_args p = record {
  term = p.term;
  leader_id = p.leader_id;
  prev_log_index = p.prev_log_index;
  prev_log_term = p.prev_log_term;
  entries = map decode_entry p.entries;
  leader_commit = p.leader_commit;
}

abbrev pub decode_append_reply : PbAppendReplyArgs → AppendReplyArgs
decode_append_reply p = record { term = p.term; success = p.success }

abbrev pub decode_snapshot : PbSnapshot → Snapshot
decode_snapshot p = record {
  last_included_index = p.last_included_index;
  last_included_term = p.last_included_term;
  entries = p.entries;
}

abbrev pub snapshot_or_empty : ℕ → ℕ → Option PbSnapshot → Snapshot
snapshot_or_empty index term (some s) = decode_snapshot s
snapshot_or_empty index term none = record {
  last_included_index = index;
  last_included_term = term;
  entries = [];
}

abbrev pub decode_install_args : PbInstallSnapshotArgs → InstallSnapshotArgs
decode_install_args p = record {
  term = p.term;
  leader_id = p.leader_id;
  last_included_index = p.last_included_index;
  last_included_term = p.last_included_term;
  snapshot = snapshot_or_empty p.last_included_index p.last_included_term p.snapshot;
}

abbrev pub decode_install_reply : PbInstallSnapshotReplyArgs → InstallSnapshotReplyArgs
decode_install_reply p = record { term = p.term }

abbrev pub decode_join_response : PbJoinClusterResponse → JoinClusterResponse
decode_join_response r = record {
  accepted = r.accepted;
  term = r.term;
  leader_addr = r.leader_addr;
  peer_addrs = r.peer_addrs;
  reason = r.reason;
}

abbrev pub decode_message : Option PbRaftMessageBody → RaftMessage
decode_message (some (PbRaftMessageBody.request_vote a)) =
    RaftMessage.request_vote (decode_vote_args a)
decode_message (some (PbRaftMessageBody.vote_response a)) =
    RaftMessage.vote_response (decode_vote a)
decode_message (some (PbRaftMessageBody.append_entries a)) =
    RaftMessage.append_entries (decode_append_args a)
decode_message (some (PbRaftMessageBody.append_reply a)) =
    RaftMessage.append_reply (decode_append_reply a)
decode_message (some (PbRaftMessageBody.install_snapshot a)) =
    RaftMessage.install_snapshot (decode_install_args a)
decode_message (some (PbRaftMessageBody.install_snapshot_reply a)) =
    RaftMessage.install_snapshot_reply (decode_install_reply a)
decode_message (some (PbRaftMessageBody.request_pre_vote a)) =
    RaftMessage.request_pre_vote (decode_vote_args a)
decode_message (some (PbRaftMessageBody.pre_vote_response a)) =
    RaftMessage.pre_vote_response (decode_vote a)
decode_message (some (PbRaftMessageBody.join_cluster r)) = RaftMessage.join_cluster r.candidate_addr
decode_message (some (PbRaftMessageBody.join_cluster_response r)) =
    RaftMessage.join_cluster_response (decode_join_response r)
decode_message none = RaftMessage.vote_response (record { term = 0; vote_granted = false })

unfoldable pub decode_domain : PbRaftMessage → RaftMessage
decode_domain p = decode_message p.body
