-- ===== src/Wire/Encode.antt =====
-- The conversions of raft/proto.rs from the node's types to the generated ones, and `encode_domain`.
use oxide_kv.Common.{Bool, true, false, some, [], map}
use oxide_kv.Protocol.{
  Command, Configuration, simple, joint, ServerId, TxOp, TxDecision, commit, abort, LogEntry,
  Snapshot,
}
use oxide_kv.Raft.{
  RequestVoteArgs, VoteResponseArgs, AppendEntriesArgs, AppendReplyArgs, InstallSnapshotArgs,
  InstallSnapshotReplyArgs,
}
use oxide_kv.Raft.Propose.{JoinClusterResponse}
use oxide_kv.Wire.{
  RaftMessage, PbServerId, PbConfigurationEntry, PbTxOpBody, PbTxOp, PbCommandBody, PbCommand,
  PbLogEntry, PbRequestVoteArgs, PbVoteResponseArgs, PbAppendEntriesArgs, PbAppendReplyArgs,
  PbSnapshot, PbInstallSnapshotArgs, PbInstallSnapshotReplyArgs, PbJoinClusterResponse,
  PbRaftMessageBody, PbRaftMessage,
}

abbrev pub encode_server : ServerId → PbServerId
encode_server s = record { node_id = s.node_id; addr = s.addr }

abbrev pub encode_configuration : Configuration → PbConfigurationEntry
encode_configuration (simple servers) = record {
  kind = 1;
  old_servers = [];
  new_servers = map encode_server servers;
}
encode_configuration (joint old new) = record {
  kind = 2;
  old_servers = map encode_server old;
  new_servers = map encode_server new;
}

abbrev pub encode_op : TxOp → PbTxOp
encode_op (TxOp.put k v) = record { body = some (PbTxOpBody.put (record { key = k; value = v })) }
encode_op (TxOp.delete k) = record { body = some (PbTxOpBody.delete (record { key = k })) }

-- `matches!(decision, Commit)`
abbrev pub is_commit : TxDecision → Bool
is_commit commit = true
is_commit abort = false

abbrev pub encode_body : Command → PbCommandBody
encode_body (Command.set k v) = PbCommandBody.set (record { key = k; value = v })
encode_body (Command.get k) = PbCommandBody.get (record { key = k })
encode_body (Command.delete k) = PbCommandBody.delete (record { key = k })
encode_body Command.compact = PbCommandBody.compact
encode_body (Command.begin_tx t ops) =
    PbCommandBody.begin_tx (record { tx_id = t; ops = map encode_op ops })
encode_body (Command.decide_tx t d) =
    PbCommandBody.decide_tx (record { tx_id = t; commit = is_commit d })
encode_body (Command.add_node s) = PbCommandBody.add_node (encode_server s)
encode_body (Command.remove_node n) = PbCommandBody.remove_node n
encode_body (Command.install_configuration c) =
    PbCommandBody.install_configuration (encode_configuration c)
encode_body (Command.abort_tx t) = PbCommandBody.abort_tx t

abbrev pub encode_command : Command → PbCommand
encode_command c = record { body = some (encode_body c) }

abbrev pub encode_entry : LogEntry → PbLogEntry
encode_entry e = record {
  term = e.term;
  index = e.index;
  command = some (encode_command e.command);
}

abbrev pub encode_vote_args : RequestVoteArgs → PbRequestVoteArgs
encode_vote_args a = record {
  term = a.term;
  candidate_id = a.candidate_id;
  last_log_index = a.last_log_index;
  last_log_term = a.last_log_term;
}

abbrev pub encode_vote : VoteResponseArgs → PbVoteResponseArgs
encode_vote a = record { term = a.term; vote_granted = a.vote_granted }

abbrev pub encode_append_args : AppendEntriesArgs → PbAppendEntriesArgs
encode_append_args a = record {
  term = a.term;
  leader_id = a.leader_id;
  prev_log_index = a.prev_log_index;
  prev_log_term = a.prev_log_term;
  entries = map encode_entry a.entries;
  leader_commit = a.leader_commit;
}

abbrev pub encode_append_reply : AppendReplyArgs → PbAppendReplyArgs
encode_append_reply a = record { term = a.term; success = a.success }

abbrev pub encode_snapshot : Snapshot → PbSnapshot
encode_snapshot s = record {
  last_included_index = s.last_included_index;
  last_included_term = s.last_included_term;
  entries = s.entries;
}

abbrev pub encode_install_args : InstallSnapshotArgs → PbInstallSnapshotArgs
encode_install_args a = record {
  term = a.term;
  leader_id = a.leader_id;
  last_included_index = a.last_included_index;
  last_included_term = a.last_included_term;
  snapshot = some (encode_snapshot a.snapshot);
}

abbrev pub encode_install_reply : InstallSnapshotReplyArgs → PbInstallSnapshotReplyArgs
encode_install_reply a = record { term = a.term }

abbrev pub encode_join_response : JoinClusterResponse → PbJoinClusterResponse
encode_join_response r = record {
  accepted = r.accepted;
  term = r.term;
  leader_addr = r.leader_addr;
  peer_addrs = r.peer_addrs;
  reason = r.reason;
}

abbrev pub encode_message : RaftMessage → PbRaftMessageBody
encode_message (RaftMessage.request_vote a) = PbRaftMessageBody.request_vote (encode_vote_args a)
encode_message (RaftMessage.vote_response a) = PbRaftMessageBody.vote_response (encode_vote a)
encode_message (RaftMessage.append_entries a) =
    PbRaftMessageBody.append_entries (encode_append_args a)
encode_message (RaftMessage.append_reply a) = PbRaftMessageBody.append_reply (encode_append_reply a)
encode_message (RaftMessage.install_snapshot a) =
    PbRaftMessageBody.install_snapshot (encode_install_args a)
encode_message (RaftMessage.install_snapshot_reply a) =
    PbRaftMessageBody.install_snapshot_reply (encode_install_reply a)
encode_message (RaftMessage.request_pre_vote a) =
    PbRaftMessageBody.request_pre_vote (encode_vote_args a)
encode_message (RaftMessage.pre_vote_response a) =
    PbRaftMessageBody.pre_vote_response (encode_vote a)
encode_message (RaftMessage.join_cluster addr) =
    PbRaftMessageBody.join_cluster (record { candidate_addr = addr })
encode_message (RaftMessage.join_cluster_response r) =
    PbRaftMessageBody.join_cluster_response (encode_join_response r)

unfoldable pub encode_domain : RaftMessage → PbRaftMessage
encode_domain m = record { body = some (encode_message m) }
