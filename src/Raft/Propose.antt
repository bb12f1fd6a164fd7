-- ===== src/Raft/Propose.antt =====
-- The proposals of raft/node.rs: `propose`, `propose_batch`, the membership changes and the forced
-- abort, and `handle_join_cluster`. The append to the WAL succeeds.
pub mod Phases
use oxide_kv.Common.{
  ℕ, ◌+◌, Bool, true, false, some, List, [], ◌∷◌, ◌++◌, map, length, filter, any, not, ◌||◌, ◌&&◌,
  if◌then◌else◌,
}
use oxide_kv.Text.{Str, ◌=s◌}
use oxide_kv.Protocol.{
  ServerId, simple, joint, Command, install_configuration, decide_tx, abort, MembershipError,
  already_member, not_member, cannot_remove_self, cannot_remove_last_server, AbortTxError,
  not_found, all_servers, contains,
}
use oxide_kv.Lsm.Tx.{is_tx_pending}
use oxide_kv.Raft.{RaftNode, is_leader}
use oxide_kv.Raft.Apply.{append_own}

pub data Result {ℓ} (E A : Type ℓ) : Type ℓ where
  ok : A → Result E A
  err : E → Result E A

unfoldable pub propose : Command → RaftNode → RaftNode × Bool
unfolding append_own
propose command n = if is_leader n.state then (append_own command n, true) else (n, false)

-- The loop of `propose_batch`; the entry at each offset follows the one before.
unfoldable pub append_batch : List Command → RaftNode → RaftNode
unfolding append_own
append_batch [] n = n
append_batch (c ∷ cs) n = append_batch cs (append_own c n)

unfoldable pub propose_batch : List Command → RaftNode → RaftNode × Bool
unfolding append_batch
propose_batch commands n = if is_leader n.state then (append_batch commands n, true) else (n, false)

-- The joint entry, with the simple configuration kept for `install_configuration`.
unfoldable pub append_joint : List ServerId → List ServerId → RaftNode → RaftNode
unfolding append_own
append_joint old new n = record (append_own (install_configuration (joint old new)) n) {
  pending_post_joint_simple = some (simple new);
}

unfoldable pub propose_add_node : ServerId → RaftNode → RaftNode × Result MembershipError ℕ
unfolding append_joint contains
propose_add_node server n =
    if is_leader n.state
    then (if contains n.current_config server.node_id
        then (n, err (already_member server.node_id))
        else (let old = all_servers n.current_config in
            (append_joint old (old ++ server ∷ []) n, ok (length n.log + 1))))
    else (n, err MembershipError.not_leader)

unfoldable pub propose_remove_node : Str → RaftNode → RaftNode × Result MembershipError ℕ
unfolding append_joint contains
propose_remove_node node_id n =
    if is_leader n.state
    then (if node_id =s n.node_id
        then (n, err cannot_remove_self)
        else if contains n.current_config node_id
        then (let old = all_servers n.current_config in
            elim (filter (λ s. not (s.node_id =s node_id)) old) [
              | [] ↦ (n, err cannot_remove_last_server)
              | s ∷ new ↦ (append_joint old (s ∷ new) n, ok (length n.log + 1))
            ])
        else (n, err (not_member node_id)))
    else (n, err MembershipError.not_leader)

unfoldable pub propose_abort_tx : Str → RaftNode → RaftNode × Result AbortTxError ℕ
unfolding append_own is_tx_pending
propose_abort_tx tx_id n =
    if is_leader n.state
    then (if is_tx_pending tx_id n.state_machine
        then (append_own (decide_tx tx_id abort) n, ok (length n.log + 1))
        else (n, err (not_found tx_id)))
    else (n, err AbortTxError.not_leader)

-- The text of `reason`.
pub data JoinReason : Type 0 where
  accepted_reason not_leader_reason leader_itself_reason already_member_reason : JoinReason

pub record JoinClusterResponse : Type 0 where
  pub accepted : Bool
  pub term : ℕ
  pub leader_addr : Str
  pub peer_addrs : List Str
  pub reason : JoinReason

unfoldable pub handle_join_cluster : Str → RaftNode → JoinClusterResponse
unfolding all_servers
handle_join_cluster candidate_addr n =
    let servers = all_servers n.current_config in
    let reject : JoinReason → JoinClusterResponse = λ why. record {
      accepted = false;
      term = n.current_term;
      leader_addr = n.node_id;
      peer_addrs = [];
      reason = why;
    } in
    if not (is_leader n.state)
    then reject not_leader_reason
    else if candidate_addr =s n.node_id
    then reject leader_itself_reason
    else if any (λ s. s.addr =s candidate_addr || s.node_id =s candidate_addr) servers
    then reject already_member_reason
    else record {
      accepted = true;
      term = n.current_term;
      leader_addr = n.node_id;
      peer_addrs =
          filter (λ a. not (a =s n.node_id) && not (a =s candidate_addr))
            (map (λ s. s.addr) servers);
      reason = accepted_reason;
    }
