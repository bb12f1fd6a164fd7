-- ===== src/Raft/TxVote.antt =====
-- `handle_tx_vote_request` of raft/node.rs, the participant's side of two-phase commit.
pub mod Grants
use oxide_kv.Common.{ℕ, Bool, true, false, Option, none, some, length, ltb, leb, not, if◌then◌else◌}
use oxide_kv.Text.{Str}
use oxide_kv.Protocol.{yes_vote}
use oxide_kv.Lsm.Tx.{pending_tx, record_vote}
use oxide_kv.Raft.{RaftNode, follower, is_log_up_to_date, adopt_term}
use oxide_kv.Raft.Apply.{apply_logs}

pub record VoteRequest : Type 0 where
  pub term : ℕ
  pub tx_id : Str
  pub last_log_index : ℕ
  pub last_log_term : ℕ

-- The text of `reason`.
pub data VoteReason : Type 0 where
  granted_reason stale_term term_advance leader_log_stale tx_not_pending : VoteReason

pub record VoteResponse : Type 0 where
  pub term : ℕ
  pub vote_granted : Bool
  pub reason : VoteReason

abbrev refuse : ℕ → VoteReason → VoteResponse
refuse term why = record { term = term; vote_granted = false; reason = why }

-- The fast-forward of `commit_index` to the leader's last index.
unfoldable pub fast_forward : ℕ → RaftNode → RaftNode
fast_forward last_log_index n =
    if ltb n.commit_index last_log_index
    then (if leb last_log_index (length n.log)
        then record n { commit_index = last_log_index }
        else n)
    else n

-- Steps 4 and 5, after the logs are applied.
unfoldable pub answer_pending : VoteRequest → RaftNode → RaftNode × VoteResponse
unfolding pending_tx record_vote
answer_pending req n = elim (pending_tx req.tx_id n.state_machine) [
  | none ↦ (n, refuse n.current_term tx_not_pending)
  | some _ ↦ (
    record n { state_machine = record_vote req.tx_id n.node_id yes_vote n.state_machine },
    record { term = n.current_term; vote_granted = true; reason = granted_reason },
  )
]

unfoldable pub handle_tx_vote_request : ℕ → VoteRequest → RaftNode → RaftNode × VoteResponse
unfolding adopt_term is_log_up_to_date fast_forward apply_logs answer_pending
handle_tx_vote_request unix_now req n =
    if ltb req.term n.current_term
    then (n, refuse n.current_term stale_term)
    else if ltb n.current_term req.term
    then (record (adopt_term req.term n) { state = follower }, refuse req.term term_advance)
    else if not (is_log_up_to_date req.last_log_index req.last_log_term n)
    then (n, refuse n.current_term leader_log_stale)
    else answer_pending req (apply_logs unix_now (fast_forward req.last_log_index n))
