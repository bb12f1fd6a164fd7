-- ===== src/Coordinator/Rounds.antt =====
-- `coordinate_tx` of raft/coordinator.rs with its waits, and the sweep of `run_tx_timeout_loop`. The
-- answers of the peers are an argument. An append to the WAL succeeds.
use oxide_kv.Common.{
  ℕ, ◌+◌, ◌-◌, ◌*◌, Bool, true, false, ◌&&◌, Option, none, some, List, [], ◌∷◌, length, get_elem?,
  ltb, leb, if◌then◌else◌,
}
use oxide_kv.Text.{Str}
use oxide_kv.Protocol.{Command, TxOp, TxDecision, commit, abort}
use oxide_kv.Lsm.Tx.{pending_txs_older_than}
use oxide_kv.Raft.{RaftNode, is_leader, match_index_for}
use oxide_kv.Raft.Replicate.{sync_logs}
use oxide_kv.Raft.Propose.{Result, ok, err, propose, propose_batch, propose_abort_tx}
use oxide_kv.Raft.TxVote.{VoteRequest, VoteResponse}
use oxide_kv.Visits.{Visit, M, ◌>>=◌, ◌>>◌, pure, visit, write, poll, until}
use oxide_kv.Coordinator.{
  AbortReason, TallyResult, superseded, counted, tally_votes, expected_voters, decide_votes,
  record_yes, change, add,
}

-- Why a transaction was aborted.
pub data TxAbort : Type 0 where
  voted : AbortReason → TxAbort
  incomplete_vote_set : TxAbort
  replication_failed : TxAbort
  round_exceeded : TxAbort

pub data TxOutcome : Type 0 where
  committed : ℕ → ℕ → Str → TxOutcome
  aborted : Str → TxAbort → TxOutcome
  not_leader : Str → TxOutcome

-- Why a wait ended in vain.
pub data WaitError : Type 0 where
  not_leader_at_propose : WaitError
  rejected : WaitError
  stepped_down : WaitError
  timed_out : WaitError

abbrev pub wait_bound_ms : ℕ
wait_bound_ms = 5 * 1000

abbrev pub coordinate_timeout_ms : ℕ
coordinate_timeout_ms = 10 * 1000

-- The body of the loops that wait until an index is committed and applied.
unfoldable pub look_applied : ℕ → ℕ → ℕ → RaftNode → Option (Result WaitError ℕ)
look_applied start index now n =
    if is_leader n.state
    then (if leb index n.commit_index && leb index n.last_applied
        then some (ok index)
        else if ltb wait_bound_ms (now - start)
        then some (err timed_out)
        else none)
    else some (err stepped_down)

-- Whether every peer has acknowledged an index.
unfoldable pub all_replicated : ℕ → List Str → RaftNode → Bool
all_replicated index [] n = true
all_replicated index (p ∷ ps) n = leb index (match_index_for p n) && all_replicated index ps n

unfoldable pub look_replicated : ℕ → ℕ → ℕ → RaftNode → Option (Result WaitError (Unit {0}))
unfolding all_replicated
look_replicated start index now n =
    if is_leader n.state
    then (if all_replicated index n.peers n
        then some (ok tt)
        else if ltb wait_bound_ms (now - start)
        then some (err timed_out)
        else none)
    else some (err stepped_down)

-- The first visit of a proposal: the node is checked, appended to, and written back.
unfoldable pub propose_at : Command → Visit → M (Result WaitError ℕ)
propose_at command v =
    if is_leader v.node.state
    then (do
      write (propose command v.node).0
      pure (
          if (propose command v.node).1
          then ok (length (propose command v.node).0.log)
          else err rejected))
    else pure (err not_leader_at_propose)

-- The second: the requests go out, and the wait begins.
unfoldable pub sync_and_wait : ℕ → ℕ → M (Result WaitError ℕ)
sync_and_wait unix_now index = do
  v ← visit
  write (sync_logs unix_now v.node).0
  poll (look_applied v.now index)

abbrev pub then_wait : ℕ → Result WaitError ℕ → M (Result WaitError ℕ)
then_wait unix_now (ok index) = sync_and_wait unix_now index
then_wait unix_now (err e) = pure (err e)

unfoldable pub propose_and_wait_for_apply : ℕ → Command → M (Result WaitError ℕ)
propose_and_wait_for_apply unix_now command = do
  v ← visit
  proposed ← propose_at command v
  then_wait unix_now proposed

unfoldable pub wait_for_replication : ℕ → ℕ → M (Result WaitError (Unit {0}))
wait_for_replication start index = poll (look_replicated start index)

unfoldable pub propose_batch_at : List Command → Visit → M (Result WaitError ℕ)
propose_batch_at commands v =
    if is_leader v.node.state
    then (do
      write (propose_batch commands v.node).0
      pure (
          if (propose_batch commands v.node).1
          then ok (length (propose_batch commands v.node).0.log - length commands + 1)
          else err rejected))
    else pure (err not_leader_at_propose)

unfoldable pub propose_batch_and_wait_for_apply : ℕ → List Command → M (Result WaitError ℕ)
propose_batch_and_wait_for_apply unix_now commands = do
  v ← visit
  proposed ← propose_batch_at commands v
  then_wait unix_now proposed

abbrev pub single_outcome : Str → Result WaitError ℕ → TxOutcome
single_outcome tx_id (ok begin_index) = committed begin_index (begin_index + 1) tx_id
single_outcome tx_id (err e) = not_leader tx_id

unfoldable pub single_node_fast_path : ℕ → Str → List TxOp → M TxOutcome
single_node_fast_path unix_now tx_id ops = do
  r ←
      propose_batch_and_wait_for_apply unix_now
        (Command.begin_tx tx_id ops ∷ Command.decide_tx tx_id commit ∷ [])
  pure (single_outcome tx_id r)

-- The request of the round, of the term of the entry at the index.
unfoldable pub vote_request : Str → ℕ → RaftNode → VoteRequest
vote_request tx_id begin_index n = record {
  term = n.current_term;
  tx_id = tx_id;
  last_log_index = begin_index;
  last_log_term =
      if ltb 0 begin_index
      then elim (get_elem? n.log (begin_index - 1)) as (λ _. ℕ) [
        | some e ↦ e.term
        | none ↦ n.current_term
      ]
      else n.current_term;
}

abbrev pub abort_of : Option AbortReason → TxAbort
abort_of (some why) = voted why
abort_of none = incomplete_vote_set

abbrev pub outcome_of : ℕ → Str → TxDecision → Option AbortReason → Result WaitError ℕ → TxOutcome
outcome_of begin_index tx_id decision reason (err e) = not_leader tx_id
outcome_of begin_index tx_id commit reason (ok decide_index) =
    committed begin_index decide_index tx_id
outcome_of begin_index tx_id abort reason (ok decide_index) = aborted tx_id (abort_of reason)

-- Step 5, after the tally.
unfoldable pub conclude : ℕ → ℕ → Str → List Str → Str → TallyResult → M TxOutcome
conclude unix_now begin_index tx_id peers leader_id superseded = pure (not_leader tx_id)
conclude unix_now begin_index tx_id peers leader_id (counted voters reason) = do
  r ←
      propose_and_wait_for_apply unix_now
        (Command.decide_tx tx_id (decide_votes (expected_voters leader_id peers) voters reason))
  pure (
      outcome_of begin_index tx_id (decide_votes (expected_voters leader_id peers) voters reason)
        reason r)

module _ (unix_now : ℕ) (answers : VoteRequest → List Str → List (Str × Option VoteResponse)) where
  -- Steps 2 to 5: at one visit the round's term and peers are read; then the leader's own vote, the
  -- peers', and the decision.
  unfoldable pub vote_round : ℕ → Str → M TxOutcome
  vote_round begin_index tx_id = do
    v ← visit
    change (record_yes tx_id v.node.node_id)
    tally ←
        tally_votes tx_id v.node.current_term
          (answers (vote_request tx_id begin_index v.node) v.node.peers) (add v.node.node_id [])
          none
    conclude unix_now begin_index tx_id v.node.peers v.node.node_id tally

  abbrev pub after_replication : ℕ → Str → Result WaitError (Unit {0}) → M TxOutcome
  after_replication begin_index tx_id (err e) = pure (aborted tx_id replication_failed)
  after_replication begin_index tx_id (ok _) = vote_round begin_index tx_id

  -- The time of a visit is the start of the wait for the peers.
  abbrev pub after_begin : Str → Result WaitError ℕ → M TxOutcome
  after_begin tx_id (err e) = pure (not_leader tx_id)
  after_begin tx_id (ok begin_index) = do
    v ← visit
    r ← wait_for_replication v.now begin_index
    after_replication begin_index tx_id r

  unfoldable pub multi_node : Str → List TxOp → M TxOutcome
  multi_node tx_id ops = do
    r ← propose_and_wait_for_apply unix_now (Command.begin_tx tx_id ops)
    after_begin tx_id r

  abbrev pub by_size : Str → List TxOp → List Str → M TxOutcome
  by_size tx_id ops [] = single_node_fast_path unix_now tx_id ops
  by_size tx_id ops (_ ∷ _) = multi_node tx_id ops

  unfoldable pub coordinate_tx_inner : Str → List TxOp → M TxOutcome
  coordinate_tx_inner tx_id ops = do v ← visit; by_size tx_id ops v.node.peers

  -- The bound on the whole round, which begins at `start`.
  unfoldable pub coordinate_tx : ℕ → Str → List TxOp → M TxOutcome
  unfolding until
  coordinate_tx start tx_id ops =
      until (start + coordinate_timeout_ms) (aborted tx_id round_exceeded)
        (coordinate_tx_inner tx_id ops)

-- The proposals of one sweep, each under a lock of its own.
unfoldable pub sweep_stale : List Str → M (Unit {0})
sweep_stale [] = pure tt
sweep_stale (tx_id ∷ stale) = do
  v ← visit
  write (propose_abort_tx tx_id v.node).0
  sweep_stale stale

abbrev pub if_leading : Bool → M (Unit {0}) → M (Unit {0})
if_leading true m = m
if_leading false m = pure tt

-- One period of `run_tx_timeout_loop`.
unfoldable pub sweep : ℕ → ℕ → M (Unit {0})
sweep unix_now tx_timeout_ms = do
  v ← visit
  if_leading (is_leader v.node.state) (do
    w ← visit
    sweep_stale (pending_txs_older_than tx_timeout_ms unix_now w.node.state_machine))
