-- ===== src/Client.antt =====
-- `ClientHandler` of client.rs. A reply is one of the JSON objects that the code builds, and a
-- request the command that its line parses to. Metrics are left out.
pub mod Waits
pub mod Reads
pub mod Refusals
use oxide_kv.Common.{
  ℕ, ◌+◌, ◌-◌, Bool, true, false, Option, none, some, List, [], ◌∷◌, length, ltb, leb,
  if◌then◌else◌,
}
use oxide_kv.Text.{Str}
use oxide_kv.Protocol.{Command, ServerId, TxOp, MembershipError, AbortTxError, ReadIndex}
use oxide_kv.Lsm
use oxide_kv.Raft.{RaftNode, is_leader}
use oxide_kv.Raft.Apply.{apply_logs}
use oxide_kv.Raft.Replicate.{sync_logs}
use oxide_kv.Raft.Reads.{begin_read, confirm_read}
use oxide_kv.Raft.Propose.{
  Result, ok, err, propose, propose_add_node, propose_remove_node, propose_abort_tx,
}
use oxide_kv.Raft.TxVote.{VoteRequest, VoteResponse}
use oxide_kv.Coordinator.Rounds.{TxAbort, TxOutcome, committed, aborted, not_leader, coordinate_tx}
use oxide_kv.Visits.{Visit, Task, M, ◌>>=◌, ◌>>◌, pure, visit, write, poll}

pub data Response : Type 0 where
  not_a_leader : Response
  invalid_json : Response
  proposed : ℕ → Response
  error : Response
  found : Str → Response
  not_found : Response
  read_timeout : Response
  compact_not_supported : Response
  leader_internal : Response
  joint_not_committed : ℕ → Response
  simple_not_appended : ℕ → Response
  member_added : ℕ → ℕ → Str → Response
  member_removed : ℕ → ℕ → Str → Response
  membership_error : MembershipError → Response
  tx_committed : Str → ℕ → ℕ → Response
  tx_aborted : Str → TxAbort → Response
  tx_not_leader : Str → Response
  abort_proposed : Str → ℕ → Response
  -- With the `tx_id` of the request merged in.
  abort_tx_error : AbortTxError → Str → Response

abbrev pub read_response : Option Str → Response
read_response (some v) = found v
read_response none = not_found

-- The times of the configuration, and the Unix time of the request.
pub record Settings : Type 0 where
  pub max_election_timeout_ms : ℕ
  pub unix_now : ℕ

abbrev pub read_wait_ms : ℕ
read_wait_ms = 2000

abbrev pub membership_wait_ms : ℕ
membership_wait_ms = 10000

-- The body of the loop that waits for a read to be confirmed.
unfoldable pub look_confirmed : ℕ → ℕ → ReadIndex → ℕ → RaftNode → Option Bool
look_confirmed max_election_timeout_ms start ri now n =
    if confirm_read max_election_timeout_ms now ri n
    then some true
    else if ltb read_wait_ms (now - start)
    then some false
    else none

-- Of the loops that wait for a change of membership: the test, then the deadline.
unfoldable pub look_until : (RaftNode → Bool) → ℕ → ℕ → RaftNode → Option Bool
look_until test deadline now n =
    if test n then some true else if leb deadline now then some false else none

-- After the read is confirmed, or is not.
unfoldable pub read_value : Str → Bool → M Response
read_value key true = do v ← visit; pure (read_response (Lsm.get key v.node.state_machine))
read_value key false = pure read_timeout

-- With the token of the read; the wait starts when it is given.
abbrev pub confirm_and_read : Settings → Str → ℕ → Option ReadIndex → M Response
confirm_and_read s key now none = pure not_a_leader
confirm_and_read s key now (some ri) = do
  confirmed ← poll (look_confirmed s.max_election_timeout_ms now ri)
  read_value key confirmed

unfoldable pub read_index : Settings → Str → M Response
unfolding read_value
read_index s key = do
  v ← visit
  write (begin_read v.now s.unix_now v.node).0
  confirm_and_read s key v.now (begin_read v.now s.unix_now v.node).2

-- The node without peers, at its second visit and, where it leads, at its third.
unfoldable pub read_alone : Settings → Str → M Response
read_alone s key = do
  v ← visit
  (if is_leader v.node.state
      then (do
        write (apply_logs s.unix_now v.node)
        w ← visit
        pure (read_response (Lsm.get key w.node.state_machine)))
      else pure not_a_leader)

abbrev pub read_by_size : Settings → Str → List Str → M Response
read_by_size s key [] = read_alone s key
read_by_size s key (_ ∷ _) = read_index s key

unfoldable pub linearizable_get : Settings → Str → M Response
linearizable_get s key = do v ← visit; read_by_size s key v.node.peers

-- The second visit is that of `sync_logs`.
abbrev pub after_propose : Settings → Bool → ℕ → M Response
after_propose s false index = pure error
after_propose s true index = do
  w ← visit
  write (sync_logs s.unix_now w.node).0
  pure (proposed index)

unfoldable pub apply_mutation : Settings → Command → M Response
apply_mutation s command = do
  v ← visit
  write (propose command v.node).0
  after_propose s (propose command v.node).1 (length (propose command v.node).0.log)

abbrev pub is_committed : ℕ → RaftNode → Bool
is_committed index n = leb index n.commit_index

abbrev pub is_followed : ℕ → RaftNode → Bool
is_followed index n = ltb index (length n.log)

abbrev pub after_simple : ℕ → Response → Bool → M Response
after_simple joint_index done true = pure done
after_simple joint_index done false = pure (simple_not_appended joint_index)

-- The second wait starts at the time of its first visit.
abbrev pub after_joint : ℕ → Response → Bool → M Response
after_joint joint_index done false = pure (joint_not_committed joint_index)
after_joint joint_index done true = do
  v ← visit
  appended ← poll (look_until (is_followed joint_index) (v.now + membership_wait_ms))
  after_simple joint_index done appended

-- The wait for the joint entry to commit, then for an entry after it.
unfoldable pub await_change : Settings → ℕ → Response → M Response
await_change s joint_index done = do
  v ← visit
  write (sync_logs s.unix_now v.node).0
  joined ← poll (look_until (is_committed joint_index) (v.now + membership_wait_ms))
  after_joint joint_index done joined

abbrev pub after_change : Settings → (ℕ → Response) → Result MembershipError ℕ → M Response
after_change s done (err e) = pure (membership_error e)
after_change s done (ok joint_index) = await_change s joint_index (done joint_index)

unfoldable pub add_node : Settings → ServerId → M Response
add_node s server = do
  v ← visit
  write (propose_add_node server v.node).0
  after_change s (λ i. member_added i (i + 1) server.node_id) (propose_add_node server v.node).1

unfoldable pub remove_node : Settings → Str → M Response
remove_node s node_id = do
  v ← visit
  write (propose_remove_node node_id v.node).0
  after_change s (λ i. member_removed i (i + 1) node_id) (propose_remove_node node_id v.node).1

abbrev pub tx_response : TxOutcome → Response
tx_response (committed begin_index decide_index tx_id) = tx_committed tx_id begin_index decide_index
tx_response (aborted tx_id reason) = tx_aborted tx_id reason
tx_response (not_leader tx_id) = tx_not_leader tx_id

abbrev pub abort_response : Str → Result AbortTxError ℕ → Response
abort_response tx_id (ok decide_index) = abort_proposed tx_id decide_index
abort_response tx_id (err e) = abort_tx_error e tx_id

unfoldable pub abort_tx : Str → M Response
abort_tx tx_id = do
  v ← visit
  write (propose_abort_tx tx_id v.node).0
  pure (abort_response tx_id (propose_abort_tx tx_id v.node).1)

module _ (s : Settings) (answers : VoteRequest → List Str → List (Str × Option VoteResponse)) where
  unfoldable pub begin_tx : ℕ → Str → List TxOp → M Response
  begin_tx now tx_id ops = do
    outcome ← coordinate_tx s.unix_now answers now tx_id ops
    pure (tx_response outcome)

  -- The command, once the node is known to lead.
  unfoldable pub run_command : ℕ → Command → M Response
  run_command now (Command.set k v) = apply_mutation s (Command.set k v)
  run_command now (Command.delete k) = apply_mutation s (Command.delete k)
  run_command now (Command.get k) = linearizable_get s k
  run_command now (Command.begin_tx tx_id ops) = begin_tx now tx_id ops
  run_command now (Command.decide_tx tx_id d) = apply_mutation s (Command.decide_tx tx_id d)
  run_command now Command.compact = pure compact_not_supported
  run_command now (Command.add_node server) = add_node s server
  run_command now (Command.remove_node node_id) = remove_node s node_id
  run_command now (Command.install_configuration _) = pure leader_internal
  run_command now (Command.abort_tx tx_id) = abort_tx tx_id

  unfoldable pub dispatch_command : Command → M Response
  dispatch_command command = do
    v ← visit
    (if is_leader v.node.state then run_command v.now command else pure not_a_leader)

  abbrev pub answer_line : Option Command → M Response
  answer_line none = pure invalid_json
  answer_line (some command) = dispatch_command command

  -- The lines of a connection that are read, each the command it parses to, and their replies.
  unfoldable pub handle_client_request : List (Option Command) → M (List Response)
  handle_client_request [] = pure []
  handle_client_request (line ∷ lines) = do
    r ← answer_line line
    rs ← handle_client_request lines
    pure (r ∷ rs)
