-- ===== src/Raft/Ballot.antt =====
-- A node of raft/node.rs over time, by its handlers and its restarts: terms and votes.
use oxide_kv.Common.{
  ℕ, ◌≡◌, refl, ◌∙◌, sym, ap, true, some, List, [], ◌∷◌, arith, Bool-cases, inl, inr,
}
use oxide_kv.Text.{Str, eq_of_cmp}
use oxide_kv.Protocol.{Command, ServerId}
use oxide_kv.Lsm.{StateMachine}
use oxide_kv.Storage.{read_meta, load_initial_state}
use oxide_kv.Raft.{
  RaftNode, RequestVoteArgs, VoteResponseArgs, AppendEntriesArgs, AppendReplyArgs,
  InstallSnapshotArgs, is_log_up_to_date, is_leader, new_node, adopt_term,
}
use oxide_kv.Raft.Apply.{append_own}
use oxide_kv.Raft.Election.{
  handle_pre_vote, handle_request_vote, step_down_if_newer, decide_vote, VoteRound, on_vote_reply,
  become_candidate, become_pre_candidate, process_pre_vote_reply,
}
use oxide_kv.Raft.Append.{handle_append_entries}
use oxide_kv.Raft.Replicate.{on_append_reply, maybe_commit, sync_peers, sync_logs}
use oxide_kv.Raft.Propose.{
  propose, append_batch, propose_batch, propose_add_node, propose_remove_node, propose_abort_tx,
  append_joint,
}
use oxide_kv.Raft.Reads.{begin_read}
use oxide_kv.Raft.Snapshots.{handle_install_snapshot}
use oxide_kv.Raft.TxVote.{VoteRequest, handle_tx_vote_request}
use oxide_kv.Raft.Votes.{IsDurable, Later, Later-refl, Later-trans, quiet}
use oxide_kv.Raft.Votes.Elections.{
  handle_pre_vote-Later, handle_request_vote-Later, become_candidate-Later,
  become_pre_candidate-Later, process_pre_vote_reply-Later, InOrder, on_vote_reply-Later,
}
use oxide_kv.Raft.Votes.Replication.{
  handle_append_entries-Later, on_append_reply-Later, maybe_commit-Later,
  handle_tx_vote_request-Later, handle_install_snapshot-Later,
}

-- One event at a node. A refusal of a vote has to come in order: what an out-of-order one does is in
-- `Election.Rounds`.
pub data Step : RaftNode → RaftNode → Type 0 where
  pre_vote :
      (now : ℕ) (args : RequestVoteArgs) (n : RaftNode) → Step n (handle_pre_vote now args n).0
  vote :
      (now : ℕ) (args : RequestVoteArgs) (n : RaftNode) → Step n (handle_request_vote now args n).0
  stand : (now : ℕ) (n : RaftNode) → Step n (become_candidate now n).0
  probe : (now : ℕ) (n : RaftNode) → Step n (become_pre_candidate now n).0
  pre_vote_reply :
      (now : ℕ) (reply : VoteResponseArgs) (round : VoteRound) (n : RaftNode)
      → Step n (process_pre_vote_reply now reply round n).0
  vote_reply :
      (now : ℕ) (reply : VoteResponseArgs) (round : VoteRound) (n : RaftNode)
      → InOrder reply round n
      → Step n (on_vote_reply now reply round n).0
  append :
      (now unix_now : ℕ) (args : AppendEntriesArgs) (n : RaftNode)
      → Step n (handle_append_entries now unix_now args n).0
  append_reply :
      (now unix_now : ℕ) (peer : Str) (args : AppendEntriesArgs) (reply : AppendReplyArgs)
      (n : RaftNode)
      → Step n (on_append_reply now unix_now peer args reply n)
  commit : (unix_now : ℕ) (n : RaftNode) → Step n (maybe_commit unix_now n)
  propose_command : (c : Command) (n : RaftNode) → Step n (propose c n).0
  propose_commands : (cs : List Command) (n : RaftNode) → Step n (propose_batch cs n).0
  sync : (unix_now : ℕ) (n : RaftNode) → Step n (sync_logs unix_now n).0
  read : (now unix_now : ℕ) (n : RaftNode) → Step n (begin_read now unix_now n).0
  add_node : (s : ServerId) (n : RaftNode) → Step n (propose_add_node s n).0
  remove_node : (id : Str) (n : RaftNode) → Step n (propose_remove_node id n).0
  abort_tx : (id : Str) (n : RaftNode) → Step n (propose_abort_tx id n).0
  tx_vote :
      (unix_now : ℕ) (req : VoteRequest) (n : RaftNode)
      → Step n (handle_tx_vote_request unix_now req n).0
  install :
      (now : ℕ) (args : InstallSnapshotArgs) (n : RaftNode)
      → Step n (handle_install_snapshot now args n).0
  -- A crash and a start from what is on disk, whatever became of the state machine.
  restart :
      (peers : List Str) (sm : StateMachine) (now : ℕ) (n : RaftNode)
      → Step n (new_node n.node_id peers sm n.storage now)

pub data Reach (n : RaftNode) : RaftNode → Type 0 where
  here : Reach n n
  next : {m k : RaftNode} → Reach n m → Step m k → Reach n k

append_own-Later : (c : Command) (n : RaftNode) → Later n (append_own c n)
unfolding append_own read_meta
append_own-Later c n = quiet n _ refl refl refl

propose-Later : (c : Command) (n : RaftNode) → Later n (propose c n).0
unfolding propose append_own read_meta
propose-Later c n = record {
  term = ground arith;
  vote = λ v e h. ground arith;
  durable = λ d. ground arith;
}

append_batch-Later : (cs : List Command) (n : RaftNode) → Later n (append_batch cs n)
unfolding append_batch
append_batch-Later [] n = Later-refl n
append_batch-Later (c ∷ cs) n =
    Later-trans (append_own-Later c n) (append_batch-Later cs (append_own c n))

propose_batch-Later : (cs : List Command) (n : RaftNode) → Later n (propose_batch cs n).0
unfolding propose_batch
propose_batch-Later cs n = elim (Bool-cases (is_leader n.state)) [
  | inl leads ↦ rw (propose_batch, leads) (append_batch-Later cs n)
  | inr follows ↦ rw (propose_batch, follows) (Later-refl n)
]

sync_peers-Later :
    (unix_now : ℕ) (peers : List Str) (n : RaftNode) → Later n (sync_peers unix_now peers n).0
unfolding sync_peers
sync_peers-Later unix_now [] n = maybe_commit-Later unix_now n
sync_peers-Later unix_now (p ∷ ps) n = Later-refl n

sync_logs-Later : (unix_now : ℕ) (n : RaftNode) → Later n (sync_logs unix_now n).0
unfolding sync_logs
sync_logs-Later unix_now n = sync_peers-Later unix_now n.peers n

begin_read-Later : (now unix_now : ℕ) (n : RaftNode) → Later n (begin_read now unix_now n).0
unfolding begin_read
begin_read-Later now unix_now n = elim (Bool-cases (is_leader n.state)) [
  | inl leads ↦ rw (begin_read, leads) (sync_logs-Later unix_now n)
  | inr follows ↦ rw (begin_read, follows) (Later-refl n)
]

add-Later : (s : ServerId) (n : RaftNode) → Later n (propose_add_node s n).0
unfolding propose_add_node append_joint append_own read_meta
add-Later s n = record {
  term = ground arith;
  vote = λ v e h. ground arith;
  durable = λ d. ground arith;
}

remove-Later : (id : Str) (n : RaftNode) → Later n (propose_remove_node id n).0
unfolding propose_remove_node append_joint append_own read_meta
remove-Later id n = record {
  term = ground arith;
  vote = λ v e h. ground arith;
  durable = λ d. ground arith;
}

abort-Later : (id : Str) (n : RaftNode) → Later n (propose_abort_tx id n).0
unfolding propose_abort_tx append_own read_meta
abort-Later id n = record {
  term = ground arith;
  vote = λ v e h. ground arith;
  durable = λ d. ground arith;
}

restart-Later :
    (peers : List Str) (sm : StateMachine) (now : ℕ) (n : RaftNode)
    → IsDurable n
    → Later n (new_node n.node_id peers sm n.storage now)
unfolding new_node load_initial_state
restart-Later peers sm now n d = record {
  term = omega (arith, ap (λ p. p.0) d);
  vote = λ v e h. ap (λ p. p.1) d ∙ h;
  durable = λ x. refl;
}

Step-Later : {n m : RaftNode} → IsDurable n → Step n m → Later n m
Step-Later d (pre_vote now args n) = handle_pre_vote-Later now args n
Step-Later d (vote now args n) = handle_request_vote-Later now args n
Step-Later d (stand now n) = become_candidate-Later now n
Step-Later d (probe now n) = become_pre_candidate-Later now n
Step-Later d (pre_vote_reply now reply round n) = process_pre_vote_reply-Later now reply round n
Step-Later d (vote_reply now reply round n o) = on_vote_reply-Later now reply round n o
Step-Later d (append now unix_now args n) = handle_append_entries-Later now unix_now args n
Step-Later d (append_reply now unix_now peer args reply n) =
    on_append_reply-Later now unix_now peer args reply n
Step-Later d (commit unix_now n) = maybe_commit-Later unix_now n
Step-Later d (propose_command c n) = propose-Later c n
Step-Later d (propose_commands cs n) = propose_batch-Later cs n
Step-Later d (sync unix_now n) = sync_logs-Later unix_now n
Step-Later d (read now unix_now n) = begin_read-Later now unix_now n
Step-Later d (add_node s n) = add-Later s n
Step-Later d (remove_node id n) = remove-Later id n
Step-Later d (abort_tx id n) = abort-Later id n
Step-Later d (tx_vote unix_now req n) = handle_tx_vote_request-Later unix_now req n
Step-Later d (install now args n) = handle_install_snapshot-Later now args n
Step-Later d (restart peers sm now n) = restart-Later peers sm now n d

-- Over any history of the events of `Step` the term never falls, a vote stays within its term, and
-- the term and the vote stay the ones on disk, if they were.
pub Reach-Later : {n m : RaftNode} → IsDurable n → Reach n m → Later n m
Reach-Later {n} d here = Later-refl n
Reach-Later d (next r st) =
    let before = Reach-Later d r in Later-trans before (Step-Later (before.durable d) st)

-- What a granted vote says.
pub record Granted (args : RequestVoteArgs) (n after : RaftNode) : Type 0 where
  pub term : after.current_term ≡ args.term
  pub vote : after.vote_for ≡ some args.candidate_id
  pub saved : read_meta after.storage ≡ (args.term, some args.candidate_id)
  pub fresh : is_log_up_to_date args.last_log_index args.last_log_term n ≡ true
  pub once : (v : Str) → n.current_term ≡ args.term → n.vote_for ≡ some v → v ≡ args.candidate_id

-- A vote is granted only to a candidate whose term is not older and whose log is as fresh, and to
-- no second candidate of the term; it is on disk before the reply.
pub handle_request_vote-Granted :
    (now : ℕ) (args : RequestVoteArgs) (n : RaftNode)
    → (handle_request_vote now args n).1.vote_granted ≡ true
    → Granted args n (handle_request_vote now args n).0
unfolding handle_request_vote step_down_if_newer decide_vote adopt_term read_meta is_log_up_to_date
handle_request_vote-Granted now args n g = record {
  term = ground arith;
  vote = ground arith;
  saved = ground arith;
  fresh = ground arith;
  once = λ v e h. ground (arith, eq_of_cmp v args.candidate_id);
}

-- Voting is once per term: a node that grants a vote and then, after any of the events of `Step` in
-- any order, restarts among them, grants a vote again in the same term, grants both to the same
-- candidate; where a refused round's newer term comes in order, that is, before the node has itself
-- reached that term.
pub vote_once :
    (n m : RaftNode) (args args' : RequestVoteArgs) (now now' : ℕ)
    → IsDurable n
    → (handle_request_vote now args n).1.vote_granted ≡ true
    → Reach (handle_request_vote now args n).0 m
    → (handle_request_vote now' args' m).1.vote_granted ≡ true
    → args'.term ≡ args.term
    → args'.candidate_id ≡ args.candidate_id
vote_once n m args args' now now' d g r g' same =
    let first = handle_request_vote-Granted now args n g in
    let again = handle_request_vote-Granted now' args' m g' in
    let durable = (handle_request_vote-Later now args n).durable d in
    let after = Reach-Later durable r in
    let bound = (handle_request_vote-Later now' args' m).term in
    let at_term : m.current_term ≡ args'.term =
      omega (arith, first.term, again.term, after.term, bound) in
    sym (
      again.once args.candidate_id at_term
        (after.vote args.candidate_id (omega (arith, first.term)) first.vote))
