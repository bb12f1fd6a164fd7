-- ===== src/Raft/TxVote/Grants.antt =====
-- The answer of a participant to a two-phase-commit vote request, raft/node.rs.
use oxide_kv.Common.{
  ℕ, ◌≤◌, length, ◌≡◌, ◌∙◌, true, false, Option, none, some, arith, ltb, Bool-cases, Option-cases,
  inl, inr,
}
use mathlib.Core.Path.{subst}
use oxide_kv.Text.{Str}
use oxide_kv.Map
use oxide_kv.Map.Laws.{get-insert_self}
use oxide_kv.Protocol.{Vote, yes_vote}
use oxide_kv.Lsm.{StateMachine, PendingTx}
use oxide_kv.Lsm.Tx.{pending_tx, record_vote}
use oxide_kv.Raft.{RaftNode, is_log_up_to_date}
use oxide_kv.Raft.Apply.{apply_logs}
use oxide_kv.Raft.Apply.Progress.{apply_logs-Frame}
use oxide_kv.Raft.TxVote.{
  VoteRequest, VoteResponse, handle_tx_vote_request, answer_pending, fast_forward,
}

-- The vote of a server on a staged transaction.
abbrev pub vote_of : Str → Str → StateMachine → Option Vote
vote_of tx_id voter sm = elim (Map.get tx_id sm.pending_txs) [
  | none ↦ none
  | some tx ↦ Map.get voter tx.votes
]

record_vote_lem :
    (id voter : Str) (vote : Vote) (sm : StateMachine) (tx : PendingTx)
    → Map.get id sm.pending_txs ≡ some tx
    → vote_of id voter (record_vote id voter vote sm) ≡ some vote
unfolding record_vote
record_vote_lem id voter vote sm tx found =
    let voted = Map.insert voter vote tx.votes in
    let staged = get-insert_self id (record tx { votes = voted }) sm.pending_txs in
    rw (record_vote, found, vote_of, staged) (get-insert_self voter vote tx.votes)

answer_pending-vote :
    (req : VoteRequest) (n : RaftNode)
    → (answer_pending req n).1.vote_granted ≡ true
    → vote_of req.tx_id n.node_id (answer_pending req n).0.state_machine ≡ some yes_vote
unfolding answer_pending pending_tx
answer_pending-vote req n g = elim (Option-cases (Map.get req.tx_id n.state_machine.pending_txs)) [
  | inl missing ↦ absurd (ground arith)
  | inr (tx, found) ↦
      rw (answer_pending, pending_tx, found)
        (record_vote_lem req.tx_id n.node_id yes_vote n.state_machine tx found)
]

-- What a granted vote says.
pub record TxGranted (req : VoteRequest) (n after : RaftNode) (granted : VoteResponse)
    : Type 0 where
  pub same_term : req.term ≡ n.current_term
  pub term : after.current_term ≡ n.current_term
  pub reply_term : granted.term ≡ n.current_term
  pub fresh : is_log_up_to_date req.last_log_index req.last_log_term n ≡ true
  pub voted : vote_of req.tx_id n.node_id after.state_machine ≡ some yes_vote

answer_pending-terms :
    (req : VoteRequest) (n : RaftNode)
    → ((answer_pending req n).0.current_term ≡ n.current_term)
      × ((answer_pending req n).1.term ≡ n.current_term)
unfolding answer_pending
answer_pending-terms req n = (ground arith, ground arith)

fast_forward_frame :
    (i : ℕ) (n : RaftNode)
    → ((fast_forward i n).current_term ≡ n.current_term) × ((fast_forward i n).node_id ≡ n.node_id)
unfolding fast_forward
fast_forward_frame i n = (ground arith, ground arith)

-- A participant votes yes only in its own term, to a coordinator whose log is as fresh as its own,
-- and on a transaction that is staged: its yes stands in the staged transaction after the reply.
pub handle_tx_vote_request-TxGranted :
    (unix_now : ℕ) (req : VoteRequest) (n : RaftNode)
    → (handle_tx_vote_request unix_now req n).1.vote_granted ≡ true
    → TxGranted req n
        (handle_tx_vote_request unix_now req n).0
        (handle_tx_vote_request unix_now req n).1
unfolding handle_tx_vote_request
handle_tx_vote_request-TxGranted unix_now req n g =
    let m = apply_logs unix_now (fast_forward req.last_log_index n) in
    let frame = apply_logs-Frame unix_now (fast_forward req.last_log_index n) in
    let forward = fast_forward_frame req.last_log_index n in
    let terms = answer_pending-terms req m in
    elim (Bool-cases (ltb req.term n.current_term)) [
      | inl old ↦ absurd (ground arith)
      | inr current ↦ elim (Bool-cases (ltb n.current_term req.term)) [
        | inl newer ↦ absurd (ground arith)
        | inr same ↦ elim (Bool-cases (is_log_up_to_date req.last_log_index req.last_log_term n)) [
          | inr stale ↦ absurd (ground arith)
          | inl fresh ↦
              let granted : (answer_pending req m).1.vote_granted ≡ true = ground arith in
              rw (handle_tx_vote_request, current, same, fresh)
                (record {
                  same_term = ground arith;
                  term = terms.0 ∙ (frame.term ∙ forward.0);
                  reply_term = terms.1 ∙ (frame.term ∙ forward.0);
                  fresh = fresh;
                  voted =
                      subst
                        (λ id.
                          vote_of req.tx_id id (answer_pending req m).0.state_machine
                          ≡ some yes_vote)
                        (frame.node_id ∙ forward.1) (answer_pending-vote req m granted);
                })
        ]
      ]
    ]

answer_pending-commit :
    (req : VoteRequest) (n : RaftNode) → (answer_pending req n).0.commit_index ≡ n.commit_index
unfolding answer_pending
answer_pending-commit req n = ground arith

-- A vote request commits: in the request's term and with a log no fresher than it says, a participant
-- whose log reaches the last index of the request has every entry up to there committed afterwards,
-- whatever the reply, and whether or not a quorum holds them.
pub handle_tx_vote_request-commits :
    (unix_now : ℕ) (req : VoteRequest) (n : RaftNode)
    → req.term ≡ n.current_term
    → is_log_up_to_date req.last_log_index req.last_log_term n ≡ true
    → n.commit_index ≤ req.last_log_index
    → req.last_log_index ≤ length n.log
    → (handle_tx_vote_request unix_now req n).0.commit_index ≡ req.last_log_index
unfolding handle_tx_vote_request fast_forward
handle_tx_vote_request-commits unix_now req n same fresh ahead within =
    let m = apply_logs unix_now (fast_forward req.last_log_index n) in
    let frame = apply_logs-Frame unix_now (fast_forward req.last_log_index n) in
    let old : ltb req.term n.current_term ≡ false = ground arith in
    let new : ltb n.current_term req.term ≡ false = ground arith in
    let forward : (fast_forward req.last_log_index n).commit_index ≡ req.last_log_index =
      ground arith in
    rw (handle_tx_vote_request, old, new, fresh)
      (answer_pending-commit req m ∙ (frame.commit ∙ forward))
