-- ===== src/Raft/Votes/Elections.antt =====
-- Terms and votes over the election handlers of raft/node.rs.
use oxide_kv.Common.{
  ℕ, ◌+◌, ◌≤◌, ◌<◌, ◌≡◌, refl, true, arith, length, ltb, ◌==◌, ◌&&◌, ◌⊎◌, Bool-cases, inl, inr,
}
use oxide_kv.Text.{eq_of_cmp}
use oxide_kv.Storage.{read_meta}
use oxide_kv.Raft.{RaftNode, follower, is_candidate, RequestVoteArgs, VoteResponseArgs, adopt_term}
use oxide_kv.Raft.Election.{
  handle_pre_vote, step_down_if_newer, decide_vote, handle_request_vote, become_leader,
  promote_to_candidate_locked, request_votes, VoteRound, on_vote_reply, become_candidate,
  become_pre_candidate, become_leader_checked, process_pre_vote_reply,
}
use oxide_kv.Raft.Votes.{Later, Later-refl, Later-trans, quiet, adopt-Later}

pub handle_pre_vote-Later :
    (now : ℕ) (args : RequestVoteArgs) (n : RaftNode) → Later n (handle_pre_vote now args n).0
unfolding handle_pre_vote
handle_pre_vote-Later now args n = quiet n _ refl refl refl

pub step_down-Later : (term : ℕ) (n : RaftNode) → Later n (step_down_if_newer term n)
unfolding step_down_if_newer
step_down-Later term n = elim (Bool-cases (ltb n.current_term term)) [
  | inl newer ↦ rw newer (adopt-Later term n follower (ground arith))
  | inr old ↦ rw old (Later-refl n)
]

decide_vote-Later :
    (now : ℕ) (args : RequestVoteArgs) (n : RaftNode) → Later n (decide_vote now args n).0
unfolding decide_vote read_meta
decide_vote-Later now args n = record {
  term = ground arith;
  vote = λ v e h. ground (arith, eq_of_cmp v args.candidate_id);
  durable = λ d. ground arith;
}

pub handle_request_vote-Later :
    (now : ℕ) (args : RequestVoteArgs) (n : RaftNode) → Later n (handle_request_vote now args n).0
unfolding handle_request_vote
handle_request_vote-Later now args n = elim (Bool-cases (ltb args.term n.current_term)) [
  | inl stale ↦ rw stale (Later-refl n)
  | inr fresh ↦ rw fresh (
      Later-trans (step_down-Later args.term n)
        (decide_vote-Later now args (step_down_if_newer args.term n)))
]

pub become_leader-Later : (now : ℕ) (n : RaftNode) → Later n (become_leader now n)
unfolding become_leader read_meta
become_leader-Later now n = record {
  term = ground arith;
  vote = λ v e h. ground arith;
  durable = λ d. ground arith;
}

pub promote-Later : (now : ℕ) (n : RaftNode) → Later n (promote_to_candidate_locked now n)
unfolding promote_to_candidate_locked read_meta
promote-Later now n = record {
  term = omega arith;
  vote = λ v e h. absurd (omega arith);
  durable = λ d. refl;
}

pub request_votes-Later : (now : ℕ) (n : RaftNode) → Later n (request_votes now n).0
unfolding request_votes
request_votes-Later now n = elim (Bool-cases (length n.peers + 1 == 1 && is_candidate n.state)) [
  | inl alone ↦ rw alone (become_leader-Later now n)
  | inr other ↦ rw other (Later-refl n)
]

pub become_candidate-Later : (now : ℕ) (n : RaftNode) → Later n (become_candidate now n).0
unfolding become_candidate
become_candidate-Later now n =
    Later-trans (promote-Later now n) (request_votes-Later now (promote_to_candidate_locked now n))

process_pre_vote_reply-Later_mid :
    (now : ℕ) (n : RaftNode) → Later n (request_votes now (promote_to_candidate_locked now n)).0
process_pre_vote_reply-Later_mid now n =
    Later-trans (promote-Later now n) (request_votes-Later now (promote_to_candidate_locked now n))

pub process_pre_vote_reply-Later :
    (now : ℕ) (reply : VoteResponseArgs) (round : VoteRound) (n : RaftNode)
    → Later n (process_pre_vote_reply now reply round n).0
unfolding process_pre_vote_reply
process_pre_vote_reply-Later now reply round n =
    let up = process_pre_vote_reply-Later_mid now n in
    let same = Later-refl n in
    record {
      term = ground (arith, up.term);
      vote = λ v e h. ground (arith, up.vote v);
      durable = λ d. ground (arith, up.durable d);
    }

pub become_pre_candidate-Later : (now : ℕ) (n : RaftNode) → Later n (become_pre_candidate now n).0
unfolding become_pre_candidate become_leader_checked promote_to_candidate_locked become_leader
    read_meta
become_pre_candidate-Later now n = record {
  term = ground arith;
  vote = λ v e h. ground arith;
  durable = λ d. ground arith;
}

-- A refusal is in order if its term is newer than the node's, or no newer than the round's.
abbrev pub InOrder : VoteResponseArgs → VoteRound → RaftNode → Type 0
InOrder reply round n =
    (reply.vote_granted ≡ true) ⊎ (reply.term ≤ round.term) ⊎ (n.current_term < reply.term)

pub on_vote_reply-Later :
    (now : ℕ) (reply : VoteResponseArgs) (round : VoteRound) (n : RaftNode)
    → InOrder reply round n
    → Later n (on_vote_reply now reply round n).0
unfolding on_vote_reply become_leader adopt_term read_meta
on_vote_reply-Later now reply round n o = record {
  term = ground arith;
  vote = λ v e h. ground arith;
  durable = λ d. ground arith;
}
