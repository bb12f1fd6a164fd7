-- ===== src/Raft/Election/Rounds.antt =====
-- The replies to a round of votes, raft/node.rs, and how probes and late replies relate to real
-- votes.
use oxide_kv.Common.{
  ℕ, ◌+◌, ◌/◌, ◌<◌, ◌≡◌, ap, true, false, some, List, [], ◌∷◌, arith, count, if◌then◌else◌,
  Bool-cases, inl, inr,
}
use oxide_kv.Text.{Str, ◌=s◌}
use oxide_kv.Raft.{
  RaftNode, RequestVoteArgs, VoteResponseArgs, is_log_up_to_date, get_last_log_info, adopt_term,
  is_leader,
}
use oxide_kv.Raft.Election.{
  handle_pre_vote, handle_request_vote, step_down_if_newer, decide_vote, VoteRound, on_vote_reply,
  become_leader,
}

-- A probe for the next term is answered as the real vote request would be.
pub handle_pre_vote-handle_request_vote :
    (now : ℕ) (args : RequestVoteArgs) (n : RaftNode)
    → args.term ≡ n.current_term + 1
    → (handle_pre_vote now args n).1.vote_granted ≡ (handle_request_vote now args n).1.vote_granted
unfolding handle_pre_vote handle_request_vote step_down_if_newer decide_vote adopt_term
    is_log_up_to_date get_last_log_info
handle_pre_vote-handle_request_vote now args n next = ground arith

-- The replies to a round, in the order they come.
unfoldable pub vote_replies :
    ℕ → List VoteResponseArgs → VoteRound → RaftNode → RaftNode × VoteRound
unfolding on_vote_reply
vote_replies now [] round n = (n, round)
vote_replies now (r ∷ rs) round n =
    let (m, counted) = on_vote_reply now r round n in vote_replies now rs counted m

-- One reply: the tally counts it, and a new leader has a majority and the round's term.
record Counted (r : VoteResponseArgs) (round : VoteRound) (n : RaftNode)
    (out : RaftNode × VoteRound) : Type 0 where
  total : out.1.total_nodes ≡ round.total_nodes
  term : out.1.term ≡ round.term
  votes : out.1.votes_received ≡ round.votes_received + (if r.vote_granted then 1 else 0)
  elected :
      is_leader n.state ≡ false
      → is_leader out.0.state ≡ true
      → round.total_nodes / 2 < out.1.votes_received

on_vote_reply-Counted :
    (now : ℕ) (r : VoteResponseArgs) (round : VoteRound) (n : RaftNode)
    → Counted r round n (on_vote_reply now r round n)
unfolding on_vote_reply become_leader adopt_term
on_vote_reply-Counted now r round n = record {
  total = ground arith;
  term = ground arith;
  votes = ground arith;
  elected = λ f l. ground arith;
}

abbrev pub granted_in : List VoteResponseArgs → ℕ
granted_in rs = count (λ r. r.vote_granted) rs

-- Whatever replies a round gets, a node that was no leader leads after them only if the votes
-- that the round had counted before them (at its start, the one of its own) and the granted ones are
-- a majority of the round's servers.
pub vote_replies-majority :
    (now : ℕ) (rs : List VoteResponseArgs) (round : VoteRound) (n : RaftNode)
    → is_leader n.state ≡ false
    → is_leader (vote_replies now rs round n).0.state ≡ true
    → round.total_nodes / 2 < round.votes_received + granted_in rs
unfolding vote_replies
vote_replies-majority now [] round n f l = cc
vote_replies-majority now (r ∷ rs) round n f l =
    let (m, counted) = on_vote_reply now r round n in
    let one = on_vote_reply-Counted now r round n in
    elim (Bool-cases (is_leader m.state)) [
      | inl leads ↦ omega (arith, one.elected f leads, one.votes)
      | inr follows ↦ omega (
        arith,
        vote_replies-majority now rs counted m follows l,
        one.votes,
        ap (λ t. t / 2) one.total,
      )
    ]

-- A late refusal makes a node vote twice: where it has voted for another candidate in a term, and
-- refuses this one, the refusal of an earlier round of its own that carries the same term clears
-- the vote, and the request is then granted.
pub on_vote_reply-forgets :
    (now : ℕ) (reply : VoteResponseArgs) (round : VoteRound) (n : RaftNode) (args : RequestVoteArgs)
    (voted : Str)
    → n.vote_for ≡ some voted
    → (voted =s args.candidate_id) ≡ false
    → n.current_term ≡ args.term
    → reply.vote_granted ≡ false
    → reply.term ≡ args.term
    → round.term < reply.term
    → is_log_up_to_date args.last_log_index args.last_log_term n ≡ true
    → ((handle_request_vote now args n).1.vote_granted ≡ false)
      × ((handle_request_vote now args (on_vote_reply now reply round n).0).1.vote_granted ≡ true)
unfolding handle_request_vote step_down_if_newer decide_vote on_vote_reply adopt_term
    is_log_up_to_date get_last_log_info
on_vote_reply-forgets now reply round n args voted vote other term refused same late fresh =
    (ground arith, ground arith)
