-- ===== src/Raft/Election.antt =====
-- Elections of raft/node.rs: the vote and pre-vote handlers, the rounds that a candidate starts,
-- and what it does with each reply. A round is its start and the replies in the order they come.
pub mod Probes
pub mod Rounds
use oxide_kv.Common.{
  ℕ, ◌+◌, ◌/◌, Bool, true, false, ◌&&◌, ◌||◌, Option, none, some, List, [], ◌∷◌, map, length, ltb,
  leb, ◌==◌, if◌then◌else◌,
}
use oxide_kv.Text.{Str, ◌=s◌}
use oxide_kv.Storage.{save_meta}
use oxide_kv.Raft.{
  RaftNode, NodeState, follower, candidate, leader, pre_candidate, is_leader, is_candidate,
  is_pre_candidate, is_follower, RequestVoteArgs, VoteResponseArgs, get_last_log_info,
  is_log_up_to_date, adopt_term,
}

unfoldable pub handle_pre_vote : ℕ → RequestVoteArgs → RaftNode → RaftNode × VoteResponseArgs
unfolding is_log_up_to_date
handle_pre_vote now args n =
    let refreshed = record n { last_heartbeat = now } in
    let granted =
      if ltb args.term n.current_term || ltb (n.current_term + 1) args.term
      then false
      else if args.term == n.current_term && is_leader n.state
      then false
      else is_log_up_to_date args.last_log_index args.last_log_term n in
    (refreshed, record { term = n.current_term; vote_granted = granted })

-- Step 2 of `handle_request_vote`.
unfoldable pub step_down_if_newer : ℕ → RaftNode → RaftNode
unfolding adopt_term
step_down_if_newer term n =
    if ltb n.current_term term then record (adopt_term term n) { state = follower } else n

-- `vote_for.is_none() || vote_for == Some(candidate)`
abbrev pub can_vote : Option Str → Str → Bool
can_vote none c = true
can_vote (some v) c = v =s c

-- Steps 3 and 4.
unfoldable pub decide_vote : ℕ → RequestVoteArgs → RaftNode → RaftNode × VoteResponseArgs
unfolding is_log_up_to_date save_meta
decide_vote now args n =
    if can_vote n.vote_for args.candidate_id
      && is_log_up_to_date args.last_log_index args.last_log_term n
    then (
      record n {
        vote_for = some args.candidate_id;
        storage = save_meta n.current_term (some args.candidate_id) n.storage;
        last_heartbeat = now;
      },
      record { term = n.current_term; vote_granted = true },
    )
    else (n, record { term = n.current_term; vote_granted = false })

unfoldable pub handle_request_vote : ℕ → RequestVoteArgs → RaftNode → RaftNode × VoteResponseArgs
unfolding step_down_if_newer decide_vote
handle_request_vote now args n =
    if ltb args.term n.current_term
    then (n, record { term = n.current_term; vote_granted = false })
    else decide_vote now args (step_down_if_newer args.term n)

unfoldable pub become_leader : ℕ → RaftNode → RaftNode
become_leader now n = if is_leader n.state then n else record n {
  state = leader;
  next_index = map (λ p. (p, length n.log + 1)) n.peers;
  last_heartbeat = now;
}

unfoldable pub promote_to_candidate_locked : ℕ → RaftNode → RaftNode
unfolding save_meta
promote_to_candidate_locked now n = record n {
  current_term = n.current_term + 1;
  state = candidate;
  vote_for = some n.node_id;
  storage = save_meta (n.current_term + 1) (some n.node_id) n.storage;
  last_heartbeat = now;
}

unfoldable pub become_leader_checked : ℕ → RaftNode → RaftNode × Bool
unfolding become_leader
become_leader_checked now n =
    if is_candidate n.state then (become_leader now n, true) else (n, false)

-- What every task of a round of `request_votes` captured, with the shared counter.
pub record VoteRound : Type 0 where
  pub total_nodes : ℕ
  pub term : ℕ
  pub votes_received : ℕ
  pub args : RequestVoteArgs

unfoldable pub vote_args : RaftNode → ℕ → RequestVoteArgs
unfolding get_last_log_info
vote_args n term =
    let (last_idx, last_term) = get_last_log_info n in
    record {
      term = term;
      candidate_id = n.node_id;
      last_log_index = last_idx;
      last_log_term = last_term;
    }

-- `request_votes` up to the fan-out.
unfoldable pub request_votes : ℕ → RaftNode → RaftNode × VoteRound
unfolding vote_args become_leader
request_votes now n =
    let round : VoteRound = record {
      total_nodes = length n.peers + 1;
      term = n.current_term;
      votes_received = 1;
      args = vote_args n n.current_term;
    } in
    if length n.peers + 1 == 1 && is_candidate n.state
    then (become_leader now n, round)
    else (n, round)

-- The task of `request_votes` at a reply.
unfoldable pub on_vote_reply : ℕ → VoteResponseArgs → VoteRound → RaftNode → RaftNode × VoteRound
unfolding become_leader adopt_term
on_vote_reply now reply round n =
    if reply.vote_granted
    then (let counted = record round { votes_received = round.votes_received + 1 } in
        if ltb (round.total_nodes / 2) (round.votes_received + 1)
        then (if is_candidate n.state && n.current_term == round.term
            then (become_leader now n, counted)
            else (n, counted))
        else (n, counted))
    else if ltb round.term reply.term
    then (record (adopt_term reply.term n) { state = follower }, round)
    else (n, round)

unfoldable pub become_candidate : ℕ → RaftNode → RaftNode × VoteRound
unfolding promote_to_candidate_locked request_votes
become_candidate now n = request_votes now (promote_to_candidate_locked now n)

-- `become_pre_candidate` where no other handler runs between its two locks; `none` when it
-- returns without probing.
unfoldable pub become_pre_candidate : ℕ → RaftNode → RaftNode × Option VoteRound
unfolding vote_args promote_to_candidate_locked become_leader_checked
become_pre_candidate now n =
    if is_follower n.state
    then (let probing = record n { state = pre_candidate } in
        if length n.peers + 1 == 1
        then ((become_leader_checked now (promote_to_candidate_locked now probing)).0, none)
        else (
          probing,
          some (record {
            total_nodes = length n.peers + 1;
            term = n.current_term + 1;
            votes_received = 0;
            args = vote_args n (n.current_term + 1);
          }),
        ))
    else (n, none)

-- `process_pre_vote_reply`: the new state, the counter, and the round of real votes if one starts.
unfoldable pub process_pre_vote_reply :
    ℕ → VoteResponseArgs → VoteRound → RaftNode → RaftNode × VoteRound × Option VoteRound
unfolding promote_to_candidate_locked request_votes
process_pre_vote_reply now reply round n =
    let counted = record round { votes_received = round.votes_received + 1 } in
    let (elected, votes) = request_votes now (promote_to_candidate_locked now n) in
    if ltb round.term reply.term
    then (if is_pre_candidate n.state
        then (record n { state = follower }, round, none)
        else (n, round, none))
    else if reply.vote_granted
    then (if leb (round.votes_received + 1) (round.total_nodes / 2)
        then (n, counted, none)
        else if is_pre_candidate n.state
        then (elected, counted, some votes)
        else (n, counted, none))
    else (n, round, none)
