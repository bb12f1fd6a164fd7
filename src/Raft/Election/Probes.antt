-- ===== src/Raft/Election/Probes.antt =====
-- How a pre-vote probe of raft/node.rs goes on, `process_pre_vote_reply`.
use oxide_kv.Common.{
  ℕ, ◌+◌, ◌/◌, ◌≤◌, ◌≡◌, ◌==◌, ap, sym, ◌∙◌, Option, none, some, List, [], ◌∷◌, All, arith,
  Bool-cases, inl, inr, length,
}
use mathlib.Core.Path.{subst}
use oxide_kv.Raft.{RaftNode, VoteResponseArgs, pre_candidate, is_follower}
use oxide_kv.Raft.Election.Rounds.{granted_in}
use oxide_kv.Raft.Election.{VoteRound, become_pre_candidate, vote_args, process_pre_vote_reply}

-- The replies of a probe, in the order in which they come.
unfoldable pub probe_replies :
    ℕ → List VoteResponseArgs → VoteRound → RaftNode → RaftNode × VoteRound
probe_replies now [] round n = (n, round)
probe_replies now (r ∷ replies) round n =
    let (after, counted, _) = process_pre_vote_reply now r round n in
    probe_replies now replies counted after

probe_replies_lem :
    (now : ℕ) (replies : List VoteResponseArgs) (round : VoteRound) (n : RaftNode)
    → All (λ r. r.term ≤ round.term) replies
    → round.votes_received + granted_in replies ≤ round.total_nodes / 2
    → probe_replies now replies round n
      ≡ (n, record round { votes_received = round.votes_received + granted_in replies })
unfolding probe_replies process_pre_vote_reply
probe_replies_lem now [] round n terms few =
    ap (λ v. (n, record round { votes_received = v })) (omega arith)
probe_replies_lem now (r ∷ replies) round n terms few = elim (Bool-cases r.vote_granted) [
  | inl granted ↦
      let counted : VoteRound = record round { votes_received = round.votes_received + 1 } in
      let one : process_pre_vote_reply now r round n ≡ (n, counted, none) = ground arith in
      let fits : counted.votes_received + granted_in replies ≤ counted.total_nodes / 2 =
        ground arith in
      ap (λ p. probe_replies now replies p.1 p.0) one
      ∙ probe_replies_lem now replies counted n terms.1 fits
      ∙ ap (λ v. (n, record round { votes_received = v })) (ground arith)
  | inr refused ↦
      let one : process_pre_vote_reply now r round n ≡ (n, round, none) = ground arith in
      let fits : round.votes_received + granted_in replies ≤ round.total_nodes / 2 = ground arith in
      ap (λ p. probe_replies now replies p.1 p.0) one
      ∙ probe_replies_lem now replies round n terms.1 fits
      ∙ ap (λ v. (n, record round { votes_received = v })) (ground arith)
]

-- The round that a probe starts.
abbrev probed : RaftNode → VoteRound
probed n = record {
  total_nodes = length n.peers + 1;
  term = n.current_term + 1;
  votes_received = 0;
  args = vote_args n (n.current_term + 1);
}

become_pre_candidate-probed :
    (now : ℕ) (n probing : RaftNode) (round : VoteRound)
    → become_pre_candidate now n ≡ (probing, some round)
    → (probed n ≡ round) × (probing.state ≡ pre_candidate)
unfolding become_pre_candidate
become_pre_candidate-probed now n probing round h = elim (Bool-cases (is_follower n.state)) [
  | inl follows ↦ elim (Bool-cases (length n.peers + 1 == 1)) [
    | inl single ↦ absurd (ground arith)
    | inr several ↦
        let both : ◌≡◌ {A = RaftNode × Option VoteRound}
            (record n { state = pre_candidate }, some (probed n)) (probing, some round) =
          ground arith in
        let asked : some (probed n) ≡ some round = ap (λ p. p.1) both in
        (cc, sym (ap (λ p. p.0.state) both))
  ]
  | inr not_follower ↦ absurd (ground arith)
]

-- A follower that probes counts the grants of its peers only, and not a vote of its own: after any
-- replies of terms no newer than the probed one, of which no more than half the number of all nodes
-- grant it (of three nodes, one), the node is the pre-candidate that it was when it sent the probe,
-- and has counted just those grants.
pub probe_replies-granted_in :
    (start now : ℕ) (replies : List VoteResponseArgs) (n probing : RaftNode) (round : VoteRound)
    → become_pre_candidate start n ≡ (probing, some round)
    → All (λ r. r.term ≤ n.current_term + 1) replies
    → granted_in replies ≤ (length n.peers + 1) / 2
    → (probe_replies now replies round probing
        ≡ (probing, record round { votes_received = granted_in replies }))
      × (probing.state ≡ pre_candidate)
probe_replies-granted_in start now replies n probing round sent terms few =
    let (same, state) = become_pre_candidate-probed start n probing round sent in
    let counted =
      probe_replies_lem now replies (probed n) probing terms (ground arith)
      ∙ ap (λ v. (probing, record (probed n) { votes_received = v })) (ground arith) in
    (
      subst
          (λ r.
            probe_replies now replies r probing
            ≡ (probing, record r { votes_received = granted_in replies }))
          same counted,
      state,
    )
