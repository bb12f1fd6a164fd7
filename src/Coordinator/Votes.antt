-- ===== src/Coordinator/Votes.antt =====
-- What the vote round of raft/coordinator.rs has seen when it commits a transaction.
use oxide_kv.Common.{ℕ, ◌≡◌, refl, ap, Option, none, some, List, [], ◌∷◌}
use mathlib.Core.Path.{subst}
use oxide_kv.Text.{Str}
use oxide_kv.Protocol.{Command, TxDecision, commit, abort}
use oxide_kv.Raft.{RaftNode}
use oxide_kv.Raft.Propose.{Result, ok, err}
use oxide_kv.Raft.TxVote.{VoteRequest, VoteResponse}
use oxide_kv.Visits.{Visit, Task, visit}
use oxide_kv.Visits.Steps.{continue-some, visit-visits}
use oxide_kv.Visits.Later.{Later, Later_trans, visit-Later}
use oxide_kv.Coordinator.{
  AbortReason, TallyResult, superseded, counted, tally_votes, expected_voters, decide_votes,
  record_yes, change, add, decision_of,
}
use oxide_kv.Coordinator.Tally.{Unanimous, change-Later, tally_votes-Unanimous}
use oxide_kv.Coordinator.Rounds.{
  committed, aborted, not_leader, WaitError, propose_and_wait_for_apply, vote_request, outcome_of,
  conclude, vote_round, after_replication, replication_failed,
}
use oxide_kv.Coordinator.Commits.{Proposed, propose_and_wait_for_apply-Proposed}

-- Every answer of the round that a visit begins is a yes of its term.
abbrev pub Agreed :
    (VoteRequest → List Str → List (Str × Option VoteResponse)) → Str → ℕ → RaftNode → Type 0
Agreed answers tx_id begin_index n =
    Unanimous n.current_term n.node_id n.peers (answers (vote_request tx_id begin_index n) n.peers)

outcome_of-committed :
    (begin_index b d : ℕ) (tx_id tx : Str) (decision : TxDecision) (reason : Option AbortReason)
    (r : Result WaitError ℕ)
    → outcome_of begin_index tx_id decision reason r ≡ committed b d tx
    → (decision ≡ commit) × (r ≡ ok d) × (begin_index ≡ b) × (tx_id ≡ tx)
outcome_of-committed begin_index b d tx_id tx commit reason (ok i) h = (refl, cc, cc, cc)
outcome_of-committed begin_index b d tx_id tx abort reason (ok i) h = absurd (cc)
outcome_of-committed begin_index b d tx_id tx _ reason (err e) h = absurd (cc)

conclude-committed :
    (unix_now begin_index b d : ℕ) (tx_id tx : Str) (peers : List Str) (leader_id : Str)
    (tally : TallyResult) (t t' : Task)
    → conclude unix_now begin_index tx_id peers leader_id tally t ≡ (some (committed b d tx), t')
    → (decision_of (expected_voters leader_id peers) tally ≡ some commit)
      × (begin_index ≡ b)
      × (tx_id ≡ tx)
      × Proposed unix_now (Command.decide_tx tx_id commit ∷ []) d t t'
unfolding conclude
conclude-committed unix_now begin_index b d tx_id tx peers leader_id superseded t t' h =
    let never : some (not_leader tx_id) ≡ some (committed b d tx) = ap (λ x. x.0) h in absurd (cc)
conclude-committed unix_now begin_index b d tx_id tx peers leader_id (counted voters reason) t t'
      h =
    let decision = decide_votes (expected_voters leader_id peers) voters reason in
    let (r, t1, e1, h1) =
      continue-some _ (propose_and_wait_for_apply unix_now (Command.decide_tx tx_id decision) t)
        (committed b d tx) t' h in
    let same : some (outcome_of begin_index tx_id decision reason r) ≡ some (committed b d tx) =
      ap (λ x. x.0) h1 in
    let ends : t1 ≡ t' = ap (λ x. x.1) h1 in
    let (commits, decided, begun, named) =
      outcome_of-committed begin_index b d tx_id tx decision reason r (cc) in
    let waited : propose_and_wait_for_apply unix_now (Command.decide_tx tx_id decision) t
        ≡ (some (ok d), t') =
      cc in
    (
      ap some commits,
      begun,
      named,
      subst (λ c. Proposed unix_now (Command.decide_tx tx_id c ∷ []) d t t') commits
          (propose_and_wait_for_apply-Proposed unix_now d (Command.decide_tx tx_id decision) t t'
            waited),
    )

-- From the votes on: at the first visit the round's term and peers are read, then the votes are
-- recorded, and then the decision to commit is proposed.
pub record Voted (unix_now : ℕ)
    (answers : VoteRequest → List Str → List (Str × Option VoteResponse)) (tx_id : Str)
    (begin_index d : ℕ) (t t' : Task) : Type 0 where
  pub asked : Visit
  pub after : List Visit
  pub first : t.visits ≡ asked ∷ after
  pub agree : Agreed answers tx_id begin_index asked.node
  pub tallied : Task
  pub recorded : Later t tallied
  pub decided : Proposed unix_now (Command.decide_tx tx_id commit ∷ []) d tallied t'

module _ (unix_now : ℕ) (answers : VoteRequest → List Str → List (Str × Option VoteResponse)) where
  vote_round-Voted :
      (begin_index b d : ℕ) (tx_id tx : Str) (t t' : Task)
      → vote_round unix_now answers begin_index tx_id t ≡ (some (committed b d tx), t')
      → (begin_index ≡ b) × (tx_id ≡ tx) × Voted unix_now answers tx_id begin_index d t t'
  unfolding vote_round
  vote_round-Voted begin_index b d tx_id tx t t' h =
      let (v, t1, e1, h1) = continue-some _ (visit t) (committed b d tx) t' h in
      let n : RaftNode = v.node in
      let own = record_yes tx_id n.node_id in
      let (u, t2, e2, h2) = continue-some _ (change own t1) (committed b d tx) t' h1 in
      let results = answers (vote_request tx_id begin_index n) n.peers in
      let (tally, t3, e3, h3) =
        continue-some _ (tally_votes tx_id n.current_term results (add n.node_id []) none t2)
          (committed b d tx) t' h2 in
      let (commits, begun, named, decided) =
        conclude-committed unix_now begin_index b d tx_id tx n.peers n.node_id tally t3 t' h3 in
      let (agree, counted_later) =
        tally_votes-Unanimous tx_id n.node_id n.current_term n.peers results tally t2 t3 e3
          commits in
      (
        begun,
        named,
        record {
          asked = v;
          after = t1.visits;
          first = visit-visits t t1 v e1;
          agree = agree;
          tallied = t3;
          recorded =
              Later_trans (visit-Later t t1 v e1)
                (Later_trans (change-Later own t1 t2 u e2) counted_later);
          decided = decided;
        },
      )

  pub after_replication-Voted :
      (begin_index b d : ℕ) (tx_id tx : Str) (r : Result WaitError (Unit {0})) (t t' : Task)
      → after_replication unix_now answers begin_index tx_id r t ≡ (some (committed b d tx), t')
      → (begin_index ≡ b)
        × (tx_id ≡ tx)
        × Voted unix_now answers tx_id begin_index d t t'
        × ((u : Unit {0}) × (r ≡ ok u))
  after_replication-Voted begin_index b d tx_id tx (err e) t t' h =
      let never : some (aborted tx_id replication_failed) ≡ some (committed b d tx) =
        ap (λ x. x.0) h in
      absurd (cc)
  after_replication-Voted begin_index b d tx_id tx (ok u) t t' h =
      let (begun, named, voted) = vote_round-Voted begin_index b d tx_id tx t t' h in
      (begun, named, voted, (u, refl))
