-- ===== src/Coordinator/Outcome.antt =====
-- What a transaction that raft/coordinator.rs reports as committed rests on.
use oxide_kv.Common.{ℕ, ◌+◌, ◌≡◌, refl, ap, sym, ◌∙◌, Option, none, some, List, [], ◌∷◌}
use mathlib.Core.Path.{subst}
use oxide_kv.Text.{Str}
use oxide_kv.Protocol.{Command, TxOp, commit}
use oxide_kv.Raft.Propose.{Result, ok, err}
use oxide_kv.Raft.TxVote.{VoteRequest, VoteResponse}
use oxide_kv.Visits.{Visit, Task, visit, until, cancelled, split_at}
use oxide_kv.Visits.Steps.{continue-some, visit-visits, visit-written}
use oxide_kv.Visits.Later.{Later, visit-Later}
use oxide_kv.Coordinator.Rounds.{
  TxOutcome, committed, aborted, not_leader, WaitError, propose_and_wait_for_apply,
  wait_for_replication, propose_batch_and_wait_for_apply, single_node_fast_path, single_outcome,
  after_begin, multi_node, by_size, coordinate_tx_inner, coordinate_tx, round_exceeded,
}
use oxide_kv.Coordinator.Commits.{
  Proposed, propose_and_wait_for_apply-Proposed, propose_batch_and_wait_for_apply-Proposed,
}
use oxide_kv.Coordinator.Replication.{HasReplicated, wait_for_replication-HasReplicated}
use oxide_kv.Coordinator.Votes.{Agreed, after_replication-Voted}

-- Of a task that begins with a visit to the node. Either the node has no peers at that visit, and the
-- batch of both entries is proposed and applied up to the first of them; or it has peers, and the
-- entry that begins the transaction is proposed and applied, then every peer has acknowledged it, then
-- all vote for it, and then the entry that decides to commit is proposed and applied.
pub data Basis (unix_now : ℕ) (answers : VoteRequest → List Str → List (Str × Option VoteResponse))
    (tx_id : Str) (ops : List TxOp) (begin_index decide_index : ℕ) (t t' : Task) : Type 0 where
  alone :
      (sized : Visit) (t1 : Task)
      → t.visits ≡ sized ∷ t1.visits
      → t1.written ≡ t.written
      → sized.node.peers ≡ []
      → decide_index ≡ begin_index + 1
      → Proposed unix_now
          (Command.begin_tx tx_id ops ∷ Command.decide_tx tx_id commit ∷ [])
          begin_index
          t1
          t'
      → Basis unix_now answers tx_id ops begin_index decide_index t t'
  agreed :
      (sized asked : Visit) (after : List Visit) (t1 begun waiting reached tallied : Task)
      → t.visits ≡ sized ∷ t1.visits
      → t1.written ≡ t.written
      → ¬ (sized.node.peers ≡ [])
      → Proposed unix_now (Command.begin_tx tx_id ops ∷ []) begin_index t1 begun
      → Later begun waiting
      → HasReplicated begin_index waiting reached
      → reached.visits ≡ asked ∷ after
      → Agreed answers tx_id begin_index asked.node
      → Later reached tallied
      → Proposed unix_now (Command.decide_tx tx_id commit ∷ []) decide_index tallied t'
      → Basis unix_now answers tx_id ops begin_index decide_index t t'

module _ (unix_now : ℕ) (answers : VoteRequest → List Str → List (Str × Option VoteResponse))
    (tx_id tx : Str) (ops : List TxOp) (b d : ℕ) where
  -- The first visit of a task that coordinates a transaction.
  record Sized (sized : Visit) (t t1 : Task) : Type 0 where
    visits : t.visits ≡ sized ∷ t1.visits
    written : t1.written ≡ t.written

  after_begin-Basis :
      (i : ℕ) (sized : Visit) (t t1 begun t' : Task)
      → Sized sized t t1
      → ¬ (sized.node.peers ≡ [])
      → Proposed unix_now (Command.begin_tx tx_id ops ∷ []) i t1 begun
      → after_begin unix_now answers tx_id (ok i) begun ≡ (some (committed b d tx), t')
      → (tx_id ≡ tx) × Basis unix_now answers tx_id ops b d t t'
  after_begin-Basis i sized t t1 begun t' first large proposed h =
      let (v, waiting, e1, h1) = continue-some _ (visit begun) (committed b d tx) t' h in
      let (r, reached, e2, h2) =
        continue-some _ (wait_for_replication v.now i waiting) (committed b d tx) t' h1 in
      let (same, named, voted, (u, done)) =
        after_replication-Voted unix_now answers i b d tx_id tx r reached t' h2 in
      let replicated =
        wait_for_replication-HasReplicated v.now i u waiting reached
          (e2 ∙ ap (λ x. (some x, reached)) done) in
      (
        named,
        subst (λ x. Basis unix_now answers tx_id ops x d t t') same
            (agreed sized voted.asked voted.after t1 begun waiting reached voted.tallied
              first.visits first.written large proposed (visit-Later begun waiting v e1) replicated
              voted.first voted.agree voted.recorded voted.decided),
      )

  multi_node-Basis :
      (sized : Visit) (t t1 t' : Task)
      → Sized sized t t1
      → ¬ (sized.node.peers ≡ [])
      → multi_node unix_now answers tx_id ops t1 ≡ (some (committed b d tx), t')
      → (tx_id ≡ tx) × Basis unix_now answers tx_id ops b d t t'
  unfolding multi_node
  multi_node-Basis sized t t1 t' first large h =
      let (r, t2, e2, h2) =
        continue-some _ (propose_and_wait_for_apply unix_now (Command.begin_tx tx_id ops) t1)
          (committed b d tx) t' h in
      begun r t2 e2 h2
    where
      begun :
          (r : Result WaitError ℕ) (t2 : Task)
          → propose_and_wait_for_apply unix_now (Command.begin_tx tx_id ops) t1 ≡ (some r, t2)
          → after_begin unix_now answers tx_id r t2 ≡ (some (committed b d tx), t')
          → (tx_id ≡ tx) × Basis unix_now answers tx_id ops b d t t'
      begun (err e) t2 e2 h2 =
          let never : some (not_leader tx_id) ≡ some (committed b d tx) = ap (λ x. x.0) h2 in
          absurd (cc)
      begun (ok i) t2 e2 h2 =
          after_begin-Basis i sized t t1 t2 t' first large
            (propose_and_wait_for_apply-Proposed unix_now i (Command.begin_tx tx_id ops) t1 t2 e2)
            h2

  single_outcome-committed :
      (r : Result WaitError ℕ)
      → single_outcome tx_id r ≡ committed b d tx
      → (r ≡ ok b) × (d ≡ b + 1) × (tx_id ≡ tx)
  single_outcome-committed (err e) h = absurd (cc)
  single_outcome-committed (ok i) h =
      let begun : i ≡ b = cc in
      let next : i + 1 ≡ d = cc in (ap ok begun, sym next ∙ ap (λ x. x + 1) begun, cc)

  single_node_fast_path-Basis :
      (sized : Visit) (t t1 t' : Task)
      → Sized sized t t1
      → sized.node.peers ≡ []
      → single_node_fast_path unix_now tx_id ops t1 ≡ (some (committed b d tx), t')
      → (tx_id ≡ tx) × Basis unix_now answers tx_id ops b d t t'
  unfolding single_node_fast_path
  single_node_fast_path-Basis sized t t1 t' first small h =
      let begin = Command.begin_tx tx_id ops in
      let decide = Command.decide_tx tx_id commit in
      let (r, t2, e2, h2) =
        continue-some _ (propose_batch_and_wait_for_apply unix_now (begin ∷ decide ∷ []) t1)
          (committed b d tx) t' h in
      let out : some (single_outcome tx_id r) ≡ some (committed b d tx) = ap (λ x. x.0) h2 in
      let ended : t2 ≡ t' = ap (λ x. x.1) h2 in
      let (applied, next, named) = single_outcome-committed r (cc) in
      (
        named,
        alone sized t1 first.visits first.written small next (
            propose_batch_and_wait_for_apply-Proposed unix_now b begin decide t1 t'
              (e2 ∙ ap (λ x. (some x, t2)) applied ∙ ap (λ u. (some (ok b), u)) ended)),
      )

  by_size-Basis :
      (peers : List Str) (sized : Visit) (t t1 t' : Task)
      → Sized sized t t1
      → sized.node.peers ≡ peers
      → by_size unix_now answers tx_id ops peers t1 ≡ (some (committed b d tx), t')
      → (tx_id ≡ tx) × Basis unix_now answers tx_id ops b d t t'
  by_size-Basis [] sized t t1 t' first small h =
      single_node_fast_path-Basis sized t t1 t' first small h
  by_size-Basis (p ∷ ps) sized t t1 t' first large h =
      multi_node-Basis sized t t1 t' first (λ small. absurd (cons_lem p ps (sym large ∙ small))) h
    where
      cons_lem : (q : Str) (qs : List Str) → ¬ (q ∷ qs ≡ [])
      cons_lem q qs e = absurd (cc)

  inner-Basis :
      (t t' : Task)
      → coordinate_tx_inner unix_now answers tx_id ops t ≡ (some (committed b d tx), t')
      → (tx_id ≡ tx) × Basis unix_now answers tx_id ops b d t t'
  unfolding coordinate_tx_inner
  inner-Basis t t' h =
      let (v, t1, e1, h1) = continue-some _ (visit t) (committed b d tx) t' h in
      by_size-Basis v.node.peers v t t1 t'
        (record { visits = visit-visits t t1 v e1; written = visit-written t t1 v e1 }) refl h1

-- A transaction that the coordinator reports as committed is the one that it was given, and rests on
-- its visits to the node within ten seconds of its start, the first of which finds the node with or
-- without peers. Without: the node, leading, was written back with the entries that begin the
-- transaction and commit it at the end of its log, and had then applied its log up to the first of
-- them. With peers, in this order: the node, leading, was written back with the entry that begins the
-- transaction, at the index reported, and had then, leading, applied its log up to it; while it led,
-- every peer had acknowledged that index; the answer of each peer to the request that the next visit
-- makes was a yes of no newer term than the node's at that visit; and the node, leading, was written
-- back with the entry that commits the transaction, at the index reported, and had then, leading,
-- applied its log up to it. Other tasks may have changed the node in any way between the visits.
pub coordinate_tx-Basis :
    (unix_now : ℕ) (answers : VoteRequest → List Str → List (Str × Option VoteResponse))
    (start b d : ℕ) (tx_id tx : Str) (ops : List TxOp) (t : Task)
    → (coordinate_tx unix_now answers start tx_id ops t).0 ≡ some (committed b d tx)
    → (tx_id ≡ tx)
      × ((t' : Task) × ((coordinate_tx unix_now answers start tx_id ops t).1.written ≡ t'.written)
          × Basis unix_now answers tx_id ops b d
              (record t { visits = (split_at (start + 10000) t.visits).0 })
              t')
unfolding coordinate_tx until
coordinate_tx-Basis unix_now answers start b d tx_id tx ops t h =
    within (split_at (start + 10000) t.visits).1
      (coordinate_tx_inner unix_now answers tx_id ops
        (record t { visits = (split_at (start + 10000) t.visits).0 }))
      refl h
  where
    within :
        (after : List Visit) (r : Option TxOutcome × Task)
        → coordinate_tx_inner unix_now answers tx_id ops
            (record t { visits = (split_at (start + 10000) t.visits).0 })
          ≡ r
        → (cancelled (aborted tx_id round_exceeded) after r).0 ≡ some (committed b d tx)
        → (tx_id ≡ tx)
          × ((t' : Task) × ((cancelled (aborted tx_id round_exceeded) after r).1.written
                ≡ t'.written)
              × Basis unix_now answers tx_id ops b d
                  (record t { visits = (split_at (start + 10000) t.visits).0 })
                  t')
    within [] (none, t1) e h = absurd (cc)
    within (v ∷ vs) (none, t1) e h = absurd (cc)
    within after (some o, t1) e h =
        let done : (some o, t1) ≡ (some (committed b d tx), t1) = ap (λ x. (x, t1)) h in
        let (named, basis) =
          inner-Basis unix_now answers tx_id tx ops b d
            (record t { visits = (split_at (start + 10000) t.visits).0 }) t1 (e ∙ done) in
        (named, (t1, refl, basis))
