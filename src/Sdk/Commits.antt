-- ===== src/Sdk/Commits.antt =====
-- A transaction of the client library that has operations.
use oxide_kv.Common.{◌≡◌, refl, ap, ◌∙◌, Option, none, some, List, [], ◌∷◌, ◌++◌}
use oxide_kv.Text.{Str, cmp}
use oxide_kv.Protocol.{TxOp}
use oxide_kv.Raft.Propose.{err}
use oxide_kv.Raft.TxVote.{VoteRequest, VoteResponse}
use oxide_kv.Invariants.Printing.{text}
use oxide_kv.Visits.{Task}
use oxide_kv.Client.{Settings}
use oxide_kv.Sdk.{
  server, SentOp, Transaction, begin_tx, stage_set, stage_delete, deserialize_op, deserialize_ops,
  and_op, json, parse_begin_tx, check_not_leader, send_begin_tx, commit_tx,
}

-- The operations that a program stages.
pub data Staged : Type 0 where
  set_op : Str → Str → Staged
  delete_op : Str → Staged

unfoldable pub stage : Staged → Transaction → Transaction
unfolding stage_set stage_delete
stage (set_op key value) tx = stage_set key value tx
stage (delete_op key) tx = stage_delete key tx

unfoldable pub stage_all : List Staged → Transaction → Transaction
unfolding stage
stage_all [] tx = tx
stage_all (op ∷ ops) tx = stage_all ops (stage op tx)

and_op-none : (o : Option TxOp) → and_op o none ≡ none
and_op-none none = refl
and_op-none (some op) = refl

-- An operation with a tag that the server does not know spoils the whole list.
deserialize_ops-append :
    (ops : List SentOp) (op : SentOp)
    → deserialize_op op ≡ none
    → deserialize_ops (ops ++ op ∷ []) ≡ none
unfolding deserialize_ops
deserialize_ops-append [] op h = ap (λ o. and_op o (some [])) h
deserialize_ops-append (o ∷ ops) op h =
    ap (and_op (deserialize_op o)) (deserialize_ops-append ops op h)
    ∙ and_op-none (deserialize_op o)

-- Every operation that the library stages is of such a tag.
stage-none : (op : Staged) (tx : Transaction) → deserialize_ops (stage op tx).ops ≡ none
unfolding stage deserialize_op cmp
stage-none (set_op key value) tx =
    deserialize_ops-append tx.ops (record { tag = text "put"; key = key; value = some value }) refl
stage-none (delete_op key) tx =
    deserialize_ops-append tx.ops (record { tag = text "delete"; key = key; value = none }) refl

stage_all-none :
    (ops : List Staged) (tx : Transaction)
    → deserialize_ops tx.ops ≡ none
    → deserialize_ops (stage_all ops tx).ops ≡ none
unfolding stage_all
stage_all-none [] tx h = h
stage_all-none (op ∷ ops) tx h = stage_all-none ops (stage op tx) (stage-none op tx)

-- A transaction with at least one operation is refused by every server, whether it leads or not: its
-- line does not parse, the commit is a server error, and the server does not take the lock.
pub commit_tx-stage_all :
    (s : Settings) (answers : VoteRequest → List Str → List (Str × Option VoteResponse))
    (tx_id : Str) (op : Staged) (ops : List Staged) (t : Task)
    → commit_tx s answers (stage_all (op ∷ ops) (begin_tx tx_id)) t ≡ (some (err server), t)
unfolding commit_tx send_begin_tx parse_begin_tx check_not_leader json stage_all cmp
commit_tx-stage_all s answers tx_id op ops t =
    let tx : Transaction = stage_all (op ∷ ops) (begin_tx tx_id) in
    let unknown : deserialize_ops tx.ops ≡ none =
      stage_all-none ops (stage op (begin_tx tx_id)) (stage-none op (begin_tx tx_id)) in
    rw unknown refl
