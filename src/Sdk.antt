-- ===== src/Sdk.antt =====
-- The Rust client library, oxide-kv-client/src: client.rs and transaction.rs, against the server of
-- oxide-kv/src/client.rs at the other end of a connection that does not fail. Of a reply it reads
-- the fields below; the texts of its errors are left out.
pub mod Commits
pub mod Reads
use oxide_kv.Common.{
  ℕ, Bool, true, false, ◌==◌, ◌&&◌, Option, none, some, List, [], ◌∷◌, ◌++◌, if◌then◌else◌,
}
use oxide_kv.Text.{Str, ◌=s◌}
use oxide_kv.Protocol.{Command, TxOp, put, delete, TxDecision, commit, abort}
use oxide_kv.Raft.Propose.{Result, ok, err}
use oxide_kv.Raft.TxVote.{VoteRequest, VoteResponse}
use oxide_kv.Invariants.Printing.{text}
use oxide_kv.Visits.{M, ◌>>=◌, pure}
use oxide_kv.Client.{
  Response, Settings, not_a_leader, invalid_json, proposed, error, found, not_found, read_timeout,
  compact_not_supported, leader_internal, joint_not_committed, simple_not_appended, member_added,
  member_removed, membership_error, tx_committed, tx_aborted, tx_not_leader, abort_proposed,
  abort_tx_error, answer_line,
}

-- The fields of a JSON reply that the library reads.
pub record Reply : Type 0 where
  pub error_text : Option Str
  pub status : Option Str
  pub read_data : Option Str
  pub index : Option ℕ
  pub begin_index : Option ℕ
  pub decide_index : Option ℕ

abbrev pub with_status : Str → Reply
with_status s = record {
  error_text = none;
  status = some s;
  read_data = none;
  index = none;
  begin_index = none;
  decide_index = none;
}

-- The objects that the server builds.
unfoldable pub json : Response → Reply
json not_a_leader = record {
  error_text = some (text "Not a leader. Please connect to the leader node.");
  status = none;
  read_data = none;
  index = none;
  begin_index = none;
  decide_index = none;
}
json (proposed i) = record (with_status (text "ok")) { index = some i }
json (found v) = record (with_status (text "ok")) { read_data = some v }
json not_found = with_status (text "not_found")
json (simple_not_appended i) = with_status (text "ok")
json (member_added i j id) = with_status (text "ok")
json (member_removed i j id) = with_status (text "ok")
json (tx_committed tx_id b d) = record (with_status (text "ok")) {
  begin_index = some b;
  decide_index = some d;
}
json (tx_aborted tx_id reason) = with_status (text "aborted")
json (abort_proposed tx_id d) = record (with_status (text "ok")) { decide_index = some d }
json _ = with_status (text "error")

pub data SdkError : Type 0 where
  not_leader : SdkError
  tx_aborted_error : Str → SdkError
  server : SdkError

unfoldable pub starts_with : Str → Str → Bool
starts_with [] s = true
starts_with (c ∷ cs) [] = false
starts_with (c ∷ cs) (d ∷ ds) = c == d && starts_with cs ds

unfoldable pub check_not_leader : Reply → Result SdkError (Unit {0})
unfolding starts_with
check_not_leader r = elim r.error_text [
  | none ↦ ok tt
  | some msg ↦ if starts_with (text "Not a leader") msg then err not_leader else err server
]

abbrev pub and_parse :
    {A : Type 0} → Result SdkError (Unit {0}) → Result SdkError A → Result SdkError A
and_parse (ok _) p = p
and_parse (err e) p = err e

abbrev pub or_server : {A : Type 0} → Option A → Result SdkError A
or_server none = err server
or_server (some a) = ok a

abbrev pub has_status : Str → Reply → Bool
has_status s r = elim r.status [ none ↦ false | some t ↦ t =s s ]

unfoldable pub parse_index_response : Reply → Result SdkError ℕ
unfolding check_not_leader
parse_index_response r =
    and_parse (check_not_leader r)
      (if has_status (text "ok") r then or_server r.index else err server)

unfoldable pub parse_get : Reply → Result SdkError (Option Str)
unfolding check_not_leader
parse_get r = and_parse (check_not_leader r) (
    if has_status (text "ok") r
    then ok r.read_data
    else if has_status (text "not_found") r
    then ok none
    else err server)

pub record TxResult : Type 0 where
  pub begin_index : ℕ
  pub decide_index : ℕ
  pub tx_id : Str

abbrev pub tx_result : Str → Option ℕ → Option ℕ → Result SdkError TxResult
tx_result tx_id (some b) (some d) = ok (record { begin_index = b; decide_index = d; tx_id = tx_id })
tx_result tx_id _ _ = err server

unfoldable pub parse_begin_tx : Str → Reply → Result SdkError TxResult
unfolding check_not_leader
parse_begin_tx tx_id r = and_parse (check_not_leader r) (
    if has_status (text "ok") r
    then tx_result tx_id r.begin_index r.decide_index
    else if has_status (text "aborted") r
    then err (tx_aborted_error tx_id)
    else err server)

-- An operation as it is sent: the tag of its object, and the fields in it.
pub record SentOp : Type 0 where
  pub tag : Str
  pub key : Str
  pub value : Option Str

-- What the derived `Deserialize` of `TxOp` takes: the tags are the names of the variants.
unfoldable pub deserialize_op : SentOp → Option TxOp
deserialize_op op =
    if op.tag =s text "Put"
    then elim op.value [ none ↦ none | some v ↦ some (put op.key v) ]
    else if op.tag =s text "Delete"
    then some (delete op.key)
    else none

abbrev pub and_op : Option TxOp → Option (List TxOp) → Option (List TxOp)
and_op (some op) (some ops) = some (op ∷ ops)
and_op _ _ = none

unfoldable pub deserialize_ops : List SentOp → Option (List TxOp)
unfolding deserialize_op
deserialize_ops [] = some []
deserialize_ops (op ∷ ops) = and_op (deserialize_op op) (deserialize_ops ops)

abbrev pub begin_line : Str → Option (List TxOp) → Option Command
begin_line tx_id none = none
begin_line tx_id (some ops) = some (Command.begin_tx tx_id ops)

-- A transaction that is built up: `tx_id` and the operations.
pub record Transaction : Type 0 where
  pub tx_id : Str
  pub ops : List SentOp

abbrev pub begin_tx : Str → Transaction
begin_tx tx_id = record { tx_id = tx_id; ops = [] }

unfoldable pub stage_set : Str → Str → Transaction → Transaction
stage_set key value tx = record tx {
  ops = tx.ops ++ record { tag = text "put"; key = key; value = some value } ∷ [];
}

unfoldable pub stage_delete : Str → Transaction → Transaction
stage_delete key tx = record tx {
  ops = tx.ops ++ record { tag = text "delete"; key = key; value = none } ∷ [];
}

module _ (s : Settings) (answers : VoteRequest → List Str → List (Str × Option VoteResponse)) where
  unfoldable pub set : Str → Str → M (Result SdkError ℕ)
  unfolding parse_index_response json
  set key value = do
    r ← answer_line s answers (some (Command.set key value))
    pure (parse_index_response (json r))

  unfoldable pub get : Str → M (Result SdkError (Option Str))
  unfolding parse_get json
  get key = do r ← answer_line s answers (some (Command.get key)); pure (parse_get (json r))

  unfoldable pub remove : Str → M (Result SdkError ℕ)
  unfolding parse_index_response json
  remove key = do
    r ← answer_line s answers (some (Command.delete key))
    pure (parse_index_response (json r))

  unfoldable pub send_begin_tx : Str → List SentOp → M (Result SdkError TxResult)
  unfolding parse_begin_tx deserialize_ops json
  send_begin_tx tx_id ops = do
    r ← answer_line s answers (begin_line tx_id (deserialize_ops ops))
    pure (parse_begin_tx tx_id (json r))

  unfoldable pub send_decide_tx : Str → TxDecision → M (Result SdkError ℕ)
  unfolding parse_index_response json
  send_decide_tx tx_id decision = do
    r ← answer_line s answers (some (Command.decide_tx tx_id decision))
    pure (parse_index_response (json r))

  unfoldable pub commit_tx : Transaction → M (Result SdkError TxResult)
  unfolding send_begin_tx
  commit_tx tx = send_begin_tx tx.tx_id tx.ops

  unfoldable pub abort_tx : Transaction → M (Result SdkError ℕ)
  unfolding send_decide_tx
  abort_tx tx = send_decide_tx tx.tx_id abort
