-- ===== src/Coordinator.antt =====
-- The tally of votes and the decision of `coordinate_tx_inner`, raft/coordinator.rs. The answers are
-- those that the tasks gave, in the order of the peers; `none` is a failed or late one. Each change to
-- the node that the loop over them makes is a visit of its own.
pub mod Tally
pub mod Rounds
pub mod Commits
pub mod Replication
pub mod Votes
pub mod Outcome
use oxide_kv.Common.{ℕ, Bool, true, false, Option, none, some, List, [], ◌∷◌, ltb, if◌then◌else◌}
use oxide_kv.Text.{Str, ◌=s◌}
use oxide_kv.Map
use oxide_kv.Map.{Map}
use oxide_kv.Protocol.{yes_vote, TxDecision, commit, abort}
use oxide_kv.Lsm.Tx.{record_vote}
use oxide_kv.Raft.{RaftNode, follower, is_leader, adopt_term}
use oxide_kv.Raft.TxVote.{VoteResponse, VoteReason}
use oxide_kv.Visits.{M, ◌>>=◌, ◌>>◌, pure, visit, write}

-- `HashSet<String>`
abbrev pub StrSet : Type 0
StrSet = Map Bool

abbrev pub add : Str → StrSet → StrSet
add k s = Map.insert k true s

-- `==` of two sets.
unfoldable pub same_set : StrSet → StrSet → Bool
same_set [] [] = true
same_set [] (t ∷ ts) = false
same_set (s ∷ ss) [] = false
same_set ((j, x) ∷ ss) ((k, y) ∷ ts) = let rest = same_set ss ts in if j =s k then rest else false

-- What `abort_reason` says.
pub data AbortReason : Type 0 where
  declined : Str → VoteReason → AbortReason
  failed : Str → AbortReason

-- How the loop over the answers ends: at an answer of a newer term, or with the tally.
pub data TallyResult : Type 0 where
  superseded : TallyResult
  counted : StrSet → Option AbortReason → TallyResult

unfoldable pub step_down : ℕ → RaftNode → RaftNode
unfolding adopt_term
step_down term n = if is_leader n.state then record (adopt_term term n) { state = follower } else n

unfoldable pub record_yes : Str → Str → RaftNode → RaftNode
unfolding record_vote
record_yes tx_id voter n = record n {
  state_machine = record_vote tx_id voter yes_vote n.state_machine;
}

-- A change to the node under a lock of its own.
abbrev pub change : (RaftNode → RaftNode) → M (Unit {0})
change f = do v ← visit; write (f v.node)

unfoldable pub tally_votes :
    Str → ℕ → List (Str × Option VoteResponse) → StrSet → Option AbortReason → M TallyResult
tally_votes tx_id leader_term [] voters reason = pure (counted voters reason)
tally_votes tx_id leader_term ((addr, none) ∷ results) voters reason =
    tally_votes tx_id leader_term results voters (some (failed addr))
tally_votes tx_id leader_term ((addr, some resp) ∷ results) voters reason =
    let granted : M TallyResult = tally_votes tx_id leader_term results (add addr voters) reason in
    let refused : M TallyResult =
      tally_votes tx_id leader_term results voters (some (declined addr resp.reason)) in
    if ltb leader_term resp.term
    then (do change (step_down resp.term); pure superseded)
    else if resp.vote_granted
    then (do change (record_yes tx_id addr); granted)
    else refused

-- The peers and the leader.
unfoldable pub expected_voters : Str → List Str → StrSet
expected_voters leader_id [] = add leader_id []
expected_voters leader_id (p ∷ ps) = add p (expected_voters leader_id ps)

unfoldable pub decide_votes : StrSet → StrSet → Option AbortReason → TxDecision
unfolding same_set
decide_votes expected voters (some reason) = abort
decide_votes expected voters none = if same_set voters expected then commit else abort

-- The decision that follows a tally; `none` when the leader has stepped down.
abbrev pub decision_of : StrSet → TallyResult → Option TxDecision
decision_of expected superseded = none
decision_of expected (counted voters reason) = some (decide_votes expected voters reason)
