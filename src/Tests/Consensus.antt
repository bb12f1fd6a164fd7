-- ===== src/Tests/Consensus.antt =====
-- Elections, votes, reads and the quorum rule at concrete inputs.
use oxide_kv.Common.{ℕ, ◌+◌, ◌/◌, ◌≡◌, ◌<◌, refl, true, false, none, some, List, [], ◌∷◌, arith}
use oxide_kv.Text.{Str, cmp, ◌=s◌}
use oxide_kv.Protocol.{ServerId, simple, joint, ReadIndex}
use oxide_kv.Protocol.Quorum.{
  count_reached, majority_reached, replicated, config_quorum_reached, config_quorum_reached_index,
}
use oxide_kv.Protocol.Quorum.Search.{IsHighest, config_quorum_reached_index-IsHighest}
use oxide_kv.Protocol.Quorum.Overlap.{Shared, successive-Shared}
use oxide_kv.Map
use oxide_kv.Storage.{RaftStorage, read_meta, save_meta}
use oxide_kv.Raft.{
  RaftNode, leader, named, new_node, RequestVoteArgs, VoteResponseArgs, adopt_term,
  get_last_log_info, is_log_up_to_date, is_leader,
}
use oxide_kv.Raft.Election.{
  handle_pre_vote, handle_request_vote, step_down_if_newer, decide_vote, on_vote_reply, VoteRound,
  become_leader, become_candidate,
}
use oxide_kv.Raft.Election.Rounds.{
  vote_replies, vote_replies-majority, granted_in, on_vote_reply-forgets,
}
use oxide_kv.Raft.Votes.{IsDurable, Later}
use oxide_kv.Raft.Ballot.{Step, Reach, here, next, Reach-Later, vote_once}
use oxide_kv.Raft.Reads.{begin_read, confirm_read}
use oxide_kv.Raft.Reads.Tokens.{Servable, begin_read-confirm_read}
use oxide_kv.Raft.TxVote.{VoteRequest, handle_tx_vote_request}
use oxide_kv.Raft.TxVote.Grants.{TxGranted, handle_tx_vote_request-TxGranted}
use oxide_kv.Lsm.Tx.{begin_tx_at}
use oxide_kv.Tests.Store.{a, b, c, empty_store}

program : Unit {0}
unfolding Map.get Map.insert cmp count_reached majority_reached replicated config_quorum_reached
    config_quorum_reached_index read_meta save_meta adopt_term get_last_log_info is_log_up_to_date
    handle_pre_vote handle_request_vote step_down_if_newer decide_vote on_vote_reply become_leader
    become_candidate vote_replies begin_read confirm_read handle_tx_vote_request new_node
    begin_tx_at
program = tt

abbrev pub empty_storage : RaftStorage
empty_storage = record { wal = []; meta = none; snapshot = none }

-- One of the servers `a`, `b` and `c`, at its first start.
abbrev pub started : RaftNode
started = new_node a (b ∷ c ∷ []) (empty_store 1000) empty_storage 0

started-IsDurable : IsDurable started
unfolding program
started-IsDurable = refl

abbrev request : Str → ℕ → RequestVoteArgs
request who term = record { term = term; candidate_id = who; last_log_index = 0; last_log_term = 0 }

granted : (handle_request_vote 5 (request b 1) started).1.vote_granted ≡ true
unfolding program
granted = refl

-- The node that has voted for `b`, and its restart.
abbrev voted : RaftNode
voted = (handle_request_vote 5 (request b 1) started).0

abbrev again : RaftNode
again = new_node voted.node_id (b ∷ c ∷ []) (empty_store 1000) voted.storage 9

restarted : Reach voted again
restarted = next here (Step.restart (b ∷ c ∷ []) (empty_store 1000) 9 voted)

granted_again : (handle_request_vote 10 (request b 1) again).1.vote_granted ≡ true
unfolding program
granted_again = refl

refused_again : (handle_request_vote 10 (request c 1) again).1.vote_granted ≡ false
unfolding program
refused_again = refl

vote_once_example : (request b 1).candidate_id ≡ (request b 1).candidate_id
vote_once_example =
    vote_once started again (request b 1) (request b 1) 5 10 started-IsDurable granted restarted
      granted_again refl

voted-IsDurable : IsDurable voted
unfolding program
voted-IsDurable = refl

Reach-Later_example : Later voted again
Reach-Later_example = Reach-Later voted-IsDurable restarted

started_term : 1 ≡ started.current_term + 1
unfolding program
started_term = refl

abbrev standing : RaftNode
standing = (become_candidate 5 started).0

abbrev round : VoteRound
round = record { total_nodes = 3; term = 1; votes_received = 1; args = request a 1 }

abbrev yes : VoteResponseArgs
yes = record { term = 1; vote_granted = true }

standing_follows : is_leader standing.state ≡ false
unfolding program
standing_follows = refl

standing_elected : is_leader (vote_replies 6 (yes ∷ []) round standing).0.state ≡ true
unfolding program
standing_elected = refl

vote_replies-majority_example : round.total_nodes / 2 < round.votes_received + granted_in (yes ∷ [])
vote_replies-majority_example =
    vote_replies-majority 6 (yes ∷ []) round standing standing_follows standing_elected

-- A node in term 2 that voted for `b` there, with a round of term 1 of its own still open.
abbrev late : RaftNode
late = record started { current_term = 2; vote_for = some b }

abbrev refusal : VoteResponseArgs
refusal = record { term = 2; vote_granted = false }

late_fresh : is_log_up_to_date 0 0 late ≡ true
unfolding program
late_fresh = refl

b_not_c : (b =s c) ≡ false
unfolding program
b_not_c = refl

on_vote_reply-forgets_example :
    ((handle_request_vote 7 (request c 2) late).1.vote_granted ≡ false)
    × ((handle_request_vote 7 (request c 2) (on_vote_reply 7 refusal round late).0).1.vote_granted
        ≡ true)
on_vote_reply-forgets_example =
    on_vote_reply-forgets 7 refusal round late (request c 2) b refl b_not_c refl refl refl
      (omega arith) late_fresh

abbrev pub leading : RaftNode
leading = record started { state = leader; current_term = 1 }

abbrev pub heard : RaftNode
heard = record leading { last_quorum_heartbeat_at = some 21 }

abbrev pub token : ReadIndex
token = record { index = 0; issued_at = 20 }

token_given : (begin_read 20 0 leading).2 ≡ some token
unfolding program
token_given = refl

confirmed : confirm_read 300 25 token heard ≡ true
unfolding program
confirmed = refl

begin_read-confirm_read_example : Servable 300 20 25 leading heard
begin_read-confirm_read_example =
    begin_read-confirm_read 300 20 25 0 leading heard token token_given confirmed

abbrev three : List ServerId
three = named a ∷ named b ∷ named c ∷ []

config_quorum_reached_index-IsHighest_example :
    IsHighest
      (config_quorum_reached (simple three) ((b, 4) ∷ (c, 2) ∷ []) a 5)
      5
      (config_quorum_reached_index (simple three) ((b, 4) ∷ (c, 2) ∷ []) a 5)
config_quorum_reached_index-IsHighest_example =
    config_quorum_reached_index-IsHighest (simple three) ((b, 4) ∷ (c, 2) ∷ []) a 5

abbrev pair : List ServerId
pair = named a ∷ named b ∷ []

joint_reached : config_quorum_reached (joint pair three) ((b, 4) ∷ (c, 2) ∷ []) a 5 4 ≡ true
unfolding program
joint_reached = refl

successive-Shared_example :
    (config_quorum_reached (simple pair) ((a, 3) ∷ []) b 3 3 ≡ true
      → Shared (replicated ((b, 4) ∷ (c, 2) ∷ []) a 5) 4 (replicated ((a, 3) ∷ []) b 3) 3 pair)
    × (config_quorum_reached (simple three) ((a, 3) ∷ []) b 3 3 ≡ true
        → Shared (replicated ((b, 4) ∷ (c, 2) ∷ []) a 5) 4 (replicated ((a, 3) ∷ []) b 3) 3 three)
successive-Shared_example =
    successive-Shared pair three ((b, 4) ∷ (c, 2) ∷ []) ((a, 3) ∷ []) a b 5 3 4 3 joint_reached

abbrev participant : RaftNode
participant = record started {
  current_term = 1;
  state_machine = begin_tx_at c [] 5 (empty_store 1000);
}

abbrev ask : VoteRequest
ask = record { term = 1; tx_id = c; last_log_index = 0; last_log_term = 0 }

asked : (handle_tx_vote_request 6 ask participant).1.vote_granted ≡ true
unfolding program
asked = refl

handle_tx_vote_request-TxGranted_example :
    TxGranted ask participant
      (handle_tx_vote_request 6 ask participant).0
      (handle_tx_vote_request 6 ask participant).1
handle_tx_vote_request-TxGranted_example = handle_tx_vote_request-TxGranted 6 ask participant asked
