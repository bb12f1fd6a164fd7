-- ===== src/Timers.antt =====
-- The loops that drive a node: `run_election_timer` of raft/timer.rs and `run_heartbeat_loop` of
-- raft/node.rs. A round is one pass of a loop, after its first sleep; the sleeps are the times
-- between the visits.
pub mod Stuck
use oxide_kv.Common.{
  ℕ, zero, suc, Bool, true, false, Option, none, some, List, [], ◌∷◌, if◌then◌else◌,
}
use oxide_kv.Protocol.{LogEntry}
use oxide_kv.Raft.{RaftNode, is_leader}
use oxide_kv.Raft.Election.{VoteRound, become_pre_candidate}
use oxide_kv.Raft.Reads.{should_start_election}
use oxide_kv.Raft.Replicate.{sync_logs}
use oxide_kv.Raft.Snapshots.{maybe_snapshot}
use oxide_kv.Visits.{Visit, M, ◌>>=◌, ◌>>◌, pure, visit, write}

abbrev pub is_due : ℕ → Visit → Bool
is_due threshold v = should_start_election v.node.state v.node.last_heartbeat v.now threshold

-- The probe that is started, if any.
abbrev pub probe : M (Option VoteRound)
probe = do
  x ← visit
  write (become_pre_candidate x.now x.node).0
  pure (become_pre_candidate x.now x.node).1

abbrev pub when_due : Bool → M (Option VoteRound) → M (Option VoteRound)
when_due true m = m
when_due false m = pure none

-- The second test comes after the jitter.
unfoldable pub timer_round : ℕ → M (Option VoteRound)
timer_round threshold = do
  v ← visit
  when_due (is_due threshold v) (do w ← visit; when_due (is_due threshold w) probe)

-- So many rounds of the election timer, and the probes that they start.
unfoldable pub run_election_timer : ℕ → ℕ → M (List (Option VoteRound))
unfolding timer_round
run_election_timer zero threshold = pure []
run_election_timer (suc rounds) threshold = do
  started ← timer_round threshold
  later ← run_election_timer rounds threshold
  pure (started ∷ later)

module _ (entry_size : LogEntry → ℕ) where
  -- A panic ends the loop.
  abbrev pub keep : Option (RaftNode × Bool) → M (Unit {0})
  keep none t = (none, t)
  keep (some (after, _)) t = write after t

  unfoldable pub heartbeat_round : ℕ → ℕ → M (Unit {0})
  heartbeat_round unix_now threshold_bytes = do
    v ← visit
    (if is_leader v.node.state
        then (do
          w ← visit
          write (sync_logs unix_now w.node).0
          x ← visit
          keep (maybe_snapshot entry_size threshold_bytes x.node))
        else pure tt)
