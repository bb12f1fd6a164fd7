-- ===== src/Raft/Votes.antt =====
-- Terms and votes: what each handler of raft/node.rs does to `current_term`, `vote_for` and the
-- copy of both on disk.
pub mod Elections
pub mod Replication
use oxide_kv.Common.{
  ℕ, zero, suc, ◌+◌, ◌-◌, ◌≤◌, ◌<◌, ◌≡◌, refl, ◌∙◌, sym, true, false, Bool, Option, none, some,
  List, [], ◌∷◌, arith, length, ltb, leb, ◌==◌, ◌&&◌, ◌⊎◌, min, if◌then◌else◌, Bool-cases, inl, inr,
  Option-cases,
}
use oxide_kv.Text.{Str, ◌=s◌, eq_of_cmp, cmp_refl}
use oxide_kv.Protocol.{Command, LogEntry, ServerId}
use oxide_kv.Storage.{RaftStorage, read_meta, save_meta, append_wal_log}
use oxide_kv.Raft.{
  RaftNode, NodeState, follower, is_leader, is_candidate, is_pre_candidate, is_follower,
  RequestVoteArgs, VoteResponseArgs, AppendEntriesArgs, AppendReplyArgs, InstallSnapshotArgs,
  adopt_term, is_log_up_to_date, new_node,
}
use oxide_kv.Raft.Apply.{apply_logs}
use oxide_kv.Raft.Apply.Frame.{Frame}
use oxide_kv.Raft.Apply.Progress.{apply_logs-Frame}
use oxide_kv.Raft.Election.{
  handle_pre_vote, step_down_if_newer, decide_vote, handle_request_vote, become_leader,
  promote_to_candidate_locked, request_votes, VoteRound, on_vote_reply, become_candidate,
  become_pre_candidate, become_leader_checked, process_pre_vote_reply,
}
use oxide_kv.Raft.Append.{
  append_entry, append_all, push_entry, advance_commit, follow, handle_append_entries,
  is_consistent,
}

-- The file on disk holds the term and the vote.
abbrev pub IsDurable : RaftNode → Type 0
IsDurable n = read_meta n.storage ≡ (n.current_term, n.vote_for)

-- `m` comes after `n`: the term has not fallen, and within a term a vote stays. What is on disk
-- stays in agreement.
pub record Later (n m : RaftNode) : Type 0 where
  pub term : n.current_term ≤ m.current_term
  pub vote : (v : Str) → n.current_term ≡ m.current_term → n.vote_for ≡ some v → m.vote_for ≡ some v
  pub durable : IsDurable n → IsDurable m

pub Later-refl : (n : RaftNode) → Later n n
Later-refl n = record { term = omega arith; vote = λ v e h. h; durable = λ d. d }

pub Later-trans : {a b c : RaftNode} → Later a b → Later b c → Later a c
Later-trans f g = record {
  term = omega (arith, f.term, g.term);
  vote = λ v e h.
      g.vote v (omega (arith, f.term, g.term)) (f.vote v (omega (arith, f.term, g.term)) h);
  durable = λ d. g.durable (f.durable d);
}

-- Steps that touch neither.
pub quiet :
    (n m : RaftNode)
    → m.current_term ≡ n.current_term
    → m.vote_for ≡ n.vote_for
    → m.storage.meta ≡ n.storage.meta
    → Later n m
unfolding read_meta
quiet n m t v d = record { term = omega arith; vote = λ x e h. v ∙ h; durable = λ h. ground arith }

pub Frame-Later : (n m : RaftNode) → Frame n m → Later n m
Frame-Later n m f = quiet n m f.term f.vote f.meta

-- A newer term clears the vote.
pub adopt-Later :
    (term : ℕ) (n : RaftNode) (state : NodeState)
    → n.current_term < term
    → Later n (record (adopt_term term n) { state = state })
unfolding adopt_term read_meta
adopt-Later term n state h = record {
  term = omega arith;
  vote = λ v e x. absurd (omega arith);
  durable = λ d. refl;
}
