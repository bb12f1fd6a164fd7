-- ===== src/Raft/Votes/Replication.antt =====
-- Terms and votes over the replication, transaction-vote and snapshot handlers of raft/node.rs.
use oxide_kv.Common.{
  ℕ, ◌+◌, ◌-◌, ◌≤◌, refl, some, List, [], ◌∷◌, arith, length, ltb, ◌==◌, ◌&&◌, min, not,
  if◌then◌else◌, Bool-cases, inl, inr,
}
use oxide_kv.Text.{Str}
use oxide_kv.Protocol.{LogEntry}
use oxide_kv.Storage.{read_meta}
use oxide_kv.Raft.{
  RaftNode, follower, is_leader, AppendEntriesArgs, AppendReplyArgs, InstallSnapshotArgs,
  adopt_term, is_log_up_to_date,
}
use oxide_kv.Raft.Apply.{apply_logs}
use oxide_kv.Raft.Apply.Progress.{apply_logs-Frame}
use oxide_kv.Raft.Append.{
  append_entry, append_all, push_entry, advance_commit, follow, handle_append_entries,
  is_consistent,
}
use oxide_kv.Map
use oxide_kv.Protocol.{Snapshot}
use oxide_kv.Protocol.Quorum.{config_quorum_reached_index}
use oxide_kv.Storage.{save_snapshot, rewrite_wal_after_snapshot}
use oxide_kv.Raft.Replicate.{maybe_commit, on_append_reply, next_index_for}
use oxide_kv.Raft.TxVote.{VoteRequest, fast_forward, answer_pending, handle_tx_vote_request}
use oxide_kv.Raft.Snapshots.{load_into, handle_install_snapshot}
use oxide_kv.Raft.Votes.{Later, Later-refl, Later-trans, quiet, Frame-Later, adopt-Later}

follow-Later : (now term : ℕ) (n : RaftNode) → n.current_term ≤ term → Later n (follow now term n)
unfolding follow adopt_term read_meta
follow-Later now term n h = record {
  term = ground arith;
  vote = λ v e x. ground arith;
  durable = λ d. ground arith;
}

append_entry-Later : (e : LogEntry) (n : RaftNode) → Later n (append_entry e n)
unfolding append_entry push_entry read_meta
append_entry-Later e n = record {
  term = ground arith;
  vote = λ v q h. ground arith;
  durable = λ d. ground arith;
}

append_all-Later : (es : List LogEntry) (n : RaftNode) → Later n (append_all es n)
unfolding append_all
append_all-Later [] n = Later-refl n
append_all-Later (e ∷ es) n =
    Later-trans (append_entry-Later e n) (append_all-Later es (append_entry e n))

advance_commit-Later :
    (now leader_commit : ℕ) (n : RaftNode) → Later n (advance_commit now leader_commit n)
unfolding advance_commit
advance_commit-Later now leader_commit n = elim (Bool-cases (ltb n.commit_index leader_commit)) [
  | inr old ↦ rw old (Later-refl n)
  | inl new ↦
      let moved : RaftNode = record n { commit_index = min leader_commit (length n.log) } in
      rw new (
        Later-trans (quiet n moved refl refl refl)
          (Frame-Later moved _ (apply_logs-Frame now moved)))
]

pub handle_append_entries-Later :
    (now unix_now : ℕ) (args : AppendEntriesArgs) (n : RaftNode)
    → Later n (handle_append_entries now unix_now args n).0
unfolding handle_append_entries
handle_append_entries-Later now unix_now args n = elim (Bool-cases (ltb args.term n.current_term)) [
  | inl stale ↦ rw stale (Later-refl n)
  | inr fresh ↦ elim (Bool-cases (args.term == n.current_term && is_leader n.state)) [
    | inl own ↦ rw (fresh, own) (Later-refl n)
    | inr other ↦
        let f = follow now args.term n in
        let following = follow-Later now args.term n (ground arith) in
        elim (Bool-cases (is_consistent args.prev_log_index args.prev_log_term f.log)) [
          | inr bad ↦ rw (fresh, other, bad) following
          | inl good ↦
              rw (fresh, other, good)
                (Later-trans following (
                  Later-trans (append_all-Later args.entries f)
                    (advance_commit-Later unix_now args.leader_commit (append_all args.entries f))))
        ]
  ]
]

pub maybe_commit-Later : (unix_now : ℕ) (n : RaftNode) → Later n (maybe_commit unix_now n)
unfolding maybe_commit
maybe_commit-Later unix_now n =
    let highest =
      config_quorum_reached_index n.current_config n.match_index n.node_id (length n.log) in
    let moved : RaftNode = record n { commit_index = highest } in
    let done =
      Later-trans (quiet n moved refl refl refl)
        (Frame-Later moved _ (apply_logs-Frame unix_now moved)) in
    record {
      term = ground (arith, done.term);
      vote = λ v e h. ground (arith, done.vote v);
      durable = λ d. ground (arith, done.durable d);
    }

-- The step back of `next_index` after a refusal.
back_off-Later :
    (peer : Str) (n : RaftNode)
    → Later n (
        if ltb 1 (next_index_for peer n)
        then record n { next_index = Map.insert peer (next_index_for peer n - 1) n.next_index }
        else n)
back_off-Later peer n = elim (Bool-cases (ltb 1 (next_index_for peer n))) [
  | inl more ↦ rw more (quiet n _ refl refl refl)
  | inr first ↦ rw first (Later-refl n)
]

pub on_append_reply-Later :
    (now unix_now : ℕ) (peer : Str) (args : AppendEntriesArgs) (reply : AppendReplyArgs)
    (n : RaftNode)
    → Later n (on_append_reply now unix_now peer args reply n)
unfolding on_append_reply
on_append_reply-Later now unix_now peer args reply n = elim (Bool-cases reply.success) [
  | inl good ↦
      let noted : RaftNode = record n {
        match_index = Map.insert peer (args.prev_log_index + length args.entries) n.match_index;
        next_index = Map.insert peer (args.prev_log_index + length args.entries + 1) n.next_index;
        last_quorum_heartbeat_at = some now;
      } in
      rw good (Later-trans (quiet n noted refl refl refl) (maybe_commit-Later unix_now noted))
  | inr bad ↦ elim (Bool-cases (ltb n.current_term reply.term)) [
    | inl newer ↦ rw (bad, newer) (adopt-Later reply.term n follower (ground arith))
    | inr same ↦ rw (bad, same) (back_off-Later peer n)
  ]
]

fast_forward-Later : (last : ℕ) (n : RaftNode) → Later n (fast_forward last n)
unfolding fast_forward read_meta
fast_forward-Later last n = record {
  term = ground arith;
  vote = λ v e h. ground arith;
  durable = λ d. ground arith;
}

answer_pending-Later : (req : VoteRequest) (n : RaftNode) → Later n (answer_pending req n).0
unfolding answer_pending read_meta
answer_pending-Later req n = record {
  term = ground arith;
  vote = λ v e h. ground arith;
  durable = λ d. ground arith;
}

pub handle_tx_vote_request-Later :
    (unix_now : ℕ) (req : VoteRequest) (n : RaftNode)
    → Later n (handle_tx_vote_request unix_now req n).0
unfolding handle_tx_vote_request
handle_tx_vote_request-Later unix_now req n =
    let ready = fast_forward req.last_log_index n in
    let applied = apply_logs unix_now ready in
    let answered = Later-trans (fast_forward-Later req.last_log_index n) (
      Later-trans (Frame-Later ready applied (apply_logs-Frame unix_now ready))
        (answer_pending-Later req applied)) in
    elim (Bool-cases (ltb req.term n.current_term)) [
      | inl stale ↦ rw stale (Later-refl n)
      | inr fresh ↦ elim (Bool-cases (ltb n.current_term req.term)) [
        | inl newer ↦ rw (fresh, newer) (adopt-Later req.term n follower (ground arith))
        | inr same ↦
            elim (Bool-cases (not (is_log_up_to_date req.last_log_index req.last_log_term n))) [
              | inl behind ↦ rw (fresh, same, behind) (Later-refl n)
              | inr ahead ↦ rw (fresh, same, ahead) answered
            ]
      ]
    ]

load_into-Later : (last : ℕ) (snap : Snapshot) (n : RaftNode) → Later n (load_into last snap n)
unfolding load_into save_snapshot rewrite_wal_after_snapshot
load_into-Later last snap n = quiet n _ refl refl refl

pub handle_install_snapshot-Later :
    (now : ℕ) (args : InstallSnapshotArgs) (n : RaftNode)
    → Later n (handle_install_snapshot now args n).0
unfolding handle_install_snapshot
handle_install_snapshot-Later now args n = elim (Bool-cases (ltb args.term n.current_term)) [
  | inl stale ↦ rw stale (Later-refl n)
  | inr fresh ↦ elim (Bool-cases (args.term == n.current_term && is_leader n.state)) [
    | inl own ↦ rw (fresh, own) (Later-refl n)
    | inr other ↦
        rw (fresh, other)
          (Later-trans (follow-Later now args.term n (ground arith))
            (load_into-Later args.last_included_index args.snapshot (follow now args.term n)))
  ]
]
