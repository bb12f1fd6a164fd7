-- ===== src/Raft/Append/Tail.antt =====
-- The commit index after an AppendEntries request of raft/node.rs and the entries that it did not
-- check.
use oxide_kv.Common.{ℕ, ◌≤◌, ◌<◌, ◌≡◌, ◌∙◌, ap, true, false, [], ◌&&◌, arith, length, ltb, ◌==◌}
use oxide_kv.Raft.{RaftNode, AppendEntriesArgs, is_leader}
use oxide_kv.Raft.Append.{append_all, follow, is_consistent, handle_append_entries}
use oxide_kv.Raft.Append.Accepts.{advance_commit-Advanced, follow-Followed}

-- A heartbeat commits the whole log: where a request without entries passes the checks and the
-- leader's commit index is past the end of the log, every entry becomes committed, also those after
-- the place that the request checked, whatever leader wrote them.
pub handle_append_entries-commits :
    (now unix_now : ℕ) (args : AppendEntriesArgs) (n : RaftNode)
    → args.entries ≡ []
    → n.current_term ≤ args.term
    → (args.term == n.current_term && is_leader n.state) ≡ false
    → is_consistent args.prev_log_index args.prev_log_term n.log ≡ true
    → n.commit_index < args.leader_commit
    → length n.log ≤ args.leader_commit
    → (handle_append_entries now unix_now args n).0.commit_index ≡ length n.log
unfolding handle_append_entries append_all
handle_append_entries-commits now unix_now args n empty newer follows checked ahead past =
    let f = follow now args.term n in
    let kept = follow-Followed now args.term n in
    let consistent : is_consistent args.prev_log_index args.prev_log_term f.log ≡ true =
      ap (is_consistent args.prev_log_index args.prev_log_term) kept.log ∙ checked in
    let old : ltb args.term n.current_term ≡ false = ground arith in
    let advanced = advance_commit-Advanced unix_now args.leader_commit f in
    rw (handle_append_entries, old, follows, consistent, empty, append_all)
      (omega (arith, advanced.raised (omega (arith, kept.commit)), ap length kept.log))
