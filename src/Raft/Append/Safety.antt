-- ===== src/Raft/Append/Safety.antt =====
-- The AppendEntries handler of raft/node.rs on every branch.
use oxide_kv.Common.{
  ℕ, ◌+◌, ◌≤◌, ◌<◌, ◌≡◌, refl, ◌∙◌, sym, ap, true, false, ◌&&◌, arith, length, get_elem?, ltb, ◌==◌,
  Bool-cases, inl, inr,
}
use mathlib.Core.Path.{subst}
use oxide_kv.Raft.{RaftNode, AppendEntriesArgs, AppendReplyArgs, is_leader}
use oxide_kv.Raft.Apply.Frame.{Indexed}
use oxide_kv.Raft.Append.{append_all, follow, is_consistent, handle_append_entries}
use oxide_kv.Raft.Append.Logs.{log_term}
use oxide_kv.Raft.Append.Sound.{Agrees, append_all-Carried}
use oxide_kv.Raft.Append.Accepts.{
  Accepted, Followed, IsRequest, accept, accept-Accepted, advance_commit-Advanced, follow-Followed,
  is_consistent_lem,
}

-- The four ways a request can go.
data Handled (now unix_now : ℕ) (args : AppendEntriesArgs) (n : RaftNode)
    : RaftNode × AppendReplyArgs → Type 0 where
  refused : Handled now unix_now args n (n, record { term = n.current_term; success = false })
  inconsistent :
      (n.current_term ≤ args.term)
      → Handled now unix_now args n (
        follow now args.term n,
        record { term = (follow now args.term n).current_term; success = false },
      )
  accepted :
      (n.current_term ≤ args.term)
      → is_consistent args.prev_log_index args.prev_log_term (follow now args.term n).log ≡ true
      → Handled now unix_now args n (
        accept unix_now args (follow now args.term n),
        record { term = (follow now args.term n).current_term; success = true },
      )

handle_append_entries-Handled :
    (now unix_now : ℕ) (args : AppendEntriesArgs) (n : RaftNode)
    → Handled now unix_now args n (handle_append_entries now unix_now args n)
unfolding handle_append_entries
handle_append_entries-Handled now unix_now args n =
    elim (Bool-cases (ltb args.term n.current_term)) [
      | inl old ↦ rw (handle_append_entries, old) refused
      | inr new ↦ elim (Bool-cases (args.term == n.current_term && is_leader n.state)) [
        | inl leads ↦ rw (handle_append_entries, new, leads) refused
        | inr follows ↦
            elim (Bool-cases
              (is_consistent args.prev_log_index args.prev_log_term (follow now args.term n).log)) [
                | inl c ↦ rw (handle_append_entries, new, follows, c) (accepted (ground arith) c)
                | inr c ↦ rw (handle_append_entries, new, follows, c) (inconsistent (ground arith))
              ]
      ]
    ]

Handled-Accepted :
    (now unix_now : ℕ) (args : AppendEntriesArgs) (n : RaftNode) (r : RaftNode × AppendReplyArgs)
    → Handled now unix_now args n r
    → IsRequest args
    → Indexed 0 n.log
    → r.1.success ≡ true
    → Accepted args n r.0
Handled-Accepted now unix_now args n _ refused request indexed success = cc
Handled-Accepted now unix_now args n _ (inconsistent newer) request indexed success = cc
Handled-Accepted now unix_now args n _ (accepted newer c) request indexed success =
    accept-Accepted unix_now args n _ request indexed (follow-Followed now args.term n) newer c

-- A success reply of `handle_append_entries` means, for a request whose entries carry their
-- positions as indices and a log that does too: the node follows the leader's term, its log has the
-- leader's term at the position before the entries and each entry's term at its own position, it is
-- unchanged before them, its indices are still its positions, and the commit index is unchanged,
-- or, where the leader's is larger, at most the leader's and at least as far as the entries allow.
pub handle_append_entries-Accepted :
    (now unix_now : ℕ) (args : AppendEntriesArgs) (n : RaftNode)
    → IsRequest args
    → Indexed 0 n.log
    → (handle_append_entries now unix_now args n).1.success ≡ true
    → Accepted args n (handle_append_entries now unix_now args n).0
handle_append_entries-Accepted now unix_now args n =
    Handled-Accepted now unix_now args n _ (handle_append_entries-Handled now unix_now args n)

-- The log's indices are its positions, and applied ≤ committed ≤ length.
pub record IsValid (n : RaftNode) : Type 0 where
  pub indexed : Indexed 0 n.log
  pub applied : n.last_applied ≤ n.commit_index
  pub committed : n.commit_index ≤ length n.log

-- Valid still, with no committed entry changed or uncommitted.
pub record Preserved (n after : RaftNode) : Type 0 where
  pub valid : IsValid after
  pub grows : n.commit_index ≤ after.commit_index
  pub keeps : (j : ℕ) → j < n.commit_index → get_elem? after.log j ≡ get_elem? n.log j

follow-Preserved :
    (args : AppendEntriesArgs) (n f : RaftNode) → Followed args.term n f → IsValid n → Preserved n f
follow-Preserved args n f follow v = record {
  valid = record {
    indexed = subst (Indexed 0) (sym follow.log) v.indexed;
    applied = omega (arith, follow.applied, follow.commit, v.applied);
    committed = omega (arith, ap length follow.log, follow.commit, v.committed);
  };
  grows = omega (arith, follow.commit);
  keeps = λ j lt. ap (λ log. get_elem? log j) follow.log;
}

accept-Preserved :
    (unix_now : ℕ) (args : AppendEntriesArgs) (f : RaftNode)
    → IsRequest args
    → IsValid f
    → Agrees f.commit_index args.prev_log_index args.entries f.log
    → is_consistent args.prev_log_index args.prev_log_term f.log ≡ true
    → Preserved f (accept unix_now args f)
accept-Preserved unix_now args f request v agrees consistent =
    let reach = (is_consistent_lem _ _ f.log consistent).0 in
    let m = append_all args.entries f in
    let carried =
      append_all-Carried args.prev_log_index args.entries f reach request.0 request.1 v.indexed in
    let advanced = advance_commit-Advanced unix_now args.leader_commit m in
    let (long, kept) = carried.keeps f.commit_index v.committed agrees in
    let bounded =
      advanced.bounded (omega (arith, carried.commit, carried.applied, v.applied))
        (omega (arith, carried.commit)) in
    record {
      valid = record {
        indexed = advanced.indexed carried.indexed;
        applied = bounded.0;
        committed = bounded.1;
      };
      grows = elim (Bool-cases (ltb m.commit_index args.leader_commit)) [
        | inl ahead ↦
            let lt : m.commit_index < args.leader_commit = ground arith in
            omega (arith, carried.commit, advanced.raised lt)
        | inr behind ↦
            let le : args.leader_commit ≤ m.commit_index = ground arith in
            omega (arith, carried.commit, advanced.kept le)
      ];
      keeps = λ j lt. advanced.keeps j (omega arith) ∙ kept j lt;
    }

Handled-Preserved :
    (now unix_now : ℕ) (args : AppendEntriesArgs) (n : RaftNode) (r : RaftNode × AppendReplyArgs)
    → Handled now unix_now args n r
    → IsRequest args
    → IsValid n
    → Agrees n.commit_index args.prev_log_index args.entries n.log
    → Preserved n r.0
Handled-Preserved now unix_now args n _ refused request v agrees = record {
  valid = v;
  grows = omega arith;
  keeps = λ j lt. refl;
}
Handled-Preserved now unix_now args n _ (inconsistent newer) request v agrees =
    follow-Preserved args n _ (follow-Followed now args.term n) v
Handled-Preserved now unix_now args n _ (accepted newer c) request v agrees =
    let f = follow-Followed now args.term n in
    let followed = follow-Preserved args n _ f v in
    let a =
      accept-Preserved unix_now args (follow now args.term n) request followed.valid
        (λ i e h lt.
          ap (log_term (args.prev_log_index + i)) f.log ∙ agrees i e h (omega (arith, f.commit)))
        c in
    record {
      valid = a.valid;
      grows = omega (arith, a.grows, followed.grows);
      keeps = λ j lt. a.keeps j (omega (arith, f.commit)) ∙ followed.keeps j lt;
    }

-- Whatever reply `handle_append_entries` gives, a valid node stays valid (the log's indices are its
-- positions, and the applied entries are among the committed, the committed in the log), its commit
-- index does not fall, and every committed entry stays as it was; provided the request's entries
-- carry their positions as indices and have the terms of the committed entries they overlap.
pub handle_append_entries-Preserved :
    (now unix_now : ℕ) (args : AppendEntriesArgs) (n : RaftNode)
    → IsRequest args
    → IsValid n
    → Agrees n.commit_index args.prev_log_index args.entries n.log
    → Preserved n (handle_append_entries now unix_now args n).0
handle_append_entries-Preserved now unix_now args n =
    Handled-Preserved now unix_now args n _ (handle_append_entries-Handled now unix_now args n)
