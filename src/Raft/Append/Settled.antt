-- ===== src/Raft/Append/Settled.antt =====
-- A node that holds the entries of a request and has settled its commit index, raft/node.rs.
use oxide_kv.Common.{
  ℕ, zero, suc, ◌+◌, ◌^◌, ◌≤◌, ◌<◌, ◌≡◌, refl, ◌∙◌, sym, ap, false, some, List, [], ◌∷◌, arith,
  length, get_elem?, min, ltb, Bool-cases, Option-cases, inl, inr,
}
use oxide_kv.Protocol.{LogEntry, Command, install_configuration}
use oxide_kv.Raft.{RaftNode, AppendEntriesArgs, is_leader}
use oxide_kv.Raft.Apply.{apply_command, apply_loop, apply_logs, install_config}
use oxide_kv.Raft.Apply.Frame.{Indexed}
use oxide_kv.Raft.Apply.Progress.{apply_loop_done, apply_logs-Applied, apply_logs-Frame}
use oxide_kv.Raft.Append.{pred_usize, append_at, append_entry, append_all, advance_commit}
use oxide_kv.Raft.Append.Logs.{log_term}
use oxide_kv.Raft.Append.Accepts.{IsRequest, accept}

-- Entries that the log has already.
abbrev pub Holds : ℕ → List LogEntry → List LogEntry → Type 0
Holds k es log =
    (i : ℕ) (e : LogEntry) → get_elem? es i ≡ some e → log_term (k + i) log ≡ some e.term

append_at_held :
    (k : ℕ) (e : LogEntry) (n : RaftNode) → log_term k n.log ≡ some e.term → append_at k e n ≡ n
unfolding append_at
append_at_held k e n h = elim (Option-cases (get_elem? n.log k)) [
  | inl missing ↦ absurd (ground arith)
  | inr (mine, found) ↦ ground arith
]

pub append_all_held :
    (k : ℕ) (es : List LogEntry) (n : RaftNode)
    → Indexed k es
    → k + length es < 2 ^ 64
    → Holds k es n.log
    → append_all es n ≡ n
unfolding append_all append_entry
append_all_held k [] n x b h = refl
append_all_held k (e ∷ es) n x b h =
    let at : pred_usize e.index ≡ k = omega (arith, x.0) in
    let first : log_term k n.log ≡ some e.term =
      ap (λ j. log_term j n.log) (omega arith) ∙ h 0 e refl in
    let here : append_at (pred_usize e.index) e n ≡ n = rw at (append_at_held k e n first) in
    let rest : Holds (k + 1) es n.log =
      λ i y q. ap (λ j. log_term j n.log) (omega arith) ∙ h (suc i) y q in
    ap (append_all es) here ∙ append_all_held (k + 1) es n x.1 (omega arith) rest

-- A node that does not lead proposes nothing when it applies.
apply_command-log :
    (now : ℕ) (c : Command) (n : RaftNode)
    → is_leader n.state ≡ false
    → (apply_command now c n).log ≡ n.log
unfolding apply_command install_config
apply_command-log now (install_configuration config) n h = ground arith
apply_command-log now _ n h = refl

apply_command-state :
    (now : ℕ) (c : Command) (n : RaftNode)
    → is_leader n.state ≡ false
    → (apply_command now c n).state ≡ n.state
unfolding apply_command install_config
apply_command-state now (install_configuration config) n h = ground arith
apply_command-state now _ n h = refl

apply_loop-log :
    (fuel now : ℕ) (n : RaftNode) → is_leader n.state ≡ false → (apply_loop fuel now n).log ≡ n.log
unfolding apply_loop
apply_loop-log zero now n h = refl
apply_loop-log (suc fuel) now n h = elim (Option-cases (get_elem? n.log n.last_applied)) [
  | inl missing ↦ ground arith
  | inr (e, found) ↦
      let one = apply_command now e.command n in
      let kept = apply_command-log now e.command n h in
      let state = apply_command-state now e.command n h in
      let rest =
        apply_loop-log fuel now (record one { last_applied = one.last_applied + 1 })
          (ap is_leader state ∙ h) in
      ground arith
]

apply_logs-log :
    (now : ℕ) (n : RaftNode) → is_leader n.state ≡ false → (apply_logs now n).log ≡ n.log
unfolding apply_logs
apply_logs-log now n h = apply_loop-log _ now n h

apply_logs_done : (now : ℕ) (n : RaftNode) → n.commit_index ≤ n.last_applied → apply_logs now n ≡ n
unfolding apply_logs
apply_logs_done now n h = apply_loop_done _ now n h

-- What is committed and in the log is applied.
apply_logs-all :
    (now : ℕ) (n : RaftNode)
    → n.commit_index ≤ length n.log
    → (apply_logs now n).commit_index ≤ (apply_logs now n).last_applied
apply_logs-all now n c = elim (Bool-cases (ltb n.commit_index n.last_applied)) [
  | inl over ↦
      let lt : n.commit_index < n.last_applied = ground arith in
      rw (apply_logs_done now n (omega arith)) (omega arith)
  | inr within ↦
      let le : n.last_applied ≤ n.commit_index = ground arith in
      omega (arith, (apply_logs-Applied now n le c).all)
]

-- A node that has raised its commit index to a leader's, and applied up to there.
abbrev pub Settled : ℕ → RaftNode → Type 0
Settled leader_commit a =
    a.commit_index < leader_commit
    → (a.commit_index ≡ min leader_commit (length a.log)) × (a.commit_index ≤ a.last_applied)

pub advance_commit-Settled :
    (now leader_commit : ℕ) (m : RaftNode)
    → is_leader m.state ≡ false
    → Settled leader_commit (advance_commit now leader_commit m)
unfolding advance_commit
advance_commit-Settled now leader_commit m h =
    elim (Bool-cases (ltb m.commit_index leader_commit)) [
      | inr behind ↦ rw (behind, advance_commit) (λ lt. absurd (ground arith))
      | inl ahead ↦
          let raised = record m { commit_index = min leader_commit (length m.log) } in
          let f = apply_logs-Frame now raised in
          let log = apply_logs-log now raised h in
          rw (ahead, advance_commit)
            (λ lt. (
              f.commit ∙ ap (λ l. min leader_commit (length l)) (sym log),
              apply_logs-all now raised (omega arith),
            ))
    ]

advance_commit-Settled_at :
    (now leader_commit : ℕ) (a : RaftNode)
    → Settled leader_commit a
    → advance_commit now leader_commit a ≡ a
unfolding advance_commit
advance_commit-Settled_at now leader_commit a s =
    elim (Bool-cases (ltb a.commit_index leader_commit)) [
      | inr behind ↦ rw (behind, advance_commit) refl
      | inl ahead ↦
          let (commit, applied) = s (ground arith) in
          let same : record a { commit_index = min leader_commit (length a.log) } ≡ a =
            ap (λ c. record a { commit_index = c }) (sym commit) in
          rw (ahead, advance_commit) (ap (apply_logs now) same ∙ apply_logs_done now a applied)
    ]

-- The second delivery at a node that has taken the first.
pub accept_again :
    (later : ℕ) (args : AppendEntriesArgs) (a : RaftNode)
    → IsRequest args
    → Holds args.prev_log_index args.entries a.log
    → Settled args.leader_commit a
    → accept later args a ≡ a
accept_again later args a request holds settled =
    ap (advance_commit later args.leader_commit)
      (append_all_held args.prev_log_index args.entries a request.0 request.1 holds)
    ∙ advance_commit-Settled_at later args.leader_commit a settled
