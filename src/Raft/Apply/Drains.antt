-- ===== src/Raft/Apply/Drains.antt =====
-- `apply_logs` of raft/node.rs and the draining of the same log by raft/reference_model.rs.
use oxide_kv.Common.{
  ℕ, zero, suc, ◌+◌, ◌-◌, ◌≤◌, ◌<◌, ◌≡◌, refl, ◌∙◌, true, List, arith, length, ap, get_elem?,
  get_elem?-some, get_elem?-append, get_elem?-lt, none, some, Option,
}
use oxide_kv.Protocol.{
  Configuration, Command, LogEntry, install_configuration, decide_tx, TxDecision, commit, abort,
}
use oxide_kv.Text.{Str}
use oxide_kv.Raft.{RaftNode}
use oxide_kv.Raft.Apply.{
  apply_command, apply_loop, apply_logs, state_effect, install_config, propose_pending, append_own,
}
use oxide_kv.Raft.Apply.Frame.{applied_one, applied_one-Frame, apply_command-applied}
use oxide_kv.Raft.Apply.Progress.{apply_loop_step, apply_loop_done, apply_logs-Applied}
use oxide_kv.Reference.{ReferenceModel, model_effect, decide, apply, drain_loop, drain_to}
use oxide_kv.Reference.Refines.{Simulates, state_effect-Simulates}

propose_pending-state :
    (config : Configuration) (pending : Option Configuration) (n : RaftNode)
    → (propose_pending config pending n).state_machine ≡ n.state_machine
unfolding propose_pending append_own
propose_pending-state config none n = refl
propose_pending-state config (some simple_new) n = ground arith

apply_command-state :
    (now : ℕ) (c : Command) (n : RaftNode)
    → (apply_command now c n).state_machine ≡ state_effect now c n.state_machine
unfolding apply_command state_effect install_config
apply_command-state now (install_configuration config) n =
    ground (arith, propose_pending-state config n.pending_post_joint_simple _)
apply_command-state now _ n = refl

next_index-decide :
    (id : Str) (d : TxDecision) (rm : ReferenceModel) → (decide id d rm).next_index ≡ rm.next_index
unfolding decide
next_index-decide id commit rm = ground arith
next_index-decide id abort rm = ground arith

next_index-model_effect :
    (c : Command) (rm : ReferenceModel) → (model_effect c rm).next_index ≡ rm.next_index
unfolding model_effect
next_index-model_effect (decide_tx id d) rm = next_index-decide id d rm
next_index-model_effect _ rm = refl

-- The model after the entry that it waits for.
abbrev advanced : Command → ReferenceModel → ReferenceModel
advanced c rm = model_effect c (record rm { next_index = rm.next_index + 1 })

apply_next : (c : Command) (rm : ReferenceModel) → apply rm.next_index c rm ≡ (advanced c rm, true)
unfolding apply
apply_next c rm = ground arith

advanced-Simulates :
    (now : ℕ) (c : Command) (n : RaftNode) (rm : ReferenceModel)
    → Simulates n.state_machine rm
    → Simulates (apply_command now c n).state_machine (advanced c rm)
advanced-Simulates now c n rm s = rw apply_command-state (
    state_effect-Simulates n.state_machine (record rm { next_index = rm.next_index + 1 })
      (record { valid = s.valid; values = s.values; staged = s.staged }) c now)

drain_step :
    (fuel : ℕ) (log : List LogEntry) (commit_index count : ℕ) (rm : ReferenceModel) (i : ℕ)
    (e : LogEntry)
    → rm.next_index ≡ i + 1
    → i < commit_index
    → get_elem? log i ≡ some e
    → drain_loop (suc fuel) log commit_index rm count
      ≡ drain_loop fuel log commit_index (advanced e.command rm) (count + 1)
unfolding drain_loop
drain_step fuel log commit_index count rm i e k h g =
    let at : rm.next_index - 1 ≡ i = omega arith in
    ground (arith, apply_next e.command rm, ap (get_elem? log) at)

drain_done :
    (fuel : ℕ) (log : List LogEntry) (commit_index count : ℕ) (rm : ReferenceModel)
    → commit_index < rm.next_index
    → drain_loop fuel log commit_index rm count ≡ (rm, count)
unfolding drain_loop
drain_done zero log commit_index count rm h = refl
drain_done (suc fuel) log commit_index count rm h = ground arith

-- The node and the model side by side.
pub record InStep (n : RaftNode) (rm : ReferenceModel) : Type 0 where
  pub simulates : Simulates n.state_machine rm
  pub index : rm.next_index ≡ n.last_applied + 1

-- Entries at the end of the log change nothing below them.
agree_after :
    (now : ℕ) (e : LogEntry) (n : RaftNode) (log : List LogEntry) (i : ℕ)
    → i < length log
    → get_elem? n.log i ≡ get_elem? log i
    → get_elem? (applied_one now e n).log i ≡ get_elem? log i
agree_after now e n log i h agree =
    let frame = applied_one-Frame now e n in
    let (x, found) = get_elem?-some log i h in
    ap (λ l. get_elem? l i) frame.log
    ∙ get_elem?-append n.log frame.added i (get_elem?-lt n.log i x (agree ∙ found))
    ∙ agree

loops-InStep :
    (fuel now : ℕ) (log : List LogEntry) (commit_index count : ℕ) (n : RaftNode)
    (rm : ReferenceModel)
    → InStep n rm
    → n.commit_index ≡ commit_index
    → commit_index ≤ length log
    → n.last_applied + fuel ≡ commit_index
    → ((i : ℕ) → i < commit_index → get_elem? n.log i ≡ get_elem? log i)
    → InStep (apply_loop fuel now n) (drain_loop fuel log commit_index rm count).0
      × ((drain_loop fuel log commit_index rm count).1 ≡ count + fuel)
loops-InStep zero now log commit_index count n rm s c l f agree =
    rw
      (
        apply_loop_done zero now n (omega arith),
        drain_done zero log commit_index count rm (omega (arith, s.index)),
      )
      (s, omega arith)
loops-InStep (suc fuel) now log commit_index count n rm s c l f agree =
    let (e, found) = get_elem?-some log n.last_applied (omega arith) in
    let frame = applied_one-Frame now e n in
    rw
      (
        apply_loop_step fuel now n e (omega arith) (agree n.last_applied (omega arith) ∙ found),
        drain_step fuel log commit_index count rm n.last_applied e s.index (omega arith) found,
      )
      (let (rest, counted) =
          loops-InStep fuel now log commit_index (count + 1) (applied_one now e n)
            (advanced e.command rm)
            (record {
              simulates = advanced-Simulates now e.command n rm s.simulates;
              index = omega (
                arith,
                next_index-model_effect e.command (record rm { next_index = rm.next_index + 1 }),
                apply_command-applied now e.command n,
                s.index,
              );
            })
            (frame.commit ∙ c) l (omega (arith, apply_command-applied now e.command n))
            (λ i h. agree_after now e n log i (omega arith) (agree i h)) in
        (rest, omega arith))

-- Applying the committed entries of a node keeps it in step with the sequential model that drains
-- the node's log up to the commit index: afterwards both hold the same values and the same staged
-- transactions, the model has applied exactly the entries up to the commit index, and it counts as
-- many entries as the node had left to apply; where the applied entries are among the committed and
-- those in the log.
pub apply_logs-drain_to :
    (now : ℕ) (n : RaftNode) (rm : ReferenceModel)
    → InStep n rm
    → n.last_applied ≤ n.commit_index
    → n.commit_index ≤ length n.log
    → InStep (apply_logs now n) (drain_to n.log n.commit_index rm).0
      × ((drain_to n.log n.commit_index rm).1 ≡ n.commit_index - n.last_applied)
      × ((apply_logs now n).last_applied ≡ n.commit_index)
unfolding apply_logs drain_to
apply_logs-drain_to now n rm s a c =
    let rounds : n.commit_index + 1 - rm.next_index ≡ n.commit_index - n.last_applied =
      omega (arith, s.index) in
    let (step, counted) =
      loops-InStep (n.commit_index - n.last_applied) now n.log n.commit_index 0 n rm s refl c
        (omega arith) (λ i h. refl) in
    let done = apply_logs-Applied now n a c in
    rw rounds (step, counted ∙ omega arith, unfold apply_logs in done.all ∙ done.frame.commit)
