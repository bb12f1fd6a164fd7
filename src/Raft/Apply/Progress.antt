-- ===== src/Raft/Apply/Progress.antt =====
-- The rounds of `apply_logs` of raft/node.rs.
use oxide_kv.Common.{
  ℕ, zero, suc, ◌-◌, ◌≤◌, ◌<◌, ◌≡◌, refl, arith, length, length-append, ap, get_elem?,
  get_elem?-some, ltb, Bool-cases, Option-cases, inl, inr, some,
}
use oxide_kv.Protocol.{LogEntry}
use oxide_kv.Raft.{RaftNode}
use oxide_kv.Raft.Apply.{apply_loop, apply_logs}
use oxide_kv.Raft.Apply.Frame.{
  Frame, Frame-refl, Frame-trans, applied_one, applied_one-Frame, apply_command-applied,
}

pub length-Frame : {n m : RaftNode} → Frame n m → length n.log ≤ length m.log
length-Frame {n} {m} f = omega (arith, ap length f.log, length-append n.log f.added)

-- One round, with an entry there.
pub apply_loop_step :
    (fuel now : ℕ) (n : RaftNode) (e : LogEntry)
    → n.last_applied < n.commit_index
    → get_elem? n.log n.last_applied ≡ some e
    → apply_loop (suc fuel) now n ≡ apply_loop fuel now (applied_one now e n)
unfolding apply_loop
apply_loop_step fuel now n e h k = ground arith

pub apply_loop_done :
    (fuel now : ℕ) (n : RaftNode) → n.commit_index ≤ n.last_applied → apply_loop fuel now n ≡ n
unfolding apply_loop
apply_loop_done zero now n h = refl
apply_loop_done (suc fuel) now n h = ground arith

apply_loop-Frame : (fuel now : ℕ) (n : RaftNode) → Frame n (apply_loop fuel now n)
unfolding apply_loop
apply_loop-Frame zero now n = Frame-refl n
apply_loop-Frame (suc fuel) now n = elim (Bool-cases (ltb n.last_applied n.commit_index)) [
  | inr done ↦ rw done (Frame-refl n)
  | inl more ↦ elim (Option-cases (get_elem? n.log n.last_applied)) [
    | inl missing ↦ rw (more, missing) (Frame-refl n)
    | inr (e, found) ↦
        rw (more, found)
          (Frame-trans (applied_one-Frame now e n)
            (apply_loop-Frame fuel now (applied_one now e n)))
  ]
]

-- Whatever the indices are, applying leaves the framed fields alone.
pub apply_logs-Frame : (now : ℕ) (n : RaftNode) → Frame n (apply_logs now n)
unfolding apply_logs
apply_logs-Frame now n = apply_loop-Frame (n.commit_index - n.last_applied) now n

-- What a run of the loop gives: the frame, and every committed entry applied.
pub record Applied (n after : RaftNode) : Type 0 where
  pub frame : Frame n after
  pub all : after.last_applied ≡ after.commit_index

apply_loop-Applied :
    (fuel now : ℕ) (n : RaftNode)
    → n.commit_index - n.last_applied ≤ fuel
    → n.last_applied ≤ n.commit_index
    → n.commit_index ≤ length n.log
    → Applied n (apply_loop fuel now n)
unfolding apply_loop
apply_loop-Applied zero now n f a c = record { frame = Frame-refl n; all = omega arith }
apply_loop-Applied (suc fuel) now n f a c = elim (Bool-cases (ltb n.last_applied n.commit_index)) [
  | inr done ↦ rw done (record { frame = Frame-refl n; all = ground arith })
  | inl more ↦
      let (e, found) = get_elem?-some n.log n.last_applied (ground arith) in
      let step = applied_one-Frame now e n in
      let rest =
        apply_loop-Applied fuel now (applied_one now e n)
          (ground (arith, step.commit, apply_command-applied now e.command n))
          (ground (arith, step.commit, apply_command-applied now e.command n))
          (omega (arith, step.commit, length-Frame step)) in
      rw (apply_loop_step fuel now n e (ground arith) found)
        (record { frame = Frame-trans step rest.frame; all = rest.all })
]

pub apply_logs-Applied :
    (now : ℕ) (n : RaftNode)
    → n.last_applied ≤ n.commit_index
    → n.commit_index ≤ length n.log
    → Applied n (apply_logs now n)
unfolding apply_logs
apply_logs-Applied now n a c =
    apply_loop-Applied (n.commit_index - n.last_applied) now n (omega arith) a c
