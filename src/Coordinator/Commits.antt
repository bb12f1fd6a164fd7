-- ===== src/Coordinator/Commits.antt =====
-- What the proposals and waits of raft/coordinator.rs have done and seen when they return.
use oxide_kv.Common.{
  ℕ, ◌+◌, ◌≤◌, ◌≡◌, ◌∙◌, ◌++◌, refl, ap, sym, true, Option, some, List, [], ◌∷◌, arith, ◌-◌, length,
  length-append, Bool-cases, inl, inr,
}
use mathlib.Core.List.{append_assoc}
use oxide_kv.Protocol.{Command, LogEntry}
use oxide_kv.Raft.{RaftNode, is_leader}
use oxide_kv.Raft.Apply.{append_own}
use oxide_kv.Raft.Replicate.{sync_logs}
use oxide_kv.Raft.Propose.{Result, ok, err, propose, propose_batch, append_batch}
use oxide_kv.Visits.{Visit, Task, visit, write}
use oxide_kv.Visits.Steps.{
  continue-some, poll-Returned, poll-written, visit-visits, visit-written, write-visits,
  write-written,
}
use oxide_kv.Coordinator.Rounds.{
  WaitError, look_applied, propose_at, sync_and_wait, then_wait, propose_and_wait_for_apply,
  propose_batch_at, propose_batch_and_wait_for_apply,
}

-- The entries of a term that hold commands, after so many others.
abbrev pub entries_of : ℕ → ℕ → List Command → List LogEntry
entries_of term before [] = []
entries_of term before (c ∷ cs) =
    record { term = term; index = before + 1; command = c } ∷ entries_of term (before + 1) cs

-- A leader's node is written back with commands at the end of its log, the first at an index.
pub record Entered (commands : List Command) (n : RaftNode) (index : ℕ) (t t' : Task) : Type 0 where
  pub leads : is_leader n.state ≡ true
  pub place : index ≡ length n.log + 1
  pub entered : RaftNode
  pub log : entered.log ≡ n.log ++ entries_of n.current_term (length n.log) commands
  pub visits : t'.visits ≡ t.visits
  pub written : t'.written ≡ t.written ++ entered ∷ []

-- At the first visit of a task a leader is given commands at the end of its log, the first at an
-- index; at the second the requests to the peers go out; and at a later one, the last, the node leads
-- and has committed and applied its log up to the index. The task has written the node of the first
-- two visits only.
pub record Proposed (unix_now : ℕ) (commands : List Command) (index : ℕ) (t t' : Task)
    : Type 0 where
  pub first : Visit
  pub synced : Visit
  pub between : List Visit
  pub at : Visit
  pub visits : t.visits ≡ first ∷ synced ∷ between ++ at ∷ t'.visits
  pub began : is_leader first.node.state ≡ true
  pub place : index ≡ length first.node.log + 1
  pub entered : RaftNode
  pub log :
      entered.log
      ≡ first.node.log ++ entries_of first.node.current_term (length first.node.log) commands
  pub written : t'.written ≡ (t.written ++ entered ∷ []) ++ (sync_logs unix_now synced.node).0 ∷ []
  pub leads : is_leader at.node.state ≡ true
  pub committed_to : index ≤ at.node.commit_index
  pub applied_to : index ≤ at.node.last_applied

look_applied_lem :
    (start index i now : ℕ) (n : RaftNode)
    → look_applied start index now n ≡ some (ok i)
    → (index ≡ i) × (is_leader n.state ≡ true) × (i ≤ n.commit_index) × (i ≤ n.last_applied)
unfolding look_applied
look_applied_lem start index i now n h = (ground arith, ground arith, ground arith, ground arith)

-- A proposal that is entered and waited for.
then_wait-Proposed :
    (unix_now i : ℕ) (commands : List Command) (v : Visit) (r : Result WaitError ℕ)
    (t t1 t2 t' : Task)
    → visit t ≡ (some v, t1)
    → ((index : ℕ) → r ≡ ok index → Entered commands v.node index t1 t2)
    → then_wait unix_now r t2 ≡ (some (ok i), t')
    → Proposed unix_now commands i t t'
unfolding sync_and_wait
then_wait-Proposed unix_now i commands v (err e) t t1 t2 t' first entered h =
    let never : some (err e) ≡ some (ok i) = ap (λ x. x.0) h in absurd (cc)
then_wait-Proposed unix_now i commands v (ok index) t t1 t2 t' first entered h =
    let e = entered index refl in
    let (w, t3, e3, h3) = continue-some _ (visit t2) (ok i) t' h in
    let (u, t4, e4, h4) = continue-some _ (write (sync_logs unix_now w.node).0 t3) (ok i) t' h3 in
    let r = poll-Returned (look_applied w.now index) t4 t' (ok i) h4 in
    let (same, leads, committed, applied) =
      look_applied_lem w.now index i r.at.now r.at.node r.found in
    record {
      first = v;
      synced = w;
      between = r.before;
      at = r.at;
      visits =
          visit-visits t t1 v first
          ∙ ap (◌∷◌ v) (
              sym e.visits
              ∙ visit-visits t2 t3 w e3
              ∙ ap (◌∷◌ w) (sym (write-visits _ t3 t4 u e4) ∙ r.split));
      began = e.leads;
      place = sym same ∙ e.place;
      entered = e.entered;
      log = e.log;
      written =
          poll-written (look_applied w.now index) t4 t' (ok i) h4
          ∙ write-written _ t3 t4 u e4
          ∙ ap (λ ns. ns ++ (sync_logs unix_now w.node).0 ∷ [])
              (visit-written t2 t3 w e3
                ∙ e.written
                ∙ ap (λ ns. ns ++ e.entered ∷ []) (visit-written t t1 v first));
      leads = leads;
      committed_to = committed;
      applied_to = applied;
    }

propose_at-Entered :
    (command : Command) (v : Visit) (t t' : Task) (index : ℕ)
    → propose_at command v t ≡ (some (ok index), t')
    → Entered (command ∷ []) v.node index t t'
unfolding propose_at write propose append_own
propose_at-Entered command v t t' index h = elim (Bool-cases (is_leader v.node.state)) [
  | inl leads ↦
      let n : RaftNode = v.node in
      let after : RaftNode = append_own command n in
      let ran : ◌≡◌ {A = Option (Result WaitError ℕ) × Task}
          (some (ok (length after.log)), record t { written = t.written ++ after ∷ [] })
          (some (ok index), t') =
        ground arith in
      let result : some (ok (length after.log)) ≡ some (ok index) = ap (λ p. p.0) ran in
      let at_end : length after.log ≡ index = cc in
      record {
        leads = leads;
        place =
            sym at_end
            ∙ length-append n.log (entries_of n.current_term (length n.log) (command ∷ []));
        entered = after;
        log = refl;
        visits = sym (ap (λ p. p.1.visits) ran);
        written = sym (ap (λ p. p.1.written) ran);
      }
  | inr follows ↦ absurd (ground arith)
]

pub propose_and_wait_for_apply-Proposed :
    (unix_now i : ℕ) (command : Command) (t t' : Task)
    → propose_and_wait_for_apply unix_now command t ≡ (some (ok i), t')
    → Proposed unix_now (command ∷ []) i t t'
unfolding propose_and_wait_for_apply
propose_and_wait_for_apply-Proposed unix_now i command t t' h =
    let (v, t1, e1, h1) = continue-some _ (visit t) (ok i) t' h in
    let (r, t2, e2, h2) = continue-some _ (propose_at command v t1) (ok i) t' h1 in
    then_wait-Proposed unix_now i (command ∷ []) v r t t1 t2 t' e1
      (λ index same. propose_at-Entered command v t1 t2 index (e2 ∙ ap (λ p. (some p, t2)) same)) h2

propose_batch_at-Entered :
    (c d : Command) (v : Visit) (t t' : Task) (index : ℕ)
    → propose_batch_at (c ∷ d ∷ []) v t ≡ (some (ok index), t')
    → Entered (c ∷ d ∷ []) v.node index t t'
unfolding propose_batch_at write propose_batch append_batch append_own
propose_batch_at-Entered c d v t t' index h = elim (Bool-cases (is_leader v.node.state)) [
  | inl leads ↦
      let n : RaftNode = v.node in
      let first : LogEntry = record {
        term = n.current_term;
        index = length n.log + 1;
        command = c;
      } in
      let one_more : length (n.log ++ first ∷ []) ≡ length n.log + 1 =
        omega (arith, length-append n.log (first ∷ [])) in
      let after : RaftNode = append_own d (append_own c n) in
      let two : after.log ≡ n.log ++ entries_of n.current_term (length n.log) (c ∷ d ∷ []) =
        append_assoc n.log (first ∷ []) _
        ∙ ap
            (λ k.
              n.log ++ first ∷ record { term = n.current_term; index = k + 1; command = d } ∷ [])
            one_more in
      let ran : ◌≡◌ {A = Option (Result WaitError ℕ) × Task}
          (some (ok (length after.log - 2 + 1)), record t { written = t.written ++ after ∷ [] })
          (some (ok index), t') =
        ground arith in
      let result : some (ok (length after.log - 2 + 1)) ≡ some (ok index) = ap (λ p. p.0) ran in
      let at_end : length after.log - 2 + 1 ≡ index = cc in
      record {
        leads = leads;
        place =
            sym at_end
            ∙ omega (
              arith,
              ap length two,
              length-append n.log (entries_of n.current_term (length n.log) (c ∷ d ∷ [])),
            );
        entered = after;
        log = two;
        visits = sym (ap (λ p. p.1.visits) ran);
        written = sym (ap (λ p. p.1.written) ran);
      }
  | inr follows ↦ absurd (ground arith)
]

pub propose_batch_and_wait_for_apply-Proposed :
    (unix_now i : ℕ) (c d : Command) (t t' : Task)
    → propose_batch_and_wait_for_apply unix_now (c ∷ d ∷ []) t ≡ (some (ok i), t')
    → Proposed unix_now (c ∷ d ∷ []) i t t'
unfolding propose_batch_and_wait_for_apply
propose_batch_and_wait_for_apply-Proposed unix_now i c d t t' h =
    let (v, t1, e1, h1) = continue-some _ (visit t) (ok i) t' h in
    let (r, t2, e2, h2) = continue-some _ (propose_batch_at (c ∷ d ∷ []) v t1) (ok i) t' h1 in
    then_wait-Proposed unix_now i (c ∷ d ∷ []) v r t t1 t2 t' e1
      (λ index same. propose_batch_at-Entered c d v t1 t2 index (e2 ∙ ap (λ p. (some p, t2)) same))
      h2
