-- ===== src/Raft/Append/Accepts.antt =====
-- The AppendEntries handler of raft/node.rs on the branch that accepts the entries.
use oxide_kv.Common.{
  ℕ, ◌+◌, ◌-◌, ◌^◌, ◌≤◌, ◌<◌, ◌≡◌, refl, ◌∙◌, sym, ap, true, some, List, arith, length, get_elem?,
  get_elem?-lt, get_elem?-append, min, ltb, Bool-cases, Option-cases, inl, inr,
}
use mathlib.Core.Path.{subst}
use oxide_kv.Protocol.{LogEntry}
use oxide_kv.Raft.{RaftNode, AppendEntriesArgs, adopt_term, follower}
use oxide_kv.Raft.Apply.Frame.{Indexed}
use oxide_kv.Raft.Apply.Progress.{length-Frame, apply_logs-Frame, apply_logs-Applied}
use oxide_kv.Raft.Append.{append_all, follow, is_consistent, advance_commit}
use oxide_kv.Raft.Append.Logs.{log_term, log_term-cong}
use oxide_kv.Raft.Append.Sound.{append_all-Carried}

-- Becoming a follower touches neither the log nor its marks.
pub record Followed (new_term : ℕ) (n f : RaftNode) : Type 0 where
  pub log : f.log ≡ n.log
  pub commit : f.commit_index ≡ n.commit_index
  pub applied : f.last_applied ≡ n.last_applied
  pub state : f.state ≡ follower
  pub term : n.current_term ≤ new_term → f.current_term ≡ new_term

pub follow-Followed : (now term : ℕ) (n : RaftNode) → Followed term n (follow now term n)
unfolding follow adopt_term
follow-Followed now term n = elim (Bool-cases (ltb n.current_term term)) [
  | inl newer ↦
      rw (newer, follow)
        (record { log = refl; commit = refl; applied = refl; state = refl; term = λ h. refl })
  | inr same ↦
      rw (same, follow)
        (record {
          log = refl;
          commit = refl;
          applied = refl;
          state = refl;
          term = λ h. ground arith;
        })
]

-- A consistent log reaches the entry before the new ones, and that entry has the leader's term.
pub is_consistent_lem :
    (prev term : ℕ) (log : List LogEntry)
    → is_consistent prev term log ≡ true
    → (prev ≤ length log) × (0 < prev → log_term (prev - 1) log ≡ some term)
unfolding is_consistent
is_consistent_lem prev term log h = elim (Bool-cases (ltb 0 prev)) [
  | inr first ↦ (ground arith, λ p. ground arith)
  | inl later ↦ elim (Option-cases (get_elem? log (prev - 1))) [
    | inl missing ↦ ground arith
    | inr (e, found) ↦
        ((let lt = get_elem?-lt log (prev - 1) e found in ground arith), λ p. ground arith)
  ]
]

-- Raising the commit index and applying what it covers.
pub record Advanced (leader_commit : ℕ) (m after : RaftNode) : Type 0 where
  pub term : after.current_term ≡ m.current_term
  pub state : after.state ≡ m.state
  pub indexed : Indexed 0 m.log → Indexed 0 after.log
  pub longer : length m.log ≤ length after.log
  pub keeps : (j : ℕ) → j < length m.log → get_elem? after.log j ≡ get_elem? m.log j
  pub raised :
      m.commit_index < leader_commit → after.commit_index ≡ min leader_commit (length m.log)
  pub kept : leader_commit ≤ m.commit_index → after.commit_index ≡ m.commit_index
  pub bounded :
      m.last_applied ≤ m.commit_index
      → m.commit_index ≤ length m.log
      → (after.last_applied ≤ after.commit_index) × (after.commit_index ≤ length after.log)

pub advance_commit-Advanced :
    (unix_now leader_commit : ℕ) (m : RaftNode)
    → Advanced leader_commit m (advance_commit unix_now leader_commit m)
unfolding advance_commit
advance_commit-Advanced unix_now leader_commit m =
    elim (Bool-cases (ltb m.commit_index leader_commit)) [
      | inr behind ↦
          rw (behind, advance_commit)
            (record {
              term = refl;
              state = refl;
              indexed = λ h. h;
              longer = omega arith;
              keeps = λ j lt. refl;
              raised = λ h. absurd (ground arith);
              kept = λ h. refl;
              bounded = λ a c. (a, c);
            })
      | inl ahead ↦
          let raised = record m { commit_index = min leader_commit (length m.log) } in
          let f = apply_logs-Frame unix_now raised in
          rw (ahead, advance_commit)
            (record {
              term = f.term;
              state = f.state;
              indexed = f.indexed;
              longer = length-Frame f;
              keeps =
                  λ j lt. ap (λ log. get_elem? log j) f.log ∙ get_elem?-append m.log f.added j lt;
              raised = λ h. f.commit;
              kept = λ h. absurd (ground arith);
              bounded = λ a c.
                  let lt : m.commit_index < leader_commit = ground arith in
                  let all = apply_logs-Applied unix_now raised (omega arith) (omega arith) in
                  (omega (arith, all.all), omega (arith, f.commit, length-Frame f));
            })
    ]

-- The node after a request that passed the checks, of a follower `f`.
abbrev pub accept : ℕ → AppendEntriesArgs → RaftNode → RaftNode
accept unix_now args f = advance_commit unix_now args.leader_commit (append_all args.entries f)

-- The request is the one of a leader whose log has each entry at its index, within `u64`.
abbrev pub IsRequest : AppendEntriesArgs → Type 0
IsRequest args =
    Indexed args.prev_log_index args.entries × (args.prev_log_index + length args.entries < 2 ^ 64)

-- What a success reply tells the leader.
pub record Accepted (args : AppendEntriesArgs) (n after : RaftNode) : Type 0 where
  pub term : after.current_term ≡ args.term
  pub state : after.state ≡ follower
  pub indexed : Indexed 0 after.log
  pub previous :
      0 < args.prev_log_index
      → log_term (args.prev_log_index - 1) after.log ≡ some args.prev_log_term
  pub holds :
      (i : ℕ) (e : LogEntry)
      → get_elem? args.entries i ≡ some e
      → log_term (args.prev_log_index + i) after.log ≡ some e.term
  pub below : (j : ℕ) → j < args.prev_log_index → get_elem? after.log j ≡ get_elem? n.log j
  pub commit :
      n.commit_index < args.leader_commit
      → (after.commit_index ≤ args.leader_commit)
        × (min args.leader_commit (args.prev_log_index + length args.entries) ≤ after.commit_index)
  pub kept : args.leader_commit ≤ n.commit_index → after.commit_index ≡ n.commit_index

pub accept-Accepted :
    (unix_now : ℕ) (args : AppendEntriesArgs) (n f : RaftNode)
    → IsRequest args
    → Indexed 0 n.log
    → Followed args.term n f
    → n.current_term ≤ args.term
    → is_consistent args.prev_log_index args.prev_log_term f.log ≡ true
    → Accepted args n (accept unix_now args f)
accept-Accepted unix_now args n f request indexed follow newer consistent =
    let (reach, previous) = is_consistent_lem _ _ f.log consistent in
    let carried =
      append_all-Carried args.prev_log_index args.entries f reach request.0 request.1
        (subst (Indexed 0) (sym follow.log) indexed) in
    let advanced =
      advance_commit-Advanced unix_now args.leader_commit (append_all args.entries f) in
    record {
      term = advanced.term ∙ (carried.term ∙ follow.term newer);
      state = advanced.state ∙ (carried.state ∙ follow.state);
      indexed = advanced.indexed carried.indexed;
      previous = λ p.
          log_term-cong (args.prev_log_index - 1) _ f.log
            (advanced.keeps _ (omega (arith, carried.long)) ∙ carried.below _ (omega arith))
          ∙ previous p;
      holds = λ i e h.
          log_term-cong (args.prev_log_index + i) _ (append_all args.entries f).log
            (advanced.keeps _ (omega (arith, carried.long, get_elem?-lt args.entries i e h)))
          ∙ carried.holds i e h;
      below = λ j lt.
          advanced.keeps j (omega (arith, carried.long))
          ∙ (carried.below j lt ∙ ap (λ log. get_elem? log j) follow.log);
      commit = λ h.
          let raised = advanced.raised (omega (arith, carried.commit, follow.commit)) in
          (omega (arith, raised), omega (arith, raised, carried.long));
      kept = λ h.
          advanced.kept (omega (arith, carried.commit, follow.commit))
          ∙ (carried.commit ∙ follow.commit);
    }
