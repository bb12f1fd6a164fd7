-- ===== src/Raft/Replicate/Commit.antt =====
-- The leader's commit rule: `maybe_commit` of raft/node.rs.
use oxide_kv.Common.{
  ℕ, ◌+◌, ◌-◌, ◌≤◌, ◌<◌, ◌≡◌, refl, ◌∙◌, ◌⊎◌, inl, inr, true, false, Bool, some, List, arith, ap,
  length, get_elem?-some, ltb, ◌==◌, Bool-cases,
}
use oxide_kv.Protocol.{LogEntry}
use oxide_kv.Protocol.Quorum.{config_quorum_reached, config_quorum_reached_index}
use oxide_kv.Protocol.Quorum.Search.{IsHighest, config_quorum_reached_index-IsHighest}
use oxide_kv.Raft.{RaftNode, is_leader}
use oxide_kv.Raft.Apply.{apply_logs}
use oxide_kv.Raft.Apply.Progress.{apply_logs-Frame}
use oxide_kv.Raft.Append.Logs.{log_term}
use oxide_kv.Raft.Replicate.{term_at, maybe_commit}

-- A quorum of the configuration in force holds the log up to `index`.
abbrev pub quorum_at : RaftNode → ℕ → Bool
quorum_at n = config_quorum_reached n.current_config n.match_index n.node_id (length n.log)

-- The commit index rose, to the highest index with a quorum, whose entry is of the current term.
pub record Advance (n after : RaftNode) : Type 0 where
  pub leads : is_leader n.state ≡ true
  pub rises : n.commit_index < after.commit_index
  pub within : after.commit_index ≤ length n.log
  pub quorum : quorum_at n after.commit_index ≡ true
  pub highest : (i : ℕ) → after.commit_index < i → i ≤ length n.log → quorum_at n i ≡ false
  pub own_term : log_term (after.commit_index - 1) n.log ≡ some n.current_term

term_at_lem : (i : ℕ) (log : List LogEntry) → i < length log → log_term i log ≡ some (term_at i log)
term_at_lem i log h = let (e, found) = get_elem?-some log i h in rw (found, log_term, term_at) refl

rise-Advance :
    (unix_now : ℕ) (n : RaftNode) (best : ℕ)
    → IsHighest (quorum_at n) (length n.log) best
    → is_leader n.state ≡ true
    → n.commit_index < best
    → term_at (best - 1) n.log ≡ n.current_term
    → Advance n (apply_logs unix_now (record n { commit_index = best }))
rise-Advance unix_now n best found leads more own =
    let at = (apply_logs-Frame unix_now (record n { commit_index = best })).commit in
    record {
      leads = leads;
      rises = omega (arith, at);
      within = omega (arith, at, found.bounded);
      quorum = ap (quorum_at n) at ∙ elim found.passes [ inl z ↦ absurd (omega arith) | inr q ↦ q ];
      highest = λ i lt le. found.highest i (omega (arith, at)) le;
      own_term =
          ap (λ j. log_term (j - 1) n.log) at
          ∙ (term_at_lem (best - 1) n.log (omega (arith, found.bounded)) ∙ ap some own);
    }

-- `maybe_commit` leaves the commit index alone, or the node leads and the index rises to the highest
-- log index that a quorum of the configuration in force (both majorities of a joint one) holds, and
-- the entry there is of the leader's own term.
pub maybe_commit-Advance :
    (unix_now : ℕ) (n : RaftNode)
    → ((maybe_commit unix_now n).commit_index ≡ n.commit_index)
      ⊎ Advance n (maybe_commit unix_now n)
unfolding maybe_commit
maybe_commit-Advance unix_now n =
    let best =
      config_quorum_reached_index n.current_config n.match_index n.node_id (length n.log) in
    let found =
      config_quorum_reached_index-IsHighest n.current_config n.match_index n.node_id
        (length n.log) in
    elim (Bool-cases (is_leader n.state)) [
      | inr not_leading ↦ rw (maybe_commit, not_leading) (inl refl)
      | inl leads ↦ elim (Bool-cases (ltb n.commit_index best)) [
        | inr known ↦ rw (maybe_commit, leads, known) (inl refl)
        | inl more ↦ elim (Bool-cases (term_at (best - 1) n.log == n.current_term)) [
          | inr old ↦ rw (maybe_commit, leads, more, old) (inl refl)
          | inl own ↦
              rw (maybe_commit, leads, more, own)
                (inr (rise-Advance unix_now n best found leads (ground arith) (ground arith)))
        ]
      ]
    ]

-- A leader does commit: when a quorum holds the log up to an index in it above the commit index, and
-- the log from the entry there on is of the leader's term, the commit index reaches it.
pub maybe_commit-reaches :
    (unix_now : ℕ) (n : RaftNode) (i : ℕ)
    → is_leader n.state ≡ true
    → n.commit_index < i
    → i ≤ length n.log
    → quorum_at n i ≡ true
    → ((j : ℕ) → i ≤ j + 1 → j < length n.log → log_term j n.log ≡ some n.current_term)
    → i ≤ (maybe_commit unix_now n).commit_index
unfolding maybe_commit
maybe_commit-reaches unix_now n i leads above within quorum own =
    let best =
      config_quorum_reached_index n.current_config n.match_index n.node_id (length n.log) in
    let found =
      config_quorum_reached_index-IsHighest n.current_config n.match_index n.node_id
        (length n.log) in
    let reach : i ≤ best = elim (Bool-cases (ltb best i)) [
      | inl below ↦ absurd (ground (arith, found.highest i (ground arith) within))
      | inr up ↦ ground arith
    ] in
    let term : term_at (best - 1) n.log ≡ n.current_term =
      let here = term_at_lem (best - 1) n.log (omega (arith, found.bounded)) in
      let there = own (best - 1) (omega arith) (omega (arith, found.bounded)) in cc in
    let more : ltb n.commit_index best ≡ true = ground arith in
    let same : (term_at (best - 1) n.log == n.current_term) ≡ true = ground arith in
    let at = (apply_logs-Frame unix_now (record n { commit_index = best })).commit in
    rw (maybe_commit, leads, more, same) (omega (arith, at))
