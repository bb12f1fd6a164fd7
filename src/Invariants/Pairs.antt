-- ===== src/Invariants/Pairs.antt =====
-- What the pairwise checks of raft/invariants.rs say of a cluster that passes them.
use oxide_kv.Common.{
  ◌==◌, ℕ, zero, suc, ◌+◌, ◌≤◌, ◌<◌, ◌≡◌, refl, ◌∙◌, ap, sym, Bool, true, some, List, [], ◌∷◌,
  arith, All, get_elem?, min, ◌==◌, Bool-cases, Option-cases, inl, inr,
}
use oxide_kv.Protocol.{LogEntry}
use oxide_kv.Protocol.Equality.Sound.{same_command_sound}
use oxide_kv.Invariants.{
  SimNode, InvariantViolation, InvariantResult, log_matching_property, state_machine_safety, passed,
  violated, panicked, compare_logs, and_then, check_against, check_pairs, same_entry, same_effect,
  check_committed, check_applied, check_log_matching_property, check_state_machine_safety,
}

-- Two logs have entries at a position, and these agree.
pub record Matching (Agree : LogEntry → LogEntry → Type 0) (la lb : List LogEntry) (i : ℕ)
    : Type 0 where
  pub left : LogEntry
  pub right : LogEntry
  pub left_at : get_elem? la i ≡ some left
  pub right_at : get_elem? lb i ≡ some right
  pub agrees : Agree left right

compare_logs-Matching :
    (agree : LogEntry → LogEntry → Bool) (Agree : LogEntry → LogEntry → Type 0)
    (sound : (ea eb : LogEntry) → agree ea eb ≡ true → Agree ea eb)
    (report : ℕ → LogEntry → LogEntry → InvariantViolation) (rounds k : ℕ) (la lb : List LogEntry)
    → compare_logs agree report rounds k la lb ≡ passed
    → (i : ℕ) → k ≤ i
    → i < k + rounds
    → Matching Agree la lb i
unfolding compare_logs
compare_logs-Matching agree Agree sound report zero k la lb h i le lt = absurd (omega arith)
compare_logs-Matching agree Agree sound report (suc rounds) k la lb h i le lt =
    elim (Option-cases (get_elem? la k)) [
      | inl missing ↦ absurd (ground arith)
      | inr (ea, fa) ↦ elim (Option-cases (get_elem? lb k)) [
        | inl missing ↦ absurd (ground arith)
        | inr (eb, fb) ↦ elim (Bool-cases (agree ea eb)) [
          | inr differ ↦ absurd (ground arith)
          | inl same ↦ elim (Bool-cases (k == i)) [
            | inl at ↦
                let here : k ≡ i = ground arith in
                record {
                  left = ea;
                  right = eb;
                  left_at = ap (get_elem? la) (sym here) ∙ fa;
                  right_at = ap (get_elem? lb) (sym here) ∙ fb;
                  agrees = sound ea eb same;
                }
            | inr past ↦
                let on : k + 1 ≤ i = ground arith in
                compare_logs-Matching agree Agree sound report rounds (k + 1) la lb (ground arith) i
                  on (omega arith)
          ]
        ]
      ]
    ]

-- Every two nodes of the cluster, the earlier one first.
abbrev pub AllPairs : (SimNode → SimNode → Type 0) → List SimNode → Type 0
AllPairs P [] = Unit
AllPairs P (a ∷ nodes) = All (P a) nodes × AllPairs P nodes

module _ (check : SimNode → SimNode → InvariantResult) (P : SimNode → SimNode → Type 0)
    (sound : (a b : SimNode) → check a b ≡ passed → P a b) where
  both : (r s : InvariantResult) → and_then r s ≡ passed → (r ≡ passed) × (s ≡ passed)
  both passed s h = (refl, h)
  both (violated v) s h = cc
  both panicked s h = cc

  check_against-All :
      (a : SimNode) (nodes : List SimNode) → check_against check a nodes ≡ passed → All (P a) nodes
  unfolding check_against
  check_against-All a [] h = tt
  check_against-All a (b ∷ nodes) h =
      let (one, rest) = both (check a b) (check_against check a nodes) h in
      (sound a b one, check_against-All a nodes rest)

  check_pairs-AllPairs :
      (nodes : List SimNode) → check_pairs check nodes ≡ passed → AllPairs P nodes
  unfolding check_pairs
  check_pairs-AllPairs [] h = tt
  check_pairs-AllPairs (a ∷ nodes) h =
      let (one, rest) = both (check_against check a nodes) (check_pairs check nodes) h in
      (check_against-All a nodes one, check_pairs-AllPairs nodes rest)

-- The same term and command, and the same command.
abbrev pub SameEntry : LogEntry → LogEntry → Type 0
SameEntry ea eb = (ea.term ≡ eb.term) × (ea.command ≡ eb.command)

abbrev pub SameEffect : LogEntry → LogEntry → Type 0
SameEffect ea eb = ea.command ≡ eb.command

same_entry-SameEntry : (ea eb : LogEntry) → same_entry ea eb ≡ true → SameEntry ea eb
same_entry-SameEntry ea eb h = elim (Bool-cases (ea.term == eb.term)) [
  | inl terms ↦ (ground arith, same_command_sound ea.command eb.command (ground arith))
  | inr differ ↦ absurd (ground arith)
]

same_effect-SameEffect : (ea eb : LogEntry) → same_effect ea eb ≡ true → SameEffect ea eb
same_effect-SameEffect ea eb h = same_command_sound ea.command eb.command h

-- Two nodes' committed entries match, and their applied ones have the same commands.
abbrev pub Committed : SimNode → SimNode → Type 0
Committed a b =
    (i : ℕ)
    → i < min a.raft.commit_index b.raft.commit_index
    → Matching SameEntry a.raft.log b.raft.log i

abbrev pub Applied : SimNode → SimNode → Type 0
Applied a b =
    (i : ℕ)
    → i < min a.raft.last_applied b.raft.last_applied
    → Matching SameEffect a.raft.log b.raft.log i

-- A cluster that passes the log-matching and state-machine checks has, for any two nodes, an entry at
-- every position that both have committed in both logs, with the same term and command, and at every
-- position that both have applied, with the same command.
pub check_log_matching_property-AllPairs :
    (nodes : List SimNode)
    → check_log_matching_property nodes ≡ passed
    → check_state_machine_safety nodes ≡ passed
    → AllPairs Committed nodes × AllPairs Applied nodes
unfolding check_log_matching_property check_state_machine_safety
check_log_matching_property-AllPairs nodes matching safe = (
  check_pairs-AllPairs check_committed Committed
      (λ a b h i lt.
        compare_logs-Matching same_entry SameEntry same_entry-SameEntry
          (λ index. log_matching_property index a.id b.id)
          (min a.raft.commit_index b.raft.commit_index) 0 a.raft.log b.raft.log h i (omega arith)
          (omega arith))
      nodes matching,
  check_pairs-AllPairs check_applied Applied
      (λ a b h i lt.
        compare_logs-Matching same_effect SameEffect same_effect-SameEffect
          (λ index. state_machine_safety index a.id b.id)
          (min a.raft.last_applied b.raft.last_applied) 0 a.raft.log b.raft.log h i (omega arith)
          (omega arith))
      nodes safe,
)
