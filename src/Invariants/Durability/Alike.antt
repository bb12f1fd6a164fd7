-- ===== src/Invariants/Durability/Alike.antt =====
-- What `check_committed_entry_durability` of raft/invariants.rs says of a cluster that passes it.
use oxide_kv.Common.{
  ℕ, zero, suc, ◌+◌, ◌<◌, ◌≡◌, refl, ap, sym, ◌∙◌, some, List, [], ◌∷◌, All, arith, get_elem?, take,
  map, length, ◌==◌, Bool-cases, Option-cases, inl, inr,
}
use mathlib.Core.Path.{subst}
use oxide_kv.Text.{◌=s◌, =s_iff}
use oxide_kv.Protocol.{LogEntry}
use oxide_kv.Invariants.{SimNode, InvariantResult, passed, violated, panicked, and_then}
use oxide_kv.Invariants.Pairs.{Matching}
use oxide_kv.Invariants.Printing.{fmt_command}
use oxide_kv.Invariants.Durability.{
  max_u64, least_commit, most_committed, printed_entry, compare_printed, check_others,
  check_committed_entry_durability,
}

abbrev pub PrintedAlike : LogEntry → LogEntry → Type 0
PrintedAlike ea eb = fmt_command eb.command ≡ fmt_command ea.command

-- What a node has at a place, and the entry of the reference that it is compared with.
record Compared (node : SimNode) (k : ℕ) (log : List LogEntry) (i : ℕ) : Type 0 where
  expected : LogEntry
  actual : LogEntry
  expected_at : get_elem? log i ≡ some expected
  actual_at : get_elem? node.raft.log (k + i) ≡ some actual
  alike : PrintedAlike expected actual

later :
    {node : SimNode} {k : ℕ} {log : List LogEntry} {i : ℕ} (e : LogEntry)
    → Compared node (k + 1) log i
    → Compared node k (e ∷ log) (suc i)
later {node} {k} {log} {i} e c = record {
  expected = c.expected;
  actual = c.actual;
  expected_at = c.expected_at;
  actual_at = ap (get_elem? node.raft.log) (omega arith) ∙ c.actual_at;
  alike = c.alike;
}

compare_printed-Compared :
    (node : SimNode) (k limit : ℕ) (log : List LogEntry)
    → compare_printed node k (map printed_entry (take limit log)) ≡ passed
    → (i : ℕ) → i < limit
    → i < length log
    → Compared node k log i
unfolding compare_printed
compare_printed-Compared node k zero log h i lt in_log = absurd (omega arith)
compare_printed-Compared node k (suc limit) [] h i lt in_log = absurd (omega arith)
compare_printed-Compared node k (suc limit) (ea ∷ log) h zero lt in_log =
    elim (Option-cases (get_elem? node.raft.log k)) [
      | inl missing ↦ absurd (ground arith)
      | inr (eb, found) ↦ elim (Bool-cases (fmt_command eb.command =s fmt_command ea.command)) [
        | inr differ ↦ absurd (ground arith)
        | inl same ↦ record {
          expected = ea;
          actual = eb;
          expected_at = refl;
          actual_at = ap (get_elem? node.raft.log) (omega arith) ∙ found;
          alike = (=s_iff (fmt_command eb.command) (fmt_command ea.command)).0 same;
        }
      ]
    ]
compare_printed-Compared node k (suc limit) (ea ∷ log) h (suc i) lt in_log =
    elim (Option-cases (get_elem? node.raft.log k)) [
      | inl missing ↦ absurd (ground arith)
      | inr (eb, found) ↦ elim (Bool-cases (fmt_command eb.command =s fmt_command ea.command)) [
        | inr differ ↦ absurd (ground arith)
        | inl same ↦
            let rest : compare_printed node (k + 1) (map printed_entry (take limit log)) ≡ passed =
              ground arith in
            later ea
              (compare_printed-Compared node (k + 1) limit log rest i (omega arith) (omega arith))
      ]
    ]

-- A node has, at every place of the reference's log below a limit, an entry that prints as the
-- reference's.
abbrev pub Durable : ℕ → List LogEntry → SimNode → Type 0
Durable limit log node =
    (i : ℕ) → i < limit → i < length log → Matching PrintedAlike log node.raft.log i

compared :
    {node : SimNode} {log : List LogEntry} {i : ℕ}
    → Compared node 0 log i
    → Matching PrintedAlike log node.raft.log i
compared {node} c = record {
  left = c.expected;
  right = c.actual;
  left_at = c.expected_at;
  right_at = ap (get_elem? node.raft.log) (omega arith) ∙ c.actual_at;
  agrees = c.alike;
}

own : (log : List LogEntry) (i : ℕ) → i < length log → Matching PrintedAlike log log i
own [] i lt = absurd (omega arith)
own (e ∷ log) zero lt = record {
  left = e;
  right = e;
  left_at = refl;
  right_at = refl;
  agrees = refl;
}
own (e ∷ log) (suc i) lt =
    let m = own log i (omega arith) in
    record {
      left = m.left;
      right = m.right;
      left_at = m.left_at;
      right_at = m.right_at;
      agrees = m.agrees;
    }

both : (r s : InvariantResult) → and_then r s ≡ passed → (r ≡ passed) × (s ≡ passed)
both passed s h = (refl, h)
both (violated v) s h = cc
both panicked s h = cc

check_others-Durable :
    (j limit : ℕ) (log : List LogEntry) (k : ℕ) (nodes : List SimNode)
    → ((node : SimNode) → (i : ℕ) → k + i ≡ j → get_elem? nodes i ≡ some node → node.raft.log ≡ log)
    → check_others j (map printed_entry (take limit log)) k nodes ≡ passed
    → All (Durable limit log) nodes
unfolding check_others
check_others-Durable j limit log k [] itself h = tt
check_others-Durable j limit log k (node ∷ nodes) itself h =
    let shifted : (n : SimNode) (i : ℕ)
        → k + 1 + i ≡ j
        → get_elem? nodes i ≡ some n
        → n.raft.log ≡ log =
      λ n i e found. itself n (suc i) (omega arith) found in
    elim (Bool-cases (k == j)) [
      | inl at ↦
          let same : node.raft.log ≡ log = itself node 0 (ground arith) refl in
          (
            λ i lt in_log. subst (λ l. Matching PrintedAlike log l i) (sym same) (own log i in_log),
            check_others-Durable j limit log (k + 1) nodes shifted (ground arith),
          )
      | inr past ↦
          let (one, rest) =
            both (compare_printed node 0 (map printed_entry (take limit log))) _ (ground arith) in
          (
            λ i lt in_log. compared (compare_printed-Compared node 0 limit log one i lt in_log),
            check_others-Durable j limit log (k + 1) nodes shifted rest,
          )
    ]

-- When the check of committed entries passes on a cluster one of whose nodes has a commit index
-- below the greatest number of 64 bits, there is a node of the cluster such that every node has, at
-- every place of that node's log up to the least commit index, an entry that prints as its own.
pub check_committed_entry_durability-Durable :
    (nodes : List SimNode)
    → check_committed_entry_durability nodes ≡ passed
    → least_commit max_u64 nodes < max_u64
    → (reference : SimNode) × (get_elem? nodes (most_committed 0 0 0 nodes) ≡ some reference)
      × All (Durable (least_commit max_u64 nodes) reference.raft.log) nodes
unfolding check_committed_entry_durability
check_committed_entry_durability-Durable [] h below = absurd (omega arith)
check_committed_entry_durability-Durable (n ∷ ns) h below =
    elim (Option-cases (get_elem? (n ∷ ns) (most_committed 0 0 0 (n ∷ ns)))) [
      | inl missing ↦ absurd (ground arith)
      | inr (reference, found) ↦ (
        reference,
        found,
        check_others-Durable (most_committed 0 0 0 (n ∷ ns)) (least_commit max_u64 (n ∷ ns))
            reference.raft.log 0 (n ∷ ns)
            (λ node i e at.
              let same : some node ≡ some reference =
                sym at ∙ ap (get_elem? (n ∷ ns)) (omega arith) ∙ found in
              cc)
            (ground arith),
      )
    ]
