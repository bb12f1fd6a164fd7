-- ===== src/Invariants/Durability.antt =====
-- `check_committed_entry_durability` of raft/invariants.rs.
pub mod Alike
use oxide_kv.Common.{
  ℕ, ◌+◌, ◌-◌, ◌^◌, ◌≤◌, ◌<◌, ◌≡◌, ◌≢◌, refl, ap, sym, ◌∙◌, Bool, true, false, Option, none, some,
  List, [], ◌∷◌, All, arith, get_elem?, take, map, length, ◌==◌, ltb, if◌then◌else◌, Bool-cases,
  Option-cases, inl, inr, zero, suc,
}
use oxide_kv.Text.{Str, ◌=s◌, eq_of_cmp}
use oxide_kv.Protocol.{LogEntry}
use oxide_kv.Invariants.{
  SimNode, InvariantResult, passed, violated, panicked, and_then, committed_entry_durability,
}
use oxide_kv.Invariants.Printing.{text, fmt_command}

abbrev pub max_u64 : ℕ
max_u64 = 2 ^ 64 - 1

-- The least `commit_index`, from the number that stands for none.
unfoldable pub least_commit : ℕ → List SimNode → ℕ
least_commit least [] = least
least_commit least (node ∷ nodes) =
    least_commit (if ltb node.raft.commit_index least then node.raft.commit_index else least) nodes

-- The place of the first node with the highest `commit_index`.
unfoldable pub most_committed : ℕ → ℕ → ℕ → List SimNode → ℕ
most_committed ref_idx best idx [] = ref_idx
most_committed ref_idx best idx (node ∷ nodes) =
    most_committed (if ltb best node.raft.commit_index then idx else ref_idx)
      (if ltb best node.raft.commit_index then node.raft.commit_index else best) (idx + 1) nodes

abbrev pub printed_entry : LogEntry → ℕ × Str
printed_entry e = (e.term, fmt_command e.command)

-- The entries that are expected of a node, from a place on.
unfoldable pub compare_printed : SimNode → ℕ → List (ℕ × Str) → InvariantResult
compare_printed node k [] = passed
compare_printed node k (expected ∷ ref_log) =
    let rest = compare_printed node (k + 1) ref_log in
    elim (get_elem? node.raft.log k) [
      | none ↦ violated (committed_entry_durability (k + 1) node.id expected.1 (text "<missing>"))
      | some e ↦
          if fmt_command e.command =s expected.1
          then rest
          else violated
              (committed_entry_durability (k + 1) node.id expected.1 (fmt_command e.command))
    ]

-- The nodes from a place on, but for the reference.
unfoldable pub check_others : ℕ → List (ℕ × Str) → ℕ → List SimNode → InvariantResult
unfolding compare_printed
check_others ref_idx ref_log i [] = passed
check_others ref_idx ref_log i (node ∷ nodes) =
    let rest = check_others ref_idx ref_log (i + 1) nodes in
    if i == ref_idx then rest else and_then (compare_printed node 0 ref_log) rest

unfoldable pub check_committed_entry_durability : List SimNode → InvariantResult
unfolding least_commit most_committed check_others
check_committed_entry_durability [] = passed
check_committed_entry_durability (n ∷ ns) =
    let nodes = n ∷ ns in
    let min_commit = least_commit max_u64 nodes in
    let ref_idx = most_committed 0 0 0 nodes in
    if min_commit == max_u64 then passed else elim (get_elem? nodes ref_idx) [
      | none ↦ panicked
      | some ref_node ↦
          check_others ref_idx (map printed_entry (take min_commit ref_node.raft.log)) 0 nodes
    ]
