-- ===== src/Coordinator/Replication.antt =====
-- What the wait for replication of raft/coordinator.rs has seen when it returns.
use oxide_kv.Common.{
  ℕ, ◌≤◌, ◌≡◌, ◌++◌, All, true, some, List, [], ◌∷◌, arith, leb, Bool-cases, inl, inr,
}
use oxide_kv.Text.{Str}
use oxide_kv.Raft.{RaftNode, is_leader, match_index_for}
use oxide_kv.Raft.Propose.{ok}
use oxide_kv.Visits.{Visit, Task}
use oxide_kv.Visits.Steps.{poll-Returned, poll-written}
use oxide_kv.Coordinator.Rounds.{look_replicated, all_replicated, wait_for_replication}

-- Among the visits, the last of them one at which it led and every peer had acknowledged an index.
pub record HasReplicated (index : ℕ) (t t' : Task) : Type 0 where
  pub before : List Visit
  pub at : Visit
  pub visits : t.visits ≡ before ++ at ∷ t'.visits
  pub written : t'.written ≡ t.written
  pub leads : is_leader at.node.state ≡ true
  pub acknowledged : All (λ p. index ≤ match_index_for p at.node) at.node.peers

all_replicated-All :
    (index : ℕ) (ps : List Str) (n : RaftNode)
    → all_replicated index ps n ≡ true
    → All (λ p. index ≤ match_index_for p n) ps
unfolding all_replicated
all_replicated-All index [] n h = tt
all_replicated-All index (p ∷ ps) n h = elim (Bool-cases (leb index (match_index_for p n))) [
  | inl here ↦ (ground arith, all_replicated-All index ps n (ground arith))
  | inr missing ↦ absurd (ground arith)
]

look_replicated_lem :
    (start index now : ℕ) (u : Unit {0}) (n : RaftNode)
    → look_replicated start index now n ≡ some (ok u)
    → (is_leader n.state ≡ true) × (all_replicated index n.peers n ≡ true)
unfolding look_replicated
look_replicated_lem start index now u n h = (ground arith, ground arith)

pub wait_for_replication-HasReplicated :
    (start index : ℕ) (u : Unit {0}) (t t' : Task)
    → wait_for_replication start index t ≡ (some (ok u), t')
    → HasReplicated index t t'
unfolding wait_for_replication
wait_for_replication-HasReplicated start index u t t' h =
    let r = poll-Returned (look_replicated start index) t t' (ok u) h in
    let (leads, all) = look_replicated_lem start index r.at.now u r.at.node r.found in
    record {
      before = r.before;
      at = r.at;
      visits = r.split;
      written = poll-written (look_replicated start index) t t' (ok u) h;
      leads = leads;
      acknowledged = all_replicated-All index r.at.node.peers r.at.node all;
    }
